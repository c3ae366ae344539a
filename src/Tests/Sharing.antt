-- ===== src/Tests/Sharing.antt =====
-- A share with a limit of one download, and the file versions behind it.
use file_share_manager.Prelude.{
  [], ◌∷◌, none, some, ◌≡◌, ◌↔◌, refl, sym, ◌∙◌, ◌<◌, ◌+◌, ◌-◌, ◌*◌, ◌^◌, min, subst, inl, inr, In,
  ok, arith, true, false,
}
use file_share_manager.Nodes.Store.{file, Node, inherit, active}
use file_share_manager.Files.Model.{scan_error, FileVersion, clean, standard, latest_version}
use file_share_manager.Files.Scans.{claim_scan_retry, is_claimable, Store as FileStore, get_version}
use file_share_manager.Files.Versions.{restored, with_restored, restore_version}
use file_share_manager.Files.Newest.{restore_version-latest}
use file_share_manager.Files.Retries.{longest_delay, base_interval, retry_delay}
use file_share_manager.Shares.Store.{
  ShareFilter, active_shares, matches, Share, ShareItem, Store, ShareStatus, get_by_token_hash,
}
use file_share_manager.Shares.Downloads.{
  check_status, check_share, find_item, share_item_safe_for_external_download, count_download,
  with_download, claim_download,
}
use file_share_manager.Files.Claims.{claim_scan_retry-once}
use file_share_manager.Files.Delays.{retry_delay_closed}
use file_share_manager.Shares.Limits.{matches-check_share, matches_unique}
use file_share_manager.Shares.Limits.Rows.{IsWithin, IsLimited}
use file_share_manager.Shares.Limits.Counts.{claims, done, step, Run-IsLimited}

abbrev pub share : Share
share = record {
  id = 1;
  workspace_id = 1;
  source_node_id = 5;
  public_id = "p";
  token_hash = "t";
  name = "plans";
  root_type = file;
  root_name = "plan.txt";
  password_hash = "";
  expires_at = 100;
  max_downloads = some 1;
  download_count = 0;
  status = ShareStatus.active;
  created_by = 7;
  created_at = 1;
  updated_at = 1;
  revoked_at = none;
}

abbrev pub item : ShareItem
item = record {
  id = 1;
  share_id = 1;
  public_id = "i";
  relative_path = "plan.txt";
  name = "plan.txt";
  version_no = 1;
  storage_key = "k";
  storage_class = standard;
  size = 10;
  sha256 = "h";
  detected_mime = "text/plain";
  scan_status = clean;
  created_at = 1;
}

abbrev shares : Store
shares = record {
  shares = share ∷ [];
  items = item ∷ [];
  changes = [];
  next_share_id = 2;
  next_item_id = 2;
}

only_share : (x : Share) → In x shares.shares → x ≡ share
only_share x (inl e) = e
only_share x (inr n) = absurd n

shares-IsLimited : IsLimited shares
shares-IsLimited = record {
  within = λ x i.
      subst (λ (z : Share). IsWithin z.max_downloads z.download_count) (sym (only_share x i))
        (omega arith);
  single = λ x y i j e. only_share x i ∙ sym (only_share y j);
  below_next = λ x i. subst (λ (z : Share). z.id < 2) (sym (only_share x i)) (omega arith);
}

downloaded :
    claim_download "t" "i" 50 shares
    ≡ ok (count_download 50 share, item, with_download 50 share shares)
unfolding claim_download get_by_token_hash check_share check_status find_item
    share_item_safe_for_external_download
downloaded = refl

Run-IsLimited_example : IsLimited (with_download 50 share shares)
Run-IsLimited_example =
    Run-IsLimited shares (with_download 50 share shares)
      (step shares (with_download 50 share shares) (with_download 50 share shares)
        (claims "t" "i" 50 (count_download 50 share) item downloaded)
        (done (with_download 50 share shares)))
      shares-IsLimited

abbrev pub version : FileVersion
version = record {
  id = 1;
  workspace_id = 1;
  node_id = 5;
  version_no = 1;
  storage_key = "k";
  storage_class = standard;
  archive_error = "";
  last_accessed_at = none;
  size = 10;
  sha256 = "h";
  extension = "txt";
  detected_mime = "text/plain";
  risk_level = "low";
  scan_status = clean;
  scan_message = "";
  scan_retry_count = 0;
  scan_next_retry_at = none;
  scan_last_attempt_at = none;
  encrypted = false;
  created_by = 7;
  created_at = 1;
}

abbrev node : Node
node = record {
  id = 5;
  workspace_id = 1;
  parent_id = none;
  name = "plan.txt";
  normalized_name = "plan.txt";
  node_type = file;
  active_version = some 1;
  inherit_mode = inherit;
  status = active;
  trashed_at = none;
  created_by = 7;
  updated_by = 7;
}

abbrev files : FileStore
files = record {
  nodes = node ∷ [];
  versions = version ∷ record version { id = 2; version_no = 2; sha256 = "g" } ∷ [];
  changes = [];
  next_version_id = 3;
}

version-restored :
    restore_version 1 5 1 9 40 files
    ≡ ok (restored 3 3 9 40 version, with_restored 1 (restored 3 3 9 40 version) 5 9 files)
unfolding restore_version get_version
version-restored = refl

restore_version-latest_example :
    (source latest : FileVersion) × (get_version 1 5 1 files ≡ some source)
    × (latest_version 1 5 files.versions ≡ some latest)
    × (restored 3 3 9 40 version ≡ restored 3 (latest.version_no + 1) 9 40 source)
    × (latest_version 1 5 (with_restored 1 (restored 3 3 9 40 version) 5 9 files).versions
        ≡ some (restored 3 3 9 40 version))
restore_version-latest_example =
    restore_version-latest 1 5 1 9 40 files (with_restored 1 (restored 3 3 9 40 version) 5 9 files)
      (restored 3 3 9 40 version) version-restored

retry_delay_closed_example : retry_delay 0 3 ≡ min longest_delay (base_interval 0 * 2 ^ (3 - 1))
retry_delay_closed_example = retry_delay_closed 0 3

matches-check_share_example :
    (matches active_shares 50 share ≡ true) ↔ (check_share 50 share ≡ ok tt)
matches-check_share_example = matches-check_share 50 share

matches_unique_example :
    (f : ShareFilter) × (matches f 100 share ≡ true)
    × ((g : ShareFilter) → matches g 100 share ≡ true → g ≡ f)
matches_unique_example = matches_unique 100 share

abbrev failed_scan : FileStore
failed_scan = record files {
  versions = record version { scan_status = scan_error; scan_retry_count = 2 } ∷ [];
}

scan_claimed : (claim_scan_retry 1 2 50 failed_scan).0 ≡ true
unfolding claim_scan_retry is_claimable
scan_claimed = refl

claim_scan_retry-once_example :
    claim_scan_retry 1 2 60 (claim_scan_retry 1 2 50 failed_scan).1
    ≡ (false, (claim_scan_retry 1 2 50 failed_scan).1)
claim_scan_retry-once_example = claim_scan_retry-once 1 2 50 60 failed_scan scan_claimed
