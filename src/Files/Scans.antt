-- ===== src/Files/Scans.antt =====
-- `FileDAO` of server/internal/dao/file.go: versions, their scan states and the retries of scans.
-- Each operation is one transaction. Times are numbers, `now` is the clock that the source reads.
use Prim.Native.String.{String}
use file_share_manager.Prelude.{
  ℕ, ◌+◌, ◌==◌, ltb, leb, Bool, true, false, ◌&&◌, ◌||◌, List, [], ◌∷◌, ◌++◌, Option, none, some,
  length, find_first, select, take, update_where, if◌then◌else◌,
}
use file_share_manager.Nodes.Store.{Node, Change}
use file_share_manager.Files.Model.{
  ScanStatus, infected, pending_scan, scan_error, StorageClass, unset, standard, absent,
  FileVersion,
}

pub record Store : Type 0 where
  pub nodes : List Node
  pub versions : List FileVersion
  pub changes : List Change
  pub next_version_id : ℕ

pub data Error : Type 0 where
  record_not_found duplicated_key : Error

abbrev pub is_pending : ScanStatus → Bool
is_pending pending_scan = true
is_pending _ = false

abbrev pub is_failed : ScanStatus → Bool
is_failed scan_error = true
is_failed _ = false

abbrev pub is_infected : ScanStatus → Bool
is_infected infected = true
is_infected _ = false

abbrev pub version_change : ℕ → ℕ → String → Change
version_change workspace_id id operation = record {
  workspace_id = workspace_id;
  entity_type = "file_version";
  entity_id = id;
  operation = operation;
}

abbrev pub is_version : ℕ → ℕ → ℕ → FileVersion → Bool
is_version workspace_id node_id version_no v =
    v.workspace_id == workspace_id && v.node_id == node_id && v.version_no == version_no

unfoldable pub get_version : ℕ → ℕ → ℕ → Store → Option FileVersion
get_version workspace_id node_id version_no s =
    find_first (is_version workspace_id node_id version_no) s.versions

-- `tx.Model(&version).Updates(…)`: the row with the identity of the version.
abbrev pub update_version : ℕ → (FileVersion → FileVersion) → List FileVersion → List FileVersion
update_version id change = update_where (λ v. v.id == id) change

abbrev pub with_scan : ScanStatus → String → Option ℕ → FileVersion → FileVersion
with_scan status message next v = record v {
  scan_status = status;
  scan_message = message;
  scan_next_retry_at = next;
}

-- A manual status; a new scan starts the count of retries again.
abbrev pub set_scan : ScanStatus → String → ℕ → FileVersion → FileVersion
set_scan status message now v =
    if is_pending status
    then record v {
      scan_status = status;
      scan_message = message;
      scan_next_retry_at = none;
      scan_retry_count = 0;
      scan_last_attempt_at = some now;
    }
    else with_scan status message none v

abbrev pub set_found_scan :
    ℕ → ScanStatus → String → ℕ → Store → Option FileVersion → Option (FileVersion × Store)
set_found_scan workspace_id status message now s none = none
set_found_scan workspace_id status message now s (some version) = some (
  set_scan status message now version,
  record s {
    versions = update_version version.id (set_scan status message now) s.versions;
    changes = s.changes ++ version_change workspace_id version.id "update_scan_status" ∷ [];
  },
)

unfoldable pub update_scan_status :
    ℕ → ℕ → ℕ → ScanStatus → String → ℕ → Store → Option (FileVersion × Store)
unfolding get_version
update_scan_status workspace_id node_id version_no status message now s =
    set_found_scan workspace_id status message now s (get_version workspace_id node_id version_no s)

abbrev pub is_at_most : Option ℕ → ℕ → Bool
is_at_most none now = true
is_at_most (some time) now = leb time now

-- `storage_class = 'standard' OR storage_class = '' OR storage_class IS NULL`: an archived version is
-- not scanned again.
abbrev pub is_online : StorageClass → Bool
is_online standard = true
is_online unset = true
is_online absent = true
is_online _ = false

unfoldable pub is_candidate : ℕ → ℕ → FileVersion → Bool
is_candidate now max_attempts v =
    is_failed v.scan_status
    && ltb v.scan_retry_count max_attempts
    && is_at_most v.scan_next_retry_at now
    && is_online v.storage_class

-- `COALESCE(scan_next_retry_at, created_at)`.
abbrev pub coalesce : Option ℕ → ℕ → ℕ
coalesce none time = time
coalesce (some time) _ = time

abbrev pub is_before : FileVersion → FileVersion → Bool
is_before v w =
    let a = coalesce v.scan_next_retry_at v.created_at in
    let b = coalesce w.scan_next_retry_at w.created_at in ltb a b || (a == b && leb v.id w.id)

unfoldable pub insert_version : FileVersion → List FileVersion → List FileVersion
insert_version v [] = v ∷ []
insert_version v (w ∷ versions) =
    if is_before v w then v ∷ w ∷ versions else w ∷ insert_version v versions

unfoldable pub sort_versions : List FileVersion → List FileVersion
unfolding insert_version
sort_versions [] = []
sort_versions (v ∷ versions) = insert_version v (sort_versions versions)

unfoldable pub list_scan_retry_candidates : ℕ → ℕ → ℕ → Store → List FileVersion
unfolding is_candidate sort_versions
list_scan_retry_candidates now max_attempts limit s =
    take limit (sort_versions (select (is_candidate now max_attempts) s.versions))

unfoldable pub is_claimable : ℕ → ℕ → FileVersion → Bool
is_claimable version_id expected v =
    v.id == version_id && is_failed v.scan_status && v.scan_retry_count == expected

abbrev pub claimed : ℕ → ℕ → FileVersion → FileVersion
claimed expected attempted_at v = record v {
  scan_status = pending_scan;
  scan_message = "自动重试扫描中";
  scan_retry_count = expected + 1;
  scan_last_attempt_at = some attempted_at;
  scan_next_retry_at = none;
}

-- Applying an update to a row that may be missing: nothing happens, and the answer is `false`.
abbrev pub update_found : (FileVersion → FileVersion) → Option FileVersion → Store → Bool × Store
update_found change none s = (false, s)
update_found change (some version) s = (
  true,
  record s {
    versions = update_version version.id change s.versions;
    changes = s.changes ++ version_change version.workspace_id version.id "update_scan_status" ∷ [];
  },
)

unfoldable pub claim_scan_retry : ℕ → ℕ → ℕ → Store → Bool × Store
unfolding is_claimable
claim_scan_retry version_id expected attempted_at s =
    update_found (claimed expected attempted_at)
      (find_first (is_claimable version_id expected) s.versions) s

unfoldable pub complete_scan_retry : ℕ → ScanStatus → String → Option ℕ → Store → Bool × Store
complete_scan_retry version_id status message next s =
    update_found (with_scan status message next)
      (find_first (λ v. v.id == version_id && is_pending v.scan_status) s.versions) s

abbrev pub is_stale : ℕ → FileVersion → Bool
is_stale cutoff v = is_pending v.scan_status && is_at_most v.scan_last_attempt_at cutoff

unfoldable pub requeue_stale_scan_retries : ℕ → ℕ → Store → ℕ × Store
requeue_stale_scan_retries cutoff next s = (
  length (select (is_stale cutoff) s.versions),
  record s {
    versions =
        update_where (is_stale cutoff) (with_scan scan_error "扫描进程中断，已重新加入自动重试队列" (some next))
          s.versions;
  },
)
