-- ===== src/Files/Versions.antt =====
-- `RestoreVersion` and `ScanRetrySummary` of server/internal/dao/file.go.
use file_share_manager.Prelude.{
  ℕ, suc, ◌+◌, ltb, leb, min, Bool, ◌&&◌, not, List, [], ◌∷◌, ◌++◌, Option, none, some, Result, ok,
  ◌>>=◌, ◌>>◌, guard, or_fail, length, any, find_first, select,
}
use file_share_manager.Nodes.Store.{is_active_file}
use file_share_manager.Nodes.Tree.{update_node}
use file_share_manager.Files.Model.{inserted_version, FileVersion, latest_version}
use file_share_manager.Files.Scans.{
  Store, Error, record_not_found, duplicated_key, is_pending, is_failed, is_infected,
  version_change, is_version, get_version,
}

-- The copy of an old version that becomes the newest one. `Create` sets the
-- zero creation time to `now` and fills an empty class and risk level.
abbrev pub restored : ℕ → ℕ → ℕ → ℕ → FileVersion → FileVersion
restored id version_no actor_id now source = record (inserted_version source) {
  id = id;
  version_no = version_no;
  created_by = actor_id;
  created_at = now;
}

abbrev pub with_restored : ℕ → FileVersion → ℕ → ℕ → Store → Store
with_restored workspace_id copy node_id actor_id s = record s {
  versions = s.versions ++ copy ∷ [];
  nodes =
      update_node node_id (λ n. record n { active_version = some copy.id; updated_by = actor_id })
        s.nodes;
  changes = s.changes ++ version_change workspace_id copy.id "restore" ∷ [];
  next_version_id = suc s.next_version_id;
}

unfoldable pub restore_version : ℕ → ℕ → ℕ → ℕ → ℕ → Store → Result Error (FileVersion × Store)
unfolding get_version
restore_version workspace_id node_id source_version_no actor_id now s = do
  node ← or_fail (find_first (is_active_file workspace_id node_id) s.nodes) record_not_found
  source ← or_fail (get_version workspace_id node_id source_version_no s) record_not_found
  latest ← or_fail (latest_version workspace_id node_id s.versions) record_not_found
  let copy = restored s.next_version_id (latest.version_no + 1) actor_id now source
  guard (not (any (is_version workspace_id node_id copy.version_no) s.versions)) duplicated_key
  ok (copy, with_restored workspace_id copy node.id actor_id s)

pub record ScanRetrySummary : Type 0 where
  pub retryable : ℕ
  pub pending : ℕ
  pub exhausted : ℕ
  pub infected : ℕ
  pub next_retry_at : Option ℕ

-- `MIN(scan_next_retry_at)`, which passes over the rows without a time.
abbrev pub earlier : Option ℕ → Option ℕ → Option ℕ
earlier none b = b
earlier (some a) none = some a
earlier (some a) (some b) = some (min a b)

abbrev pub earliest : List FileVersion → Option ℕ
earliest [] = none
earliest (v ∷ versions) = earlier v.scan_next_retry_at (earliest versions)

unfoldable pub scan_retry_summary : ℕ → Store → ScanRetrySummary
scan_retry_summary max_attempts s =
    let retryable : FileVersion → Bool =
      λ v. is_failed v.scan_status && ltb v.scan_retry_count max_attempts in
    record {
      retryable = length (select retryable s.versions);
      pending = length (select (λ (v : FileVersion). is_pending v.scan_status) s.versions);
      exhausted = length (
          select
            (λ (v : FileVersion). is_failed v.scan_status && leb max_attempts v.scan_retry_count)
            s.versions);
      infected = length (select (λ (v : FileVersion). is_infected v.scan_status) s.versions);
      next_retry_at = earliest (select retryable s.versions);
    }
