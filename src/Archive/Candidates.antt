-- ===== src/Archive/Candidates.antt =====
-- The tables that `ArchiveDAO` of server/internal/dao/archive.go reads and writes, and its
-- operations `ListCandidates`, `Complete` and `RecordFailure`. Times are numbers; `MAX` of strings is the greatest in their order.
use Prim.Native.String.{String, compare, len, slice}
use text.Mathlib.Text.{◌==◌ as str_eq, is_lt}
use file_share_manager.Prelude.{
  true, false, ℕ, ◌==◌, ltb, leb, max, Bool, ◌&&◌, ◌||◌, not, List, [], ◌∷◌, ◌++◌, map, Result, ok,
  ◌>>◌, guard, any, select, update_where, sort_by, take, if◌then◌else◌,
}
use file_share_manager.Authorization.{is_nonempty}
use file_share_manager.Nodes.Store.{Change}
use file_share_manager.Files.Model.{StorageClass, unset, standard, archive, FileVersion}
use file_share_manager.Files.Scans.{coalesce}
use file_share_manager.Shares.Store.{Share, ShareItem}
use file_share_manager.Downloads.Jobs.{BatchDownloadJob, BatchDownloadItem}

pub record ArchiveCandidate : Type 0 where
  pub workspace_id : ℕ
  pub storage_key : String
  pub size : ℕ
  pub sha256 : String

pub record ArchiveTables : Type 0 where
  pub versions : List FileVersion
  pub shares : List Share
  pub share_items : List ShareItem
  pub jobs : List BatchDownloadJob
  pub batch_items : List BatchDownloadItem
  pub changes : List Change

pub data ArchiveError : Type 0 where
  archive_candidate_changed : ArchiveError

-- `COALESCE(last_accessed_at, created_at)`.
abbrev pub last_access : FileVersion → ℕ
last_access v = coalesce v.last_accessed_at v.created_at

-- `workspace_id = ? AND storage_key = ?`.
abbrev pub has_key : ℕ → String → FileVersion → Bool
has_key workspace_id storage_key v =
    v.workspace_id == workspace_id && str_eq v.storage_key storage_key

-- `storage_class IN ('', 'standard')`, which a column without a value does not pass.
abbrev pub is_standard : StorageClass → Bool
is_standard unset = true
is_standard standard = true
is_standard _ = false

-- `workspace_id = ? AND storage_key = ? AND storage_class IN ('', 'standard')`.
abbrev pub is_open : ℕ → String → FileVersion → Bool
is_open workspace_id storage_key v =
    has_key workspace_id storage_key v && is_standard v.storage_class

-- `GROUP BY workspace_id, storage_key`: one row of each group, the last.
abbrev pub group_rows : List FileVersion → List FileVersion
group_rows [] = []
group_rows (v ∷ versions) =
    if any (has_key v.workspace_id v.storage_key) versions
    then group_rows versions
    else v ∷ group_rows versions

-- `MAX(…)` of a number.
abbrev pub greatest : (FileVersion → ℕ) → List FileVersion → ℕ
greatest value [] = 0
greatest value (v ∷ versions) = max (value v) (greatest value versions)

abbrev pub greater_text : String → String → String
greater_text a b = if is_lt (compare a b) then b else a

-- `MAX(sha256)`.
abbrev pub greatest_sha256 : List FileVersion → String
greatest_sha256 [] = ""
greatest_sha256 (v ∷ versions) = greater_text v.sha256 (greatest_sha256 versions)

abbrev pub group_of : FileVersion → List FileVersion → List FileVersion
group_of v = select (is_open v.workspace_id v.storage_key)

abbrev pub candidate_of : List FileVersion → FileVersion → ArchiveCandidate
candidate_of versions v = record {
  workspace_id = v.workspace_id;
  storage_key = v.storage_key;
  size = greatest (λ w. w.size) (group_of v versions);
  sha256 = greatest_sha256 (group_of v versions);
}

-- `ORDER BY MAX(…) ASC, storage_key ASC`.
abbrev pub is_colder : List FileVersion → FileVersion → FileVersion → Bool
is_colder versions v w =
    let a : ℕ = greatest last_access (group_of v versions) in
    let b : ℕ = greatest last_access (group_of w versions) in
    ltb a b || (a == b && not (is_lt (compare w.storage_key v.storage_key)))

unfoldable pub list_candidates : ℕ → ℕ → List FileVersion → List ArchiveCandidate
list_candidates cutoff limit versions = map (candidate_of versions) (
    take limit (
      sort_by (is_colder versions) (
        select (λ v. leb (greatest last_access (group_of v versions)) cutoff)
          (group_rows (select (λ v. is_standard v.storage_class) versions)))))

abbrev pub archived_version : FileVersion → FileVersion
archived_version v = record v { storage_class = archive; archive_error = "" }

abbrev pub archived_item : ShareItem → ShareItem
archived_item item = record item { storage_class = archive }

abbrev pub archived_batch_item : BatchDownloadItem → BatchDownloadItem
archived_batch_item item = record item { storage_class = "archive" }

-- `storage_key = ? AND share_id IN (SELECT id FROM shares WHERE workspace_id = ?)`.
abbrev pub is_shared : ArchiveCandidate → List Share → ShareItem → Bool
is_shared c shares item =
    str_eq item.storage_key c.storage_key
    && any (λ s. s.workspace_id == c.workspace_id && s.id == item.share_id) shares

-- `storage_key = ? AND job_id IN (SELECT id FROM batch_download_jobs WHERE workspace_id = ?)`.
abbrev pub is_batched : ArchiveCandidate → List BatchDownloadJob → BatchDownloadItem → Bool
is_batched c jobs item =
    str_eq item.storage_key c.storage_key
    && any (λ j. j.workspace_id == c.workspace_id && str_eq j.id item.job_id) jobs

abbrev pub archive_change : ArchiveCandidate → FileVersion → Change
archive_change c v = record {
  workspace_id = c.workspace_id;
  entity_type = "file_version";
  entity_id = v.id;
  operation = "archive";
}

unfoldable pub complete_archive :
    ArchiveCandidate → ℕ → ArchiveTables → Result ArchiveError ArchiveTables
complete_archive c cutoff t =
    let versions : List FileVersion = select (is_open c.workspace_id c.storage_key) t.versions in
    do
      guard (is_nonempty versions) archive_candidate_changed
      guard (not (any (λ v. ltb cutoff (last_access v)) versions)) archive_candidate_changed
      ok (record t {
        versions = update_where (has_key c.workspace_id c.storage_key) archived_version t.versions;
        share_items = update_where (is_shared c t.shares) archived_item t.share_items;
        batch_items = update_where (is_batched c t.jobs) archived_batch_item t.batch_items;
        changes = t.changes ++ map (archive_change c) versions;
      })

-- The first thousand bytes of a message.
abbrev pub shortened : String → String
shortened message = if ltb 1000 (len message) then slice message 0 1000 else message

unfoldable pub record_failure : ArchiveCandidate → String → ArchiveTables → ArchiveTables
record_failure c message t = record t {
  versions =
      update_where (is_open c.workspace_id c.storage_key)
        (λ v. record v { archive_error = shortened message }) t.versions;
}
