-- ===== src/Tests/Cold.antt =====
-- A cold version, an item of a share and an item of a batch download with one key.
use Prim.Native.String.{String}
use text.Mathlib.Text.{◌==◌ as str_eq}
use file_share_manager.Files.Scans.{is_online}
use file_share_manager.Prelude.{
  Bool, false, inr, ap, ◌∙◌, Option, none, ◌≤◌, subst, sym, true, [], ◌∷◌, some, ◌≡◌, ◌↔◌, refl,
  inl, In, ok, Result, ℕ,
}
use file_share_manager.Files.Model.{archive, FileVersion}
use file_share_manager.Shares.Store.{Share, ShareItem}
use file_share_manager.Downloads.Jobs.{BatchDownloadItem, BatchDownloadJob}
use file_share_manager.Archive.Candidates.{
  ArchiveCandidate, ArchiveTables, last_access, is_open, list_candidates, complete_archive,
}
use file_share_manager.Archive.Completing.{complete_archive_iff, complete_archive-archived}
use file_share_manager.Archive.Listing.{list_candidates-complete_archive}
use file_share_manager.Archive.Passes.{
  ArchiveState, PutFailure, archive_candidate, archive_each, run_archive,
}
use file_share_manager.Archive.Safety.{IsStored, run_archive-IsStored}
use file_share_manager.Tests.Sharing.{share, item, version}
use file_share_manager.Tests.Batches.{job, first}

abbrev cold : ArchiveCandidate
cold = record { workspace_id = 1; storage_key = "k"; size = 10; sha256 = "h" }

abbrev tables : ArchiveTables
tables = record {
  versions =
      version ∷ record version { id = 2; storage_key = "l"; last_accessed_at = some 90 } ∷ [];
  shares = share ∷ [];
  share_items = item ∷ [];
  jobs = record job { workspace_id = 1 } ∷ [];
  batch_items = record first { storage_key = "k" } ∷ [];
  changes = [];
}

listed : list_candidates 50 10 tables.versions ≡ cold ∷ []
unfolding list_candidates
listed = refl

abbrev cold_tables : ArchiveTables
cold_tables = record tables {
  versions =
      record version { storage_class = archive }
      ∷ record version { id = 2; storage_key = "l"; last_accessed_at = some 90 }
      ∷ [];
  share_items = record item { storage_class = archive } ∷ [];
  batch_items = record first { storage_key = "k"; storage_class = "archive" } ∷ [];
  changes =
      record {
        workspace_id = 1;
        entity_type = "file_version";
        entity_id = 1;
        operation = "archive";
      }
      ∷ [];
}

completed : complete_archive cold 50 tables ≡ ok cold_tables
unfolding complete_archive
completed = refl

complete_archive_iff_example :
    ((t' : ArchiveTables) × (complete_archive cold 50 tables ≡ ok t')) ↔ (
      ((v : FileVersion) × In v tables.versions × (is_open 1 "k" v ≡ true))
      × ((v : FileVersion) → In v tables.versions → is_open 1 "k" v ≡ true → last_access v ≤ 50))
complete_archive_iff_example = complete_archive_iff cold 50 tables

complete_archive-archived_example :
    ((v : FileVersion)
      → In v cold_tables.versions
      → v.workspace_id ≡ 1
      → v.storage_key ≡ "k"
      → v.storage_class ≡ archive)
    × ((i : ShareItem) (s : Share)
        → In i cold_tables.share_items
        → In s cold_tables.shares
        → i.storage_key ≡ "k"
        → s.workspace_id ≡ 1
        → s.id ≡ i.share_id
        → i.storage_class ≡ archive)
    × ((i : BatchDownloadItem) (j : BatchDownloadJob)
        → In i cold_tables.batch_items
        → In j cold_tables.jobs
        → i.storage_key ≡ "k"
        → j.workspace_id ≡ 1
        → j.id ≡ i.job_id
        → i.storage_class ≡ "archive")
complete_archive-archived_example = complete_archive-archived cold 50 tables cold_tables completed

list_candidates-complete_archive_example :
    (t' : ArchiveTables) × (complete_archive cold 50 tables ≡ ok t')
list_candidates-complete_archive_example =
    list_candidates-complete_archive cold 50 10 tables (subst (In cold) (sym listed) (inl refl))

abbrev stores : ArchiveState
stores = record { tables = tables; objects = "k" ∷ "l" ∷ [] }

stores-IsStored : IsStored stores
stores-IsStored = record { one = one; present = present }
  where
    one :
        (v w : FileVersion)
        → In v tables.versions
        → In w tables.versions
        → v.storage_key ≡ w.storage_key
        → v.workspace_id ≡ w.workspace_id
    one v w i j e = in_first v i ∙ sym (in_first w j)
      where
        in_first : (v : FileVersion) → In v tables.versions → v.workspace_id ≡ 1
        in_first v (inl e) = ap (λ (x : FileVersion). x.workspace_id) e
        in_first v (inr (inl e)) = ap (λ (x : FileVersion). x.workspace_id) e
        in_first v (inr (inr n)) = absurd n

    present :
        (v : FileVersion)
        → In v tables.versions
        → is_online v.storage_class ≡ true
        → In v.storage_key stores.objects
    present v (inl e) online = inl (ap (λ (x : FileVersion). x.storage_key) e)
    present v (inr (inl e)) online = inr (inl (ap (λ (x : FileVersion). x.storage_key) e))
    present v (inr (inr n)) online = absurd n

abbrev no_error : ArchiveCandidate → Option String
no_error c = none

abbrev put_whole : ArchiveCandidate → Result PutFailure (ℕ × String)
put_whole c = ok (c.size, c.sha256)

abbrev read_whole : ArchiveCandidate → Result String (ℕ × String)
read_whole c = ok (c.size, c.sha256)

abbrev always : ArchiveCandidate → Bool
always c = true

abbrev never : ArchiveCandidate → Bool
never c = false

run_archive-IsStored_example : IsStored (record { tables = cold_tables; objects = "l" ∷ [] })
unfolding run_archive archive_each archive_candidate list_candidates complete_archive
run_archive-IsStored_example =
    run_archive-IsStored str_eq no_error put_whole no_error read_whole always never 50 10 stores
      stores-IsStored
