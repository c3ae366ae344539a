-- ===== src/Archive/Passes.antt =====
-- The pass of server/internal/service/archive/service.go over the candidates. What the two stores of
-- objects answer and `strings.EqualFold` are arguments.
use Prim.Native.String.{String, ◌++◌}
use text.Mathlib.Text.{◌==◌ as str_eq}
use file_share_manager.Prelude.{
  ℕ, suc, ◌==◌, Bool, true, false, ◌&&◌, not, List, [], ◌∷◌, Option, none, some, Result, err, ok,
  select, if◌then◌else◌, format_uint,
}
use file_share_manager.Archive.Candidates.{
  ArchiveCandidate, ArchiveTables, ArchiveError, archive_candidate_changed, list_candidates,
  complete_archive, record_failure,
}

-- The tables, and the keys of the objects in the primary store.
pub record ArchiveState : Type 0 where
  pub tables : ArchiveTables
  pub objects : List String

pub data PutFailure : Type 0 where
  backup_immutable object_already_exists : PutFailure
  put_error : String → PutFailure

abbrev pub with_close :
    Option String → Result PutFailure (ℕ × String) → Result PutFailure (ℕ × String)
with_close (some message) (ok copy) = err (put_error message)
with_close (some message) (err failure) = err failure
with_close none outcome = outcome

abbrev pub wrapped : Result String (ℕ × String) → Result String (ℕ × String)
wrapped (ok copy) = ok copy
wrapped (err message) = err ("write archive object: " ++ message)

-- An object that stands in the archive already is read back.
abbrev pub put_or_verify :
    Result PutFailure (ℕ × String) → Result String (ℕ × String) → Result String (ℕ × String)
put_or_verify (ok copy) verified = ok copy
put_or_verify (err backup_immutable) verified = wrapped verified
put_or_verify (err object_already_exists) verified = wrapped verified
put_or_verify (err (put_error message)) verified = wrapped (err message)

abbrev pub opened_or : Option String → Result String (ℕ × String) → Result String (ℕ × String)
opened_or (some message) copy = err ("open primary object: " ++ message)
opened_or none copy = copy

abbrev pub mismatch : ℕ → String → String
mismatch size digest =
    "archive verification mismatch: size=" ++ format_uint size ++ " sha256=" ++ digest

abbrev pub migrated_count : Result String Bool → ℕ → ℕ
migrated_count (ok true) completed = suc completed
migrated_count (ok false) completed = completed
migrated_count (err message) completed = completed

abbrev pub noted : ArchiveCandidate → Result String Bool → ArchiveState → ArchiveState
noted c (ok migrated) s = s
noted c (err message) s = record s { tables = record_failure c message s.tables }

module _ (equal_fold : String → String → Bool) (opened : ArchiveCandidate → Option String)
    (put : ArchiveCandidate → Result PutFailure (ℕ × String))
    (closed : ArchiveCandidate → Option String)
    (verified : ArchiveCandidate → Result String (ℕ × String)) (removes : ArchiveCandidate → Bool)
    (cancelled : ArchiveCandidate → Bool) where
  abbrev pub archived_copy : ArchiveCandidate → Result String (ℕ × String)
  archived_copy c =
      opened_or (opened c) (put_or_verify (with_close (closed c) (put c)) (verified c))

  -- The primary object goes only behind the commit; a removal that fails is only logged.
  abbrev pub committed :
      ArchiveCandidate
      → Result ArchiveError ArchiveTables
      → ArchiveState
      → Result String Bool × ArchiveState
  committed c (err archive_candidate_changed) s = (ok false, s)
  committed c (ok t) s = (
    ok true,
    record {
      tables = t;
      objects =
          if removes c then select (λ key. not (str_eq key c.storage_key)) s.objects else s.objects;
    },
  )

  abbrev pub checked :
      ℕ
      → ArchiveCandidate
      → Result String (ℕ × String)
      → ArchiveState
      → Result String Bool × ArchiveState
  checked cutoff c (err message) s = (err message, s)
  checked cutoff c (ok (size, digest)) s =
      if size == c.size && equal_fold digest c.sha256
      then committed c (complete_archive c cutoff s.tables) s
      else (err (mismatch size digest), s)

  unfoldable pub archive_candidate :
      ℕ → ArchiveCandidate → ArchiveState → Result String Bool × ArchiveState
  archive_candidate cutoff c s = checked cutoff c (archived_copy c) s

  -- The number of archived objects, whether the context ended the pass, and the state.
  unfoldable pub archive_each :
      ℕ → List ArchiveCandidate → ℕ → ArchiveState → ℕ × Bool × ArchiveState
  archive_each cutoff [] completed s = (completed, false, s)
  archive_each cutoff (c ∷ candidates) completed s =
      let (outcome, s') = archive_candidate cutoff c s in
      let rest =
        archive_each cutoff candidates (migrated_count outcome completed) (noted c outcome s') in
      if cancelled c then (completed, true, s) else rest

  unfoldable pub run_archive : ℕ → ℕ → ArchiveState → ℕ × Bool × ArchiveState
  run_archive cutoff limit s =
      archive_each cutoff (list_candidates cutoff limit s.tables.versions) 0 s
