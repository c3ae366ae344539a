-- ===== src/Downloads/Worker.antt =====
-- The worker of batch downloads: `process` and `buildArchive`. Copying one file into the archive is
-- the parameter `copy`, which answers with an error, if there is one; `prepare` opens the store, the
-- reader and the temporary archive; `cancelled` is the test of the context in front of a file;
-- `publish` puts the archive in place and answers with its size or with an error. An error may wrap
-- `context.Canceled`, by which the job is left running. The worker's clock stands still, and the access times of the files are
-- no part of the tables.
use Prim.Native.String.{String, len, slice}
use file_share_manager.Prelude.{
  ℕ, suc, ◌+◌, ltb, Bool, List, [], ◌∷◌, Option, none, some, Result, err, ok, if◌then◌else◌,
}
use file_share_manager.Downloads.Jobs.{
  BatchDownloadItem, JobTables, JobError, list_items, claim_job, update_progress, complete_job,
  fail_job,
}

-- How the building of an archive ends.
pub data Ending : Type 0 where
  built interrupted : Ending
  stopped : String → Ending

-- An error, with the test `errors.Is(err, context.Canceled)` made.
pub data BuildError : Type 0 where
  canceled : BuildError
  failure : String → BuildError

abbrev pub ended_by : BuildError → Ending
ended_by canceled = interrupted
ended_by (failure message) = stopped message

-- The first thousand bytes of a message, which comes without blanks around it.
abbrev pub shortened : String → String
shortened message = if ltb 1000 (len message) then slice message 0 1000 else message

module _ (prepare : String → Option BuildError) (copy : BatchDownloadItem → Option BuildError)
    (cancelled : BatchDownloadItem → Bool) (publish : String → Result BuildError ℕ)
    (retention : ℕ) where
  abbrev pub completed_or : Result JobError JobTables → JobTables → Ending × JobTables
  completed_or (ok t') t = (built, t')
  completed_or (err e) t = (stopped "complete task", t)

  abbrev pub after_publish : String → ℕ → Result BuildError ℕ → JobTables → Ending × JobTables
  after_publish id now (err e) t = (ended_by e, t)
  after_publish id now (ok size) t = completed_or (complete_job id size now (now + retention) t) t

  -- The loop over the files, with the files and bytes that are done.
  unfoldable pub copy_each :
      String → ℕ → ℕ → ℕ → List BatchDownloadItem → JobTables → Ending × JobTables
  copy_each id now files bytes [] t = after_publish id now (publish id) t
  copy_each id now files bytes (x ∷ items) t =
      let rest =
        copy_each id now (suc files) (bytes + x.size) items
          (update_progress id (suc files) (bytes + x.size) now t) in
      if cancelled x
      then (interrupted, t)
      else elim (copy x) [ none ↦ rest | some e ↦ (ended_by e, t) ]

  abbrev pub prepared :
      Option BuildError → String → ℕ → List BatchDownloadItem → JobTables → Ending × JobTables
  prepared none id now items t = copy_each id now 0 0 items t
  prepared (some e) id now items t = (ended_by e, t)

  abbrev pub build_items : String → ℕ → List BatchDownloadItem → JobTables → Ending × JobTables
  build_items id now [] t = (stopped "task snapshot contains no files", t)
  build_items id now (x ∷ items) t = prepared (prepare id) id now (x ∷ items) t

  unfoldable pub build_archive : String → ℕ → JobTables → Ending × JobTables
  build_archive id now t = build_items id now (list_items id t) t

  abbrev pub settle : String → ℕ → Ending × JobTables → JobTables
  settle id now (built, t) = t
  settle id now (interrupted, t) = t
  settle id now (stopped message, t) = fail_job id (shortened message) now t

  unfoldable pub process_job : String → ℕ → JobTables → JobTables
  process_job id now t =
      let (is_claimed, t') = claim_job id now t in
      if is_claimed then settle id now (build_archive id now t') else t'
