-- ===== src/Tests/Batches.antt =====
-- A batch download of two files.
use Prim.Native.String.{String}
use file_share_manager.Prelude.{
  ℕ, ◌≡◌, ◌≢◌, refl, Bool, false, [], ◌∷◌, Option, none, some, Result, ok, length, arith,
}
use file_share_manager.Downloads.Jobs.{
  queued, BatchDownloadJob, BatchDownloadItem, JobTables, get_job, list_items, claim_job, fail_job,
}
use file_share_manager.Downloads.Worker.{BuildError, process_job}
use file_share_manager.Downloads.Consistency.{
  AllConsistent, done, claimed, refused, Run-AllConsistent,
}
use file_share_manager.Downloads.Completion.{total_size, IsComplete, process_job-IsComplete}

abbrev pub job : BatchDownloadJob
job = record {
  id = "j";
  workspace_id = 4;
  created_by = 7;
  name = "docs";
  status = queued;
  total_files = 2;
  processed_files = 0;
  total_bytes = 30;
  processed_bytes = 0;
  archive_size = 0;
  error_message = "";
  started_at = none;
  completed_at = none;
  expires_at = none;
  created_at = 100;
  updated_at = 100;
}

abbrev pub first : BatchDownloadItem
first = record {
  id = 1;
  job_id = "j";
  node_id = 2;
  version_id = 5;
  relative_path = "a";
  storage_key = "k1";
  storage_class = "standard";
  size = 10;
  sha256 = "";
}

abbrev second : BatchDownloadItem
second = record first { id = 2; relative_path = "b"; storage_key = "k2"; size = 20 }

abbrev jobs : JobTables
jobs = record { jobs = job ∷ []; items = first ∷ second ∷ [] }

abbrev opens : String → Option BuildError
opens id = none

abbrev copies : BatchDownloadItem → Option BuildError
copies x = none

abbrev runs_on : BatchDownloadItem → Bool
runs_on x = false

abbrev archive_of_forty : String → Result BuildError ℕ
archive_of_forty id = ok 40

has_job : get_job "j" jobs ≡ some job
unfolding get_job
has_job = refl

has_files : list_items "j" jobs ≢ []
unfolding list_items
has_files e = cc

process_job-IsComplete_example :
    (j : BatchDownloadJob) × (get_job "j"
        (process_job opens copies runs_on archive_of_forty 24 "j" 200 jobs)
      ≡ some j)
    × IsComplete opens copies runs_on archive_of_forty 24 j
        (length (list_items "j" jobs))
        (total_size (list_items "j" jobs))
        40
        200
process_job-IsComplete_example =
    process_job-IsComplete opens copies runs_on archive_of_forty 24 "j" 40 200 refl refl (λ x. refl)
      (λ x. refl) jobs job has_job refl refl refl has_files

all_new : AllConsistent jobs
all_new x i = ground arith

Run-AllConsistent_example : AllConsistent (fail_job "j" "gone" 300 (claim_job "j" 200 jobs).1)
Run-AllConsistent_example =
    Run-AllConsistent jobs (fail_job "j" "gone" 300 (claim_job "j" 200 jobs).1)
      (claimed "j" 200 (refused "j" "gone" 300 done)) all_new
