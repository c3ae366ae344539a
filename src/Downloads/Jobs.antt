-- ===== src/Downloads/Jobs.antt =====
-- The jobs of batch downloads and the operations of `BatchDownloadDAO`. Times are numbers.
use Prim.Native.String.{String}
use Prim.Native.String
use text.Mathlib.Text.{◌==◌ as str_eq, is_lt}
use file_share_manager.Prelude.{
  if◌then◌else◌, ℕ, ◌==◌, leb, Bool, true, false, ◌&&◌, ◌||◌, not, List, [], ◌∷◌, ◌++◌, map, Option,
  none, some, Result, ok, ◌>>◌, guard, any, select, find_first, update_where, sort_by, take,
}
use file_share_manager.Authorization.{is_nonempty}

pub data JobStatus : Type 0 where
  queued running completed failed expired : JobStatus

pub record BatchDownloadJob : Type 0 where
  pub id : String
  pub workspace_id : ℕ
  pub created_by : ℕ
  pub name : String
  pub status : JobStatus
  pub total_files : ℕ
  pub processed_files : ℕ
  pub total_bytes : ℕ
  pub processed_bytes : ℕ
  pub archive_size : ℕ
  pub error_message : String
  pub started_at : Option ℕ
  pub completed_at : Option ℕ
  pub expires_at : Option ℕ
  pub created_at : ℕ
  pub updated_at : ℕ

pub record BatchDownloadItem : Type 0 where
  pub id : ℕ
  pub job_id : String
  pub node_id : ℕ
  pub version_id : ℕ
  pub relative_path : String
  pub storage_key : String
  pub storage_class : String
  pub size : ℕ
  pub sha256 : String

pub record JobTables : Type 0 where
  pub jobs : List BatchDownloadJob
  pub items : List BatchDownloadItem

pub data JobError : Type 0 where
  batch_download_state duplicated_key empty_slice : JobError

abbrev pub is_queued : JobStatus → Bool
is_queued queued = true
is_queued _ = false

abbrev pub is_running : JobStatus → Bool
is_running running = true
is_running _ = false

abbrev pub is_completed : JobStatus → Bool
is_completed completed = true
is_completed _ = false

abbrev pub is_failed : JobStatus → Bool
is_failed failed = true
is_failed _ = false

abbrev pub is_job : String → BatchDownloadJob → Bool
is_job id job = str_eq job.id id

-- `Create` fills an empty class with the default of the model.
abbrev pub inserted_text : String → String
inserted_text class = if str_eq class "" then "standard" else class

-- The database layer refuses to create no rows at all, which fails the transaction.
unfoldable pub create_job :
    BatchDownloadJob → List BatchDownloadItem → JobTables → Result JobError JobTables
create_job job items t = do
  guard (not (any (is_job job.id) t.jobs)) duplicated_key
  guard (is_nonempty items) empty_slice
  ok (record t {
    jobs = t.jobs ++ job ∷ [];
    items =
        t.items
        ++ map
            (λ (x : BatchDownloadItem). record x {
              job_id = job.id;
              storage_class = inserted_text x.storage_class;
            })
            items;
  })

unfoldable pub get_for_owner : ℕ → ℕ → String → JobTables → Option BatchDownloadJob
get_for_owner workspace_id user_id id t =
    find_first
      (λ job. job.workspace_id == workspace_id && job.created_by == user_id && is_job id job) t.jobs

unfoldable pub get_job : String → JobTables → Option BatchDownloadJob
get_job id t = find_first (is_job id) t.jobs

-- `ORDER BY relative_path ASC, id ASC`.
abbrev pub by_path : BatchDownloadItem → BatchDownloadItem → Bool
by_path x y =
    is_lt (String.compare x.relative_path y.relative_path)
    || (str_eq x.relative_path y.relative_path && leb x.id y.id)

unfoldable pub list_items : String → JobTables → List BatchDownloadItem
list_items id t = sort_by by_path (select (λ (x : BatchDownloadItem). str_eq x.job_id id) t.items)

abbrev pub update_jobs :
    (BatchDownloadJob → Bool) → (BatchDownloadJob → BatchDownloadJob) → JobTables → JobTables
update_jobs test change t = record t { jobs = update_where test change t.jobs }

abbrev pub started : ℕ → BatchDownloadJob → BatchDownloadJob
started now job = record job {
  status = running;
  started_at = some now;
  error_message = "";
  updated_at = now;
}

-- Whether one row was updated; the identity is the primary key, here and below.
unfoldable pub claim_job : String → ℕ → JobTables → Bool × JobTables
claim_job id now t = (
  any (λ job. is_job id job && is_queued job.status) t.jobs,
  update_jobs (λ job. is_job id job && is_queued job.status) (started now) t,
)

abbrev pub progressed : ℕ → ℕ → ℕ → BatchDownloadJob → BatchDownloadJob
progressed files bytes now job = record job {
  processed_files = files;
  processed_bytes = bytes;
  updated_at = now;
}

unfoldable pub update_progress : String → ℕ → ℕ → ℕ → JobTables → JobTables
update_progress id files bytes now =
    update_jobs (λ job. is_job id job && is_running job.status) (progressed files bytes now)

abbrev pub finished : ℕ → ℕ → ℕ → BatchDownloadJob → BatchDownloadJob
finished archive_size completed_at expires_at job = record job {
  status = completed;
  archive_size = archive_size;
  completed_at = some completed_at;
  expires_at = some expires_at;
  error_message = "";
  updated_at = completed_at;
}

unfoldable pub complete_job : String → ℕ → ℕ → ℕ → JobTables → Result JobError JobTables
complete_job id archive_size completed_at expires_at t = do
  guard (any (λ job. is_job id job && is_running job.status) t.jobs) batch_download_state
  ok (
      update_jobs (λ job. is_job id job && is_running job.status)
        (finished archive_size completed_at expires_at) t)

abbrev pub broken : String → ℕ → BatchDownloadJob → BatchDownloadJob
broken message now job = record job { status = failed; error_message = message; updated_at = now }

unfoldable pub fail_job : String → String → ℕ → JobTables → JobTables
fail_job id message now =
    update_jobs (λ job. is_job id job && is_running job.status) (broken message now)

abbrev pub is_retryable : ℕ → ℕ → String → BatchDownloadJob → Bool
is_retryable workspace_id user_id id job =
    job.workspace_id == workspace_id
    && job.created_by == user_id
    && is_job id job
    && is_failed job.status

abbrev pub restarted : ℕ → BatchDownloadJob → BatchDownloadJob
restarted now job = record job {
  status = queued;
  processed_files = 0;
  processed_bytes = 0;
  archive_size = 0;
  error_message = "";
  started_at = none;
  completed_at = none;
  expires_at = none;
  updated_at = now;
}

unfoldable pub retry_job : ℕ → ℕ → String → ℕ → JobTables → Result JobError JobTables
retry_job workspace_id user_id id now t = do
  guard (any (is_retryable workspace_id user_id id) t.jobs) batch_download_state
  ok (update_jobs (is_retryable workspace_id user_id id) (restarted now) t)

abbrev pub requeued : ℕ → BatchDownloadJob → BatchDownloadJob
requeued now job = record job {
  status = queued;
  started_at = none;
  processed_files = 0;
  processed_bytes = 0;
  updated_at = now;
}

unfoldable pub requeue_interrupted_jobs : ℕ → JobTables → JobTables
requeue_interrupted_jobs now =
    update_jobs (λ (job : BatchDownloadJob). is_running job.status) (requeued now)

unfoldable pub list_queued_ids : ℕ → JobTables → List String
list_queued_ids limit t =
    map (λ (job : BatchDownloadJob). job.id)
      (take limit (
        sort_by (λ (a b : BatchDownloadJob). leb a.created_at b.created_at)
          (select (λ (job : BatchDownloadJob). is_queued job.status) t.jobs)))

abbrev pub due_by : ℕ → Option ℕ → Bool
due_by now none = false
due_by now (some at) = leb at now

abbrev pub is_expiring : ℕ → BatchDownloadJob → Bool
is_expiring now job = is_completed job.status && due_by now job.expires_at

abbrev pub removed : ℕ → BatchDownloadJob → BatchDownloadJob
removed now job = record job { status = expired; archive_size = 0; updated_at = now }

-- The identities whose archives are to be removed, and the new tables. The query and the update run
-- in one transaction, and an identity is of one job.
unfoldable pub expire_jobs : ℕ → JobTables → List String × JobTables
expire_jobs now t =
    let ids = map (λ (job : BatchDownloadJob). job.id) (select (is_expiring now) t.jobs) in
    (
      ids,
      update_jobs (λ job. any (λ id. is_job id job) ids && is_completed job.status) (removed now) t,
    )
