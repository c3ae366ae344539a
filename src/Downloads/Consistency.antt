-- ===== src/Downloads/Consistency.antt =====
-- Sequences of the operations of server/internal/dao/batch_download.go on jobs.
use Prim.Native.String.{String}
use file_share_manager.Prelude.{
  ℕ, ◌≡◌, refl, ◌⊎◌, inl, inr, true, false, false≢true, ◌&&◌, not, List, [], ◌∷◌, some, ok,
  guard-passed, ok_injective, any, subst, sym, ◌∙◌, map, select, and_true, In, In-append_cases,
  update_where-all, arith,
}
use file_share_manager.Authorization.{is_nonempty}
use file_share_manager.Downloads.Jobs.{
  JobStatus, queued, BatchDownloadJob, BatchDownloadItem, JobTables, batch_download_state,
  duplicated_key, empty_slice, is_queued, is_running, is_completed, is_job, create_job, started,
  claim_job, progressed, update_progress, finished, complete_job, broken, fail_job, is_retryable,
  restarted, retry_job, requeued, requeue_interrupted_jobs, is_expiring, removed, expire_jobs,
}

-- A job that waits has no progress, only a completed job has an archive, and it has the times of its
-- completion and of its expiry.
pub record IsConsistent (job : BatchDownloadJob) : Type 0 where
  pub fresh : is_queued job.status ≡ true → (job.processed_files ≡ 0) × (job.processed_bytes ≡ 0)
  pub empty : is_completed job.status ≡ false → job.archive_size ≡ 0
  pub dated :
      is_completed job.status ≡ true
      → ((at : ℕ) × (job.completed_at ≡ some at)) × ((at : ℕ) × (job.expires_at ≡ some at))

abbrev pub AllConsistent : JobTables → Type 0
AllConsistent t = (job : BatchDownloadJob) → In job t.jobs → IsConsistent job

-- A new job, as the handler fills it in.
abbrev pub IsNew : BatchDownloadJob → Type 0
IsNew job =
    (job.status ≡ queued)
    × (job.processed_files ≡ 0)
    × (job.processed_bytes ≡ 0)
    × (job.archive_size ≡ 0)

-- A sequence of operations.
pub data Run : JobTables → JobTables → Type 0 where
  done : {t : JobTables} → Run t t
  created :
      (job : BatchDownloadJob) (items : List BatchDownloadItem) {t s u : JobTables}
      → IsNew job
      → create_job job items t ≡ ok s
      → Run s u
      → Run t u
  claimed : (id : String) (now : ℕ) {t u : JobTables} → Run (claim_job id now t).1 u → Run t u
  advanced :
      (id : String) (files bytes now : ℕ) {t u : JobTables}
      → Run (update_progress id files bytes now t) u
      → Run t u
  ended :
      (id : String) (size at expiry : ℕ) {t s u : JobTables}
      → complete_job id size at expiry t ≡ ok s
      → Run s u
      → Run t u
  refused :
      (id message : String) (now : ℕ) {t u : JobTables}
      → Run (fail_job id message now t) u
      → Run t u
  retried :
      (workspace_id user_id : ℕ) (id : String) (now : ℕ) {t s u : JobTables}
      → retry_job workspace_id user_id id now t ≡ ok s
      → Run s u
      → Run t u
  recovered : (now : ℕ) {t u : JobTables} → Run (requeue_interrupted_jobs now t) u → Run t u
  swept : (now : ℕ) {t u : JobTables} → Run (expire_jobs now t).1 u → Run t u

new-IsConsistent : (job : BatchDownloadJob) → IsNew job → IsConsistent job
new-IsConsistent job (s, f, b, a) = record {
  fresh = λ q. (f, b);
  empty = λ q. a;
  dated = λ q. absurd (waiting job s q);
}
  where
    waiting : (job : BatchDownloadJob) → job.status ≡ queued → is_completed job.status ≡ true → ⊥
    waiting job s q = ground arith

queued_open : (s : JobStatus) → is_queued s ≡ true → is_completed s ≡ false
queued_open s q = ground arith

running_open : (s : JobStatus) → is_running s ≡ true → is_completed s ≡ false
running_open s q = ground arith

running_busy : (s : JobStatus) → is_running s ≡ true → is_queued s ≡ false
running_busy s q = ground arith

started-IsConsistent :
    (now : ℕ) (job : BatchDownloadJob)
    → is_queued job.status ≡ true
    → IsConsistent job
    → IsConsistent (started now job)
started-IsConsistent now job q k = record {
  fresh = λ e. absurd (false≢true e);
  empty = λ e. k.empty (queued_open job.status q);
  dated = λ e. absurd (false≢true e);
}

progressed-IsConsistent :
    (files bytes now : ℕ) (job : BatchDownloadJob)
    → is_running job.status ≡ true
    → IsConsistent job
    → IsConsistent (progressed files bytes now job)
progressed-IsConsistent files bytes now job q k = record {
  fresh = λ e. absurd (false≢true (sym (running_busy job.status q) ∙ e));
  empty = λ e. k.empty e;
  dated = λ e. k.dated e;
}

broken-IsConsistent :
    (message : String) (now : ℕ) (job : BatchDownloadJob)
    → is_running job.status ≡ true
    → IsConsistent job
    → IsConsistent (broken message now job)
broken-IsConsistent message now job q k = record {
  fresh = λ e. absurd (false≢true e);
  empty = λ e. k.empty (running_open job.status q);
  dated = λ e. absurd (false≢true e);
}

requeued-IsConsistent :
    (now : ℕ) (job : BatchDownloadJob)
    → is_running job.status ≡ true
    → IsConsistent job
    → IsConsistent (requeued now job)
requeued-IsConsistent now job q k = record {
  fresh = λ e. (refl, refl);
  empty = λ e. k.empty (running_open job.status q);
  dated = λ e. absurd (false≢true e);
}

finished-IsConsistent :
    (size at expiry : ℕ) (job : BatchDownloadJob) → IsConsistent (finished size at expiry job)
finished-IsConsistent size at expiry job = record {
  fresh = λ e. absurd (false≢true e);
  empty = λ e. absurd (false≢true (sym e));
  dated = λ e. ((at, refl), (expiry, refl));
}

restarted-IsConsistent : (now : ℕ) (job : BatchDownloadJob) → IsConsistent (restarted now job)
restarted-IsConsistent now job = record {
  fresh = λ e. (refl, refl);
  empty = λ e. refl;
  dated = λ e. absurd (false≢true e);
}

removed-IsConsistent : (now : ℕ) (job : BatchDownloadJob) → IsConsistent (removed now job)
removed-IsConsistent now job = record {
  fresh = λ e. absurd (false≢true e);
  empty = λ e. refl;
  dated = λ e. absurd (false≢true e);
}

-- Every sequence of operations keeps the jobs consistent.
pub Run-AllConsistent : (t u : JobTables) → Run t u → AllConsistent t → AllConsistent u
unfolding create_job claim_job update_progress complete_job fail_job retry_job
    requeue_interrupted_jobs expire_jobs
Run-AllConsistent t u done g = g
Run-AllConsistent t u (created job items {s = s} n h r) g =
    let (_, k) = guard-passed (not (any (is_job job.id) t.jobs)) duplicated_key _ h in
    let (_, e) = guard-passed (is_nonempty items) empty_slice _ k in
    Run-AllConsistent s u r (
      subst AllConsistent (ok_injective _ s e)
        (λ x i. grown x (In-append_cases x t.jobs (job ∷ []) i)))
  where
    grown : (x : BatchDownloadJob) → In x t.jobs ⊎ In x (job ∷ []) → IsConsistent x
    grown x (inl i) = g x i
    grown x (inr (inl e)) = subst IsConsistent (sym e) (new-IsConsistent job n)
    grown x (inr (inr k)) = absurd k
Run-AllConsistent t u (claimed id now r) g = Run-AllConsistent _ u r (
    update_where-all IsConsistent (λ job. is_job id job && is_queued job.status) (started now)
      t.jobs
      (λ job q. started-IsConsistent now job (and_true (is_job id job) (is_queued job.status) q).1)
      g)
Run-AllConsistent t u (advanced id files bytes now r) g = Run-AllConsistent _ u r (
    update_where-all IsConsistent (λ job. is_job id job && is_running job.status)
      (progressed files bytes now) t.jobs
      (λ job q.
        progressed-IsConsistent files bytes now job
          (and_true (is_job id job) (is_running job.status) q).1)
      g)
Run-AllConsistent t u (ended id size at expiry {s = s} h r) g =
    let (_, k) =
      guard-passed (any (λ job. is_job id job && is_running job.status) t.jobs) batch_download_state
        _ h in
    Run-AllConsistent s u r (
      subst AllConsistent (ok_injective _ s k) (
        update_where-all IsConsistent (λ job. is_job id job && is_running job.status)
          (finished size at expiry) t.jobs (λ job q c. finished-IsConsistent size at expiry job) g))
Run-AllConsistent t u (refused id message now r) g = Run-AllConsistent _ u r (
    update_where-all IsConsistent (λ job. is_job id job && is_running job.status)
      (broken message now) t.jobs
      (λ job q.
        broken-IsConsistent message now job (and_true (is_job id job) (is_running job.status) q).1)
      g)
Run-AllConsistent t u (retried workspace_id user_id id now {s = s} h r) g =
    let (_, k) =
      guard-passed (any (is_retryable workspace_id user_id id) t.jobs) batch_download_state _ h in
    Run-AllConsistent s u r (
      subst AllConsistent (ok_injective _ s k) (
        update_where-all IsConsistent (is_retryable workspace_id user_id id) (restarted now) t.jobs
          (λ job q c. restarted-IsConsistent now job) g))
Run-AllConsistent t u (recovered now r) g = Run-AllConsistent _ u r (
    update_where-all IsConsistent (λ (job : BatchDownloadJob). is_running job.status) (requeued now)
      t.jobs (requeued-IsConsistent now) g)
Run-AllConsistent t u (swept now r) g = Run-AllConsistent _ u r (
    update_where-all IsConsistent
      (λ job.
        any (λ id. is_job id job)
          (map (λ (x : BatchDownloadJob). x.id) (select (is_expiring now) t.jobs))
        && is_completed job.status)
      (removed now) t.jobs (λ job q c. removed-IsConsistent now job) g)
