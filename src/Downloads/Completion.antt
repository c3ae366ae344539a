-- ===== src/Downloads/Completion.antt =====
-- A whole run of `process` of server/internal/service/batchdownload/service.go.
use Prim.Native.String.{String}
use file_share_manager.Prelude.{
  ℕ, suc, ◌+◌, ◌≡◌, ◌≢◌, refl, ap, ◌∙◌, Bool, true, false, ◌&&◌, List, [], ◌∷◌, Option, none, some,
  Result, ok, length, find_first-guarded, any-guarded, arith, if◌then◌else◌,
}
use file_share_manager.Downloads.Jobs.{
  completed, BatchDownloadJob, BatchDownloadItem, JobTables, is_queued, is_running, is_job, get_job,
  list_items, update_jobs, started, claim_job, progressed, update_progress, finished, complete_job,
}
use file_share_manager.Downloads.Worker.{
  BuildError, prepared, built, completed_or, copy_each, build_items, build_archive, settle,
  process_job,
}

abbrev pub total_size : List BatchDownloadItem → ℕ
total_size [] = 0
total_size (x ∷ items) = x.size + total_size items

-- What the worker makes of the job of an identity.
get_job-update :
    (id : String) (q : BatchDownloadJob → Bool) (f : BatchDownloadJob → BatchDownloadJob)
    (t : JobTables) (job : BatchDownloadJob)
    → ((y : BatchDownloadJob) → (f y).id ≡ y.id)
    → get_job id t ≡ some job
    → q job ≡ true
    → get_job id (update_jobs (λ y. is_job id y && q y) f t) ≡ some (f job)
unfolding get_job
get_job-update id q f t job same h k =
    find_first-guarded (is_job id) q f t.jobs job
      (λ y. ap (λ z. is_job id (record y { id = z })) (same y)) h
    ∙ ap (λ b. some (if b then f job else job)) k

module _ (prepare : String → Option BuildError) (copy : BatchDownloadItem → Option BuildError)
    (cancelled : BatchDownloadItem → Bool) (publish : String → Result BuildError ℕ)
    (retention : ℕ) where
  -- The job shows a completed archive of the files.
  pub record IsComplete (job : BatchDownloadJob) (files bytes size now : ℕ) : Type 0 where
    pub status : job.status ≡ completed
    pub files_done : job.processed_files ≡ files
    pub bytes_done : job.processed_bytes ≡ bytes
    pub archived : job.archive_size ≡ size
    pub expiry : job.expires_at ≡ some (now + retention)

  get_job-complete_job :
      (id : String) (size now : ℕ) (t : JobTables) (job : BatchDownloadJob)
      → get_job id t ≡ some job
      → is_running job.status ≡ true
      → complete_job id size now (now + retention) t
        ≡ ok (
            update_jobs
              (λ job. is_job id job && is_running job.status)
              (finished size now (now + retention))
              t)
  unfolding complete_job get_job
  get_job-complete_job id size now t job h k =
      rw
        (any-guarded (is_job id) (λ (job : BatchDownloadJob). is_running job.status)
          (finished size now (now + retention)) t.jobs job h k)
        refl

  module _ (id : String) (size now : ℕ) (ready : prepare id ≡ none)
      (published : publish id ≡ ok size) (readable : (x : BatchDownloadItem) → copy x ≡ none)
      (undisturbed : (x : BatchDownloadItem) → cancelled x ≡ false) where
    copy_each-IsComplete :
        (items : List BatchDownloadItem) (files bytes : ℕ) (t : JobTables) (job : BatchDownloadJob)
        → get_job id t ≡ some job
        → is_running job.status ≡ true
        → job.processed_files ≡ files
        → job.processed_bytes ≡ bytes
        → (u : JobTables) × (copy_each prepare copy cancelled publish retention id now files bytes
              items t
            ≡ (built, u))
          × (j : BatchDownloadJob) × (get_job id u ≡ some j)
          × IsComplete j (files + length items) (bytes + total_size items) size now
    unfolding copy_each update_progress
    copy_each-IsComplete [] files bytes t job h k f b = (
      update_jobs (λ job. is_job id job && is_running job.status)
          (finished size now (now + retention)) t,
      rw published (
          ap (λ r. completed_or prepare copy cancelled publish retention r t)
            (get_job-complete_job id size now t job h k)),
      finished size now (now + retention) job,
      get_job-update id (λ (y : BatchDownloadJob). is_running y.status)
          (finished size now (now + retention)) t job (λ y. refl) h k,
      record {
        status = refl;
        files_done = f ∙ omega arith;
        bytes_done = b ∙ omega arith;
        archived = refl;
        expiry = refl;
      },
    )
    copy_each-IsComplete (x ∷ items) files bytes t job h k f b =
        let (u, e, j, g, c) =
          copy_each-IsComplete items (suc files) (bytes + x.size)
            (update_progress id (suc files) (bytes + x.size) now t)
            (progressed (suc files) (bytes + x.size) now job) advanced k refl refl in
        (
          u,
          rw (undisturbed x, readable x) e,
          j,
          g,
          record {
            status = c.status;
            files_done = c.files_done ∙ omega arith;
            bytes_done = c.bytes_done ∙ omega arith;
            archived = c.archived;
            expiry = c.expiry;
          },
        )
      where
        advanced :
            get_job id (update_progress id (suc files) (bytes + x.size) now t)
            ≡ some (progressed (suc files) (bytes + x.size) now job)
        advanced =
            get_job-update id (λ (y : BatchDownloadJob). is_running y.status)
              (progressed (suc files) (bytes + x.size) now) t job (λ y. refl) h k

    same_items : (t : JobTables) → list_items id (claim_job id now t).1 ≡ list_items id t
    unfolding list_items claim_job
    same_items t = refl

    claim_job-queued :
        (t : JobTables) (job : BatchDownloadJob)
        → get_job id t ≡ some job
        → is_queued job.status ≡ true
        → (claim_job id now t).0 ≡ true
    unfolding claim_job get_job
    claim_job-queued t job h k =
        any-guarded (is_job id) (λ (y : BatchDownloadJob). is_queued y.status) (started now) t.jobs
          job h k

    get_job-claim_job :
        (t : JobTables) (job : BatchDownloadJob)
        → get_job id t ≡ some job
        → is_queued job.status ≡ true
        → get_job id (claim_job id now t).1 ≡ some (started now job)
    unfolding claim_job
    get_job-claim_job t job h k =
        get_job-update id (λ (y : BatchDownloadJob). is_queued y.status) (started now) t job
          (λ y. refl) h k

    -- A queued job without progress that has files, for which the archive can be opened, and all of which
    -- can be copied and published without an interruption, is completed by one run of the worker: it counts every file and every byte,
    -- has the size of the archive, and expires when the retention is over.
    pub process_job-IsComplete :
        (t : JobTables) (job : BatchDownloadJob)
        → get_job id t ≡ some job
        → is_queued job.status ≡ true
        → job.processed_files ≡ 0
        → job.processed_bytes ≡ 0
        → list_items id t ≢ []
        → (j : BatchDownloadJob) × (get_job id
              (process_job prepare copy cancelled publish retention id now t)
            ≡ some j)
          × IsComplete j (length (list_items id t)) (total_size (list_items id t)) size now
    unfolding process_job build_archive
    process_job-IsComplete t job h k f b n =
        rw (claimed, same_items t) (built_from (list_items id t) n)
      where
        claimed : (claim_job id now t).0 ≡ true
        claimed = claim_job-queued t job h k

        built_from :
            (items : List BatchDownloadItem)
            → items ≢ []
            → (j : BatchDownloadJob) × (get_job id (
                  settle prepare copy cancelled publish retention id now (
                    build_items prepare copy cancelled publish retention id now items
                      (claim_job id now t).1))
                ≡ some j)
              × IsComplete j (length items) (total_size items) size now
        built_from [] m = absurd (m refl)
        built_from (x ∷ items) m =
            let (u, e, j, g, c) =
              copy_each-IsComplete (x ∷ items) 0 0 (claim_job id now t).1 (started now job)
                (get_job-claim_job t job h k) refl f b in
            (
              j,
              ap
                    (λ o. get_job id (
                      settle prepare copy cancelled publish retention id now (
                        prepared prepare copy cancelled publish retention o id now (x ∷ items)
                          (claim_job id now t).1)))
                    ready
                  ∙ ap (λ r. get_job id (settle prepare copy cancelled publish retention id now r))
                      e
                  ∙ g,
              record {
                status = c.status;
                files_done = c.files_done ∙ omega arith;
                bytes_done = c.bytes_done ∙ omega arith;
                archived = c.archived;
                expiry = c.expiry;
              },
            )
