-- ===== src/Files/Retries.antt =====
-- The retry worker of server/internal/service/clamav/retry.go. The scanner is a parameter, and so
-- is the cancellation of the context, asked before each version. Alerts and log lines are left out.
-- Times and durations are numbers of nanoseconds.
use Prim.Native.String.{String}
use file_share_manager.Prelude.{
  ℕ, zero, suc, ◌+◌, ◌-◌, ◌*◌, ◌==◌, ltb, leb, Bool, ◌&&◌, List, [], ◌∷◌, Option, none, some,
  if◌then◌else◌,
}
use file_share_manager.Files.Model.{ScanStatus, clean, infected, FileVersion}
use file_share_manager.Files.Scans.{
  Store, is_failed, list_scan_retry_candidates, claim_scan_retry, complete_scan_retry,
  requeue_stale_scan_retries,
}

-- Five minutes and a day.
abbrev pub default_interval : ℕ
default_interval = 300000000000

abbrev pub longest_delay : ℕ
longest_delay = 86400000000000

-- The loop of `retryDelay`, with the number of rounds that are left.
unfoldable pub doubled : ℕ → ℕ → ℕ
doubled zero delay = delay
doubled (suc rounds) delay =
    let further = doubled rounds (delay * 2) in if ltb delay longest_delay then further else delay

-- A base that is not positive is 0, an attempt below 1 is 0.
abbrev pub base_interval : ℕ → ℕ
base_interval base = if base == 0 then default_interval else base

unfoldable pub retry_delay : ℕ → ℕ → ℕ
unfolding doubled
retry_delay base attempt =
    let delay = doubled (attempt - 1) (base_interval base) in
    if ltb longest_delay delay then longest_delay else delay

pub record ScanResult : Type 0 where
  pub status : ScanStatus
  pub message : String

pub record RetryReport : Type 0 where
  pub recovered : ℕ
  pub scanned : ℕ
  pub clean : ℕ
  pub infected : ℕ
  pub failed : ℕ
  pub exhausted : ℕ

pub record RetryService : Type 0 where
  pub max_attempts : ℕ
  pub batch_size : ℕ
  pub base_interval : ℕ
  pub stale_after : ℕ

-- The counters after a scan.
unfoldable pub counted : ScanStatus → Bool → RetryReport → RetryReport
counted clean exhausted r = record r { scanned = suc r.scanned; clean = suc r.clean }
counted infected exhausted r = record r { scanned = suc r.scanned; infected = suc r.infected }
counted _ exhausted r = record r {
  scanned = suc r.scanned;
  failed = suc r.failed;
  exhausted = if exhausted then suc r.exhausted else r.exhausted;
}

module _ (scan : String → ScanResult) (cancelled : FileVersion → Bool) where
  abbrev pub next_retry_at : RetryService → ℕ → ℕ → ScanStatus → Option ℕ
  next_retry_at service now attempt status =
      if is_failed status && ltb attempt service.max_attempts
      then some (now + retry_delay service.base_interval attempt)
      else none

  -- Writing the result of a scan.
  unfoldable pub record_scan :
      RetryService → ℕ → FileVersion → ScanResult → RetryReport → Store → RetryReport × Store
  unfolding complete_scan_retry counted
  record_scan service now version result report s =
      let attempt = version.scan_retry_count + 1 in
      let next = next_retry_at service now attempt result.status in
      let (completed, t) = complete_scan_retry version.id result.status result.message next s in
      if completed
      then (counted result.status (leb service.max_attempts attempt) report, t)
      else (report, t)

  -- One round of the loop of `RunOnce`.
  unfoldable pub scan_version :
      RetryService → ℕ → FileVersion → RetryReport → Store → RetryReport × Store
  unfolding claim_scan_retry record_scan
  scan_version service now version report s =
      let (won, t) = claim_scan_retry version.id version.scan_retry_count now s in
      if won
      then record_scan service now version (scan version.storage_key) report t
      else (report, t)

  unfoldable pub scan_each :
      RetryService → ℕ → List FileVersion → RetryReport → Store → RetryReport × Store
  unfolding scan_version
  scan_each service now [] report s = (report, s)
  scan_each service now (version ∷ versions) report s =
      let (longer, t) = scan_version service now version report s in
      let behind = scan_each service now versions longer t in
      if cancelled version then (report, s) else behind

  unfoldable pub run_once : RetryService → ℕ → Store → RetryReport × Store
  unfolding scan_each requeue_stale_scan_retries list_scan_retry_candidates
  run_once service now s =
      let (recovered, t) = requeue_stale_scan_retries (now - service.stale_after) now s in
      let candidates = list_scan_retry_candidates now service.max_attempts service.batch_size t in
      scan_each service now candidates
        (record {
          recovered = recovered;
          scanned = 0;
          clean = 0;
          infected = 0;
          failed = 0;
          exhausted = 0;
        })
        t
