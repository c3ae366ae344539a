-- ===== src/Notifications/Attempts.antt =====
-- The sequences of the operations of server/internal/dao/notification.go on the outbox, the bound on
-- the attempts of a delivery, and deliveries that are sent or cancelled.
use Prim.Native.String.{String}
use text.Mathlib.Text.{◌==◌ as str_eq}
use file_share_manager.Prelude.{
  ℕ, suc, ◌≤◌, ◌<◌, ◌≡◌, refl, ap, subst, ◌⊎◌, inl, inr, Bool, true, false, ◌&&◌, List, [], ◌∷◌, ok,
  guard-passed, ok_injective, ltb, leb, ◌==◌, any, In, In-append_left, In-append_cases,
  update_where, In-update_where, update_where-all, Bool-cases, and_true, and3_true, arith,
}
use file_share_manager.Notifications.Outbox.{
  OutboxStatus, sent, cancelled, NotificationOutbox, OutboxTables, record_not_found, is_waiting,
  is_sending, is_retryable, with_cancelled, delete_channel, insert_unless_known, enqueue_rows,
  enqueue, is_due, has_id, claimed, claim_delivery, delivered, mark_sent, after_failure,
  mark_failed, locked_until, requeued, requeue_interrupted_deliveries, restarted, retry_delivery,
}

-- Rows of new deliveries, which were not attempted.
abbrev pub IsFresh : List NotificationOutbox → Type 0
IsFresh rows = (x : NotificationOutbox) → In x rows → x.attempts ≡ 0

-- A sequence of the operations of the outbox.
pub data Run : OutboxTables → OutboxTables → Type 0 where
  done : {t : OutboxTables} → Run t t
  enqueued :
      (rows : List NotificationOutbox) {t u : OutboxTables}
      → IsFresh rows
      → Run (enqueue rows t) u
      → Run t u
  claimed_by :
      (id : String) (now : ℕ) {t u : OutboxTables} → Run (claim_delivery id now t).1 u → Run t u
  marked_sent : (id : String) (now : ℕ) {t u : OutboxTables} → Run (mark_sent id now t) u → Run t u
  marked_failed :
      (id message : String) (next : ℕ) (is_last : Bool) (now : ℕ) {t u : OutboxTables}
      → Run (mark_failed id message next is_last now t) u
      → Run t u
  recovered :
      (cutoff now : ℕ) {t u : OutboxTables}
      → Run (requeue_interrupted_deliveries cutoff now t) u
      → Run t u
  retried :
      (id : String) (now : ℕ) {t u : OutboxTables} → Run (retry_delivery id now t).1 u → Run t u
  deleted :
      (channel now : ℕ) {t s u : OutboxTables}
      → delete_channel channel now t ≡ ok s
      → Run s u
      → Run t u

abbrev pub IsBounded : List NotificationOutbox → Type 0
IsBounded rows = (x : NotificationOutbox) → In x rows → x.attempts ≤ x.max_attempts

enqueue_rows-IsBounded :
    (rows outbox : List NotificationOutbox)
    → IsFresh rows
    → IsBounded outbox
    → IsBounded (enqueue_rows rows outbox)
unfolding enqueue_rows
enqueue_rows-IsBounded [] outbox n g = g
enqueue_rows-IsBounded (row ∷ rows) outbox n g =
    enqueue_rows-IsBounded rows (insert_unless_known row outbox) (λ x i. n x (inr i))
      (elim (Bool-cases
        (any (λ (x : NotificationOutbox). str_eq x.dedup_key row.dedup_key) outbox)) [
          | inl e ↦ rw e g
          | inr e ↦ rw e (λ x i. grown x (In-append_cases x outbox (row ∷ []) i))
        ])
  where
    grown : (x : NotificationOutbox) → In x outbox ⊎ In x (row ∷ []) → x.attempts ≤ x.max_attempts
    grown x (inl i) = g x i
    grown x (inr (inl e)) =
        let zero_attempts : row.attempts ≡ 0 = n row (inl refl) in
        omega (arith, ap (λ (z : NotificationOutbox). z.attempts) e)
    grown x (inr (inr k)) = absurd k

due_below : (now : ℕ) (x : NotificationOutbox) → is_due now x ≡ true → x.attempts < x.max_attempts
due_below now x k =
    let (_, l, _) =
      and3_true (is_waiting x.status) (ltb x.attempts x.max_attempts) (leb x.next_attempt_at now)
        k in
    ground arith

-- Whatever the operations on the outbox, no delivery has more attempts than its maximum.
pub Run-IsBounded : (t u : OutboxTables) → Run t u → IsBounded t.outbox → IsBounded u.outbox
unfolding enqueue claim_delivery mark_sent mark_failed requeue_interrupted_deliveries retry_delivery
    delete_channel
Run-IsBounded t u done g = g
Run-IsBounded t u (enqueued rows n r) g =
    Run-IsBounded _ u r (enqueue_rows-IsBounded rows t.outbox n g)
Run-IsBounded t u (claimed_by id now r) g = Run-IsBounded _ u r (
    update_where-all (λ (x : NotificationOutbox). x.attempts ≤ x.max_attempts)
      (λ x. has_id id x && is_due now x) (claimed now) t.outbox (λ x d l. counted x d) g)
  where
    counted :
        (x : NotificationOutbox)
        → (has_id id x && is_due now x) ≡ true
        → suc x.attempts ≤ x.max_attempts
    counted x d = let (_, k) = and_true (has_id id x) (is_due now x) d in due_below now x k
Run-IsBounded t u (marked_sent id now r) g = Run-IsBounded _ u r (
    update_where-all (λ (x : NotificationOutbox). x.attempts ≤ x.max_attempts)
      (λ x. has_id id x && is_sending x.status) (delivered now) t.outbox (λ x d l. l) g)
Run-IsBounded t u (marked_failed id message next is_last now r) g = Run-IsBounded _ u r (
    update_where-all (λ (x : NotificationOutbox). x.attempts ≤ x.max_attempts)
      (λ x. has_id id x && is_sending x.status) (after_failure message next is_last now) t.outbox
      (λ x d l. l) g)
Run-IsBounded t u (recovered cutoff now r) g = Run-IsBounded _ u r (
    update_where-all (λ (x : NotificationOutbox). x.attempts ≤ x.max_attempts)
      (λ (x : NotificationOutbox). is_sending x.status && locked_until cutoff x.locked_at)
      (requeued now) t.outbox (λ x d l. l) g)
Run-IsBounded t u (retried id now r) g = Run-IsBounded _ u r (
    update_where-all (λ (x : NotificationOutbox). x.attempts ≤ x.max_attempts)
      (λ x. has_id id x && is_retryable x.status) (restarted now) t.outbox (λ x d l. omega arith) g)
Run-IsBounded t u (deleted channel now h r) g =
    let (_, k) = guard-passed _ record_not_found _ h in
    Run-IsBounded _ u r (
      subst (λ (s : OutboxTables). IsBounded s.outbox) (ok_injective _ _ k)
        (update_where-all (λ (x : NotificationOutbox). x.attempts ≤ x.max_attempts)
          (λ (x : NotificationOutbox). x.channel_id == channel && is_waiting x.status)
          (with_cancelled now) t.outbox (λ x d l. l) g))

-- Sent, or given up with its channel.
abbrev pub is_final : OutboxStatus → Bool
is_final sent = true
is_final cancelled = true
is_final _ = false

pub update-In :
    (p : NotificationOutbox → Bool) (f : NotificationOutbox → NotificationOutbox)
    (rows : List NotificationOutbox) (x : NotificationOutbox)
    → p x ≡ false
    → In x rows
    → In x (update_where p f rows)
update-In p f rows x n i =
    subst (λ y. In y (update_where p f rows)) (rw n refl) (In-update_where p f x rows i)

pub enqueue_rows-In :
    (rows outbox : List NotificationOutbox) (x : NotificationOutbox)
    → In x outbox
    → In x (enqueue_rows rows outbox)
unfolding enqueue_rows
enqueue_rows-In [] outbox x i = i
enqueue_rows-In (row ∷ rows) outbox x i =
    enqueue_rows-In rows (insert_unless_known row outbox) x
      (elim (Bool-cases
        (any (λ (y : NotificationOutbox). str_eq y.dedup_key row.dedup_key) outbox)) [
          | inl e ↦ rw e i
          | inr e ↦ rw e (In-append_left x outbox (row ∷ []) i)
        ])

pub and_false : (a b : Bool) → b ≡ false → (a && b) ≡ false
and_false a b e = ground arith

idle :
    (x : NotificationOutbox)
    → is_final x.status ≡ true
    → (is_waiting x.status ≡ false)
      × (is_sending x.status ≡ false)
      × (is_retryable x.status ≡ false)
idle x e = ground arith

and_idle : (a b c : Bool) → a ≡ false → (a && b && c) ≡ false
and_idle a b c e = ground arith

-- A delivery that is sent or cancelled stays in the outbox as it is, whatever operations follow: it
-- is not attempted again.
pub Run-final :
    (t u : OutboxTables) (x : NotificationOutbox)
    → Run t u
    → is_final x.status ≡ true
    → In x t.outbox
    → In x u.outbox
unfolding enqueue claim_delivery mark_sent mark_failed requeue_interrupted_deliveries retry_delivery
    delete_channel
Run-final t u x done f i = i
Run-final t u x (enqueued rows n r) f i = Run-final _ u x r f (enqueue_rows-In rows t.outbox x i)
Run-final t u x (claimed_by id now r) f i =
    let (w, _, _) = idle x f in
    Run-final _ u x r f (
      update-In (λ x. has_id id x && is_due now x) (claimed now) t.outbox x
        (and_false (has_id id x) (is_due now x) (
          and_idle (is_waiting x.status) (ltb x.attempts x.max_attempts) (leb x.next_attempt_at now)
            w))
        i)
Run-final t u x (marked_sent id now r) f i =
    let (_, s, _) = idle x f in
    Run-final _ u x r f (
      update-In (λ x. has_id id x && is_sending x.status) (delivered now) t.outbox x
        (and_false (has_id id x) (is_sending x.status) s) i)
Run-final t u x (marked_failed id message next is_last now r) f i =
    let (_, s, _) = idle x f in
    Run-final _ u x r f (
      update-In (λ x. has_id id x && is_sending x.status) (after_failure message next is_last now)
        t.outbox x (and_false (has_id id x) (is_sending x.status) s) i)
Run-final t u x (recovered cutoff now r) f i =
    let (_, s, _) = idle x f in
    Run-final _ u x r f (
      update-In (λ (x : NotificationOutbox). is_sending x.status && locked_until cutoff x.locked_at)
        (requeued now) t.outbox x (rw s refl) i)
Run-final t u x (retried id now r) f i =
    let (_, _, k) = idle x f in
    Run-final _ u x r f (
      update-In (λ x. has_id id x && is_retryable x.status) (restarted now) t.outbox x
        (and_false (has_id id x) (is_retryable x.status) k) i)
Run-final t u x (deleted channel now {s = s} h r) f i =
    let (w, _, _) = idle x f in
    let (_, k) = guard-passed _ record_not_found _ h in
    Run-final s u x r f (
      subst (λ (s : OutboxTables). In x s.outbox) (ok_injective _ s k)
        (update-In (λ (x : NotificationOutbox). x.channel_id == channel && is_waiting x.status)
          (with_cancelled now) t.outbox x
          (and_false (x.channel_id == channel) (is_waiting x.status) w) i))
