-- ===== src/Notifications/Stranding.antt =====
-- A delivery that is interrupted in its last attempt: `RequeueInterrupted` of
-- server/internal/dao/notification.go and whatever the workers do behind it.
use Prim.Native.String.{String}
use text.Mathlib.Text.{◌==◌ as str_eq}
use text.Mathlib.TextEquality.{eq_iff}
use file_share_manager.Prelude.{
  ℕ, ◌-◌, ◌≤◌, ◌==◌, ◌≡◌, ◌≢◌, refl, sym, ap, subst, inl, inr, Bool, true, false, ◌&&◌, List, [],
  ◌∷◌, Option, none, some, ok, guard-passed, ok_injective, In, In-update_where, ltb, leb,
  Bool-cases, arith, if◌then◌else◌,
}
use file_share_manager.Notifications.Outbox.{
  sending, failed, NotificationChannel, NotificationOutbox, OutboxTables, record_not_found,
  is_waiting, is_sending, is_retryable, with_cancelled, create_channel, update_channel,
  delete_channel, enqueue, is_due, has_id, claimed, claim_delivery, delivered, mark_sent,
  after_failure, mark_failed, locked_until, requeued, requeue_interrupted_deliveries, restarted,
  retry_delivery, get_channel, list_due_ids,
}
use file_share_manager.Notifications.Delivery.{
  DeliveryService, fail_delivery, finish, deliver_to, deliver_row, process_delivery, process_each,
  run_deliveries, recover_deliveries,
}
use file_share_manager.Notifications.Attempts.{update-In, enqueue_rows-In, and_false}

-- A delivery that is not being sent and has no attempt left.
pub record IsSpent (x : NotificationOutbox) : Type 0 where
  pub idle : is_sending x.status ≡ false
  pub exhausted_attempts : x.max_attempts ≤ x.attempts

not_due : (w l : Bool) (a b : ℕ) → b ≤ a → (w && ltb a b && l) ≡ false
not_due w l a b h = ground arith

other_id : (a b : String) → b ≢ a → str_eq a b ≡ false
other_id a b n = elim (Bool-cases (str_eq a b)) [
  | inl e ↦ absurd (n (sym ((eq_iff a b).0 e)))
  | inr e ↦ e
]

other_number : (a b : ℕ) → b ≢ a → (a == b) ≡ false
other_number a b n = ground arith

module _ (deliver : NotificationChannel → NotificationOutbox → Option String)
    (hide : String → String) (service : DeliveryService) where
  -- What workers and users do, except for a retry of the delivery and the deletion of its channel:
  -- the rounds and the recovery of a worker, the single operations of several workers in any order,
  -- new deliveries, new and changed channels, and retries and deletions of others.
  pub data Work (id : String) (channel : ℕ) : OutboxTables → OutboxTables → Type 0 where
    ended : {t : OutboxTables} → Work id channel t t
    ran :
        (now : ℕ) {t u : OutboxTables}
        → Work id channel (run_deliveries deliver hide service now t) u
        → Work id channel t u
    processed :
        (any_id : String) (now : ℕ) {t u : OutboxTables}
        → Work id channel (process_delivery deliver hide service any_id now t) u
        → Work id channel t u
    started_again :
        (now : ℕ) {t u : OutboxTables}
        → Work id channel (recover_deliveries deliver hide service now t) u
        → Work id channel t u
    added :
        (rows : List NotificationOutbox) {t u : OutboxTables}
        → Work id channel (enqueue rows t) u
        → Work id channel t u
    channel_created :
        (channel_row : NotificationChannel) {t u : OutboxTables}
        → Work id channel (create_channel channel_row t) u
        → Work id channel t u
    channel_updated :
        (channel_row : NotificationChannel) (now : ℕ) {t u : OutboxTables}
        → Work id channel (update_channel channel_row now t) u
        → Work id channel t u
    claimed_once :
        (any_id : String) (now : ℕ) {t u : OutboxTables}
        → Work id channel (claim_delivery any_id now t).1 u
        → Work id channel t u
    sent_once :
        (any_id : String) (now : ℕ) {t u : OutboxTables}
        → Work id channel (mark_sent any_id now t) u
        → Work id channel t u
    failed_once :
        (any_id message : String) (next : ℕ) (is_last : Bool) (now : ℕ) {t u : OutboxTables}
        → Work id channel (mark_failed any_id message next is_last now t) u
        → Work id channel t u
    retried_other :
        (other : String) (now : ℕ) {t u : OutboxTables}
        → other ≢ id
        → Work id channel (retry_delivery other now t).1 u
        → Work id channel t u
    deleted_other :
        (other now : ℕ) {t s u : OutboxTables}
        → other ≢ channel
        → delete_channel other now t ≡ ok s
        → Work id channel s u
        → Work id channel t u

  module _ (x : NotificationOutbox) (spent : IsSpent x) where
    In-claim_delivery :
        (id : String) (now : ℕ) (t : OutboxTables)
        → In x t.outbox
        → In x (claim_delivery id now t).1.outbox
    unfolding claim_delivery
    In-claim_delivery id now t i =
        update-In (λ y. has_id id y && is_due now y) (claimed now) t.outbox x
          (and_false (has_id id x) (is_due now x) (
            not_due (is_waiting x.status) (leb x.next_attempt_at now) x.attempts x.max_attempts
              spent.exhausted_attempts))
          i

    In-mark_sent :
        (id : String) (now : ℕ) (t : OutboxTables)
        → In x t.outbox
        → In x (mark_sent id now t).outbox
    unfolding mark_sent
    In-mark_sent id now t i =
        update-In (λ y. has_id id y && is_sending y.status) (delivered now) t.outbox x
          (and_false (has_id id x) (is_sending x.status) spent.idle) i

    In-mark_failed :
        (id message : String) (next : ℕ) (is_last : Bool) (now : ℕ) (t : OutboxTables)
        → In x t.outbox
        → In x (mark_failed id message next is_last now t).outbox
    unfolding mark_failed
    In-mark_failed id message next is_last now t i =
        update-In (λ y. has_id id y && is_sending y.status) (after_failure message next is_last now)
          t.outbox x (and_false (has_id id x) (is_sending x.status) spent.idle) i

    In-requeue :
        (cutoff now : ℕ) (t : OutboxTables)
        → In x t.outbox
        → In x (requeue_interrupted_deliveries cutoff now t).outbox
    unfolding requeue_interrupted_deliveries
    In-requeue cutoff now t i =
        update-In
          (λ (y : NotificationOutbox). is_sending y.status && locked_until cutoff y.locked_at)
          (requeued now) t.outbox x (rw spent.idle refl) i

    In-fail_delivery :
        (id : String) (attempts most : ℕ) (cause : String) (now : ℕ) (t : OutboxTables)
        → In x t.outbox
        → In x (fail_delivery deliver hide service id attempts most cause now t).outbox
    unfolding fail_delivery
    In-fail_delivery id attempts most cause now t i = In-mark_failed id _ _ _ now t i

    In-deliver_row :
        (id : String) (row : Option NotificationOutbox) (now : ℕ) (t : OutboxTables)
        → In x t.outbox
        → In x (deliver_row deliver hide service id row now t).outbox
    In-deliver_row id none now t i = In-fail_delivery id 1 1 _ now t i
    In-deliver_row id (some row) now t i = to (get_channel row.channel_id t)
      where
        finished :
            (channel : NotificationChannel) (o : Option String)
            → In x (finish deliver hide service row channel o now t).outbox
        finished channel none = In-mark_sent row.id now t i
        finished channel (some cause) = In-fail_delivery row.id _ _ cause now t i

        to :
            (o : Option NotificationChannel)
            → In x (deliver_to deliver hide service row o now t).outbox
        to none = In-fail_delivery row.id _ _ _ now t i
        to (some channel) = elim (Bool-cases (channel.status == 1)) [
          | inl e ↦ rw e (finished channel (deliver channel row))
          | inr e ↦ rw e (In-fail_delivery row.id _ _ _ now t i)
        ]

    In-process_delivery :
        (id : String) (now : ℕ) (t : OutboxTables)
        → In x t.outbox
        → In x (process_delivery deliver hide service id now t).outbox
    unfolding process_delivery
    In-process_delivery id now t i = elim (Bool-cases (claim_delivery id now t).0) [
      | inl e ↦ rw e (In-deliver_row id _ now _ (In-claim_delivery id now t i))
      | inr e ↦ rw e (In-claim_delivery id now t i)
    ]

    In-process_each :
        (ids : List String) (now : ℕ) (t : OutboxTables)
        → In x t.outbox
        → In x (process_each deliver hide service ids now t).outbox
    unfolding process_each
    In-process_each [] now t i = i
    In-process_each (id ∷ ids) now t i = In-process_each ids now _ (In-process_delivery id now t i)

    -- No sequence of these steps changes a delivery without attempts.
    Work-In : (t u : OutboxTables) → Work x.id x.channel_id t u → In x t.outbox → In x u.outbox
    unfolding run_deliveries recover_deliveries enqueue retry_delivery delete_channel create_channel
        update_channel
    Work-In t u ended i = i
    Work-In t u (ran now w) i =
        Work-In _ u w (In-process_each (list_due_ids now service.batch_size t) now t i)
    Work-In t u (processed id now w) i = Work-In _ u w (In-process_delivery id now t i)
    Work-In t u (started_again now w) i =
        Work-In _ u w (In-requeue (now - service.stale_after) now t i)
    Work-In t u (added rows w) i = Work-In _ u w (enqueue_rows-In rows t.outbox x i)
    Work-In t u (channel_created row w) i = Work-In _ u w i
    Work-In t u (channel_updated row now w) i = Work-In _ u w i
    Work-In t u (claimed_once id now w) i = Work-In _ u w (In-claim_delivery id now t i)
    Work-In t u (sent_once id now w) i = Work-In _ u w (In-mark_sent id now t i)
    Work-In t u (failed_once id message next is_last now w) i =
        Work-In _ u w (In-mark_failed id message next is_last now t i)
    Work-In t u (retried_other other now n w) i = Work-In _ u w (
        update-In (λ y. has_id other y && is_retryable y.status) (restarted now) t.outbox x
          (rw (other_id x.id other n) refl) i)
    Work-In t u (deleted_other other now {s = s} n h w) i =
        let (_, k) = guard-passed _ record_not_found _ h in
        Work-In s u w (
          subst (λ (r : OutboxTables). In x r.outbox) (ok_injective _ s k)
            (update-In (λ (y : NotificationOutbox). y.channel_id == other && is_waiting y.status)
              (with_cancelled now) t.outbox x (rw (other_number x.channel_id other n) refl) i))

  -- A delivery that is recovered from an interruption in its last attempt is marked as failed, to be
  -- tried again, but stays so, with no attempt more and never exhausted, whatever rounds, recoveries
  -- and single operations of workers follow, until a user retries it or deletes its channel.
  pub recover_deliveries-stranded :
      (t u : OutboxTables) (row : NotificationOutbox) (at now : ℕ)
      → In row t.outbox
      → row.status ≡ sending
      → row.locked_at ≡ some at
      → at ≤ now - service.stale_after
      → row.attempts ≡ row.max_attempts
      → Work row.id row.channel_id (recover_deliveries deliver hide service now t) u
      → In (requeued now row) u.outbox
        × ((requeued now row).status ≡ failed)
        × ((requeued now row).attempts ≡ row.max_attempts)
  unfolding recover_deliveries requeue_interrupted_deliveries
  recover_deliveries-stranded t u row at now i s k l e w = (
    Work-In (requeued now row) (record { idle = refl; exhausted_attempts = omega arith })
        (recover_deliveries deliver hide service now t) u w recovered,
    refl,
    e,
  )
    where
      stale :
          (is_sending row.status && locked_until (now - service.stale_after) row.locked_at) ≡ true
      stale = rw (s, k) (ground arith)

      recovered : In (requeued now row) (recover_deliveries deliver hide service now t).outbox
      recovered =
          subst (λ y. In y (recover_deliveries deliver hide service now t).outbox)
            (ap (λ b. if b then requeued now row else row) stale)
            (In-update_where
              (λ (y : NotificationOutbox).
                is_sending y.status && locked_until (now - service.stale_after) y.locked_at)
              (requeued now) row t.outbox i)
