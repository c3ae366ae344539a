-- ===== src/Notifications/Outcome.antt =====
-- The row of a delivery behind one round of the worker of
-- server/internal/service/notification/service.go.
use Prim.Native.String.{String}
use text.Mathlib.TextEquality.{eq_iff}
use file_share_manager.Prelude.{
  find_first-guarded, any-guarded, ℕ, ◌+◌, ◌==◌, leb, ◌≡◌, refl, sym, ap, ◌∙◌, subst, inl, inr,
  true, false≢true, ◌&&◌, Option, none, some, any, any-In, In, find_first_sound, Bool-cases,
  and_true, if◌then◌else◌,
}
use file_share_manager.Notifications.Outbox.{
  NotificationChannel, NotificationOutbox, OutboxTables, is_sending, is_due, has_id, claimed,
  claim_delivery, get_outbox, get_channel, delivered, mark_sent, after_failure, mark_failed,
}
use file_share_manager.Notifications.Delivery.{
  DeliveryService, notification_retry_delay, fail_delivery, finish, deliver_to, process_delivery,
}

module _ (deliver : NotificationChannel → NotificationOutbox → Option String)
    (hide : String → String) (service : DeliveryService) where
  -- The message of the failure of an attempt, if it fails.
  abbrev pub attempt_error : Option NotificationChannel → NotificationOutbox → Option String
  attempt_error none row = some "通知渠道不存在或已停用"
  attempt_error (some channel) row =
      if channel.status == 1 then deliver channel row else some "通知渠道不存在或已停用"

  -- The row behind an attempt.
  abbrev pub attempted : Option String → ℕ → NotificationOutbox → NotificationOutbox
  attempted none now row = delivered now row
  attempted (some cause) now row =
      after_failure (hide cause)
        (now + notification_retry_delay service.base_retry service.max_retry row.attempts)
        (leb row.max_attempts row.attempts) now row

  get_outbox-mark_sent :
      (id : String) (now : ℕ) (t : OutboxTables) (row : NotificationOutbox)
      → get_outbox id t ≡ some row
      → is_sending row.status ≡ true
      → get_outbox id (mark_sent id now t) ≡ some (delivered now row)
  unfolding get_outbox mark_sent
  get_outbox-mark_sent id now t row h s =
      find_first-guarded (has_id id) (λ (x : NotificationOutbox). is_sending x.status)
        (delivered now) t.outbox row (λ y. refl) h
      ∙ ap (λ b. some (if b then delivered now row else row)) s

  get_outbox-fail_delivery :
      (id cause : String) (now : ℕ) (t : OutboxTables) (row : NotificationOutbox)
      → get_outbox id t ≡ some row
      → is_sending row.status ≡ true
      → get_outbox id
          (fail_delivery deliver hide service id row.attempts row.max_attempts cause now t)
        ≡ some (attempted (some cause) now row)
  unfolding get_outbox fail_delivery mark_failed
  get_outbox-fail_delivery id cause now t row h s =
      find_first-guarded (has_id id) (λ (x : NotificationOutbox). is_sending x.status)
        (after_failure (hide cause)
          (now + notification_retry_delay service.base_retry service.max_retry row.attempts)
          (leb row.max_attempts row.attempts) now)
        t.outbox row (λ y. refl) h
      ∙ ap (λ b. some (if b then attempted (some cause) now row else row)) s

  row-deliver_to :
      (channel : Option NotificationChannel) (now : ℕ) (t : OutboxTables) (row : NotificationOutbox)
      → get_outbox row.id t ≡ some row
      → is_sending row.status ≡ true
      → get_outbox row.id (deliver_to deliver hide service row channel now t)
        ≡ some (attempted (attempt_error channel row) now row)
  row-deliver_to none now t row h s = get_outbox-fail_delivery row.id "通知渠道不存在或已停用" now t row h s
  row-deliver_to (some channel) now t row h s = elim (Bool-cases (channel.status == 1)) [
    | inl e ↦ rw e (finished (deliver channel row))
    | inr e ↦ rw e (get_outbox-fail_delivery row.id "通知渠道不存在或已停用" now t row h s)
  ]
    where
      finished :
          (o : Option String)
          → get_outbox row.id (finish deliver hide service row channel o now t)
            ≡ some (attempted o now row)
      finished none = get_outbox-mark_sent row.id now t row h s
      finished (some cause) = get_outbox-fail_delivery row.id cause now t row h s

  get_outbox-claim_delivery :
      (id : String) (now : ℕ) (t : OutboxTables) (row : NotificationOutbox)
      → get_outbox id t ≡ some row
      → get_outbox id (claim_delivery id now t).1
        ≡ some (if is_due now row then claimed now row else row)
  unfolding get_outbox claim_delivery
  get_outbox-claim_delivery id now t row h =
      find_first-guarded (has_id id) (is_due now) (claimed now) t.outbox row (λ y. refl) h

  same_channels :
      (id : String) (now : ℕ) (t : OutboxTables) (channel : ℕ)
      → get_channel channel (claim_delivery id now t).1 ≡ get_channel channel t
  unfolding get_channel claim_delivery
  same_channels id now t channel = refl

  pub get_outbox-id :
      (id : String) (t : OutboxTables) (row : NotificationOutbox)
      → get_outbox id t ≡ some row
      → (row.id ≡ id) × In row t.outbox
  unfolding get_outbox
  get_outbox-id id t row h =
      let (i, k) = find_first_sound (has_id id) t.outbox row h in ((eq_iff row.id id).0 k, i)

  -- The answer of the claim is whether the delivery is due.
  claim_delivery-due :
      (id : String) (now : ℕ) (t : OutboxTables) (row : NotificationOutbox)
      → get_outbox id t ≡ some row
      → ((x : NotificationOutbox) → In x t.outbox → x.id ≡ row.id → x ≡ row)
      → (claim_delivery id now t).0 ≡ is_due now row
  unfolding claim_delivery get_outbox
  claim_delivery-due id now t row h unique = elim (Bool-cases (is_due now row)) [
    | inl d ↦ any-guarded (has_id id) (is_due now) (claimed now) t.outbox row h d ∙ sym d
    | inr d ↦ elim (Bool-cases (any (λ x. has_id id x && is_due now x) t.outbox)) [
      | inl a ↦
          let (x, i, k) = any-In (λ x. has_id id x && is_due now x) t.outbox a in
          let (m, e) = and_true (has_id id x) (is_due now x) k in
          let same = unique x i ((eq_iff x.id id).0 m ∙ sym (get_outbox-id id t row h).0) in
          absurd (false≢true (sym d ∙ ap (is_due now) (sym same) ∙ e))
      | inr a ↦ a ∙ sym d
    ]
  ]

  -- The row of a delivery behind `process`, on every branch: a delivery that is due is sent or
  -- fails with the error of its attempt, and one that is not due is left alone. The identity of the
  -- row is assumed to be its own.
  pub process_delivery-row :
      (id : String) (now : ℕ) (t : OutboxTables) (row : NotificationOutbox)
      → get_outbox id t ≡ some row
      → ((x : NotificationOutbox) → In x t.outbox → x.id ≡ row.id → x ≡ row)
      → get_outbox id (process_delivery deliver hide service id now t)
        ≡ some (
            if is_due now row
            then attempted
                (attempt_error (get_channel row.channel_id t) (claimed now row))
                now
                (claimed now row)
            else row)
  unfolding process_delivery
  process_delivery-row id now t row h unique = elim (Bool-cases (is_due now row)) [
    | inl d ↦
        let found : get_outbox id (claim_delivery id now t).1 ≡ some (claimed now row) =
          get_outbox-claim_delivery id now t row h
          ∙ ap (λ b. some (if b then claimed now row else row)) d in
        rw (claim_delivery-due id now t row h unique, d, found)
          (delivered_row (get_outbox-id id t row h).0 found)
    | inr d ↦
        rw (claim_delivery-due id now t row h unique, d)
          (get_outbox-claim_delivery id now t row h
            ∙ ap (λ b. some (if b then claimed now row else row)) d)
  ]
    where
      delivered_row :
          row.id ≡ id
          → get_outbox id (claim_delivery id now t).1 ≡ some (claimed now row)
          → get_outbox id (
              deliver_to deliver hide service
                (claimed now row)
                (get_channel row.channel_id (claim_delivery id now t).1)
                now
                (claim_delivery id now t).1)
            ≡ some (
                attempted
                  (attempt_error (get_channel row.channel_id t) (claimed now row))
                  now
                  (claimed now row))
      delivered_row e found =
          subst
            (λ k.
              get_outbox k (claim_delivery id now t).1 ≡ some (claimed now row)
              → get_outbox k (
                  deliver_to deliver hide service (claimed now row)
                    (get_channel row.channel_id (claim_delivery id now t).1) now
                    (claim_delivery id now t).1)
                ≡ some (
                    attempted (attempt_error (get_channel row.channel_id t) (claimed now row)) now
                      (claimed now row)))
            e
            (λ found'.
              row-deliver_to (get_channel row.channel_id (claim_delivery id now t).1) now
                (claim_delivery id now t).1 (claimed now row) found' refl
              ∙ ap (λ c. some (attempted (attempt_error c (claimed now row)) now (claimed now row)))
                  (same_channels id now t row.channel_id))
            found
