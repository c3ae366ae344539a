-- ===== src/Notifications/Exhaustion.antt =====
-- Deliveries that fail again and again: rounds of `process` of
-- server/internal/service/notification/service.go.
use Prim.Native.String.{String}
use file_share_manager.Prelude.{
  ℕ, zero, suc, ◌+◌, ◌<◌, ◌==◌, ltb, leb, ◌≡◌, refl, sym, ap, ◌∙◌, inl, inr, Bool, true, ◌&&◌, List,
  Option, none, some, In, update_where, update_where-In, Bool-cases, arith, if◌then◌else◌,
}
use file_share_manager.Notifications.Outbox.{
  failed, exhausted, NotificationChannel, NotificationOutbox, OutboxTables, is_waiting, is_due,
  claimed, claim_delivery, get_outbox, get_channel, mark_sent, mark_failed,
}
use file_share_manager.Notifications.Delivery.{
  DeliveryService, fail_delivery, finish, deliver_to, deliver_row, process_delivery,
}
use file_share_manager.Notifications.Outcome.{
  attempt_error, attempted, get_outbox-id, process_delivery-row,
}

-- The identity is a primary key.
abbrev pub IsUnique : List NotificationOutbox → Type 0
IsUnique rows = (x y : NotificationOutbox) → In x rows → In y rows → x.id ≡ y.id → x ≡ y

IsUnique-update :
    (p : NotificationOutbox → Bool) (f : NotificationOutbox → NotificationOutbox)
    (rows : List NotificationOutbox)
    → ((x : NotificationOutbox) → (f x).id ≡ x.id)
    → IsUnique rows
    → IsUnique (update_where p f rows)
IsUnique-update p f rows keeps unique x y i j e =
    let (a, ia, ea) = update_where-In p f x rows i in
    let (b, jb, eb) = update_where-In p f y rows j in
    ea
    ∙ ap (λ z. if p z then f z else z)
        (unique a b ia jb (
          sym (own a)
          ∙ ap (λ (z : NotificationOutbox). z.id) (sym ea)
          ∙ e
          ∙ ap (λ (z : NotificationOutbox). z.id) eb
          ∙ own b))
    ∙ sym eb
  where
    own : (a : NotificationOutbox) → (if p a then f a else a).id ≡ a.id
    own a = elim (Bool-cases (p a)) [ inl t ↦ rw t (keeps a) | inr t ↦ rw t refl ]

module _ (deliver : NotificationChannel → NotificationOutbox → Option String)
    (hide : String → String) (service : DeliveryService) where
  IsUnique-fail_delivery :
      (id cause : String) (attempts most now : ℕ) (t : OutboxTables)
      → IsUnique t.outbox
      → IsUnique (fail_delivery deliver hide service id attempts most cause now t).outbox
  unfolding fail_delivery mark_failed
  IsUnique-fail_delivery id cause attempts most now t u = IsUnique-update _ _ t.outbox (λ x. refl) u

  IsUnique-mark_sent :
      (id : String) (now : ℕ) (t : OutboxTables)
      → IsUnique t.outbox
      → IsUnique (mark_sent id now t).outbox
  unfolding mark_sent
  IsUnique-mark_sent id now t u = IsUnique-update _ _ t.outbox (λ x. refl) u

  IsUnique-deliver_row :
      (id : String) (row : Option NotificationOutbox) (now : ℕ) (t : OutboxTables)
      → IsUnique t.outbox
      → IsUnique (deliver_row deliver hide service id row now t).outbox
  IsUnique-deliver_row id none now t u = IsUnique-fail_delivery id _ 1 1 now t u
  IsUnique-deliver_row id (some row) now t u = to (get_channel row.channel_id t)
    where
      finished :
          (channel : NotificationChannel) (o : Option String)
          → IsUnique (finish deliver hide service row channel o now t).outbox
      finished channel none = IsUnique-mark_sent row.id now t u
      finished channel (some cause) = IsUnique-fail_delivery row.id cause _ _ now t u

      to :
          (o : Option NotificationChannel)
          → IsUnique (deliver_to deliver hide service row o now t).outbox
      to none = IsUnique-fail_delivery row.id _ _ _ now t u
      to (some channel) = elim (Bool-cases (channel.status == 1)) [
        | inl e ↦ rw e (finished channel (deliver channel row))
        | inr e ↦ rw e (IsUnique-fail_delivery row.id _ _ _ now t u)
      ]

  IsUnique-claim_delivery :
      (id : String) (now : ℕ) (t : OutboxTables)
      → IsUnique t.outbox
      → IsUnique (claim_delivery id now t).1.outbox
  unfolding claim_delivery
  IsUnique-claim_delivery id now t u = IsUnique-update _ _ t.outbox (λ x. refl) u

  IsUnique-process_delivery :
      (id : String) (now : ℕ) (t : OutboxTables)
      → IsUnique t.outbox
      → IsUnique (process_delivery deliver hide service id now t).outbox
  unfolding process_delivery
  IsUnique-process_delivery id now t u = elim (Bool-cases (claim_delivery id now t).0) [
    | inl e ↦ rw e (
        IsUnique-deliver_row id (get_outbox id (claim_delivery id now t).1) now
          (claim_delivery id now t).1 (IsUnique-claim_delivery id now t u))
    | inr e ↦ rw e (IsUnique-claim_delivery id now t u)
  ]

  -- The time at which a delivery is due.
  abbrev pub due_at : Option NotificationOutbox → ℕ
  due_at none = 0
  due_at (some x) = x.next_attempt_at

  -- Rounds of the worker, each at the time at which the delivery is due.
  unfoldable pub rounds : ℕ → String → OutboxTables → OutboxTables
  rounds zero id t = t
  rounds (suc n) id t =
      rounds n id (process_delivery deliver hide service id (due_at (get_outbox id t)) t)

  module _
      (broken : (c : NotificationChannel) (x : NotificationOutbox)
        → (cause : String) × (deliver c x ≡ some cause)) where
    always_fails :
        (channel : Option NotificationChannel) (x : NotificationOutbox)
        → (cause : String) × (attempt_error deliver hide service channel x ≡ some cause)
    always_fails none x = ("通知渠道不存在或已停用", refl)
    always_fails (some channel) x = elim (Bool-cases (channel.status == 1)) [
      | inl e ↦ let (cause, h) = broken channel x in (cause, rw e h)
      | inr e ↦ ("通知渠道不存在或已停用", rw e refl)
    ]

    -- The row behind one more failure.
    failed_round :
        (id : String) (t : OutboxTables) (row : NotificationOutbox)
        → get_outbox id t ≡ some row
        → IsUnique t.outbox
        → is_waiting row.status ≡ true
        → row.attempts < row.max_attempts
        → (x : NotificationOutbox) × (get_outbox id
              (process_delivery deliver hide service id (due_at (get_outbox id t)) t)
            ≡ some x)
          × (x.attempts ≡ suc row.attempts)
          × (x.max_attempts ≡ row.max_attempts)
          × (x.status ≡ (if leb row.max_attempts (suc row.attempts) then exhausted else failed))
    failed_round id t row h u w l =
        let now = row.next_attempt_at in
        let (cause, f) = always_fails (get_channel row.channel_id t) (claimed now row) in
        (
          attempted deliver hide service (some cause) now (claimed now row),
          ap (λ k. get_outbox id (process_delivery deliver hide service id (due_at k) t)) h
              ∙ process_delivery-row deliver hide service id now t row h
                  (λ x i e. u x row i (get_outbox-id deliver hide service id t row h).1 e)
              ∙ ap
                  (λ b. some (
                    if b
                    then attempted deliver hide service
                        (attempt_error deliver hide service (get_channel row.channel_id t)
                          (claimed now row))
                        now (claimed now row)
                    else row))
                  (due row w l)
              ∙ ap (λ o. some (attempted deliver hide service o now (claimed now row))) f,
          refl,
          refl,
          refl,
        )
      where
        due :
            (row : NotificationOutbox)
            → is_waiting row.status ≡ true
            → row.attempts < row.max_attempts
            → is_due row.next_attempt_at row ≡ true
        due row w l = rw w (numbers row.attempts row.max_attempts row.next_attempt_at l)
          where
            numbers : (a b n : ℕ) → a < b → (true && ltb a b && leb n n) ≡ true
            numbers a b n l = ground arith

    -- A waiting delivery of which every attempt fails is exhausted once the worker has made the
    -- attempts that are left, each at the time at which the delivery is due.
    pub rounds-exhausted :
        (left : ℕ) (id : String) (t : OutboxTables) (row : NotificationOutbox)
        → get_outbox id t ≡ some row
        → IsUnique t.outbox
        → is_waiting row.status ≡ true
        → 0 < left
        → row.attempts + left ≡ row.max_attempts
        → (x : NotificationOutbox) × (get_outbox id (rounds left id t) ≡ some x)
          × (x.status ≡ exhausted)
          × (x.attempts ≡ row.max_attempts)
    unfolding rounds
    rounds-exhausted zero id t row h u w p e = absurd (omega arith)
    rounds-exhausted (suc zero) id t row h u w p e =
        let (x, g, a, m, s) = failed_round id t row h u w (omega arith) in
        (x, g, s ∙ last row.attempts row.max_attempts e, a ∙ omega arith)
      where
        last : (a b : ℕ) → a + 1 ≡ b → (if leb b (suc a) then exhausted else failed) ≡ exhausted
        last a b e = ground arith
    rounds-exhausted (suc (suc left)) id t row h u w p e =
        let (x, g, a, m, s) = failed_round id t row h u w (omega arith) in
        let again : x.status ≡ failed = s ∙ more row.attempts row.max_attempts left e in
        let (y, k, q, b) =
          rounds-exhausted (suc left) id
            (process_delivery deliver hide service id (due_at (get_outbox id t)) t) x g
            (IsUnique-process_delivery id (due_at (get_outbox id t)) t u) (rw again refl)
            (omega arith) (omega (arith, a, m, e)) in
        (y, k, q, b ∙ m)
      where
        more :
            (a b left : ℕ)
            → a + suc (suc left) ≡ b
            → (if leb b (suc a) then exhausted else failed) ≡ failed
        more a b left e = ground arith
