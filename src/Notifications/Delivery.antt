-- ===== src/Notifications/Delivery.antt =====
-- The worker of the outbox: `process`, `fail` and `runOnce` of the notification service. The
-- decryption of a channel's settings with the delivery behind it is the parameter `deliver`, which
-- answers with the message of the error, if there is one; `hide` removes secrets from it. One round
-- handles its deliveries one after another, by a clock that stands still.
use Prim.Native.String.{String}
use file_share_manager.Prelude.{
  ℕ, zero, suc, ◌+◌, ◌-◌, ◌*◌, ◌==◌, ltb, leb, List, [], ◌∷◌, Option, none, some, if◌then◌else◌,
}
use file_share_manager.Notifications.Outbox.{
  NotificationChannel, NotificationOutbox, OutboxTables, list_due_ids, claim_delivery, get_outbox,
  get_channel, mark_sent, mark_failed, requeue_interrupted_deliveries,
}

-- The loop of `notificationRetryDelay`, with the number of rounds that are left.
unfoldable pub doubled_below : ℕ → ℕ → ℕ → ℕ
doubled_below maximum zero delay = delay
doubled_below maximum (suc rounds) delay =
    let further = doubled_below maximum rounds (delay * 2) in
    if ltb delay maximum then further else delay

-- An attempt below 1 counts as 1.
unfoldable pub notification_retry_delay : ℕ → ℕ → ℕ → ℕ
notification_retry_delay base maximum attempt =
    let delay = doubled_below maximum (attempt - 1) base in
    if ltb maximum delay then maximum else delay

pub record DeliveryService : Type 0 where
  pub batch_size : ℕ
  pub base_retry : ℕ
  pub max_retry : ℕ
  pub stale_after : ℕ

module _ (deliver : NotificationChannel → NotificationOutbox → Option String)
    (hide : String → String) (service : DeliveryService) where
  unfoldable pub fail_delivery : String → ℕ → ℕ → String → ℕ → OutboxTables → OutboxTables
  fail_delivery id attempts max_attempts cause now t =
      mark_failed id (hide cause)
        (now + notification_retry_delay service.base_retry service.max_retry attempts)
        (leb max_attempts attempts) now t

  -- What follows once the row and its channel are loaded.
  abbrev pub finish :
      NotificationOutbox → NotificationChannel → Option String → ℕ → OutboxTables → OutboxTables
  finish row channel none now t = mark_sent row.id now t
  finish row channel (some cause) now t =
      fail_delivery row.id row.attempts row.max_attempts cause now t

  abbrev pub deliver_to :
      NotificationOutbox → Option NotificationChannel → ℕ → OutboxTables → OutboxTables
  deliver_to row none now t = fail_delivery row.id row.attempts row.max_attempts "通知渠道不存在或已停用" now t
  deliver_to row (some channel) now t =
      if channel.status == 1
      then finish row channel (deliver channel row) now t
      else fail_delivery row.id row.attempts row.max_attempts "通知渠道不存在或已停用" now t

  abbrev pub deliver_row : String → Option NotificationOutbox → ℕ → OutboxTables → OutboxTables
  deliver_row id none now t =
      fail_delivery id 1 1 "notification outbox row could not be loaded" now t
  deliver_row id (some row) now t = deliver_to row (get_channel row.channel_id t) now t

  unfoldable pub process_delivery : String → ℕ → OutboxTables → OutboxTables
  process_delivery id now t =
      let (is_claimed, after) = claim_delivery id now t in
      if is_claimed then deliver_row id (get_outbox id after) now after else after

  unfoldable pub process_each : List String → ℕ → OutboxTables → OutboxTables
  process_each [] now t = t
  process_each (id ∷ ids) now t = process_each ids now (process_delivery id now t)

  unfoldable pub run_deliveries : ℕ → OutboxTables → OutboxTables
  run_deliveries now t = process_each (list_due_ids now service.batch_size t) now t

  -- The recovery when the worker starts.
  unfoldable pub recover_deliveries : ℕ → OutboxTables → OutboxTables
  recover_deliveries now t = requeue_interrupted_deliveries (now - service.stale_after) now t
