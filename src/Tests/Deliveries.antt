-- ===== src/Tests/Deliveries.antt =====
-- A delivery to a webhook that never answers, and the notifications of one user.
use Prim.Native.String.{String}
use file_share_manager.Prelude.{
  ◌≡◌, refl, [], ◌∷◌, Option, none, some, In, inl, if◌then◌else◌, arith,
}
use file_share_manager.Notifications.Outbox.{
  pending, sending, failed, exhausted, NotificationChannel, NotificationOutbox, OutboxTables,
  is_due, claimed, delivered, claim_delivery, get_outbox, get_channel, mark_sent, requeued,
}
use file_share_manager.Notifications.Delivery.{
  DeliveryService, process_delivery, run_deliveries, recover_deliveries,
}
use file_share_manager.Notifications.Attempts.{
  done, claimed_by, marked_sent, IsBounded, Run-IsBounded, Run-final,
}
use file_share_manager.Notifications.Outcome.{attempt_error, attempted, process_delivery-row}
use file_share_manager.Notifications.Stranding.{ran, ended, recover_deliveries-stranded}
use file_share_manager.Notifications.Exhaustion.{IsUnique, rounds, rounds-exhausted}

abbrev webhook : NotificationChannel
webhook = record {
  id = 1;
  name = "ops";
  channel_type = "webhook";
  config_ciphertext = "";
  status = 1;
  remark = "";
  updated_at = 100;
}

abbrev waiting_row : NotificationOutbox
waiting_row = record {
  id = "a";
  dedup_key = "k";
  channel_id = 1;
  channel_name = "ops";
  channel_type = "webhook";
  event_type = "system:test";
  severity = "info";
  title = "test";
  content = "test";
  payload_json = "{}";
  status = pending;
  attempts = 0;
  max_attempts = 2;
  next_attempt_at = 100;
  locked_at = none;
  sent_at = none;
  error_message = "";
  created_at = 100;
  updated_at = 100;
}

abbrev queue : OutboxTables
queue = record { channels = webhook ∷ []; outbox = waiting_row ∷ [] }

abbrev no_answer : NotificationChannel → NotificationOutbox → Option String
no_answer channel row = some "timeout"

abbrev as_is : String → String
as_is message = message

abbrev worker : DeliveryService
worker = record { batch_size = 10; base_retry = 5; max_retry = 60; stale_after = 30 }

alone :
    (row : NotificationOutbox) (x y : NotificationOutbox)
    → In x (row ∷ [])
    → In y (row ∷ [])
    → x ≡ y
alone row x y i j = ground arith

only_row : IsUnique queue.outbox
only_row x y i j e = alone waiting_row x y i j

in_queue : get_outbox "a" queue ≡ some waiting_row
unfolding get_outbox
in_queue = refl

fresh-IsBounded : IsBounded queue.outbox
fresh-IsBounded x i = ground arith

Run-IsBounded_example : IsBounded (mark_sent "a" 120 (claim_delivery "a" 110 queue).1).outbox
Run-IsBounded_example =
    Run-IsBounded queue (mark_sent "a" 120 (claim_delivery "a" 110 queue).1)
      (claimed_by "a" 110 (marked_sent "a" 120 done)) fresh-IsBounded

abbrev finished_queue : OutboxTables
finished_queue = mark_sent "a" 120 (claim_delivery "a" 110 queue).1

abbrev sent_row : NotificationOutbox
sent_row = delivered 120 (claimed 110 waiting_row)

has_sent_row : In sent_row finished_queue.outbox
unfolding mark_sent claim_delivery
has_sent_row = inl refl

Run-final_example : In sent_row (claim_delivery "a" 200 finished_queue).1.outbox
Run-final_example =
    Run-final finished_queue (claim_delivery "a" 200 finished_queue).1 sent_row
      (claimed_by "a" 200 done) refl has_sent_row

process_delivery-row_example :
    get_outbox "a" (process_delivery no_answer as_is worker "a" 110 queue)
    ≡ some (
        if is_due 110 waiting_row
        then attempted no_answer as_is worker
            (attempt_error no_answer as_is worker (get_channel 1 queue) (claimed 110 waiting_row))
            110
            (claimed 110 waiting_row)
        else waiting_row)
process_delivery-row_example =
    process_delivery-row no_answer as_is worker "a" 110 queue waiting_row in_queue
      (λ x i e. alone waiting_row x waiting_row i (inl refl))

rounds-exhausted_example :
    (x : NotificationOutbox) × (get_outbox "a" (rounds no_answer as_is worker 2 "a" queue) ≡ some x)
    × (x.status ≡ exhausted)
    × (x.attempts ≡ waiting_row.max_attempts)
rounds-exhausted_example =
    rounds-exhausted no_answer as_is worker (λ c x. ("timeout", refl)) 2 "a" queue waiting_row
      in_queue only_row refl (omega arith) (omega arith)

abbrev last_attempt : NotificationOutbox
last_attempt = record waiting_row { status = sending; attempts = 2; locked_at = some 110 }

abbrev interrupted : OutboxTables
interrupted = record queue { outbox = last_attempt ∷ [] }

recover_deliveries-stranded_example :
    In
      (requeued 200 last_attempt)
      (run_deliveries no_answer as_is worker 500
        (recover_deliveries no_answer as_is worker 200 interrupted)).outbox
    × ((requeued 200 last_attempt).status ≡ failed)
    × ((requeued 200 last_attempt).attempts ≡ last_attempt.max_attempts)
recover_deliveries-stranded_example =
    recover_deliveries-stranded no_answer as_is worker interrupted
      (run_deliveries no_answer as_is worker 500
        (recover_deliveries no_answer as_is worker 200 interrupted))
      last_attempt 110 200 (inl refl) refl refl (omega arith) refl (ran 500 ended)
