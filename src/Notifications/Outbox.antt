-- ===== src/Notifications/Outbox.antt =====
-- The outbox of notifications: the channels and the deliveries to them.
use Prim.Native.String.{String, len, slice}
use text.Mathlib.Text.{◌==◌ as str_eq}
use file_share_manager.Prelude.{
  ℕ, suc, ◌==◌, ltb, leb, Bool, true, false, ◌&&◌, ◌||◌, not, List, [], ◌∷◌, ◌++◌, map, Option,
  none, some, Result, ok, ◌>>◌, guard, any, select, find_first, update_where, sort_by, take,
  if◌then◌else◌,
}

pub data OutboxStatus : Type 0 where
  pending sending sent failed exhausted cancelled : OutboxStatus

pub record NotificationChannel : Type 0 where
  pub id : ℕ
  pub name : String
  pub channel_type : String
  pub config_ciphertext : String
  pub status : ℕ
  pub remark : String
  pub updated_at : ℕ

pub record NotificationOutbox : Type 0 where
  pub id : String
  pub dedup_key : String
  pub channel_id : ℕ
  pub channel_name : String
  pub channel_type : String
  pub event_type : String
  pub severity : String
  pub title : String
  pub content : String
  pub payload_json : String
  pub status : OutboxStatus
  pub attempts : ℕ
  pub max_attempts : ℕ
  pub next_attempt_at : ℕ
  pub locked_at : Option ℕ
  pub sent_at : Option ℕ
  pub error_message : String
  pub created_at : ℕ
  pub updated_at : ℕ

pub record OutboxTables : Type 0 where
  pub channels : List NotificationChannel
  pub outbox : List NotificationOutbox

pub data ChannelError : Type 0 where
  record_not_found : ChannelError

-- `status IN ('pending', 'failed')`.
abbrev pub is_waiting : OutboxStatus → Bool
is_waiting pending = true
is_waiting failed = true
is_waiting _ = false

abbrev pub is_sending : OutboxStatus → Bool
is_sending sending = true
is_sending _ = false

-- `status IN ('failed', 'exhausted')`.
abbrev pub is_retryable : OutboxStatus → Bool
is_retryable failed = true
is_retryable exhausted = true
is_retryable _ = false

-- `Create` fills the status 0 with the default 1 of the model.
abbrev pub inserted_status : ℕ → ℕ
inserted_status status = if status == 0 then 1 else status

unfoldable pub create_channel : NotificationChannel → OutboxTables → OutboxTables
create_channel channel t = record t {
  channels = t.channels ++ record channel { status = inserted_status channel.status } ∷ [];
}

unfoldable pub update_channel : NotificationChannel → ℕ → OutboxTables → OutboxTables
update_channel channel now t = record t {
  channels =
      update_where (λ (c : NotificationChannel). c.id == channel.id)
        (λ c. record c {
          name = channel.name;
          channel_type = channel.channel_type;
          config_ciphertext = channel.config_ciphertext;
          status = channel.status;
          remark = channel.remark;
          updated_at = now;
        })
        t.channels;
}

abbrev pub with_cancelled : ℕ → NotificationOutbox → NotificationOutbox
with_cancelled now x = record x { status = cancelled; error_message = "通知渠道已删除"; updated_at = now }

-- A channel that is not there fails the transaction, the cancellations included.
unfoldable pub delete_channel : ℕ → ℕ → OutboxTables → Result ChannelError OutboxTables
delete_channel id now t = do
  guard (any (λ (c : NotificationChannel). c.id == id) t.channels) record_not_found
  ok (record t {
    channels = select (λ (c : NotificationChannel). not (c.id == id)) t.channels;
    outbox =
        update_where (λ (x : NotificationOutbox). x.channel_id == id && is_waiting x.status)
          (with_cancelled now) t.outbox;
  })

unfoldable pub get_channel : ℕ → OutboxTables → Option NotificationChannel
get_channel id t = find_first (λ (c : NotificationChannel). c.id == id) t.channels

unfoldable pub enabled_channels : OutboxTables → List NotificationChannel
enabled_channels t = take 100 (
    sort_by (λ (c d : NotificationChannel). leb c.id d.id)
      (select (λ (c : NotificationChannel). c.status == 1) t.channels))

-- `OnConflict{DoNothing: true}` on the key against duplicates, row by row.
abbrev pub insert_unless_known :
    NotificationOutbox → List NotificationOutbox → List NotificationOutbox
insert_unless_known row outbox =
    if any (λ (x : NotificationOutbox). str_eq x.dedup_key row.dedup_key) outbox
    then outbox
    else outbox ++ row ∷ []

unfoldable pub enqueue_rows :
    List NotificationOutbox → List NotificationOutbox → List NotificationOutbox
enqueue_rows [] outbox = outbox
enqueue_rows (row ∷ rows) outbox = enqueue_rows rows (insert_unless_known row outbox)

unfoldable pub enqueue : List NotificationOutbox → OutboxTables → OutboxTables
enqueue rows t = record t { outbox = enqueue_rows rows t.outbox }

abbrev pub is_due : ℕ → NotificationOutbox → Bool
is_due now x = is_waiting x.status && ltb x.attempts x.max_attempts && leb x.next_attempt_at now

-- `ORDER BY next_attempt_at ASC, created_at ASC`.
abbrev pub due_before : NotificationOutbox → NotificationOutbox → Bool
due_before x y =
    ltb x.next_attempt_at y.next_attempt_at
    || (x.next_attempt_at == y.next_attempt_at && leb x.created_at y.created_at)

unfoldable pub list_due_ids : ℕ → ℕ → OutboxTables → List String
list_due_ids now limit t =
    map (λ (x : NotificationOutbox). x.id)
      (take limit (sort_by due_before (select (is_due now) t.outbox)))

abbrev pub has_id : String → NotificationOutbox → Bool
has_id id x = str_eq x.id id

abbrev pub claimed : ℕ → NotificationOutbox → NotificationOutbox
claimed now x = record x {
  status = sending;
  attempts = suc x.attempts;
  locked_at = some now;
  updated_at = now;
}

-- Whether one row was updated; the identity is the primary key.
unfoldable pub claim_delivery : String → ℕ → OutboxTables → Bool × OutboxTables
claim_delivery id now t = (
  any (λ x. has_id id x && is_due now x) t.outbox,
  record t { outbox = update_where (λ x. has_id id x && is_due now x) (claimed now) t.outbox },
)

-- The identity comes without the blanks that `TrimSpace` removes, here and in `retry_delivery`.
unfoldable pub get_outbox : String → OutboxTables → Option NotificationOutbox
get_outbox id t = find_first (has_id id) t.outbox

abbrev pub delivered : ℕ → NotificationOutbox → NotificationOutbox
delivered now x = record x {
  status = sent;
  sent_at = some now;
  locked_at = none;
  error_message = "";
  updated_at = now;
}

unfoldable pub mark_sent : String → ℕ → OutboxTables → OutboxTables
mark_sent id now t = record t {
  outbox = update_where (λ x. has_id id x && is_sending x.status) (delivered now) t.outbox;
}

-- The first thousand bytes of a message.
abbrev pub shortened : String → String
shortened message = if ltb 1000 (len message) then slice message 0 1000 else message

abbrev pub after_failure : String → ℕ → Bool → ℕ → NotificationOutbox → NotificationOutbox
after_failure message next is_last now x = record x {
  status = if is_last then exhausted else failed;
  next_attempt_at = next;
  locked_at = none;
  error_message = shortened message;
  updated_at = now;
}

unfoldable pub mark_failed : String → String → ℕ → Bool → ℕ → OutboxTables → OutboxTables
mark_failed id message next is_last now t = record t {
  outbox =
      update_where (λ x. has_id id x && is_sending x.status)
        (after_failure message next is_last now) t.outbox;
}

-- `locked_at <= ?`, which no row without a time passes.
abbrev pub locked_until : ℕ → Option ℕ → Bool
locked_until cutoff none = false
locked_until cutoff (some at) = leb at cutoff

abbrev pub requeued : ℕ → NotificationOutbox → NotificationOutbox
requeued now x = record x {
  status = failed;
  next_attempt_at = now;
  locked_at = none;
  error_message = "通知进程中断，已重新排队";
  updated_at = now;
}

unfoldable pub requeue_interrupted_deliveries : ℕ → ℕ → OutboxTables → OutboxTables
requeue_interrupted_deliveries cutoff now t = record t {
  outbox =
      update_where
        (λ (x : NotificationOutbox). is_sending x.status && locked_until cutoff x.locked_at)
        (requeued now) t.outbox;
}

abbrev pub restarted : ℕ → NotificationOutbox → NotificationOutbox
restarted now x = record x {
  status = pending;
  attempts = 0;
  next_attempt_at = now;
  locked_at = none;
  error_message = "";
  updated_at = now;
}

unfoldable pub retry_delivery : String → ℕ → OutboxTables → Bool × OutboxTables
retry_delivery id now t = (
  any (λ x. has_id id x && is_retryable x.status) t.outbox,
  record t {
    outbox = update_where (λ x. has_id id x && is_retryable x.status) (restarted now) t.outbox;
  },
)
