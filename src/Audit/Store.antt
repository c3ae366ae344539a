-- ===== src/Audit/Store.antt =====
-- The tables `operation_logs`, `audit_streams` and `audit_archives` of server/internal/model, and
-- appending to them: `createOperationLogWithTx` of server/internal/dao/operation_log.go.
use Prim.Native.String
use Prim.Native.String.{String}
use text.Mathlib.Text.{◌==◌ as str_eq}
use file_share_manager.Prelude.{
  ℕ, suc, ◌==◌, ltb, eq_option, Bool, ◌&&◌, List, [], ◌∷◌, ◌++◌, Option, none, some, Result, ok,
  ◌>>=◌, or_fail, find_first, update_where, format_uint, if◌then◌else◌,
}

-- The columns that describe the event.
pub record Entry : Type 0 where
  pub actor_type : String
  pub user_id : ℕ
  pub username : String
  pub actor_workspace_id : Option ℕ
  pub source_workspace_id : Option ℕ
  pub target_workspace_id : Option ℕ
  pub method : String
  pub path : String
  pub action : String
  pub category : String
  pub severity : String
  pub outcome : String
  pub reason_code : String
  pub node_id : Option ℕ
  pub target_type : String
  pub target_id : String
  pub target_name : String
  pub status : ℕ
  pub ip : String
  pub latency : ℕ
  pub error_message : String
  pub details : String
  pub request_id : String
  pub trace_id : String
  pub user_agent : String
  pub origin : String
  pub before_json : Option String
  pub after_json : Option String
  pub metadata_json : Option String
  pub created_at : ℕ

pub record OperationLog : Type 0 where
  pub id : ℕ
  pub stream_key : String
  pub stream_seq : ℕ
  pub workspace_id : Option ℕ
  pub entry : Entry
  pub prev_hash : Option String
  pub current_hash : Option String

pub record AuditStream : Type 0 where
  pub stream_key : String
  pub workspace_id : Option ℕ
  pub next_seq : ℕ
  pub last_hash : String
  pub updated_at : ℕ

pub record AuditArchive : Type 0 where
  pub stream_key : String
  pub is_completed : Bool
  pub from_seq : ℕ
  pub to_seq : ℕ
  pub event_count : ℕ
  pub first_prev_hash : String
  pub last_hash : String
  pub object_sha256 : String
  pub verified_at : Option ℕ

pub record Store : Type 0 where
  pub logs : List OperationLog
  pub streams : List AuditStream
  pub archives : List AuditArchive
  pub next_log_id : ℕ

pub data Error : Type 0 where
  invalid_classification : Error

unfoldable pub audit_stream_key : Option ℕ → String
audit_stream_key none = "global"
audit_stream_key (some id) = String.◌++◌ "workspace:" (format_uint id)

-- `stream_key = ?`.
abbrev pub has_key : String → AuditStream → Bool
has_key key x = str_eq x.stream_key key

-- `OnConflict{DoNothing: true}`, and a stream that is read back with the number 0 starts at 1.
abbrev pub started : AuditStream → AuditStream
started x = if x.next_seq == 0 then record x { next_seq = 1 } else x

abbrev pub new_stream : Option ℕ → AuditStream
new_stream workspace_id = record {
  stream_key = audit_stream_key workspace_id;
  workspace_id = workspace_id;
  next_seq = 1;
  last_hash = "";
  updated_at = 0;
}

-- The row that was found under the lock, or the one that is inserted.
abbrev pub locked :
    Option AuditStream → Option ℕ → List AuditStream → AuditStream × List AuditStream
locked none workspace_id streams =
    (new_stream workspace_id, streams ++ new_stream workspace_id ∷ [])
locked (some x) workspace_id streams = (started x, streams)

unfoldable pub lock_audit_stream : Option ℕ → List AuditStream → AuditStream × List AuditStream
lock_audit_stream workspace_id streams =
    locked (find_first (has_key (audit_stream_key workspace_id)) streams) workspace_id streams

-- An event of a user in a workspace without any other workspace is theirs.
unfoldable pub with_actor_workspace : Option ℕ → Entry → Entry
with_actor_workspace (some id) entry =
    if eq_option entry.actor_workspace_id none
      && eq_option entry.source_workspace_id none
      && eq_option entry.target_workspace_id none
      && ltb 0 entry.user_id
    then record entry { actor_workspace_id = some id }
    else entry
with_actor_workspace none entry = entry

-- The last hash of a stream; the empty text is that of a stream without events.
abbrev pub previous_hash : String → Option String
previous_hash last_hash = if str_eq last_hash "" then none else some last_hash

-- `digest` is the SHA-256 sum of the JSON payload of `calculateHash`.
unfoldable pub calculate_hash :
    (String → ℕ → Option ℕ → Entry → Option String → String) → OperationLog → Option String → String
calculate_hash digest log previous =
    digest log.stream_key log.stream_seq log.workspace_id log.entry previous

-- The other parameters: `sanitize` removes secrets and normalizes the payloads; `classify` fills the classification of an event, or
-- refuses it.
module _ (digest : String → ℕ → Option ℕ → Entry → Option String → String)
    (sanitize : Entry → Entry) (classify : Entry → Option Entry) where
  -- The row before its hash is known.
  abbrev pub draft : ℕ → Option ℕ → Entry → AuditStream → OperationLog
  draft id workspace_id entry stream = record {
    id = id;
    stream_key = stream.stream_key;
    stream_seq = stream.next_seq;
    workspace_id = workspace_id;
    entry = entry;
    prev_hash = previous_hash stream.last_hash;
    current_hash = none;
  }

  abbrev pub advanced : String → ℕ → AuditStream → AuditStream → AuditStream
  advanced hash now stream x = record x {
    next_seq = suc stream.next_seq;
    last_hash = hash;
    updated_at = now;
  }

  -- `tx.Create(log)` and the update of the stream.
  unfoldable pub write_log : OperationLog → AuditStream → List AuditStream → Store → Store
  write_log log stream streams s =
      let hash = calculate_hash digest log log.prev_hash in
      record s {
        logs = s.logs ++ record log { current_hash = some hash } ∷ [];
        streams =
            update_where (has_key stream.stream_key) (advanced hash log.entry.created_at stream)
              streams;
        next_log_id = suc s.next_log_id;
      }

  unfoldable pub create_operation_log : Option ℕ → Entry → Store → Result Error Store
  create_operation_log workspace_id entry s = do
    let prepared = with_actor_workspace workspace_id (sanitize entry)
    let (stream, streams) = lock_audit_stream workspace_id s.streams
    classified ← or_fail (classify prepared) invalid_classification
    ok (write_log (draft s.next_log_id workspace_id classified stream) stream streams s)
