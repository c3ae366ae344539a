-- ===== src/Tests/Logs.antt =====
-- Two events of one workspace in an empty audit log.
use Prim.Native.String.{String}
use file_share_manager.Prelude.{
  ℕ, ◌≡◌, refl, Bool, true, format_uint, Option, none, some, List, [], ◌∷◌, ok, length,
}
use file_share_manager.Audit.Store.{
  Entry, AuditArchive, OperationLog, Store, audit_stream_key, lock_audit_stream,
  with_actor_workspace, calculate_hash, write_log, create_operation_log,
}
use file_share_manager.Audit.Keys.{audit_stream_key-injective}
use file_share_manager.Audit.Chain.{logs_of, verify_chain}
use file_share_manager.Audit.Verified.{done, append, empty_log, Run-verified}

abbrev hashed : String → ℕ → Option ℕ → Entry → Option String → String
hashed key number workspace_id entry previous = "5d"

abbrev any_manifest : AuditArchive → Bool
any_manifest archive = true

abbrev unchanged : Entry → Entry
unchanged entry = entry

abbrev event : Entry
event = record {
  actor_type = "user";
  user_id = 7;
  username = "ann";
  actor_workspace_id = some 4;
  source_workspace_id = none;
  target_workspace_id = none;
  method = "POST";
  path = "/api/nodes";
  action = "node.create";
  category = "file";
  severity = "info";
  outcome = "success";
  reason_code = "";
  node_id = some 2;
  target_type = "node";
  target_id = "2";
  target_name = "plan";
  status = 200;
  ip = "";
  latency = 3;
  error_message = "";
  details = "";
  request_id = "";
  trace_id = "";
  user_agent = "";
  origin = "api";
  before_json = none;
  after_json = none;
  metadata_json = none;
  created_at = 100;
}

abbrev log_row : ℕ → ℕ → Option String → OperationLog
log_row id number previous = record {
  id = id;
  stream_key = "workspace:4";
  stream_seq = number;
  workspace_id = some 4;
  entry = event;
  prev_hash = previous;
  current_hash = some "5d";
}

abbrev after_events : ℕ → List OperationLog → Store
after_events number logs = record {
  logs = logs;
  streams =
      record {
        stream_key = "workspace:4";
        workspace_id = some 4;
        next_seq = number;
        last_hash = "5d";
        updated_at = 100;
      }
      ∷ [];
  archives = [];
  next_log_id = number;
}

abbrev once : Store
once = after_events 2 (log_row 1 1 none ∷ [])

abbrev twice : Store
twice = after_events 3 (log_row 1 1 none ∷ log_row 2 2 (some "5d") ∷ [])

first_event : create_operation_log hashed unchanged some (some 4) event (empty_log 1) ≡ ok once
unfolding create_operation_log write_log lock_audit_stream with_actor_workspace calculate_hash
    audit_stream_key format_uint
first_event = refl

second_event : create_operation_log hashed unchanged some (some 4) event once ≡ ok twice
unfolding create_operation_log write_log lock_audit_stream with_actor_workspace calculate_hash
    audit_stream_key format_uint
second_event = refl

Run-verified_example :
    ((verify_chain hashed any_manifest 4 twice).broken_kind ≡ none)
    × ((verify_chain hashed any_manifest 4 twice).checked ≡ length (logs_of 4 twice.logs))
Run-verified_example =
    Run-verified hashed any_manifest unchanged some (λ k n o e p. refl) 1 twice 4
      (append (some 4) event first_event (append (some 4) event second_event done))

abbrev fourth : Option ℕ
fourth = some 4

audit_stream_key-injective_example : fourth ≡ fourth
audit_stream_key-injective_example = audit_stream_key-injective fourth fourth refl
