-- ===== src/Nodes/Store.antt =====
-- The tables that server/internal/dao/node.go reads and writes (server/internal/model/node.go), and
-- the two records that a transaction appends: the change log of server/internal/dao/change_log.go
-- and the audit event of server/internal/dao/operation_log.go. A table is a list of rows in the
-- order of their creation. Times are numbers.
use Prim.Native.String.{String}
use text.Mathlib.Text.{◌==◌ as str_eq}
use file_share_manager.Prelude.{
  ℕ, ◌==◌, Bool, true, false, ◌&&◌, ◌||◌, List, [], ◌∷◌, ◌++◌, Option, none, some, Result, ok, ◌>>◌,
  guard, find_first, format_uint, if◌then◌else◌,
}

pub data NodeType : Type 0 where
  folder file : NodeType

pub data InheritMode : Type 0 where
  inherit break : InheritMode

pub data NodeStatus : Type 0 where
  active trashed : NodeStatus

pub record Node : Type 0 where
  pub id : ℕ
  pub workspace_id : ℕ
  pub parent_id : Option ℕ
  pub name : String
  pub normalized_name : String
  pub node_type : NodeType
  pub active_version : Option ℕ
  pub inherit_mode : InheritMode
  pub status : NodeStatus
  pub trashed_at : Option ℕ
  pub created_by : ℕ
  pub updated_by : ℕ

-- A row of `node_closures`: the ancestor stands `depth` levels above the descendant.
pub record NodeClosure : Type 0 where
  pub ancestor_id : ℕ
  pub descendant_id : ℕ
  pub depth : ℕ

-- A row of the change log, without its JSON payload.
pub record Change : Type 0 where
  pub workspace_id : ℕ
  pub entity_type : String
  pub entity_id : ℕ
  pub operation : String

-- The fields of an audit event that the node operations read or set.
pub record Event : Type 0 where
  pub action : String
  pub node_id : Option ℕ
  pub target_type : String
  pub target_id : String
  pub target_name : String

-- `nodeAuditSnapshot`, and the map that `TrashSubtreeWithAudit` builds from it.
pub data Snapshot : Type 0 where
  of_node : Node → Snapshot
  affected : Node → ℕ → Snapshot

pub record AuditRecord : Type 0 where
  pub event : Event
  pub before : Option Snapshot
  pub after : Option Snapshot

pub record Store : Type 0 where
  pub nodes : List Node
  pub closures : List NodeClosure
  pub changes : List Change
  pub audits : List AuditRecord
  -- The next value of the identity column of `nodes`.
  pub next_node_id : ℕ

pub data Error : Type 0 where
  record_not_found invalid_move node_state duplicated_key audit_refused : Error

abbrev pub is_active : NodeStatus → Bool
is_active active = true
is_active trashed = false

abbrev pub is_trashed : NodeStatus → Bool
is_trashed active = false
is_trashed trashed = true

abbrev pub is_folder : NodeType → Bool
is_folder folder = true
is_folder file = false

abbrev pub is_file : NodeType → Bool
is_file folder = false
is_file file = true

-- `First` under `workspace_id = ? AND id = ?`.
abbrev pub node_in : ℕ → ℕ → List Node → Option Node
node_in workspace_id id = find_first (λ n. n.workspace_id == workspace_id && n.id == id)

-- `First` under `id = ?`.
abbrev pub node_by_id : ℕ → List Node → Option Node
node_by_id id = find_first (λ n. n.id == id)

-- `workspace_id = ? AND id = ? AND type = 'file' AND status = 'active'`.
abbrev pub is_active_file : ℕ → ℕ → Node → Bool
is_active_file workspace_id node_id n =
    n.workspace_id == workspace_id && n.id == node_id && is_file n.node_type && is_active n.status

unfoldable pub append_change : ℕ → String → ℕ → String → Store → Store
append_change workspace_id entity_type entity_id operation s = record s {
  changes =
      s.changes
      ++ record {
        workspace_id = workspace_id;
        entity_type = entity_type;
        entity_id = entity_id;
        operation = operation;
      }
        ∷ [];
}

-- `prepareNodeAuditEvent`, for an event and a node that are there.
unfoldable pub prepare_node_audit_event : Event → Node → Event
prepare_node_audit_event event node = record {
  action = event.action;
  node_id = some node.id;
  target_type = if str_eq event.target_type "" then "node" else event.target_type;
  target_id =
      if str_eq event.target_id "" || str_eq event.target_id "0"
      then format_uint node.id
      else event.target_id;
  target_name = if str_eq event.target_name "" then node.name else event.target_name;
}

-- `appendAuditEvent`. Whether the audit log takes the event (it refuses an invalid classification)
-- is the parameter `accepts`; a refusal fails the transaction.
unfoldable pub append_audit_event :
    (Event → Bool) → Option Event → Option Snapshot → Option Snapshot → Store → Result Error Store
append_audit_event accepts none before after s = ok s
append_audit_event accepts (some event) before after s = do
  guard (accepts event) audit_refused
  ok (record s {
    audits = s.audits ++ record { event = event; before = before; after = after } ∷ [];
  })

-- The last lines of a node transaction: the event is prepared from the node and appended.
unfoldable pub append_node_audit :
    (Event → Bool)
    → Option Event
    → Node
    → Option Snapshot
    → Option Snapshot
    → Store
    → Result Error Store
unfolding append_audit_event prepare_node_audit_event
append_node_audit accepts none node before after s = append_audit_event accepts none before after s
append_node_audit accepts (some event) node before after s =
    append_audit_event accepts (some (prepare_node_audit_event event node)) before after s
