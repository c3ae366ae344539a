-- ===== src/Nodes/Trash.antt =====
-- The trash: `NameExists`, `TrashSubtreeWithAudit` and `RestoreSubtreeWithAudit` of
-- server/internal/dao/node.go.
pub mod Subtrees
use Prim.Native.String.{String}
use text.Mathlib.Text.{◌==◌ as str_eq}
use file_share_manager.Prelude.{
  true, ℕ, ◌==◌, eq_option, Bool, ◌&&◌, not, List, Option, none, some, Result, ok, err, ◌>>=◌, ◌>>◌,
  guard, or_fail, any, length, select, update_where, if◌then◌else◌,
}
use file_share_manager.Nodes.Store.{
  Node, NodeClosure, Event, NodeStatus, active, trashed, of_node, affected, Store, Error,
  record_not_found, node_state, duplicated_key, is_active, is_trashed, node_in, append_change,
  append_node_audit,
}

-- `id IN (SELECT descendant_id FROM node_closures WHERE ancestor_id = ?)`.
abbrev pub in_subtree : ℕ → List NodeClosure → ℕ → Bool
in_subtree node_id closures id =
    any (λ c. c.ancestor_id == node_id && c.descendant_id == id) closures

-- The active nodes with a name under a parent, or at the top.
abbrev pub has_name : ℕ → Option ℕ → String → Node → Bool
has_name workspace_id parent_id normalized_name n =
    n.workspace_id == workspace_id
    && str_eq n.normalized_name normalized_name
    && is_active n.status
    && eq_option n.parent_id parent_id

abbrev pub is_other : Option ℕ → Node → Bool
is_other none n = true
is_other (some id) n = not (n.id == id)

unfoldable pub name_exists : ℕ → Option ℕ → String → Option ℕ → Store → Bool
name_exists workspace_id parent_id normalized_name exclude_node_id s =
    any (λ n. has_name workspace_id parent_id normalized_name n && is_other exclude_node_id n)
      s.nodes

abbrev pub trashed_by : ℕ → ℕ → Node → Node
trashed_by actor_id now n = record n {
  status = trashed;
  trashed_at = some now;
  updated_by = actor_id;
}

abbrev pub restored_by : ℕ → Node → Node
restored_by actor_id n = record n { status = active; trashed_at = none; updated_by = actor_id }

-- The rows that the update of a trashing finds.
abbrev pub is_trashable : ℕ → ℕ → List NodeClosure → Node → Bool
is_trashable workspace_id node_id closures n =
    n.workspace_id == workspace_id && in_subtree node_id closures n.id && is_active n.status

abbrev pub is_restorable : ℕ → ℕ → List NodeClosure → Node → Bool
is_restorable workspace_id node_id closures n =
    n.workspace_id == workspace_id && in_subtree node_id closures n.id && is_trashed n.status

unfoldable pub trash_subtree_with_audit :
    (Event → Bool) → ℕ → ℕ → ℕ → ℕ → Option Event → Store → Result Error Store
trash_subtree_with_audit accepts workspace_id node_id actor_id now event s = do
  node ← or_fail (node_in workspace_id node_id s.nodes) record_not_found
  guard (any (is_trashable workspace_id node_id s.closures) s.nodes) record_not_found
  append_node_audit accepts event (trashed_by actor_id now node) (some (of_node node))
      (some (
        affected (trashed_by actor_id now node)
          (length (select (is_trashable workspace_id node_id s.closures) s.nodes))))
      (append_change workspace_id "node" node_id "trash_subtree" (record s {
        nodes =
            update_where (is_trashable workspace_id node_id s.closures) (trashed_by actor_id now)
              s.nodes;
      }))

-- The parent of a restored node is active.
unfoldable pub check_parent : ℕ → Option ℕ → List Node → Result Error (Unit {0})
check_parent workspace_id none nodes = ok tt
check_parent workspace_id (some parent_id) nodes = do
  parent ← or_fail (node_in workspace_id parent_id nodes) record_not_found
  guard (is_active parent.status) node_state

unfoldable pub restore_subtree_with_audit :
    (Event → Bool) → ℕ → ℕ → ℕ → Option Event → Store → Result Error Store
unfolding check_parent name_exists
restore_subtree_with_audit accepts workspace_id node_id actor_id event s = do
  node ← or_fail (node_in workspace_id node_id s.nodes) record_not_found
  guard (is_trashed node.status) node_state
  check_parent workspace_id node.parent_id s.nodes
  guard (not (name_exists workspace_id node.parent_id node.normalized_name (some node_id) s))
      duplicated_key
  append_node_audit accepts event (restored_by actor_id node) (some (of_node node))
      (some (of_node (restored_by actor_id node)))
      (append_change workspace_id "node" node_id "restore_subtree" (record s {
        nodes =
            update_where (is_restorable workspace_id node_id s.closures) (restored_by actor_id)
              s.nodes;
      }))
