-- ===== src/Nodes/Tree.antt =====
-- Creating, renaming and moving nodes: `CreateNodeWithAudit`, `RenameWithAudit` and `MoveWithAudit`
-- of server/internal/dao/node.go.
use Prim.Native.String.{String}
use file_share_manager.Prelude.{
  ℕ, suc, ◌+◌, ◌==◌, eq_option, Bool, ◌&&◌, not, List, [], ◌∷◌, ◌++◌, map, Option, none, some,
  Result, ok, ◌>>=◌, ◌>>◌, guard, or_fail, find_first, select, any, if◌then◌else◌,
}
use file_share_manager.Nodes.Store.{
  Node, NodeClosure, Event, of_node, Store, Error, record_not_found, invalid_move, node_state,
  is_active, is_folder, node_in, append_change, append_node_audit,
}

-- The rows that a new node inherits from its parent:
-- `SELECT ancestor_id, ?, depth + 1 FROM node_closures WHERE descendant_id = ?`.
unfoldable pub inherited_closures : ℕ → Option ℕ → List NodeClosure → List NodeClosure
inherited_closures id none closures = []
inherited_closures id (some parent) closures =
    map (λ c. record { ancestor_id = c.ancestor_id; descendant_id = id; depth = c.depth + 1 })
      (select (λ c. c.descendant_id == parent) closures)

-- `tx.Create(node)` gives the node the next identity.
unfoldable pub create_node_with_audit :
    (Event → Bool) → Node → Option Event → Store → Result Error Store
create_node_with_audit accepts draft event s =
    let node : Node = record draft { id = s.next_node_id } in
    let closures : List NodeClosure =
      s.closures ++ record { ancestor_id = node.id; descendant_id = node.id; depth = 0 } ∷ [] in
    let created : Store = record s {
      nodes = s.nodes ++ node ∷ [];
      closures = closures ++ inherited_closures node.id node.parent_id closures;
      next_node_id = suc s.next_node_id;
    } in
    append_node_audit accepts event node none (some (of_node node))
      (append_change node.workspace_id "node" node.id "create" created)

-- `tx.Model(&node).Updates(…)`: the row with the identity of the node.
abbrev pub update_node : ℕ → (Node → Node) → List Node → List Node
update_node id change = map (λ n. if n.id == id then change n else n)

abbrev pub renamed : ℕ → String → String → Node → Node
renamed actor_id name normalized_name n = record n {
  name = name;
  normalized_name = normalized_name;
  updated_by = actor_id;
}

unfoldable pub rename_with_audit :
    (Event → Bool) → ℕ → ℕ → ℕ → String → String → Option Event → Store → Result Error Store
rename_with_audit accepts workspace_id node_id actor_id name normalized_name event s = do
  node ←
      or_fail
        (find_first (λ n. n.workspace_id == workspace_id && n.id == node_id && is_active n.status)
          s.nodes)
        record_not_found
  append_node_audit accepts event (renamed actor_id name normalized_name node) (some (of_node node))
      (some (of_node (renamed actor_id name normalized_name node)))
      (append_change workspace_id "node" node_id "rename"
        (record s { nodes = update_node node.id (renamed actor_id name normalized_name) s.nodes }))

-- The tests on the target of a move.
unfoldable pub check_target : ℕ → ℕ → Option ℕ → Store → Result Error (Unit {0})
check_target workspace_id node_id none s = ok tt
check_target workspace_id node_id (some target) s = do
  guard (not (target == node_id)) invalid_move
  _ ←
      or_fail
        (find_first
          (λ n.
            n.workspace_id == workspace_id
            && n.id == target
            && is_folder n.node_type
            && is_active n.status)
          s.nodes)
        record_not_found
  guard (not (any (λ c. c.ancestor_id == node_id && c.descendant_id == target) s.closures))
      invalid_move

-- The rows that `DELETE paths FROM node_closures AS paths …` leaves: a row goes if its descendant
-- stands under the node, its ancestor above the node, and its ancestor is not the node itself.
unfoldable pub detached : ℕ → List NodeClosure → List NodeClosure
detached node_id closures =
    select
      (λ paths. not (
        any
          (λ subtree.
            subtree.ancestor_id == node_id && subtree.descendant_id == paths.descendant_id)
          closures
        && any
            (λ ancestors.
              ancestors.descendant_id == node_id && ancestors.ancestor_id == paths.ancestor_id)
            closures
        && not (paths.ancestor_id == node_id)))
      closures

-- One row of `INSERT INTO node_closures … SELECT`.
abbrev pub joined : NodeClosure → NodeClosure → NodeClosure
joined supertree subtree = record {
  ancestor_id = supertree.ancestor_id;
  descendant_id = subtree.descendant_id;
  depth = supertree.depth + subtree.depth + 1;
}

-- The pairs of a row above the target and a row under the node.
unfoldable pub joined_all : List NodeClosure → List NodeClosure → List NodeClosure
joined_all [] subtrees = []
joined_all (supertree ∷ supertrees) subtrees =
    map (joined supertree) subtrees ++ joined_all supertrees subtrees

unfoldable pub attached : ℕ → Option ℕ → List NodeClosure → List NodeClosure
attached node_id none closures = closures
attached node_id (some target) closures =
    closures
    ++ joined_all (select (λ c. c.descendant_id == target) closures)
        (select (λ c. c.ancestor_id == node_id) closures)

abbrev pub moved : ℕ → Option ℕ → Node → Node
moved actor_id target n = record n { parent_id = target; updated_by = actor_id }

-- The statements of a move that are behind its tests.
unfoldable pub relocate :
    (Event → Bool) → ℕ → ℕ → ℕ → Option ℕ → Option Event → Node → Store → Result Error Store
relocate accepts workspace_id node_id actor_id target event node s =
    append_node_audit accepts event (moved actor_id target node) (some (of_node node))
      (some (of_node (moved actor_id target node)))
      (append_change workspace_id "node" node_id "move" (record s {
        closures = attached node_id target (detached node_id s.closures);
        nodes = update_node node.id (moved actor_id target) s.nodes;
      }))

unfoldable pub move_with_audit :
    (Event → Bool) → ℕ → ℕ → ℕ → Option ℕ → Option Event → Store → Result Error Store
move_with_audit accepts workspace_id node_id actor_id target event s = do
  node ← or_fail (node_in workspace_id node_id s.nodes) record_not_found
  guard (is_active node.status) node_state
  check_target workspace_id node_id target s
  if eq_option node.parent_id target
      then ok s
      else relocate accepts workspace_id node_id actor_id target event node s
