-- ===== src/Acl/Effective.antt =====
-- The queries of server/internal/dao/acl.go for the rules that apply to a user at a node:
-- `ListEffectiveEntries` for one node and `ListEffectiveEntriesForNodes` for many.
use file_share_manager.Prelude.{
  ℕ, ◌==◌, leb, ltb, Bool, true, false, ◌&&◌, ◌||◌, List, [], ◌∷◌, ◌++◌, Option, none, some, any,
  select, join, sort_by, min, if◌then◌else◌,
}
use file_share_manager.Authorization.{user, group, EffectiveAclEntry, same_subject, is_nonempty}
use file_share_manager.Nodes.Store.{Node, NodeClosure, InheritMode, inherit, break}
use file_share_manager.Acl.Tables.{NodeAcl, Tables}

abbrev pub is_break : InheritMode → Bool
is_break inherit = false
is_break break = true

-- `MIN(depth)`; NULL for no row.
abbrev pub min_depth : List NodeClosure → Option ℕ
min_depth [] = none
min_depth (c ∷ closures) = elim (min_depth closures) [
  | none ↦ some c.depth
  | some depth ↦ some (min c.depth depth)
]

-- The closure row leads from the node up to an ancestor that breaks the inheritance.
abbrev pub is_break_row : ℕ → ℕ → List Node → NodeClosure → Bool
is_break_row workspace_id node_id nodes c =
    c.descendant_id == node_id
    && any
        (λ (n : Node).
          n.id == c.ancestor_id && n.workspace_id == workspace_id && is_break n.inherit_mode)
        nodes

unfoldable pub break_depth : ℕ → ℕ → Tables → Option ℕ
break_depth workspace_id node_id t =
    min_depth (select (is_break_row workspace_id node_id t.nodes) t.closures)

-- The test on the depth, which is only there behind a break.
abbrev pub within : Option ℕ → ℕ → Bool
within none depth = true
within (some limit) depth = leb depth limit

-- The rule names the user, or one of the groups.
abbrev pub names : ℕ → List ℕ → NodeAcl → Bool
names user_id group_ids a =
    if is_nonempty group_ids
    then (same_subject a.subject_type user && a.subject_id == user_id)
      || (same_subject a.subject_type group && any (λ id. a.subject_id == id) group_ids)
    else same_subject a.subject_type user && a.subject_id == user_id

-- The condition of the joined row that both queries share.
abbrev pub is_effective : ℕ → ℕ → List ℕ → NodeAcl → NodeClosure → Bool
is_effective workspace_id user_id group_ids a c =
    c.ancestor_id == a.node_id
    && a.workspace_id == workspace_id
    && (c.depth == 0 || a.inherit_to_children)
    && names user_id group_ids a

abbrev pub effective_entry : NodeAcl → NodeClosure → EffectiveAclEntry
effective_entry a c = record {
  depth = c.depth;
  subject_type = a.subject_type;
  subject_id = a.subject_id;
  effect = a.effect;
  access_level = a.access_level;
}

-- `ORDER BY node_closures.depth ASC`.
abbrev pub by_depth : EffectiveAclEntry → EffectiveAclEntry → Bool
by_depth x y = leb x.depth y.depth

-- The condition on the joined row of one node, under the depth of the break.
abbrev pub applies_at : ℕ → ℕ → ℕ → List ℕ → Option ℕ → NodeAcl → NodeClosure → Bool
applies_at workspace_id node_id user_id group_ids limit a c =
    c.descendant_id == node_id
    && is_effective workspace_id user_id group_ids a c
    && within limit c.depth

abbrev pub effective_rows : ℕ → ℕ → ℕ → List ℕ → Option ℕ → Tables → List EffectiveAclEntry
effective_rows workspace_id node_id user_id group_ids limit t =
    join (applies_at workspace_id node_id user_id group_ids limit) effective_entry t.acls t.closures

unfoldable pub list_effective_entries : ℕ → ℕ → ℕ → List ℕ → Tables → List EffectiveAclEntry
unfolding break_depth
list_effective_entries workspace_id node_id user_id group_ids t =
    let limit = break_depth workspace_id node_id t in
    sort_by by_depth (effective_rows workspace_id node_id user_id group_ids limit t)

-- `effectiveRow`.
pub record EffectiveRow : Type 0 where
  pub target_node_id : ℕ
  pub entry : EffectiveAclEntry

abbrev pub effective_row : NodeAcl → NodeClosure → EffectiveRow
effective_row a c = record { target_node_id = c.descendant_id; entry = effective_entry a c }

-- `ORDER BY node_closures.descendant_id ASC, node_closures.depth ASC`.
abbrev pub by_target : EffectiveRow → EffectiveRow → Bool
by_target x y =
    ltb x.target_node_id y.target_node_id
    || (x.target_node_id == y.target_node_id && leb x.entry.depth y.entry.depth)

-- The map `breakDepths`; `GROUP BY` has a row for each of the nodes below a break.
abbrev pub break_depths : ℕ → List ℕ → Tables → ℕ → Option ℕ
break_depths workspace_id node_ids t target =
    if any (λ id. target == id) node_ids then break_depth workspace_id target t else none

-- `result[row.TargetNodeID] = append(…)`.
abbrev pub append_entry : EffectiveRow → (ℕ → List EffectiveAclEntry) → ℕ → List EffectiveAclEntry
append_entry row result target =
    if row.target_node_id == target then result target ++ row.entry ∷ [] else result target

-- The loop over the rows; a missing key of the map is the empty list.
unfoldable pub collect :
    (ℕ → Option ℕ) → List EffectiveRow → (ℕ → List EffectiveAclEntry) → ℕ → List EffectiveAclEntry
collect depths [] result = result
collect depths (row ∷ rows) result =
    collect depths rows (
      if within (depths row.target_node_id) row.entry.depth
      then append_entry row result
      else result)

-- The condition on the joined rows of many nodes.
abbrev pub applies_among : ℕ → List ℕ → ℕ → List ℕ → NodeAcl → NodeClosure → Bool
applies_among workspace_id node_ids user_id group_ids a c =
    any (λ id. c.descendant_id == id) node_ids && is_effective workspace_id user_id group_ids a c

abbrev pub target_rows : ℕ → List ℕ → ℕ → List ℕ → Tables → List EffectiveRow
target_rows workspace_id node_ids user_id group_ids t =
    join (applies_among workspace_id node_ids user_id group_ids) effective_row t.acls t.closures

unfoldable pub list_effective_entries_for_nodes :
    ℕ → ℕ → List ℕ → List ℕ → Tables → ℕ → List EffectiveAclEntry
unfolding collect break_depth
list_effective_entries_for_nodes workspace_id user_id group_ids node_ids t =
    if is_nonempty node_ids
    then collect (break_depths workspace_id node_ids t)
        (sort_by by_target (target_rows workspace_id node_ids user_id group_ids t)) (λ target. [])
    else λ target. []
