-- ===== src/Tests/Trees.antt =====
-- Two folders at the top of a workspace, and moves between them.
use file_share_manager.Prelude.{
  ℕ, zero, suc, ◌==◌, Bool, true, [], ◌∷◌, Option, none, some, ◌≡◌, ◌↔◌, refl, sym, ap, ◌∙◌, subst,
  inl, inr, In, ok, err, Bool-cases, eq_of_==,
}
use file_share_manager.Nodes.Store.{
  folder, Node, NodeClosure, inherit, active, trashed, Event, Store, invalid_move, append_change,
  append_audit_event, append_node_audit,
}
use file_share_manager.Nodes.Tree.{
  check_target, detached, attached, joined_all, relocate, move_with_audit, inherited_closures,
  create_node_with_audit,
}
use file_share_manager.Nodes.Paths.{up}
use file_share_manager.Nodes.Closure.{row, parent_of, IsNode, IsClosed}
use file_share_manager.Nodes.Trash.{trash_subtree_with_audit}
use file_share_manager.Nodes.Trash.Subtrees.{trash_subtree_with_audit-trashed}
use file_share_manager.Nodes.MoveLaws.{move_with_audit-IsClosed}
use file_share_manager.Nodes.Creating.{create_node_with_audit-IsClosed}
use file_share_manager.Nodes.Refusals.{move_with_audit-invalid_iff}

abbrev top : ℕ → Node
top id = record {
  id = id;
  workspace_id = 1;
  parent_id = none;
  name = "docs";
  normalized_name = "docs";
  node_type = folder;
  active_version = none;
  inherit_mode = inherit;
  status = active;
  trashed_at = none;
  created_by = 7;
  updated_by = 7;
}

abbrev tree : Store
tree = record {
  nodes = top 1 ∷ top 2 ∷ [];
  closures = row 1 1 0 ∷ row 2 2 0 ∷ [];
  changes = [];
  audits = [];
  next_node_id = 3;
}

no_parent : (d : ℕ) → parent_of tree.nodes d ≡ none
unfolding parent_of
no_parent d = elim (Bool-cases (1 == d)) [
  | inl e ↦ rw e refl
  | inr e ↦ rw e (elim (Bool-cases (2 == d)) [ inl f ↦ rw f refl | inr f ↦ rw f refl ])
]

no_chain : (d k : ℕ) → up (parent_of tree.nodes) (suc k) d ≡ none
no_chain d zero = no_parent d
no_chain d (suc k) = rw (no_chain d k) refl

some_node : (d : ℕ) → IsNode tree.nodes d → In (row d d 0) tree.closures
some_node d (m, h) = elim (Bool-cases (1 == d)) [
  | inl e ↦ inl (ap (λ x. row x x 0) (sym (eq_of_== 1 d e)))
  | inr e ↦ elim (Bool-cases (2 == d)) [
    | inl f ↦ inr (inl (ap (λ x. row x x 0) (sym (eq_of_== 2 d f))))
    | inr f ↦ absurd (none_found (rw (e, f) at h))
  ]
]
  where
    none_found : ◌≡◌ {A = Option Node} none (some m) → ⊥
    none_found q = cc

none-some : (a : ℕ) → ◌≡◌ {A = Option ℕ} none (some a) → ⊥
none-some a q = cc

complete :
    (d a k : ℕ)
    → IsNode tree.nodes d
    → up (parent_of tree.nodes) k d ≡ some a
    → In (row a d k) tree.closures
complete d a zero n h =
    subst (λ x. In (row x d 0) tree.closures) (some_injective d a h) (some_node d n)
  where
    some_injective : (x y : ℕ) → some x ≡ some y → x ≡ y
    some_injective x y q = cc
complete d a (suc k) n h = absurd (none-some a (sym (no_chain d k) ∙ h))

abbrev IsSound : NodeClosure → Type 0
IsSound c =
    IsNode tree.nodes c.descendant_id
    × (up (parent_of tree.nodes) c.depth c.descendant_id ≡ some c.ancestor_id)

sound : (c : NodeClosure) → In c tree.closures → IsSound c
sound c (inl e) = subst IsSound (sym e) ((top 1, refl), refl)
sound c (inr (inl e)) = subst IsSound (sym e) ((top 2, refl), refl)
sound c (inr (inr n)) = absurd n

tree-IsClosed : IsClosed tree.nodes tree.closures
tree-IsClosed = record {
  sound = sound;
  complete = complete;
  parents = λ d p h. absurd (none-some p (sym (no_parent d) ∙ h));
  acyclic = λ a k h. absurd (none-some a (sym (no_chain a k) ∙ h));
}

abbrev accept : Event → Bool
accept event = true

abbrev moved_tree : Store
moved_tree = record {
  nodes = top 1 ∷ record (top 2) { parent_id = some 1; updated_by = 7 } ∷ [];
  closures = row 1 1 0 ∷ row 2 2 0 ∷ row 1 2 1 ∷ [];
  changes =
      record { workspace_id = 1; entity_type = "node"; entity_id = 2; operation = "move" } ∷ [];
  audits = [];
  next_node_id = 3;
}

moved : move_with_audit accept 1 2 7 (some 1) none tree ≡ ok moved_tree
unfolding move_with_audit check_target relocate append_node_audit append_audit_event append_change
    attached detached joined_all
moved = refl

move_with_audit-IsClosed_example : IsClosed moved_tree.nodes moved_tree.closures
move_with_audit-IsClosed_example =
    move_with_audit-IsClosed accept 1 2 7 (some 1) none tree moved_tree tree-IsClosed moved

move_with_audit-invalid_iff_example :
    (move_with_audit accept 1 2 7 (some 1) none tree ≡ err invalid_move)
    ↔ ((i : ℕ) × (up (parent_of tree.nodes) i 1 ≡ some 2))
move_with_audit-invalid_iff_example =
    move_with_audit-invalid_iff accept 1 2 7 1 none tree (top 2) (top 1) tree-IsClosed refl refl
      refl

abbrev trashed_tree : Store
trashed_tree = record tree {
  nodes = record (top 1) { status = trashed; trashed_at = some 9; updated_by = 8 } ∷ top 2 ∷ [];
  changes =
      record { workspace_id = 1; entity_type = "node"; entity_id = 1; operation = "trash_subtree" }
      ∷ [];
}

trashing : trash_subtree_with_audit accept 1 1 8 9 none tree ≡ ok trashed_tree
unfolding trash_subtree_with_audit append_node_audit append_audit_event append_change
trashing = refl

trash_subtree_with_audit-trashed_example :
    (trashed_tree.closures ≡ tree.closures)
    × ((n : Node) (i : ℕ)
        → In n trashed_tree.nodes
        → n.workspace_id ≡ 1
        → IsNode tree.nodes n.id
        → up (parent_of tree.nodes) i n.id ≡ some 1
        → n.status ≡ trashed)
trash_subtree_with_audit-trashed_example =
    trash_subtree_with_audit-trashed accept 1 1 8 9 none tree trashed_tree tree-IsClosed trashing

abbrev grown_tree : Store
grown_tree = record {
  nodes = top 1 ∷ top 2 ∷ record (top 3) { parent_id = some 2 } ∷ [];
  closures = row 1 1 0 ∷ row 2 2 0 ∷ row 3 3 0 ∷ row 2 3 1 ∷ [];
  changes =
      record { workspace_id = 1; entity_type = "node"; entity_id = 3; operation = "create" } ∷ [];
  audits = [];
  next_node_id = 4;
}

created :
    create_node_with_audit accept (record (top 0) { parent_id = some 2 }) none tree ≡ ok grown_tree
unfolding create_node_with_audit inherited_closures append_node_audit append_audit_event
    append_change
created = refl

create_node_with_audit-IsClosed_example : IsClosed grown_tree.nodes grown_tree.closures
create_node_with_audit-IsClosed_example =
    create_node_with_audit-IsClosed accept (record (top 0) { parent_id = some 2 }) none tree
      grown_tree tree-IsClosed refl
      (λ p h. subst (IsNode tree.nodes) (some_injective 2 p h) (top 2, refl)) created
  where
    some_injective : (x y : ℕ) → some x ≡ some y → x ≡ y
    some_injective x y q = cc
