-- ===== src/Nodes/Creating.antt =====
-- The closure table behind `CreateNodeWithAudit` of server/internal/dao/node.go.
use file_share_manager.Prelude.{
  ℕ, zero, suc, ◌+◌, ◌==◌, eq_of_==, ◌≡◌, ◌≢◌, refl, sym, ap, ◌∙◌, subst, inl, inr, Bool, false,
  List, [], ◌∷◌, ◌++◌, Option, none, some, ok, arith, In, In-append_left, In-append_right,
  In-append_cases, Bool-cases,
}
use file_share_manager.Nodes.Store.{Node, NodeClosure, Event, Store, node_by_id, append_change}
use file_share_manager.Nodes.Tree.{create_node_with_audit}
use file_share_manager.Nodes.Paths.{up, IsAcyclic}
use file_share_manager.Nodes.Paths.Redirect.{
  up-redirect_avoiding, up-redirect_through, up-redirect_cases, redirect-IsAcyclic,
}
use file_share_manager.Nodes.Closure.{row, parent_of, IsNode, IsClosed}
use file_share_manager.Nodes.Rows.{some-inj}
use file_share_manager.Nodes.MoveLaws.{append_node_audit-tables}
use file_share_manager.Nodes.Adding.{
  with_node, own_row, with_rows, new_parents, not_there, IsNode-ne, parent_of-created, up-IsNode,
  clear, avoids, IsNode-with_node, own-IsNode, with_node-IsNode, inherited-In, In-inherited,
}

module _ (nodes : List Node) (cs : List NodeClosure) (c : IsClosed nodes cs) (n : Node)
    (fresh : node_by_id n.id nodes ≡ none)
    (parent_ex : (p : ℕ) → n.parent_id ≡ some p → IsNode nodes p) where
  abbrev IsSound : NodeClosure → Type 0
  IsSound r =
      IsNode (with_node nodes n) r.descendant_id
      × (up (new_parents nodes n) r.depth r.descendant_id ≡ some r.ancestor_id)

  kept-IsSound : (r : NodeClosure) → In r cs → IsSound r
  kept-IsSound r i =
      let (e, h) = c.sound r i in
      (
        IsNode-with_node nodes cs c n fresh parent_ex r.descendant_id e,
        up-redirect_avoiding (parent_of nodes) n.id n.parent_id c.acyclic
              (clear nodes cs c n fresh parent_ex) r.descendant_id r.depth
              (avoids nodes cs c n fresh parent_ex r.descendant_id r.depth e)
            ∙ h,
      )

  own-IsSound : (r : NodeClosure) → r ≡ own_row n → IsSound r
  own-IsSound r e = subst IsSound (sym e) (own-IsNode nodes cs c n fresh parent_ex, refl)

  inherited-IsSound :
      (p : ℕ) (x : NodeClosure)
      → n.parent_id ≡ some p
      → In x cs
      → x.descendant_id ≡ p
      → IsSound (row x.ancestor_id n.id (x.depth + 1))
  inherited-IsSound p x t i e =
      let (_, h) = c.sound x i in
      (
        (own-IsNode nodes cs c n fresh parent_ex),
        ap (λ k. up (new_parents nodes n) k n.id) (one_more x.depth)
            ∙ up-redirect_through (parent_of nodes) n.id n.parent_id c.acyclic
                (clear nodes cs c n fresh parent_ex) n.id 0 p x.depth x.ancestor_id refl t
                (ap (up (parent_of nodes) x.depth) (sym e) ∙ h),
      )
    where
      one_more : (k : ℕ) → k + 1 ≡ k + 0 + 1
      one_more k = omega arith

  created-IsSound : (r : NodeClosure) → In r (with_rows cs n) → IsSound r
  created-IsSound r i = elim (In-append_cases r (cs ++ own_row n ∷ []) _ i) [
    | inl l ↦ elim (In-append_cases r cs (own_row n ∷ []) l) [
      | inl j ↦ kept-IsSound r j
      | inr j ↦ elim j [ inl e ↦ own-IsSound r e | inr f ↦ absurd f ]
    ]
    | inr l ↦
        let (p, x, t, j, e, q) = (inherited-In nodes cs c n fresh parent_ex) n.parent_id r l in
        subst IsSound (sym q) (elim (In-append_cases x cs (own_row n ∷ []) j) [
          | inl k ↦ inherited-IsSound p x t k e
          | inr k ↦ elim k [
            | inl own ↦ absurd (
                IsNode-ne nodes cs c n fresh parent_ex p (parent_ex p t)
                  (sym e ∙ ap (λ (y : NodeClosure). y.descendant_id) own))
            | inr f ↦ absurd f
          ]
        ])
  ]

  complete_kept :
      (d a k : ℕ)
      → IsNode nodes d
      → up (new_parents nodes n) k d ≡ some a
      → In (row a d k) (with_rows cs n)
  complete_kept d a k e h =
      elim (up-redirect_cases (parent_of nodes) n.id n.parent_id c.acyclic
        (clear nodes cs c n fresh parent_ex) d k a h) [
          | inl (same, _) ↦
              In-append_left (row a d k) (cs ++ own_row n ∷ []) _
                (In-append_left (row a d k) cs (own_row n ∷ []) (c.complete d a k e same))
          | inr (i, j, q, to, _, _, _) ↦ absurd (
              not_there nodes cs c n fresh parent_ex
                (up-IsNode nodes cs c n fresh parent_ex d i n.id e to))
        ]

  own_listed : In (own_row n) (with_rows cs n)
  own_listed =
      In-append_left (own_row n) (cs ++ own_row n ∷ []) _
        (In-append_right (own_row n) cs (own_row n ∷ []) (inl refl))

  inherited_listed :
      (q a j k : ℕ)
      → n.parent_id ≡ some q
      → up (parent_of nodes) j q ≡ some a
      → k ≡ j + 1
      → In (row a n.id k) (with_rows cs n)
  inherited_listed q a j k t from e =
      subst (λ m. In (row a n.id m) (with_rows cs n)) (sym e)
        (In-append_right (row a n.id (j + 1)) (cs ++ own_row n ∷ []) _ (
          In-inherited nodes cs c n fresh parent_ex n.parent_id q a j t
            (c.complete q a j (parent_ex q t) from)))

  complete_own :
      (a k : ℕ) → up (new_parents nodes n) k n.id ≡ some a → In (row a n.id k) (with_rows cs n)
  complete_own a zero h = subst (λ x. In (row x n.id 0) (with_rows cs n)) (some-inj h) own_listed
  complete_own a (suc k) h =
      elim (up-redirect_cases (parent_of nodes) n.id n.parent_id c.acyclic
        (clear nodes cs c n fresh parent_ex) n.id (suc k) a h) [
          | inl (_, v) ↦ absurd (v 0 (omega arith) refl)
          | inr (zero, j, q, to, t, from, len) ↦ inherited_listed q a j (suc k) t from (omega arith)
          | inr (suc i, j, q, to, t, from, len) ↦ absurd (c.acyclic n.id i to)
        ]

  complete_created :
      (d a k : ℕ)
      → IsNode (with_node nodes n) d
      → up (new_parents nodes n) k d ≡ some a
      → In (row a d k) (with_rows cs n)
  complete_created d a k e h = elim (Bool-cases (d == n.id)) [
    | inl same ↦
        subst (λ x. In (row a x k) (with_rows cs n)) (sym (eq_of_== d n.id same))
          (complete_own a k
            (subst (λ x. up (new_parents nodes n) k x ≡ some a) (eq_of_== d n.id same) h))
    | inr other ↦
        complete_kept d a k
          (with_node-IsNode nodes cs c n fresh parent_ex d (differs d n.id other) e) h
  ]
    where
      differs : (a b : ℕ) → (a == b) ≡ false → a ≢ b
      differs a b e = ground arith

  IsClosed-created : IsClosed (with_node nodes n) (with_rows cs n)
  IsClosed-created = record {
    sound = λ r i.
        let (e, h) = created-IsSound r i in
        (e, rw (parent_of-created nodes cs c n fresh parent_ex) h);
    complete = λ d a k e h.
        complete_created d a k e (rw (parent_of-created nodes cs c n fresh parent_ex) at h);
    parents = λ d p h.
        (IsNode-with_node nodes cs c n fresh parent_ex) p
          (parents_created d p (rw (parent_of-created nodes cs c n fresh parent_ex) at h));
    acyclic = subst IsAcyclic (sym (parent_of-created nodes cs c n fresh parent_ex)) (
        redirect-IsAcyclic (parent_of nodes) n.id n.parent_id c.acyclic
          (clear nodes cs c n fresh parent_ex));
  }
    where
      parents_created : (d p : ℕ) → (new_parents nodes n) d ≡ some p → IsNode nodes p
      parents_created d p h = elim (Bool-cases (d == n.id)) [
        | inl same ↦ parent_ex p (rw same at h)
        | inr other ↦ c.parents d p (rw other at h)
      ]

-- Creating a node keeps an exact closure table exact, when the next identity is not taken yet and the
-- parent of the new node, where it has one, is a node.
pub create_node_with_audit-IsClosed :
    (accepts : Event → Bool) (draft : Node) (event : Option Event) (s s' : Store)
    → IsClosed s.nodes s.closures
    → node_by_id s.next_node_id s.nodes ≡ none
    → ((p : ℕ) → draft.parent_id ≡ some p → IsNode s.nodes p)
    → create_node_with_audit accepts draft event s ≡ ok s'
    → IsClosed s'.nodes s'.closures
unfolding create_node_with_audit append_change
create_node_with_audit-IsClosed accepts draft event s s' c fresh parent_ex h =
    let n : Node = record draft { id = s.next_node_id } in
    let (hn, hc) = append_node_audit-tables accepts event n none _ _ s' h in
    rw (hn, hc) (IsClosed-created s.nodes s.closures c n fresh parent_ex)
