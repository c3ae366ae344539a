-- ===== src/Nodes/Adding.antt =====
-- The node table and the closure rows behind `CreateNodeWithAudit` of server/internal/dao/node.go.
use mathlib.Core.Path.{fun_ext}
use file_share_manager.Prelude.{
  ℕ, zero, suc, ◌+◌, ◌==◌, ==_refl, eq_of_==, ◌≡◌, ◌≢◌, refl, sym, ap, ◌∙◌, subst, inl, inr, Bool,
  false, List, [], ◌∷◌, ◌++◌, Option, none, some, arith, In, In-append_left, In-map, map-In,
  In-select, select-In, select, find_first, find_first-append, find_first-append_other, Bool-cases,
  Option-cases,
}
use file_share_manager.Nodes.Store.{Node, NodeClosure, node_by_id}
use file_share_manager.Nodes.Tree.{inherited_closures}
use file_share_manager.Nodes.Paths.{step, up, Avoids}
use file_share_manager.Nodes.Paths.Redirect.{redirect}
use file_share_manager.Nodes.Closure.{
  row, parent_field, parent_of, IsNode, IsClosed, not-IsNode-none,
}
use file_share_manager.Nodes.Rows.{some-ne-none, some-inj}

find_first-kept :
    {A : Type 0} (p : A → Bool) (xs ys : List A) (x : A)
    → find_first p xs ≡ some x
    → find_first p (xs ++ ys) ≡ some x
find_first-kept p [] ys x h = cc
find_first-kept p (y ∷ xs) ys x h = ground (arith, find_first-kept p xs ys x)

abbrev pub with_node : List Node → Node → List Node
with_node nodes n = nodes ++ n ∷ []

abbrev pub own_row : Node → NodeClosure
own_row n = record { ancestor_id = n.id; descendant_id = n.id; depth = 0 }

abbrev pub with_rows : List NodeClosure → Node → List NodeClosure
with_rows cs n =
    (cs ++ own_row n ∷ []) ++ inherited_closures n.id n.parent_id (cs ++ own_row n ∷ [])

abbrev pub new_parents : List Node → Node → ℕ → Option ℕ
new_parents nodes n = redirect (parent_of nodes) n.id n.parent_id

module _ (nodes : List Node) (cs : List NodeClosure) (c : IsClosed nodes cs) (n : Node)
    (fresh : node_by_id n.id nodes ≡ none)
    (parent_ex : (p : ℕ) → n.parent_id ≡ some p → IsNode nodes p) where
  pub not_there : ¬ IsNode nodes n.id
  not_there = not-IsNode-none nodes n.id fresh

  pub IsNode-ne : (d : ℕ) → IsNode nodes d → d ≢ n.id
  IsNode-ne d e q = not_there (subst (IsNode nodes) q e)

  node_by_id-own : node_by_id n.id (with_node nodes n) ≡ some n
  node_by_id-own =
      find_first-append (λ m. m.id == n.id) nodes (n ∷ []) fresh ∙ rw (==_refl n.id) refl

  node_by_id-other : (d : ℕ) → d ≢ n.id → node_by_id d (with_node nodes n) ≡ node_by_id d nodes
  node_by_id-other d h = find_first-append_other (λ m. m.id == d) nodes n (apart n.id d h)
    where
      apart : (a b : ℕ) → b ≢ a → (a == b) ≡ false
      apart a b h = ground arith

  pub parent_of-created :
      parent_of (with_node nodes n) ≡ redirect (parent_of nodes) n.id n.parent_id
  unfolding parent_of
  parent_of-created = fun_ext (λ d. elim (Bool-cases (d == n.id)) [
    | inl e ↦ rw e (
        ap (λ k. parent_field (node_by_id k (with_node nodes n))) (eq_of_== d n.id e)
        ∙ ap parent_field node_by_id-own)
    | inr e ↦ rw e (ap parent_field (node_by_id-other d (differs d n.id e)))
  ])
    where
      differs : (a b : ℕ) → (a == b) ≡ false → a ≢ b
      differs a b e = ground arith

  -- Every ancestor of a node is a node.
  pub up-IsNode : (d k a : ℕ) → IsNode nodes d → up (parent_of nodes) k d ≡ some a → IsNode nodes a
  up-IsNode d zero a e h = subst (IsNode nodes) (some-inj h) e
  up-IsNode d (suc k) a e h = elim (Option-cases (up (parent_of nodes) k d)) [
    | inl q ↦ absurd (some-ne-none (sym h ∙ ap (step (parent_of nodes)) q))
    | inr (b, q) ↦ c.parents b a (sym (ap (step (parent_of nodes)) q) ∙ h)
  ]

  pub clear : (q i : ℕ) → n.parent_id ≡ some q → up (parent_of nodes) i q ≢ some n.id
  clear q i t h = not_there (up-IsNode q i n.id (parent_ex q t) h)

  pub avoids : (d k : ℕ) → IsNode nodes d → Avoids (parent_of nodes) n.id k d
  avoids d k e i l h = not_there (up-IsNode d i n.id e h)

  pub IsNode-with_node : (d : ℕ) → IsNode nodes d → IsNode (with_node nodes n) d
  IsNode-with_node d (m, h) = (m, find_first-kept (λ m. m.id == d) nodes (n ∷ []) m h)

  pub own-IsNode : IsNode (with_node nodes n) n.id
  own-IsNode = (n, node_by_id-own)

  pub with_node-IsNode : (d : ℕ) → d ≢ n.id → IsNode (with_node nodes n) d → IsNode nodes d
  with_node-IsNode d q (m, h) = (m, sym (node_by_id-other d q) ∙ h)

  pub inherited-In :
      (parent : Option ℕ) (r : NodeClosure)
      → In r (inherited_closures n.id parent (cs ++ own_row n ∷ []))
      → (p : ℕ) × (x : NodeClosure) × (parent ≡ some p)
        × In x (cs ++ own_row n ∷ [])
        × (x.descendant_id ≡ p)
        × (r ≡ row x.ancestor_id n.id (x.depth + 1))
  unfolding inherited_closures
  inherited-In none r i = absurd i
  inherited-In (some p) r i =
      let (x, j, e) = map-In _ r (select (λ c. c.descendant_id == p) (cs ++ own_row n ∷ [])) i in
      let (k, t) = select-In (λ c. c.descendant_id == p) x (cs ++ own_row n ∷ []) j in
      (p, x, refl, k, eq_of_== x.descendant_id p t, e)

  pub In-inherited :
      (parent : Option ℕ) (p a j : ℕ)
      → parent ≡ some p
      → In (row a p j) cs
      → In (row a n.id (j + 1)) (inherited_closures n.id parent (cs ++ own_row n ∷ []))
  unfolding inherited_closures
  In-inherited none p a j t i = absurd (some-ne-none (sym t))
  In-inherited (some q) p a j t i =
      In-map (λ (c : NodeClosure). row c.ancestor_id n.id (c.depth + 1)) (row a p j)
        (select (λ c. c.descendant_id == q) (cs ++ own_row n ∷ []))
        (In-select (λ c. c.descendant_id == q) (row a p j) (cs ++ own_row n ∷ [])
          (In-append_left (row a p j) cs (own_row n ∷ []) i) (rw (some-inj t) (==_refl p)))
