-- ===== src/Nodes/Closure.antt =====
-- What the closure table promises, and the reading of the node table as a parent function.
use file_share_manager.Prelude.{
  true, ◌&&◌, any, any-In, In-any, subst, ==_refl, ℕ, ◌==◌, ◌≡◌, refl, ap, ◌∙◌, inl, inr, false,
  List, [], ◌∷◌, Option, none, some, arith, In, if◌then◌else◌, eq_of_==, Bool-cases, Option-cases,
  find_first_sound,
}
use file_share_manager.Nodes.Store.{Node, NodeClosure, node_by_id}
use file_share_manager.Nodes.Tree.{update_node}
use file_share_manager.Nodes.Paths.{up, IsAcyclic}

abbrev pub row : ℕ → ℕ → ℕ → NodeClosure
row ancestor descendant depth = record {
  ancestor_id = ancestor;
  descendant_id = descendant;
  depth = depth;
}

abbrev pub parent_field : Option Node → Option ℕ
parent_field none = none
parent_field (some n) = n.parent_id

unfoldable pub parent_of : List Node → ℕ → Option ℕ
parent_of nodes id = parent_field (node_by_id id nodes)

abbrev pub IsNode : List Node → ℕ → Type 0
IsNode nodes id = (n : Node) × (node_by_id id nodes ≡ some n)

-- The closure table holds exactly the chains of parents, each node's parent is a node, and no node
-- stands above itself.
pub record IsClosed (nodes : List Node) (closures : List NodeClosure) : Type 0 where
  pub sound :
      (c : NodeClosure)
      → In c closures
      → IsNode nodes c.descendant_id
        × (up (parent_of nodes) c.depth c.descendant_id ≡ some c.ancestor_id)
  pub complete :
      (d a k : ℕ) → IsNode nodes d → up (parent_of nodes) k d ≡ some a → In (row a d k) closures
  pub parents : (d p : ℕ) → parent_of nodes d ≡ some p → IsNode nodes p
  pub acyclic : IsAcyclic (parent_of nodes)

pub both_of : (a b c d : ℕ) → (a == b && c == d) ≡ true → (a ≡ b) × (c ≡ d)
both_of a b c d h = ground arith

-- The count of closure rows between two nodes finds the chain between them.
pub any-up :
    (nodes : List Node) (cs : List NodeClosure) (c : IsClosed nodes cs) (n d : ℕ)
    → any (λ s. s.ancestor_id == n && s.descendant_id == d) cs ≡ true
    → (i : ℕ) × (up (parent_of nodes) i d ≡ some n)
any-up nodes cs c n d h =
    let (s, i, t) = any-In _ cs h in
    let (_, e) = c.sound s i in
    let (p, q) = both_of s.ancestor_id n s.descendant_id d t in
    (s.depth, subst (λ x. up (parent_of nodes) s.depth x ≡ some n) q (e ∙ ap some p))

pub up-any :
    (nodes : List Node) (cs : List NodeClosure) (c : IsClosed nodes cs) (n d i : ℕ)
    → IsNode nodes d
    → up (parent_of nodes) i d ≡ some n
    → any (λ s. s.ancestor_id == n && s.descendant_id == d) cs ≡ true
up-any nodes cs c n d i e h =
    In-any _ (row n d i) cs (c.complete d n i e h) (rw (==_refl n, ==_refl d) refl)

-- A node that is found in a workspace is found by its identity, though maybe as another row.
pub IsNode-of_In : (nodes : List Node) (n : Node) → In n nodes → IsNode nodes n.id
IsNode-of_In [] n h = absurd h
IsNode-of_In (m ∷ nodes) n h = elim (Bool-cases (m.id == n.id)) [
  | inl e ↦ (m, rw e refl)
  | inr e ↦ rw e (IsNode-of_In nodes n (past h e))
]
  where
    past : In n (m ∷ nodes) → (m.id == n.id) ≡ false → In n nodes
    past (inl q) e = ground arith
    past (inr q) e = q

pub not-IsNode-none : (nodes : List Node) (d : ℕ) → node_by_id d nodes ≡ none → ¬ IsNode nodes d
not-IsNode-none nodes d h (m, e) = ground arith

module _ (n : ℕ) (f : Node → Node) where
  abbrev pub changed : Option Node → Option Node
  changed none = none
  changed (some m) = some (if m.id == n then f m else m)

module _ (n : ℕ) (f : Node → Node) (keeps : (m : Node) → (f m).id ≡ m.id) where
  pub node_by_id-update :
      (d : ℕ) (nodes : List Node)
      → node_by_id d (update_node n f nodes) ≡ changed n f (node_by_id d nodes)
  node_by_id-update d [] = refl
  node_by_id-update d (m ∷ nodes) = ground (arith, keeps m, node_by_id-update d nodes)

  pub IsNode-update :
      (nodes : List Node) (d : ℕ) → IsNode nodes d → IsNode (update_node n f nodes) d
  IsNode-update nodes d (m, h) = (_, node_by_id-update d nodes ∙ ap (changed n f) h)

  pub update-IsNode :
      (nodes : List Node) (d : ℕ) → IsNode (update_node n f nodes) d → IsNode nodes d
  update-IsNode nodes d (m, h) = elim (Option-cases (node_by_id d nodes)) [
    | inl e ↦ absurd (not-IsNode-none _ d (node_by_id-update d nodes ∙ ap (changed n f) e) (m, h))
    | inr (x, e) ↦ (x, e)
  ]

pub node_by_id-id : (nodes : List Node) (d : ℕ) (m : Node) → node_by_id d nodes ≡ some m → m.id ≡ d
node_by_id-id nodes d m h = eq_of_== m.id d (find_first_sound (λ x. x.id == d) nodes m h).1
