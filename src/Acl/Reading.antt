-- ===== src/Acl/Reading.antt =====
-- An independent reading of the query `ListEffectiveEntries` of server/internal/dao/acl.go.
use file_share_manager.Prelude.{
  ℕ, ◌≤◌, ◌==◌, ==_refl, eq_of_==, leb, ◌≡◌, ◌≢◌, ◌↔◌, refl, ◌⊎◌, inl, inr, Bool, true, false, ◌&&◌,
  ◌||◌, List, [], ◌∷◌, Option, none, some, arith, In, any-In, In-any, select, In-select, select-In,
  join-In, In-join, sort_by-In, In-sort_by, sort_by-IsSorted, IsSorted, Bool-cases, Option-cases,
  and_true, and3_true, and4_true,
}
use file_share_manager.Authorization.{EffectiveAclEntry}
use file_share_manager.Authorization.Runs.{IsByDepth}
use file_share_manager.Nodes.Store.{Node, NodeClosure, break}
use file_share_manager.Acl.Tables.{NodeAcl, Tables}
use file_share_manager.Acl.Effective.{
  is_break, min_depth, is_break_row, break_depth, within, names, is_effective, applies_at,
  effective_rows, effective_entry, by_depth, list_effective_entries,
}

-- The least depth is no deeper than any row, and is the depth of one.
min_depth-lower :
    (cs : List NodeClosure) (d : ℕ) (c : NodeClosure)
    → min_depth cs ≡ some d
    → In c cs
    → d ≤ c.depth
min_depth-lower [] d c h i = absurd i
min_depth-lower (x ∷ cs) d c h i = elim (Option-cases (min_depth cs)) [
  | inl e ↦ ground (arith, none_empty cs e)
  | inr (m, e) ↦ ground (arith, min_depth-lower cs m c e)
]
  where
    none_empty : (l : List NodeClosure) → min_depth l ≡ none → ¬ In c l
    none_empty [] e j = j
    none_empty (y ∷ l) e j = ground arith

min_depth-In :
    (cs : List NodeClosure) (d : ℕ)
    → min_depth cs ≡ some d
    → (c : NodeClosure) × In c cs × (c.depth ≡ d)
min_depth-In [] d h = absurd (ne_some h)
  where
    ne_some : none ≢ some d
    ne_some e = cc
min_depth-In (x ∷ cs) d h = elim (Option-cases (min_depth cs)) [
  | inl e ↦ (x, inl refl, ground arith)
  | inr (m, e) ↦ let (c, i, q) = min_depth-In cs m e in smaller m e c i q
]
  where
    smaller :
        (m : ℕ)
        → min_depth cs ≡ some m
        → (c : NodeClosure) → In c cs
        → c.depth ≡ m
        → (c : NodeClosure) × In c (x ∷ cs) × (c.depth ≡ d)
    smaller m e c i q = elim (Bool-cases (leb x.depth m)) [
      | inl l ↦ (x, inl refl, ground arith)
      | inr l ↦ (c, inr i, ground arith)
    ]

min_depth-none : (cs : List NodeClosure) (c : NodeClosure) → min_depth cs ≡ none → ¬ In c cs
min_depth-none [] c h i = i
min_depth-none (x ∷ cs) c h i = ground arith

-- No ancestor that breaks the inheritance stands nearer than the depth.
abbrev pub IsUnbroken : ℕ → ℕ → Tables → ℕ → Type 0
IsUnbroken workspace_id node_id t depth =
    (b : NodeClosure)
    → In b t.closures
    → b.descendant_id ≡ node_id
    → (n : Node) → In n t.nodes
    → n.id ≡ b.ancestor_id
    → n.workspace_id ≡ workspace_id
    → n.inherit_mode ≡ break
    → depth ≤ b.depth

break_row :
    (ws id : ℕ) (nodes : List Node) (b : NodeClosure) (n : Node)
    → b.descendant_id ≡ id
    → In n nodes
    → n.id ≡ b.ancestor_id
    → n.workspace_id ≡ ws
    → n.inherit_mode ≡ break
    → is_break_row ws id nodes b ≡ true
break_row ws id nodes b n d i e w k =
    rw (d, ==_refl id) (In-any _ n nodes i (rw (e, w, k, ==_refl b.ancestor_id, ==_refl ws) refl))

pub within-IsUnbroken :
    (ws id : ℕ) (t : Tables) (depth : ℕ)
    → within (break_depth ws id t) depth ≡ true
    → IsUnbroken ws id t depth
unfolding break_depth
within-IsUnbroken ws id t depth h b i d n j e w k =
    go (min_depth (select (is_break_row ws id t.nodes) t.closures)) refl h
  where
    row : In b (select (is_break_row ws id t.nodes) t.closures)
    row =
        In-select (is_break_row ws id t.nodes) b t.closures i
          (break_row ws id t.nodes b n d j e w k)

    go :
        (o : Option ℕ)
        → min_depth (select (is_break_row ws id t.nodes) t.closures) ≡ o
        → within o depth ≡ true
        → depth ≤ b.depth
    go none q l = absurd (min_depth-none _ b q row)
    go (some m) q l = ground (arith, min_depth-lower _ m b q row)

pub IsUnbroken-within :
    (ws id : ℕ) (t : Tables) (depth : ℕ)
    → IsUnbroken ws id t depth
    → within (break_depth ws id t) depth ≡ true
unfolding break_depth
IsUnbroken-within ws id t depth u =
    go (min_depth (select (is_break_row ws id t.nodes) t.closures)) refl
  where
    go :
        (o : Option ℕ)
        → min_depth (select (is_break_row ws id t.nodes) t.closures) ≡ o
        → within o depth ≡ true
    go none q = refl
    go (some m) q =
        let (c, i, e) = min_depth-In _ m q in
        let (j, r) = select-In (is_break_row ws id t.nodes) c t.closures i in
        let (d, s) = and_true _ _ r in
        let (n, k, z) = any-In _ t.nodes s in
        let (x, y, w) = three n c z in
        let below : depth ≤ c.depth = u c j (eq_of_== _ _ d) n k x y w in ground arith
      where
        three :
            (n : Node) (c : NodeClosure)
            → (n.id == c.ancestor_id && n.workspace_id == ws && is_break n.inherit_mode) ≡ true
            → (n.id ≡ c.ancestor_id) × (n.workspace_id ≡ ws) × (n.inherit_mode ≡ break)
        three n c z = ground arith

-- An entry that applies to the user at the node: a rule for the user or one of the groups, on the
-- node itself or on an ancestor that hands it down, with no break of the inheritance between.
pub record IsEffective (workspace_id node_id user_id : ℕ) (group_ids : List ℕ) (t : Tables)
    (x : EffectiveAclEntry) : Type 0 where
  pub rule : NodeAcl
  pub path : NodeClosure
  pub ruled : In rule t.acls
  pub listed : In path t.closures
  pub from : path.ancestor_id ≡ rule.node_id
  pub to : path.descendant_id ≡ node_id
  pub inside : rule.workspace_id ≡ workspace_id
  pub reaches : (path.depth ≡ 0) ⊎ (rule.inherit_to_children ≡ true)
  pub named : names user_id group_ids rule ≡ true
  pub unbroken : IsUnbroken workspace_id node_id t path.depth
  pub copied : x ≡ effective_entry rule path

pub effective_of :
    (ws user_id : ℕ) (groups : List ℕ) (a : NodeAcl) (c : NodeClosure)
    → is_effective ws user_id groups a c ≡ true
    → (c.ancestor_id ≡ a.node_id)
      × (a.workspace_id ≡ ws)
      × ((c.depth ≡ 0) ⊎ (a.inherit_to_children ≡ true))
      × (names user_id groups a ≡ true)
effective_of ws user_id groups a c h =
    let (p, r, u, v) =
      and4_true (c.ancestor_id == a.node_id) (a.workspace_id == ws)
        (c.depth == 0 || a.inherit_to_children) (names user_id groups a) h in
    (eq_of_== _ _ p, eq_of_== _ _ r, either c.depth a.inherit_to_children u, v)
  where
    either : (d : ℕ) (b : Bool) → (d == 0 || b) ≡ true → (d ≡ 0) ⊎ (b ≡ true)
    either d b u = ground arith

pub is_effective_of :
    (ws user_id : ℕ) (groups : List ℕ) (a : NodeAcl) (c : NodeClosure)
    → c.ancestor_id ≡ a.node_id
    → a.workspace_id ≡ ws
    → (c.depth ≡ 0) ⊎ (a.inherit_to_children ≡ true)
    → names user_id groups a ≡ true
    → is_effective ws user_id groups a c ≡ true
is_effective_of ws user_id groups a c p q r s =
    rw (p, q, ==_refl a.node_id, ==_refl ws, either c.depth a.inherit_to_children r, s) refl
  where
    either : (d : ℕ) (b : Bool) → (d ≡ 0) ⊎ (b ≡ true) → (d == 0 || b) ≡ true
    either d b u = ground arith

-- `ListEffectiveEntries` delivers exactly the entries that apply: those of a rule that names the
-- user or one of the groups, stands on the node or on an ancestor from which it is handed down, and
-- is no deeper than the nearest ancestor that breaks the inheritance.
pub list_effective_entries_iff :
    (ws id user_id : ℕ) (groups : List ℕ) (t : Tables) (x : EffectiveAclEntry)
    → In x (list_effective_entries ws id user_id groups t) ↔ IsEffective ws id user_id groups t x
unfolding list_effective_entries
list_effective_entries_iff ws id user_id groups t x = (read, deliver)
  where
    read :
        In x (list_effective_entries ws id user_id groups t) → IsEffective ws id user_id groups t x
    read h =
        let (a, c, i, j, p, e) =
          join-In (applies_at ws id user_id groups (break_depth ws id t)) effective_entry x t.acls
            t.closures
            (sort_by-In by_depth x (effective_rows ws id user_id groups (break_depth ws id t) t)
              h) in
        let (d, u, v) =
          and3_true (c.descendant_id == id) (is_effective ws user_id groups a c)
            (within (break_depth ws id t) c.depth) p in
        let (f, w, z, n) = effective_of ws user_id groups a c u in
        record {
          rule = a;
          path = c;
          ruled = i;
          listed = j;
          from = f;
          to = eq_of_== _ _ d;
          inside = w;
          reaches = z;
          named = n;
          unbroken = within-IsUnbroken ws id t c.depth v;
          copied = e;
        }

    deliver :
        IsEffective ws id user_id groups t x → In x (list_effective_entries ws id user_id groups t)
    deliver g = rw g.copied (
        In-sort_by by_depth (effective_entry g.rule g.path)
          (effective_rows ws id user_id groups (break_depth ws id t) t)
          (In-join (applies_at ws id user_id groups (break_depth ws id t)) effective_entry g.rule
            g.path t.acls t.closures g.ruled g.listed
            (rw
              (
                g.to,
                ==_refl id,
                is_effective_of ws user_id groups g.rule g.path g.from g.inside g.reaches g.named,
                IsUnbroken-within ws id t g.path.depth g.unbroken,
              )
              refl)))

pub by_depth-IsByDepth : (es : List EffectiveAclEntry) → IsSorted by_depth es → IsByDepth es
by_depth-IsByDepth [] s = tt
by_depth-IsByDepth (e ∷ es) s = (λ x i. le e.depth x.depth (s.0 x i), by_depth-IsByDepth es s.1)
  where
    le : (a b : ℕ) → leb a b ≡ true → a ≤ b
    le a b h = ground arith

pub list_effective_entries-IsByDepth :
    (ws id user_id : ℕ) (groups : List ℕ) (t : Tables)
    → IsByDepth (list_effective_entries ws id user_id groups t)
unfolding list_effective_entries
list_effective_entries-IsByDepth ws id user_id groups t =
    by_depth-IsByDepth (list_effective_entries ws id user_id groups t) (
      sort_by-IsSorted by_depth (λ x y h. total x.depth y.depth h)
        (λ x y z h k. trans x.depth y.depth z.depth h k)
        (effective_rows ws id user_id groups (break_depth ws id t) t))
  where
    total : (a b : ℕ) → leb a b ≡ false → leb b a ≡ true
    total a b h = ground arith

    trans : (a b c : ℕ) → leb a b ≡ true → leb b c ≡ true → leb a c ≡ true
    trans a b c h k = ground arith
