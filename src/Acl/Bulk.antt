-- ===== src/Acl/Bulk.antt =====
-- `ListEffectiveEntriesForNodes` of server/internal/dao/acl.go beside `ListEffectiveEntries`.
use file_share_manager.Prelude.{
  ℕ, ◌≤◌, ◌==◌, ==_refl, eq_of_==, leb, ltb, ◌≡◌, ◌↔◌, refl, sym, ap, ◌∙◌, subst, inl, inr, Bool,
  true, false, ◌&&◌, ◌||◌, List, [], ◌∷◌, ◌++◌, map, Option, arith, In, any, select, In-select,
  select-In, In-map, map-In, join-In, In-join, sort_by, sort_by-In, In-sort_by, sort_by-IsSorted,
  IsSorted, IsSorted-select, Bool-cases, and_true,
}
use file_share_manager.Authorization.{EffectiveAclEntry, is_nonempty}
use file_share_manager.Authorization.Runs.{IsByDepth}
use file_share_manager.Acl.Tables.{NodeAcl, Tables}
use file_share_manager.Nodes.Store.{NodeClosure}
use file_share_manager.Acl.Effective.{
  break_depth, break_depths, within, is_effective, applies_among, EffectiveRow, effective_row,
  by_target, append_entry, target_rows, collect, list_effective_entries_for_nodes,
}
use file_share_manager.Acl.Reading.{
  IsEffective, effective_of, is_effective_of, within-IsUnbroken, IsUnbroken-within,
}

-- The rows that the loop puts under a key.
abbrev is_kept : (ℕ → Option ℕ) → ℕ → EffectiveRow → Bool
is_kept depths target row =
    row.target_node_id == target && within (depths row.target_node_id) row.entry.depth

abbrev entry_of : EffectiveRow → EffectiveAclEntry
entry_of row = row.entry

append_single : {A : Type 0} (xs ys : List A) (x : A) → (xs ++ x ∷ []) ++ ys ≡ xs ++ x ∷ ys
append_single [] ys x = refl
append_single (y ∷ xs) ys x = ap (λ l. y ∷ l) (append_single xs ys x)

append_nil : {A : Type 0} (xs : List A) → xs ++ [] ≡ xs
append_nil [] = refl
append_nil (x ∷ xs) = ap (λ l. x ∷ l) (append_nil xs)

collect_lem :
    (depths : ℕ → Option ℕ) (target : ℕ) (rows : List EffectiveRow)
    (result : ℕ → List EffectiveAclEntry)
    → collect depths rows result target
      ≡ result target ++ map entry_of (select (is_kept depths target) rows)
unfolding collect
collect_lem depths target [] result = sym (append_nil (result target))
collect_lem depths target (row ∷ rows) result =
    elim (Bool-cases (within (depths row.target_node_id) row.entry.depth)) [
      | inl w ↦ elim (Bool-cases (row.target_node_id == target)) [
        | inl e ↦
            rw (w, e)
              (collect_lem depths target rows (append_entry row result)
                ∙ rw e (
                    append_single (result target)
                      (map entry_of (select (is_kept depths target) rows)) row.entry))
        | inr e ↦ rw (w, e) (collect_lem depths target rows (append_entry row result) ∙ rw e refl)
      ]
      | inr w ↦ elim (Bool-cases (row.target_node_id == target)) [
        | inl e ↦ rw (w, e) (collect_lem depths target rows result)
        | inr e ↦ rw (w, e) (collect_lem depths target rows result)
      ]
    ]

-- The rows of one target in the order of the targets are in the order of the depth.
by_target-IsByDepth :
    (target : ℕ) (rows : List EffectiveRow)
    → IsSorted by_target rows
    → ((r : EffectiveRow) → In r rows → r.target_node_id ≡ target)
    → IsByDepth (map entry_of rows)
by_target-IsByDepth target [] s same = tt
by_target-IsByDepth target (r ∷ rows) s same = (
  λ x i.
      let (q, j, e) = map-In entry_of x rows i in
      rw e (
        le r.target_node_id q.target_node_id r.entry.depth q.entry.depth (s.0 q j)
          (same r (inl refl) ∙ sym (same q (inr j)))),
  by_target-IsByDepth target rows s.1 (λ q j. same q (inr j)),
)
  where
    le : (t u a b : ℕ) → (ltb t u || (t == u && leb a b)) ≡ true → t ≡ u → a ≤ b
    le t u a b h e = ground arith

by_target-IsSorted : (rows : List EffectiveRow) → IsSorted by_target (sort_by by_target rows)
by_target-IsSorted =
    sort_by-IsSorted by_target
      (λ x y. total x.target_node_id y.target_node_id x.entry.depth y.entry.depth)
      (λ x y z.
        trans x.target_node_id y.target_node_id z.target_node_id x.entry.depth y.entry.depth
          z.entry.depth)
  where
    total :
        (t u a b : ℕ)
        → (ltb t u || (t == u && leb a b)) ≡ false
        → (ltb u t || (u == t && leb b a)) ≡ true
    total t u a b h = ground arith

    trans :
        (t u v a b c : ℕ)
        → (ltb t u || (t == u && leb a b)) ≡ true
        → (ltb u v || (u == v && leb b c)) ≡ true
        → (ltb t v || (t == v && leb a c)) ≡ true
    trans t u v a b c h k = ground arith

module _ (ws user_id : ℕ) (groups ids : List ℕ) (t : Tables) (id : ℕ)
    (asked : any (λ k. id == k) ids ≡ true) where
  rows : List EffectiveRow
  rows =
      select (is_kept (break_depths ws ids t) id)
        (sort_by by_target (target_rows ws ids user_id groups t))

  some_id : is_nonempty ids ≡ true
  some_id = go ids asked
    where
      go : (l : List ℕ) → any (λ k. id == k) l ≡ true → is_nonempty l ≡ true
      go [] h = h
      go (x ∷ l) h = refl

  bulk_lem : list_effective_entries_for_nodes ws user_id groups ids t id ≡ map entry_of rows
  unfolding list_effective_entries_for_nodes rows
  bulk_lem = rw some_id (
      collect_lem (break_depths ws ids t) id
        (sort_by by_target (target_rows ws ids user_id groups t)) (λ k. []))

  pub list_effective_entries_for_nodes-IsByDepth :
      IsByDepth (list_effective_entries_for_nodes ws user_id groups ids t id)
  unfolding rows
  list_effective_entries_for_nodes-IsByDepth = subst IsByDepth (sym bulk_lem) (
      by_target-IsByDepth id rows
        (IsSorted-select by_target (is_kept (break_depths ws ids t) id)
          (sort_by by_target (target_rows ws ids user_id groups t))
          (by_target-IsSorted (target_rows ws ids user_id groups t)))
        (λ r i.
          let (_, k) =
            select-In (is_kept (break_depths ws ids t) id) r
              (sort_by by_target (target_rows ws ids user_id groups t)) i in
          eq_of_== r.target_node_id id (and_true (r.target_node_id == id) _ k).0))

  bulk-IsEffective :
      (x : EffectiveAclEntry)
      → In x (list_effective_entries_for_nodes ws user_id groups ids t id)
      → IsEffective ws id user_id groups t x
  unfolding rows
  bulk-IsEffective x h =
      let (r, i, e) = map-In entry_of x rows (subst (In x) bulk_lem h) in
      let (j, k) =
        select-In (is_kept (break_depths ws ids t) id) r
          (sort_by by_target (target_rows ws ids user_id groups t)) i in
      let (a, c, ia, ic, p, q) =
        join-In (applies_among ws ids user_id groups) effective_row r t.acls t.closures
          (sort_by-In by_target r (target_rows ws ids user_id groups t) j) in
      effective r a c ia ic p q k e
    where
      effective :
          (r : EffectiveRow) (a : NodeAcl) (c : NodeClosure)
          → In a t.acls
          → In c t.closures
          → applies_among ws ids user_id groups a c ≡ true
          → r ≡ effective_row a c
          → is_kept (break_depths ws ids t) id r ≡ true
          → x ≡ entry_of r
          → IsEffective ws id user_id groups t x
      effective r a c ia ic p q k e =
          let (f, w, z, n) =
            effective_of ws user_id groups a c
              (and_true (any (λ k. c.descendant_id == k) ids) (is_effective ws user_id groups a c)
                p).1 in
          let (d, v) =
            and_true (c.descendant_id == id)
              (within (break_depths ws ids t c.descendant_id) c.depth)
              (subst (λ r. is_kept (break_depths ws ids t) id r ≡ true) q k) in
          let at : c.descendant_id ≡ id = eq_of_== c.descendant_id id d in
          record {
            rule = a;
            path = c;
            ruled = ia;
            listed = ic;
            from = f;
            to = at;
            inside = w;
            reaches = z;
            named = n;
            unbroken = within-IsUnbroken ws id t c.depth (depth_at (c.descendant_id) c.depth at v);
            copied = e ∙ ap entry_of q;
          }
        where
          depth_at :
              (d k : ℕ)
              → d ≡ id
              → within (break_depths ws ids t d) k ≡ true
              → within (break_depth ws id t) k ≡ true
          depth_at d k e v = rw (e, asked) at v

  IsEffective-bulk :
      (x : EffectiveAclEntry)
      → IsEffective ws id user_id groups t x
      → In x (list_effective_entries_for_nodes ws user_id groups ids t id)
  unfolding rows
  IsEffective-bulk x g = subst (In x) (sym bulk_lem) (
      subst (λ y. In y (map entry_of rows)) (sym g.copied)
        (In-map entry_of (effective_row g.rule g.path) rows (
          In-select (is_kept (break_depths ws ids t) id) (effective_row g.rule g.path)
            (sort_by by_target (target_rows ws ids user_id groups t))
            (In-sort_by by_target (effective_row g.rule g.path)
              (target_rows ws ids user_id groups t)
              (In-join (applies_among ws ids user_id groups) effective_row g.rule g.path t.acls
                t.closures g.ruled g.listed
                (rw
                  (
                    g.to,
                    asked,
                    is_effective_of ws user_id groups g.rule g.path g.from g.inside g.reaches
                        g.named,
                  )
                  refl)))
            (rw (g.to, ==_refl id, asked, IsUnbroken-within ws id t g.path.depth g.unbroken)
              refl))))

  -- For a node that was asked for, `ListEffectiveEntriesForNodes` delivers exactly the entries that
  -- apply to the user at that node.
  pub list_effective_entries_for_nodes_iff :
      (x : EffectiveAclEntry)
      → In x (list_effective_entries_for_nodes ws user_id groups ids t id)
        ↔ IsEffective ws id user_id groups t x
  list_effective_entries_for_nodes_iff x = (bulk-IsEffective x, IsEffective-bulk x)
