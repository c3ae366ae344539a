-- ===== src/Nodes/Moving.antt =====
-- The effect of the two statements of `MoveWithAudit` of server/internal/dao/node.go on an exact
-- closure table.
use mathlib.Core.Path.{fun_ext}
use native.Mathlib.Decide.{dec_lt}
use file_share_manager.Prelude.{
  ℕ, zero, suc, ◌+◌, ◌-◌, ◌<◌, ◌==◌, ==_refl, eq_of_==, ◌≡◌, ◌≢◌, refl, sym, ap, ◌∙◌, subst, inl,
  inr, true, false, false≢true, ◌&&◌, List, Option, none, some, arith, In, In-any, any-In, any,
  Bool-cases, and3_true, if◌then◌else◌,
}
use file_share_manager.Nodes.Store.{Node, NodeClosure, node_by_id}
use file_share_manager.Nodes.Tree.{update_node, moved, detached, attached}
use file_share_manager.Nodes.Paths.{up, IsAcyclic, Avoids, up_add, first_hit}
use file_share_manager.Nodes.Paths.Redirect.{
  redirect, up-redirect_avoiding, up-redirect_through, up-redirect_cases, redirect-IsAcyclic,
}
use file_share_manager.Nodes.Closure.{
  row, parent_field, parent_of, IsNode, IsClosed, changed, node_by_id-update, any-up, both_of,
  IsNode-update, update-IsNode, node_by_id-id,
}
use file_share_manager.Nodes.Rows.{
  is_cut, detached-In, In-detached, attached-In, In-attached, In-attached_joined, some-ne-none,
  some-inj, ne_test, ne_of_test, and3_false, false_of,
}

module _ (nodes : List Node) (cs : List NodeClosure) (c : IsClosed nodes cs) (n : ℕ)
    (ex : IsNode nodes n) (actor : ℕ) (target : Option ℕ)
    (target_ex : (q : ℕ) → target ≡ some q → IsNode nodes q)
    (clear : (q i : ℕ) → target ≡ some q → up (parent_of nodes) i q ≢ some n) where
  parent_at :
      (d : ℕ) (o : Option Node)
      → node_by_id d nodes ≡ o
      → parent_field (changed n (moved actor target) o)
        ≡ (if d == n then target else parent_field o)
  parent_at d none e = elim (Bool-cases (d == n)) [
    | inl same ↦
        let (m, h) = ex in
        let here : node_by_id d nodes ≡ some m = rw (eq_of_== d n same) h in
        absurd (some-ne-none (sym here ∙ e))
    | inr other ↦ rw other refl
  ]
  parent_at d (some m) e =
      rw (node_by_id-id nodes d m e)
        (elim (Bool-cases (d == n)) [ inl same ↦ rw same refl | inr other ↦ rw other refl ])

  parent_of-moved :
      parent_of (update_node n (moved actor target) nodes) ≡ redirect (parent_of nodes) n target
  unfolding parent_of
  parent_of-moved = fun_ext (λ d.
      ap parent_field (node_by_id-update n (moved actor target) (λ m. refl) d nodes)
      ∙ parent_at d (node_by_id d nodes) refl)

  under :
      (d i : ℕ)
      → IsNode nodes d
      → up (parent_of nodes) i d ≡ some n
      → any (λ s. s.ancestor_id == n && s.descendant_id == d) cs ≡ true
  under d i e h = In-any _ (row n d i) cs (c.complete d n i e h) (rw (==_refl n, ==_refl d) refl)

  above-up :
      (a : ℕ)
      → any (λ s. s.descendant_id == n && s.ancestor_id == a) cs ≡ true
      → (i : ℕ) × (up (parent_of nodes) i n ≡ some a)
  above-up a h =
      let (s, i, t) = any-In _ cs h in
      let (_, e) = c.sound s i in
      let (p, q) = both_of s.descendant_id n s.ancestor_id a t in
      (s.depth, subst (λ x. up (parent_of nodes) s.depth x ≡ some a) p (e ∙ ap some q))

  cut :
      (d a k i : ℕ)
      → up (parent_of nodes) k d ≡ some a
      → i < k
      → IsNode nodes d
      → up (parent_of nodes) i d ≡ some n
      → is_cut n cs (row a d k) ≡ true
  cut d a k i h l e hit = rw (under d i e hit, above, ne_test a n ne) refl
    where
      up_n : up (parent_of nodes) (suc (k - i - 1)) n ≡ some a
      up_n = sym (up_add (parent_of nodes) d i (suc (k - i - 1)) k (omega arith) hit) ∙ h

      above : any (λ s. s.descendant_id == n && s.ancestor_id == a) cs ≡ true
      above =
          In-any _ (row a n (suc (k - i - 1))) cs (c.complete n a (suc (k - i - 1)) ex up_n)
            (rw (==_refl n, ==_refl a) refl)

      ne : a ≢ n
      ne q = c.acyclic n (k - i - 1) (up_n ∙ ap some q)

  uncut :
      (d a k : ℕ)
      → up (parent_of nodes) k d ≡ some a
      → Avoids (parent_of nodes) n k d
      → is_cut n cs (row a d k) ≡ false
  uncut d a k h v = false_of (is_cut n cs (row a d k)) (λ t.
      let (u, w, z) = and3_true _ _ _ t in
      let (m, hm) = any-up nodes cs c n d u in
      let (l, hl) = above-up a w in clash m l hm hl (ne_of_test a n z))
    where
      clash :
          (m l : ℕ)
          → up (parent_of nodes) m d ≡ some n
          → up (parent_of nodes) l n ≡ some a
          → a ≢ n
          → ⊥
      clash m zero hm hl ne = ne (sym (some-inj hl))
      clash m (suc l) hm hl ne = elim (dec_lt m k) [
        | yes lt ↦ v m lt hm
        | no ge ↦ c.acyclic a (l + (m - k)) (
            up_add (parent_of nodes) a (m - k) (suc l) (suc (l + (m - k))) (omega arith)
              (sym (up_add (parent_of nodes) d k (m - k) m (omega arith) h) ∙ hm)
            ∙ hl)
      ]

  sound_moved :
      (r : NodeClosure)
      → In r (attached n target (detached n cs))
      → IsNode nodes r.descendant_id
        × (up (redirect (parent_of nodes) n target) r.depth r.descendant_id ≡ some r.ancestor_id)
  sound_moved r h = elim (attached-In n target (detached n cs) r h) [
    | inl i ↦ kept (detached-In n cs r i)
    | inr (q, a, b, t, ia, ea, ib, eb, e) ↦
        let (_, ha) = c.sound a (detached-In n cs a ia).0 in
        let (eb', hb) = c.sound b (detached-In n cs b ib).0 in
        subst
          (λ (x : NodeClosure).
            IsNode nodes x.descendant_id
            × (up (redirect (parent_of nodes) n target) x.depth x.descendant_id
                ≡ some x.ancestor_id))
          (sym e)
          (
            eb',
            up-redirect_through (parent_of nodes) n target c.acyclic clear b.descendant_id b.depth q
                a.depth a.ancestor_id (hb ∙ ap some eb) t (rw (← ea) ha),
          )
  ]
    where
      kept :
          In r cs × (is_cut n cs r ≡ false)
          → IsNode nodes r.descendant_id
            × (up (redirect (parent_of nodes) n target) r.depth r.descendant_id
                ≡ some r.ancestor_id)
      kept (i, uncut_r) =
          let (e, h) = c.sound r i in
          elim (first_hit (parent_of nodes) n r.descendant_id r.depth) [
            | inl (j, l, hit, _) ↦
                absurd
                  (false≢true (sym uncut_r ∙ cut r.descendant_id r.ancestor_id r.depth j h l e hit))
            | inr v ↦ (
              e,
              up-redirect_avoiding (parent_of nodes) n target c.acyclic clear r.descendant_id
                    r.depth v
                  ∙ h,
            )
          ]

  complete_moved :
      (d a k : ℕ)
      → IsNode nodes d
      → up (redirect (parent_of nodes) n target) k d ≡ some a
      → In (row a d k) (attached n target (detached n cs))
  complete_moved d a k e h =
      elim (up-redirect_cases (parent_of nodes) n target c.acyclic clear d k a h) [
        | inl (same, v) ↦
            In-attached n target _ (row a d k)
              (In-detached n cs (row a d k) (c.complete d a k e same) (uncut d a k same v))
        | inr (i, j, q, to, t, from, len) ↦ rw len (
            In-attached_joined n target (detached n cs) d q a i j t
              (In-detached n cs (row a q j) (c.complete q a j (target_ex q t) from)
                (uncut q a j from (λ l _. clear q l t)))
              (In-detached n cs (row n d i) (c.complete d n i e to) (own n d i)))
      ]
    where
      own : (n d i : ℕ) → is_cut n cs (row n d i) ≡ false
      own n d i = rw (==_refl n) (
          and3_false (any (λ s. s.ancestor_id == n && s.descendant_id == d) cs)
            (any (λ s. s.descendant_id == n && s.ancestor_id == n) cs))

  parents_moved : (d p : ℕ) → redirect (parent_of nodes) n target d ≡ some p → IsNode nodes p
  parents_moved d p h = elim (Bool-cases (d == n)) [
    | inl same ↦ target_ex p (rw same at h)
    | inr other ↦ c.parents d p (rw other at h)
  ]

  pub IsClosed-moved :
      IsClosed (update_node n (moved actor target) nodes) (attached n target (detached n cs))
  IsClosed-moved = record {
    sound = λ r i.
        let (e, h) = sound_moved r i in
        (
          IsNode-update n (moved actor target) (λ m. refl) nodes r.descendant_id e,
          rw parent_of-moved h,
        );
    complete = λ d a k e h.
        complete_moved d a k (update-IsNode n (moved actor target) (λ m. refl) nodes d e)
          (rw parent_of-moved at h);
    parents = λ d p h.
        IsNode-update n (moved actor target) (λ m. refl) nodes p
          (parents_moved d p (rw parent_of-moved at h));
    acyclic =
        subst IsAcyclic (sym parent_of-moved)
          (redirect-IsAcyclic (parent_of nodes) n target c.acyclic clear);
  }
