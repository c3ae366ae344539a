-- ===== src/Nodes/Rows.antt =====
-- The rows that the two statements of a move leave and add, and the tests on rows.
use file_share_manager.Prelude.{
  ℕ, ◌+◌, ◌==◌, ==_refl, eq_of_==, ◌≡◌, ◌≢◌, refl, sym, ◌⊎◌, inl, inr, Bool, true, false, ◌&&◌, not,
  List, [], ◌∷◌, map, Option, none, some, arith, In, In-append_left, In-append_right,
  In-append_cases, In-select, select-In, In-map, map-In, any,
}
use file_share_manager.Nodes.Store.{NodeClosure}
use file_share_manager.Nodes.Tree.{detached, joined, joined_all, attached}
use file_share_manager.Nodes.Closure.{row}

-- The row of the descendant `d` is one that the statement deletes.
abbrev pub is_cut : ℕ → List NodeClosure → NodeClosure → Bool
is_cut n closures paths =
    any (λ s. s.ancestor_id == n && s.descendant_id == paths.descendant_id) closures
    && any (λ s. s.descendant_id == n && s.ancestor_id == paths.ancestor_id) closures
    && not (paths.ancestor_id == n)

pub detached-In :
    (n : ℕ) (cs : List NodeClosure) (c : NodeClosure)
    → In c (detached n cs)
    → In c cs × (is_cut n cs c ≡ false)
unfolding detached
detached-In n cs c h =
    let (i, t) = select-In (λ p. not (is_cut n cs p)) c cs h in (i, not_true (is_cut n cs c) t)
  where
    not_true : (b : Bool) → not b ≡ true → b ≡ false
    not_true true e = cc
    not_true false e = refl

pub In-detached :
    (n : ℕ) (cs : List NodeClosure) (c : NodeClosure)
    → In c cs
    → is_cut n cs c ≡ false
    → In c (detached n cs)
unfolding detached
In-detached n cs c i e = In-select (λ p. not (is_cut n cs p)) c cs i (rw e refl)

joined_all-In :
    (sups subs : List NodeClosure) (c : NodeClosure)
    → In c (joined_all sups subs)
    → (a b : NodeClosure) × In a sups × In b subs × (c ≡ joined a b)
unfolding joined_all
joined_all-In [] subs c h = absurd h
joined_all-In (x ∷ sups) subs c h = elim (In-append_cases c _ _ h) [
  | inl l ↦ let (b, i, e) = map-In (joined x) c subs l in (x, b, inl refl, i, e)
  | inr r ↦ let (a, b, i, j, e) = joined_all-In sups subs c r in (a, b, inr i, j, e)
]

In-joined_all :
    (sups subs : List NodeClosure) (a b : NodeClosure)
    → In a sups
    → In b subs
    → In (joined a b) (joined_all sups subs)
unfolding joined_all
In-joined_all [] subs a b i j = absurd i
In-joined_all (x ∷ sups) subs a b (inl e) j =
    In-append_left (joined a b) (map (joined x) subs) (joined_all sups subs)
      (rw e (In-map (joined x) b subs j))
In-joined_all (x ∷ sups) subs a b (inr i) j =
    In-append_right _ _ _ (In-joined_all sups subs a b i j)

pub some-ne-none : {A : Type 0} {a : A} → some a ≢ none
some-ne-none h = cc

pub some-inj : {a b : ℕ} → some a ≡ some b → a ≡ b
some-inj h = ground arith

pub attached-In :
    (n : ℕ) (target : Option ℕ) (cs : List NodeClosure) (r : NodeClosure)
    → In r (attached n target cs)
    → In r cs
      ⊎ ((q : ℕ) × (a b : NodeClosure) × (target ≡ some q)
          × In a cs
          × (a.descendant_id ≡ q)
          × In b cs
          × (b.ancestor_id ≡ n)
          × (r ≡ joined a b))
unfolding attached
attached-In n none cs r h = inl h
attached-In n (some q) cs r h = elim (In-append_cases r cs _ h) [
  | inl l ↦ inl l
  | inr j ↦
      let (a, b, ia, ib, e) = joined_all-In _ _ r j in
      let (ja, ea) = select-In (λ c. c.descendant_id == q) a cs ia in
      let (jb, eb) = select-In (λ c. c.ancestor_id == n) b cs ib in
      inr (q, a, b, refl, ja, eq_of_== _ _ ea, jb, eq_of_== _ _ eb, e)
]

pub In-attached :
    (n : ℕ) (target : Option ℕ) (cs : List NodeClosure) (r : NodeClosure)
    → In r cs
    → In r (attached n target cs)
unfolding attached
In-attached n none cs r h = h
In-attached n (some q) cs r h = In-append_left r cs _ h

pub In-attached_joined :
    (n : ℕ) (target : Option ℕ) (cs : List NodeClosure) (d q a i j : ℕ)
    → target ≡ some q
    → In (row a q j) cs
    → In (row n d i) cs
    → In (row a d (j + i + 1)) (attached n target cs)
unfolding attached
In-attached_joined n none cs d q a i j t h g = absurd (some-ne-none (sym t))
In-attached_joined n (some p) cs d q a i j t h g = In-append_right _ cs _ (
    In-joined_all _ _ (row a q j) (row n d i)
      (In-select (λ c. c.descendant_id == p) _ cs h (rw (some-inj t) (==_refl q)))
      (In-select (λ c. c.ancestor_id == n) _ cs g (==_refl n)))

pub ne_test : (a n : ℕ) → a ≢ n → not (a == n) ≡ true
ne_test a n h = ground arith

pub ne_of_test : (a n : ℕ) → not (a == n) ≡ true → a ≢ n
ne_of_test a n h = ground arith

pub and3_false : (a b : Bool) → (a && b && false) ≡ false
and3_false a b = ground arith

pub false_of : (b : Bool) → ¬ (b ≡ true) → b ≡ false
false_of true h = absurd (h refl)
false_of false h = refl
