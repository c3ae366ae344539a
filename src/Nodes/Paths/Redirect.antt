-- ===== src/Nodes/Paths/Redirect.antt =====
-- Chains of parents where one node gets another parent, outside its own subtree.
use file_share_manager.Prelude.{
  ℕ, suc, ◌+◌, ◌-◌, ◌==◌, ==_refl, ◌≡◌, ◌≢◌, refl, sym, ap, ◌∙◌, ◌⊎◌, inl, inr, Option, none, some,
  arith, Option-cases, if◌then◌else◌,
}
use file_share_manager.Nodes.Paths.{
  step, up, IsAcyclic, Avoids, up_add, up-none, first_hit, up-agree,
}

abbrev pub redirect : (ℕ → Option ℕ) → ℕ → Option ℕ → ℕ → Option ℕ
redirect par n target d = if d == n then target else par d

redirect_self : (par : ℕ → Option ℕ) (n : ℕ) (target : Option ℕ) → redirect par n target n ≡ target
redirect_self par n target = rw (==_refl n) refl

redirect_other :
    (par : ℕ → Option ℕ) (n : ℕ) (target : Option ℕ) (x : ℕ)
    → x ≢ n
    → par x ≡ redirect par n target x
redirect_other par n target x h = ground arith

some-ne-none : {a : ℕ} → some a ≢ none
some-ne-none h = cc

module _ (par : ℕ → Option ℕ) (n : ℕ) (target : Option ℕ) (acyclic : IsAcyclic par)
    (clear : (q i : ℕ) → target ≡ some q → up par i q ≢ some n) where
  -- A chain that does not leave the node stays.
  pub up-redirect_avoiding :
      (d k : ℕ) → Avoids par n k d → up (redirect par n target) k d ≡ up par k d
  up-redirect_avoiding d k a =
      up-agree par (redirect par n target) n d (redirect_other par n target) k a

  back :
      (d k : ℕ) → Avoids (redirect par n target) n k d → up par k d ≡ up (redirect par n target) k d
  back d k a =
      up-agree (redirect par n target) par n d (λ x h. sym (redirect_other par n target x h)) k a

  -- The way to the node does not leave it before.
  before : (d m : ℕ) → up par m d ≡ some n → Avoids par n m d
  before d m h i l e =
      acyclic n (m - i - 1) (sym (up_add par d i (suc (m - i - 1)) m (omega arith) e) ∙ h)

  pub up-redirect_to : (d m : ℕ) → up par m d ≡ some n → up (redirect par n target) m d ≡ some n
  up-redirect_to d m h = up-redirect_avoiding d m (before d m h) ∙ h

  after :
      (d m q : ℕ)
      → target ≡ some q
      → up (redirect par n target) m d ≡ some n
      → up (redirect par n target) (suc m) d ≡ some q
  after d m q t h = ap (step (redirect par n target)) h ∙ redirect_self par n target ∙ t

  pub up-redirect_through :
      (d m q j a : ℕ)
      → up par m d ≡ some n
      → target ≡ some q
      → up par j q ≡ some a
      → up (redirect par n target) (j + m + 1) d ≡ some a
  up-redirect_through d m q j a h t e =
      up_add (redirect par n target) d (suc m) j (j + m + 1) (omega arith)
        (after d m q t (up-redirect_to d m h))
      ∙ up-redirect_avoiding q j (λ i _. clear q i t)
      ∙ e

  pub up-redirect_cases :
      (d k a : ℕ)
      → up (redirect par n target) k d ≡ some a
      → ((up par k d ≡ some a) × Avoids par n k d)
        ⊎ ((i j q : ℕ) × (up par i d ≡ some n)
            × (target ≡ some q)
            × (up par j q ≡ some a)
            × (k ≡ j + i + 1))
  up-redirect_cases d k a h = elim (first_hit (redirect par n target) n d k) [
    | inr v ↦ inl (back d k v ∙ h, λ i l e. v i l (sym (back d i (λ j m. v j (omega arith))) ∙ e))
    | inl (i, l, hit, v) ↦ elim (Option-cases target) [
      | inl t ↦ absurd (
          some-ne-none (
            sym h
            ∙ up-none (redirect par n target) d (suc i) k (omega arith)
                (ap (step (redirect par n target)) hit ∙ redirect_self par n target ∙ t)))
      | inr (q, t) ↦ inr (
        i,
        k - i - 1,
        q,
        back d i v ∙ hit,
        t,
        sym (up-redirect_avoiding q (k - i - 1) (λ j _. clear q j t))
            ∙ sym (
                up_add (redirect par n target) d (suc i) (k - i - 1) k (omega arith)
                  (after d i q t hit))
            ∙ h,
        omega arith,
      )
    ]
  ]

  pub redirect-IsAcyclic : IsAcyclic (redirect par n target)
  redirect-IsAcyclic a k h = elim (up-redirect_cases a (suc k) a h) [
    | inl (same, _) ↦ acyclic a k same
    | inr (i, j, q, to, t, from, _) ↦ clear q (i + j) t (up_add par q j i (i + j) refl from ∙ to)
  ]
