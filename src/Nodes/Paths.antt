-- ===== src/Nodes/Paths.antt =====
-- Chains of parents, and what becomes of them when one node gets another parent. The directory
-- tree of server/internal/dao/node.go is such a parent function.
pub mod Redirect
use file_share_manager.Prelude.{
  ℕ, zero, suc, ◌+◌, ◌-◌, ◌≤◌, ◌<◌, ◌==◌, ◌≡◌, ◌≢◌, refl, sym, ap, ◌∙◌, ◌⊎◌, inl, inr, Bool, true,
  false, Option, none, some, arith, Bool-cases, eq_option, eq_of_==, false≢true,
}

abbrev pub step : (ℕ → Option ℕ) → Option ℕ → Option ℕ
step par none = none
step par (some x) = par x

-- The ancestor that stands so many levels above a node, the node itself at level 0.
abbrev pub up : (ℕ → Option ℕ) → ℕ → ℕ → Option ℕ
up par zero d = some d
up par (suc k) d = step par (up par k d)

abbrev pub IsAcyclic : (ℕ → Option ℕ) → Type 0
IsAcyclic par = (a k : ℕ) → up par (suc k) a ≢ some a

-- The chain of so many steps does not start a step at the node.
abbrev pub Avoids : (ℕ → Option ℕ) → ℕ → ℕ → ℕ → Type 0
Avoids par n k d = (i : ℕ) → i < k → up par i d ≢ some n

pub up_add :
    (par : ℕ → Option ℕ) (d : ℕ) {x : ℕ} (i k m : ℕ)
    → m ≡ k + i
    → up par i d ≡ some x
    → up par m d ≡ up par k x
up_add par d i zero m e h = let same : m ≡ i = omega arith in rw same h
up_add par d i (suc k) zero e h = absurd (omega arith)
up_add par d i (suc k) (suc m) e h = ap (step par) (up_add par d i k m (omega arith) h)

pub eq_option-eq : (a b : Option ℕ) → eq_option a b ≡ true → a ≡ b
eq_option-eq none none h = refl
eq_option-eq none (some b) h = cc
eq_option-eq (some a) none h = cc
eq_option-eq (some a) (some b) h = ground arith

pub eq_option_refl : (a : Option ℕ) → eq_option a a ≡ true
eq_option_refl none = refl
eq_option_refl (some a) = ground arith

avoids_next :
    (par : ℕ → Option ℕ) (n d k : ℕ)
    → Avoids par n k d
    → eq_option (up par k d) (some n) ≡ false
    → Avoids par n (suc k) d
avoids_next par n d k a e i l h = elim (Bool-cases (i == k)) [
  | inl same ↦
      let here : up par k d ≡ some n = rw (← eq_of_== i k same) h in
      false≢true (sym e ∙ ap (λ o. eq_option o (some n)) here ∙ eq_option_refl (some n))
  | inr other ↦ a i (ground arith) h
]

-- The first step that starts at the node, if one does.
pub first_hit :
    (par : ℕ → Option ℕ) (n d k : ℕ)
    → ((i : ℕ) × (i < k) × (up par i d ≡ some n) × Avoids par n i d) ⊎ Avoids par n k d
first_hit par n d zero = inr (λ i h. elim h [ ])
first_hit par n d (suc k) = elim (first_hit par n d k) [
  | inl (i, l, h, a) ↦ inl (i, omega arith, h, a)
  | inr a ↦ elim (Bool-cases (eq_option (up par k d) (some n))) [
    | inl e ↦ inl (k, omega arith, eq_option-eq _ _ e, a)
    | inr e ↦ inr (avoids_next par n d k a e)
  ]
]

-- Two parent functions that differ at the node only have the same chains up to it.
pub up-agree :
    (f g : ℕ → Option ℕ) (n d : ℕ)
    → ((x : ℕ) → x ≢ n → f x ≡ g x)
    → (k : ℕ) → Avoids f n k d
    → up g k d ≡ up f k d
up-agree f g n d same zero a = refl
up-agree f g n d same (suc k) a =
    ap (step g) (up-agree f g n d same k (λ i l. a i (omega arith)))
    ∙ step_agree (up f k d) (a k (omega arith))
  where
    step_agree : (o : Option ℕ) → o ≢ some n → step g o ≡ step f o
    step_agree none h = refl
    step_agree (some x) h = sym (same x (λ e. h (ap some e)))

pub up-none : (par : ℕ → Option ℕ) (d i k : ℕ) → i ≤ k → up par i d ≡ none → up par k d ≡ none
up-none par d i zero l h = let same : i ≡ 0 = omega arith in rw same at h
up-none par d i (suc k) l h = elim (Bool-cases (i == suc k)) [
  | inl same ↦ rw (eq_of_== i (suc k) same) at h
  | inr other ↦ ap (step par) (up-none par d i k (ground arith) h)
]
