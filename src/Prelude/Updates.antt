-- ===== src/Prelude/Updates.antt =====
-- Updates of the rows of a table: what a query finds behind them, and what all rows keep.
use mathlib.Core.Path.{◌≡◌, refl, sym, ap, ◌∙◌, subst}
use mathlib.Core.Logic.{inl, inr}
use mathlib.Core.Bool.{Bool, true, false, ◌&&◌}
use mathlib.Core.List.{List, [], ◌∷◌}
use mathlib.Core.Option.{some}
use file_share_manager.Prelude.Tests.{if◌then◌else◌, Bool-cases}
use file_share_manager.Prelude.Lists.{
  any, In, In-any, find_first, find_first_sound, update_where, update_where-In,
}

module _ {A : Type 0} (p q : A → Bool) (f : A → A) where
  -- The row of a query after an update of the rows that pass another test.
  pub find_first-updated :
      (xs : List A) (x : A)
      → ((y : A) → p (f y) ≡ p y)
      → find_first p xs ≡ some x
      → find_first p (update_where q f xs) ≡ some (if q x then f x else x)
  find_first-updated [] x same h = cc
  find_first-updated (y ∷ xs) x same h = elim (Bool-cases (p y)) [
    | inl e ↦
        let k : y ≡ x = first_is y x (rw e at h) in
        elim (Bool-cases (q y)) [
          | inl t ↦ rw (t, same y, e) (chosen y x k t)
          | inr t ↦ rw (t, e) (kept y x k t)
        ]
    | inr e ↦ elim (Bool-cases (q y)) [
      | inl t ↦ rw (t, same y, e) (find_first-updated xs x same (rw e at h))
      | inr t ↦ rw (t, e) (find_first-updated xs x same (rw e at h))
    ]
  ]
    where
      first_is : (y x : A) → some y ≡ some x → y ≡ x
      first_is y x k = cc

      chosen : (y x : A) → y ≡ x → q y ≡ true → some (f y) ≡ some (if q x then f x else x)
      chosen y x k t = rw (← k, t) refl

      kept : (y x : A) → y ≡ x → q y ≡ false → some y ≡ some (if q x then f x else x)
      kept y x k t = rw (← k, t) refl

  -- A found row that passes the second test is one that the update reaches.
  pub any-guarded :
      (xs : List A) (x : A)
      → find_first p xs ≡ some x
      → q x ≡ true
      → any (λ y. p y && q y) xs ≡ true
  any-guarded xs x h t =
      let (i, k) = find_first_sound p xs x h in In-any (λ y. p y && q y) x xs i (rw (k, t) refl)

-- An update of the rows that pass a second test too.
pub find_first-guarded :
    {A : Type 0} (p q : A → Bool) (f : A → A) (xs : List A) (x : A)
    → ((y : A) → p (f y) ≡ p y)
    → find_first p xs ≡ some x
    → find_first p (update_where (λ y. p y && q y) f xs) ≡ some (if q x then f x else x)
find_first-guarded p q f xs x same h =
    find_first-updated p (λ y. p y && q y) f xs x same h
    ∙ ap (λ b. some (if b && q x then f x else x)) (find_first_sound p xs x h).1

-- What holds of all rows holds behind an update that keeps it.
pub update_where-all :
    {A : Type 0} (P : A → Type 0) (p : A → Bool) (f : A → A) (xs : List A)
    → ((x : A) → p x ≡ true → P x → P (f x))
    → ((x : A) → In x xs → P x)
    → (y : A) → In y (update_where p f xs)
    → P y
update_where-all P p f xs keep g y i =
    let (x, j, e) = update_where-In p f y xs i in
    elim (Bool-cases (p x)) [
      | inl t ↦ let e' : y ≡ f x = rw t at e in subst P (sym e') (keep x t (g x j))
      | inr t ↦ let e' : y ≡ x = rw t at e in subst P (sym e') (g x j)
    ]
