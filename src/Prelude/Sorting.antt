-- ===== src/Prelude/Sorting.antt =====
-- `ORDER BY` as an insertion sort.
use mathlib.Core.Path.{◌≡◌}
use mathlib.Core.Logic.{◌⊎◌, inl, inr}
use mathlib.Core.Bool.{Bool, true, false}
use mathlib.Core.List.{List, [], ◌∷◌}
use native.Mathlib.Omega.{arith}
use file_share_manager.Prelude.Tests.{if◌then◌else◌, Bool-cases}
use file_share_manager.Prelude.Lists.{In, select, select-In}

module _ {A : Type 0} (before : A → A → Bool) where
  abbrev pub insert_by : A → List A → List A
  insert_by x [] = x ∷ []
  insert_by x (y ∷ ys) = if before x y then x ∷ y ∷ ys else y ∷ insert_by x ys

  abbrev pub sort_by : List A → List A
  sort_by [] = []
  sort_by (x ∷ xs) = insert_by x (sort_by xs)

  abbrev pub IsSorted : List A → Type 0
  IsSorted [] = Unit
  IsSorted (x ∷ xs) = ((y : A) → In y xs → before x y ≡ true) × IsSorted xs

  insert_by-In : (x a : A) (ys : List A) → In a (insert_by x ys) → (a ≡ x) ⊎ In a ys
  insert_by-In x a [] h = h
  insert_by-In x a (y ∷ ys) h = ground (arith, insert_by-In x a ys)

  In-insert_by : (x a : A) (ys : List A) → (a ≡ x) ⊎ In a ys → In a (insert_by x ys)
  In-insert_by x a [] h = h
  In-insert_by x a (y ∷ ys) h = ground (arith, In-insert_by x a ys)

  pub sort_by-In : (a : A) (xs : List A) → In a (sort_by xs) → In a xs
  sort_by-In a [] h = h
  sort_by-In a (x ∷ xs) h = elim (insert_by-In x a (sort_by xs) h) [
    | inl e ↦ inl e
    | inr i ↦ inr (sort_by-In a xs i)
  ]

  pub In-sort_by : (a : A) (xs : List A) → In a xs → In a (sort_by xs)
  In-sort_by a [] h = h
  In-sort_by a (x ∷ xs) (inl e) = In-insert_by x a (sort_by xs) (inl e)
  In-sort_by a (x ∷ xs) (inr i) = In-insert_by x a (sort_by xs) (inr (In-sort_by a xs i))

  pub IsSorted-select : (p : A → Bool) (xs : List A) → IsSorted xs → IsSorted (select p xs)
  IsSorted-select p [] s = tt
  IsSorted-select p (x ∷ xs) s = elim (Bool-cases (p x)) [
    | inl e ↦ rw e (λ y i. s.0 y (select-In p y xs i).0, IsSorted-select p xs s.1)
    | inr e ↦ rw e (IsSorted-select p xs s.1)
  ]

  module _ (total : (x y : A) → before x y ≡ false → before y x ≡ true)
      (trans : (x y z : A) → before x y ≡ true → before y z ≡ true → before x z ≡ true) where
    insert_by-IsSorted : (x : A) (ys : List A) → IsSorted ys → IsSorted (insert_by x ys)
    insert_by-IsSorted x [] s = (λ y i. absurd i, tt)
    insert_by-IsSorted x (y ∷ ys) s = elim (Bool-cases (before x y)) [
      | inl e ↦ rw e (λ z i. ahead e z i, s)
      | inr e ↦ rw e (λ z i. behind e z (insert_by-In x z ys i), insert_by-IsSorted x ys s.1)
    ]
      where
        ahead : before x y ≡ true → (z : A) → In z (y ∷ ys) → before x z ≡ true
        ahead e z (inl q) = rw q e
        ahead e z (inr i) = trans x y z e (s.0 z i)

        behind : before x y ≡ false → (z : A) → (z ≡ x) ⊎ In z ys → before y z ≡ true
        behind e z (inl q) = rw q (total x y e)
        behind e z (inr i) = s.0 z i

    pub sort_by-IsSorted : (xs : List A) → IsSorted (sort_by xs)
    sort_by-IsSorted [] = tt
    sort_by-IsSorted (x ∷ xs) = insert_by-IsSorted x (sort_by xs) (sort_by-IsSorted xs)
