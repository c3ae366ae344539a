-- ===== src/Prelude/Lists.antt =====
-- Lists as the rows of a table: length, tests, selection by a Boolean test, and membership.
use Prim.Native.Nat.{ℕ, zero, suc, ◌+◌}
use mathlib.Core.Path.{◌≡◌, refl, ap}
use mathlib.Core.Logic.{◌⊎◌, inl, inr}
use mathlib.Core.Bool.{Bool, true, false, ◌&&◌, ◌||◌, false≢true}
use mathlib.Core.List.{List, [], ◌∷◌, ◌++◌, map}
use mathlib.Core.Option.{Option, none, some}
use native.Mathlib.Omega.{arith}
use file_share_manager.Prelude.Tests.{if◌then◌else◌, Bool-cases}

module _ {ℓ} {A : Type ℓ} where
  abbrev pub length : List A → ℕ
  length [] = 0
  length (x ∷ xs) = suc (length xs)

  abbrev pub any : (A → Bool) → List A → Bool
  any p [] = false
  any p (x ∷ xs) = p x || any p xs

  abbrev pub all : (A → Bool) → List A → Bool
  all p [] = true
  all p (x ∷ xs) = p x && all p xs

  -- The rows that pass the test, in their order.
  abbrev pub select : (A → Bool) → List A → List A
  select p [] = []
  select p (x ∷ xs) = if p x then x ∷ select p xs else select p xs

  -- The first row that passes the test.
  abbrev pub find_first : (A → Bool) → List A → Option A
  find_first p [] = none
  find_first p (x ∷ xs) = if p x then some x else find_first p xs

  -- The update of the row that a query found: its primary key makes it the only such row.
  abbrev pub update_first : (A → Bool) → (A → A) → List A → List A
  update_first p f [] = []
  update_first p f (x ∷ xs) = if p x then f x ∷ xs else x ∷ update_first p f xs

  -- The update of every row that matches.
  abbrev pub update_where : (A → Bool) → (A → A) → List A → List A
  update_where p f [] = []
  update_where p f (x ∷ xs) = (if p x then f x else x) ∷ update_where p f xs

  abbrev pub option_map : (A → A) → Option A → Option A
  option_map f none = none
  option_map f (some x) = some (f x)

  abbrev pub take : ℕ → List A → List A
  take zero xs = []
  take (suc n) [] = []
  take (suc n) (x ∷ xs) = x ∷ take n xs

  pub length-append : (xs ys : List A) → length (xs ++ ys) ≡ length xs + length ys
  length-append [] ys = omega arith
  length-append (x ∷ xs) ys = omega (arith, length-append xs ys)

module _ {A : Type 0} where
  -- The row stands in the table.
  abbrev pub In : A → List A → Type 0
  In a [] = ⊥
  In a (x ∷ xs) = (a ≡ x) ⊎ In a xs

  pub In-append_left : (a : A) (xs ys : List A) → In a xs → In a (xs ++ ys)
  In-append_left a [] ys h = absurd h
  In-append_left a (x ∷ xs) ys (inl e) = inl e
  In-append_left a (x ∷ xs) ys (inr h) = inr (In-append_left a xs ys h)

  pub In-append_right : (a : A) (xs ys : List A) → In a ys → In a (xs ++ ys)
  In-append_right a [] ys h = h
  In-append_right a (x ∷ xs) ys h = inr (In-append_right a xs ys h)

  pub In-append_cases : (a : A) (xs ys : List A) → In a (xs ++ ys) → In a xs ⊎ In a ys
  In-append_cases a [] ys h = inr h
  In-append_cases a (x ∷ xs) ys (inl e) = inl (inl e)
  In-append_cases a (x ∷ xs) ys (inr h) = elim (In-append_cases a xs ys h) [
    | inl l ↦ inl (inr l)
    | inr r ↦ inr r
  ]

  pub In-select : (p : A → Bool) (a : A) (xs : List A) → In a xs → p a ≡ true → In a (select p xs)
  In-select p a [] h t = absurd h
  In-select p a (x ∷ xs) (inl e) t = rw (← e, t) (inl refl)
  In-select p a (x ∷ xs) (inr h) t = ground (arith, In-select p a xs h t)

  pub select-In : (p : A → Bool) (a : A) (xs : List A) → In a (select p xs) → In a xs × (p a ≡ true)
  select-In p a [] h = absurd h
  select-In p a (x ∷ xs) h = ground (arith, select-In p a xs)

  pub any-In : (p : A → Bool) (xs : List A) → any p xs ≡ true → (a : A) × In a xs × (p a ≡ true)
  any-In p [] h = absurd (false≢true h)
  any-In p (x ∷ xs) h = elim (Bool-cases (p x)) [
    | inl e ↦ (x, inl refl, e)
    | inr e ↦ let (a, i, t) = any-In p xs (rw e at h) in (a, inr i, t)
  ]

  pub In-any : (p : A → Bool) (a : A) (xs : List A) → In a xs → p a ≡ true → any p xs ≡ true
  In-any p a [] h t = absurd h
  In-any p a (x ∷ xs) (inl e) t = rw (← e, t) refl
  In-any p a (x ∷ xs) (inr h) t = ground (arith, In-any p a xs h t)

  pub find_first_sound :
      (p : A → Bool) (xs : List A) (a : A) → find_first p xs ≡ some a → In a xs × (p a ≡ true)
  find_first_sound p [] a h = cc
  find_first_sound p (x ∷ xs) a h = ground (arith, find_first_sound p xs a)

  pub find_first-none :
      (p : A → Bool) (a : A) (xs : List A) → find_first p xs ≡ none → In a xs → p a ≡ false
  find_first-none p a [] h i = absurd i
  find_first-none p a (x ∷ xs) h (inl e) = rw e (ground arith)
  find_first-none p a (x ∷ xs) h (inr i) = find_first-none p a xs (ground arith) i

  pub In-update_where :
      (p : A → Bool) (f : A → A) (x : A) (xs : List A)
      → In x xs
      → In (if p x then f x else x) (update_where p f xs)
  In-update_where p f x [] h = absurd h
  In-update_where p f x (y ∷ xs) (inl e) = inl (ap (λ z. if p z then f z else z) e)
  In-update_where p f x (y ∷ xs) (inr h) = inr (In-update_where p f x xs h)

  -- The first row of an updated table, where the update does not change the answer of the query.
  pub find_first-update :
      (p : A → Bool) (f : A → A) (xs : List A)
      → ((x : A) → p (f x) ≡ p x)
      → find_first p (update_where p f xs) ≡ option_map f (find_first p xs)
  find_first-update p f [] same = refl
  find_first-update p f (x ∷ xs) same = elim (Bool-cases (p x)) [
    | inl e ↦ rw (e, same x, e) refl
    | inr e ↦ rw (e, e) (find_first-update p f xs same)
  ]

  -- The update of rows that the query does not look at.
  pub find_first-other :
      (p q : A → Bool) (f : A → A) (xs : List A)
      → ((x : A) → p (f x) ≡ p x)
      → ((x : A) → p x ≡ true → q x ≡ false)
      → find_first p (update_where q f xs) ≡ find_first p xs
  find_first-other p q f [] same apart = refl
  find_first-other p q f (x ∷ xs) same apart = elim (Bool-cases (p x)) [
    | inl e ↦ rw (apart x e, e) refl
    | inr e ↦ elim (Bool-cases (q x)) [
      | inl k ↦ rw (k, same x, e) (find_first-other p q f xs same apart)
      | inr k ↦ rw (k, e) (find_first-other p q f xs same apart)
    ]
  ]

  pub find_first-append :
      (p : A → Bool) (xs ys : List A)
      → find_first p xs ≡ none
      → find_first p (xs ++ ys) ≡ find_first p ys
  find_first-append p [] ys h = refl
  find_first-append p (x ∷ xs) ys h = ground (arith, find_first-append p xs ys)

  pub find_first-append_other :
      (p : A → Bool) (xs : List A) (y : A)
      → p y ≡ false
      → find_first p (xs ++ y ∷ []) ≡ find_first p xs
  find_first-append_other p [] y h = rw h refl
  find_first-append_other p (x ∷ xs) y h = ground (arith, find_first-append_other p xs y h)

  pub select-append :
      (p : A → Bool) (xs : List A) (y : A)
      → select p (xs ++ y ∷ []) ≡ (if p y then select p xs ++ y ∷ [] else select p xs)
  select-append p [] y = refl
  select-append p (x ∷ xs) y = ground (arith, select-append p xs y)

  -- A row of an updated table is the update of an old row.
  pub update_where-In :
      (p : A → Bool) (f : A → A) (y : A) (xs : List A)
      → In y (update_where p f xs)
      → (x : A) × In x xs × (y ≡ (if p x then f x else x))
  update_where-In p f y [] h = absurd h
  update_where-In p f y (x ∷ xs) (inr h) =
      let (z, i, c) = update_where-In p f y xs h in (z, inr i, c)
  update_where-In p f y (x ∷ xs) (inl e) = (x, inl refl, e)

module _ {A B : Type 0} (f : A → B) where
  pub In-map : (a : A) (xs : List A) → In a xs → In (f a) (map f xs)
  In-map a [] h = absurd h
  In-map a (x ∷ xs) (inl e) = inl (ap f e)
  In-map a (x ∷ xs) (inr h) = inr (In-map a xs h)

  pub map-In : (b : B) (xs : List A) → In b (map f xs) → (a : A) × In a xs × (b ≡ f a)
  map-In b [] h = absurd h
  map-In b (x ∷ xs) (inl e) = (x, inl refl, e)
  map-In b (x ∷ xs) (inr h) = let (a, i, e) = map-In b xs h in (a, inr i, e)

-- `FROM xs JOIN ys ON …`, each pair of rows that belong together made one row.
module _ {A B C : Type 0} (on : A → B → Bool) (pair : A → B → C) where
  abbrev pub join : List A → List B → List C
  join [] ys = []
  join (x ∷ xs) ys = map (pair x) (select (on x) ys) ++ join xs ys

  pub join-In :
      (c : C) (xs : List A) (ys : List B)
      → In c (join xs ys)
      → (a : A) × (b : B) × In a xs × In b ys × (on a b ≡ true) × (c ≡ pair a b)
  join-In c [] ys h = absurd h
  join-In c (x ∷ xs) ys h = elim (In-append_cases c (map (pair x) (select (on x) ys)) _ h) [
    | inl l ↦
        let (b, i, e) = map-In (pair x) c _ l in
        let (j, t) = select-In (on x) b ys i in (x, b, inl refl, j, t, e)
    | inr r ↦ let (a, b, i, j, t, e) = join-In c xs ys r in (a, b, inr i, j, t, e)
  ]

  pub In-join :
      (a : A) (b : B) (xs : List A) (ys : List B)
      → In a xs
      → In b ys
      → on a b ≡ true
      → In (pair a b) (join xs ys)
  In-join a b [] ys i j t = absurd i
  In-join a b (x ∷ xs) ys (inl e) j t =
      In-append_left (pair a b) (map (pair x) (select (on x) ys)) (join xs ys)
        (rw (← e) (In-map (pair a) b (select (on a) ys) (In-select (on a) b ys j t)))
  In-join a b (x ∷ xs) ys (inr i) j t =
      In-append_right (pair a b) (map (pair x) (select (on x) ys)) (join xs ys)
        (In-join a b xs ys i j t)
