-- ===== src/Prelude/Outcomes.antt =====
-- A result that is a value or an error.
use mathlib.Core.Path.{◌≡◌, refl}
use mathlib.Core.Bool.{Bool, true, false}
use mathlib.Core.Option.{Option, none, some}

pub data Result {ℓ} (E : Type 0) (A : Type ℓ) : Type ℓ where
  err : E → Result E A
  ok : A → Result E A

module _ {E : Type 0} where
  -- The value of a query that may find no row.
  abbrev pub or_fail {ℓ} : {A : Type ℓ} → Option A → E → Result E A
  or_fail (some row) failure = ok row
  or_fail none failure = err failure

  -- `if !passed { return failure }`.
  abbrev pub guard : Bool → E → Result E (Unit {0})
  guard false failure = err failure
  guard true failure = ok tt

infixl 5 ◌>>◌ ◌>>=◌
abbrev pub ◌>>=◌ {ℓ κ} :
    {E : Type 0} {A : Type ℓ} {B : Type κ} → Result E A → (A → Result E B) → Result E B
err failure >>= next = err failure
ok value >>= next = next value

abbrev pub ◌>>◌ {κ} : {E : Type 0} {B : Type κ} → Result E (Unit {0}) → Result E B → Result E B
first >> second = first >>= (λ done. second)

module _ {E : Type 0} where
  pub >>=-eq-ok {ℓ κ} :
      {A : Type ℓ} {B : Type κ} (first : Result E A) (next : A → Result E B) {value : B}
      → first >>= next ≡ ok value
      → (middle : A) × (first ≡ ok middle) × (next middle ≡ ok value)
  >>=-eq-ok (err failure) next e = cc
  >>=-eq-ok (ok middle) next e = (middle, refl, e)

  pub guard-eq-ok :
      (passed : Bool) (failure : E) {u : Unit {0}} → guard passed failure ≡ ok u → passed ≡ true
  guard-eq-ok false failure e = cc
  guard-eq-ok true failure e = refl

  pub or_fail-eq-ok {ℓ} :
      {A : Type ℓ} (row : Option A) (failure : E) {value : A}
      → or_fail row failure ≡ ok value
      → row ≡ some value
  or_fail-eq-ok (some row) failure e = cc
  or_fail-eq-ok none failure e = cc

  -- What a guard in front of a result has passed.
  pub guard-passed {κ} :
      {B : Type κ} (passed : Bool) (failure : E) (second : Result E B) {value : B}
      → guard passed failure >> second ≡ ok value
      → (passed ≡ true) × (second ≡ ok value)
  guard-passed false failure second e = cc
  guard-passed true failure second e = (refl, e)

  -- The row that a query in front of a result has found.
  pub or_fail-passed {ℓ κ} :
      {A : Type ℓ} {B : Type κ} (row : Option A) (failure : E) (next : A → Result E B) {value : B}
      → or_fail row failure >>= next ≡ ok value
      → (found : A) × (row ≡ some found) × (next found ≡ ok value)
  or_fail-passed none failure next e = cc
  or_fail-passed (some found) failure next e = (found, refl, e)

  pub ok_injective : {A : Type 0} (s t : A) → ◌≡◌ {A = Result E A} (ok s) (ok t) → s ≡ t
  ok_injective s t e = cc
