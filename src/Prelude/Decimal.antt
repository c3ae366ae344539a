-- ===== src/Prelude/Decimal.antt =====
-- `strconv.FormatUint(n, 10)`.
use Prim.Native.Nat.{ℕ, zero, suc, ◌+◌, ◌-◌, ◌*◌, ◌/◌, ◌%◌, ◌<◌}
use Prim.Native.Char.{Char, code}
use Prim.Native.String
use Prim.Native.String.append
use Prim.Native.String.{String, [], ◌∷◌}
use mathlib.Core.Path.{◌≡◌, sym, ap, ◌∙◌}
use mathlib.Core.Logic.{inl, inr}
use native.Mathlib.Omega.{arith}
use file_share_manager.Prelude.Tests.{ltb, ◌==◌, if◌then◌else◌, Bool-cases}

abbrev digit : ℕ → String
digit d =
    if d == 0
    then "0"
    else if d == 1
    then "1"
    else if d == 2
    then "2"
    else if d == 3
    then "3"
    else if d == 4
    then "4"
    else if d == 5
    then "5"
    else if d == 6
    then "6"
    else if d == 7
    then "7"
    else if d == 8
    then "8"
    else "9"

-- The digits of `n` before those in `behind`; each round needs one unit of fuel.
digits_before : ℕ → ℕ → String → String
digits_before zero n behind = behind
digits_before (suc fuel) n behind =
    let longer = digits_before fuel (n / 10) (String.◌++◌ (digit (n % 10)) behind) in
    if ltb n 10 then String.◌++◌ (digit n) behind else longer

-- A number has at most as many digits as its successor counts.
unfoldable pub format_uint : ℕ → String
unfolding digits_before
format_uint n = digits_before (suc n) n ""

-- The reading of decimal digits behind those that were read before.
digits_value : ℕ → String → ℕ
digits_value n [] = n
digits_value n (c ∷ text) = digits_value (n * 10 + (code c - 48)) text

value_cons :
    (n : ℕ) (c : Char) (behind : String)
    → digits_value n (String.◌++◌ (c ∷ []) behind) ≡ digits_value (n * 10 + (code c - 48)) behind
unfolding digits_value
value_cons n c behind =
    ap (digits_value n) (append.cons c [] behind ∙ ap (λ t. c ∷ t) (append.nil behind))

digit_lem :
    (n d : ℕ) (behind : String)
    → d < 10
    → digits_value n (String.◌++◌ (digit d) behind) ≡ digits_value (n * 10 + d) behind
unfolding digits_value
digit_lem n zero behind l = value_cons n "0" behind
digit_lem n (suc zero) behind l = value_cons n "1" behind
digit_lem n (suc (suc zero)) behind l = value_cons n "2" behind
digit_lem n (suc (suc (suc zero))) behind l = value_cons n "3" behind
digit_lem n (suc (suc (suc (suc zero)))) behind l = value_cons n "4" behind
digit_lem n (suc (suc (suc (suc (suc zero))))) behind l = value_cons n "5" behind
digit_lem n (suc (suc (suc (suc (suc (suc zero)))))) behind l = value_cons n "6" behind
digit_lem n (suc (suc (suc (suc (suc (suc (suc zero))))))) behind l = value_cons n "7" behind
digit_lem n (suc (suc (suc (suc (suc (suc (suc (suc zero)))))))) behind l = value_cons n "8" behind
digit_lem n (suc (suc (suc (suc (suc (suc (suc (suc (suc zero))))))))) behind l =
    value_cons n "9" behind
digit_lem n (suc (suc (suc (suc (suc (suc (suc (suc (suc (suc k)))))))))) behind l =
    absurd (omega arith)

digits_before_lem :
    (fuel n : ℕ) (behind : String)
    → n < fuel
    → digits_value 0 (digits_before fuel n behind) ≡ digits_value n behind
unfolding digits_before
digits_before_lem zero n behind l = absurd (omega arith)
digits_before_lem (suc fuel) n behind l = elim (Bool-cases (ltb n 10)) [
  | inl e ↦
      rw e (digit_lem 0 n behind (ground arith) ∙ ap (λ k. digits_value k behind) (omega arith))
  | inr e ↦ rw e (
      digits_before_lem fuel (n / 10) (String.◌++◌ (digit (n % 10)) behind) (ground arith)
      ∙ digit_lem (n / 10) (n % 10) behind (omega arith)
      ∙ ap (λ k. digits_value k behind) (omega arith))
]

-- Different numbers have different texts.
pub format_uint-injective : (m n : ℕ) → format_uint m ≡ format_uint n → m ≡ n
unfolding format_uint digits_value
format_uint-injective m n e =
    sym (digits_before_lem (suc m) m "" (omega arith))
    ∙ ap (digits_value 0) e
    ∙ digits_before_lem (suc n) n "" (omega arith)
