-- ===== src/Files/Delays.antt =====
-- `retryDelay` of server/internal/service/clamav/retry.go beside a closed form.
use native.Mathlib.Nat.{pow-suc, min-eq_left, min-eq_right, le-mul_of_pos_right}
use file_share_manager.Prelude.{
  ℕ, zero, suc, ◌-◌, ◌*◌, ◌^◌, ◌≤◌, ltb, false, min, ◌≡◌, sym, ◌∙◌, ap, arith, if◌then◌else◌, inl,
  inr, Bool-cases,
}
use file_share_manager.Files.Retries.{longest_delay, doubled, base_interval, retry_delay}

abbrev capped : ℕ → ℕ
capped delay = if ltb longest_delay delay then longest_delay else delay

double_power : (delay rounds : ℕ) → delay * 2 * 2 ^ rounds ≡ delay * 2 ^ suc rounds
double_power delay rounds = rw (pow-suc 2 rounds) (grind arith)

power_pos : (n : ℕ) → 1 ≤ 2 ^ n
power_pos zero = omega arith
power_pos (suc n) = let h = power_pos n in let e = pow-suc 2 n in omega arith

at_cap :
    (delay k : ℕ)
    → ltb delay longest_delay ≡ false
    → 1 ≤ k
    → capped delay ≡ min longest_delay (delay * k)
at_cap delay k h l =
    let m = le-mul_of_pos_right {m = k} delay (omega arith) in
    let c : longest_delay ≤ delay = ground arith in
    let e : capped delay ≡ longest_delay = ground arith in e ∙ sym (min-eq_left (omega arith))

capped-min : (delay : ℕ) → capped delay ≡ min longest_delay delay
capped-min delay = elim (Bool-cases (ltb longest_delay delay)) [
  | inl t ↦ rw t (sym (min-eq_left (ground arith)))
  | inr t ↦ rw t (sym (min-eq_right (ground arith)))
]

capped-doubled :
    (rounds delay : ℕ) → capped (doubled rounds delay) ≡ min longest_delay (delay * 2 ^ rounds)
unfolding doubled
capped-doubled zero delay = let e : delay * 2 ^ 0 ≡ delay = omega arith in rw e (capped-min delay)
capped-doubled (suc rounds) delay = elim (Bool-cases (ltb delay longest_delay)) [
  | inl t ↦
      rw t (capped-doubled rounds (delay * 2) ∙ ap (min longest_delay) (double_power delay rounds))
  | inr t ↦ rw t (at_cap delay (2 ^ suc rounds) t (power_pos (suc rounds)))
]

-- The delay doubles with each attempt behind the first, and is a day at most.
pub retry_delay_closed :
    (base attempt : ℕ)
    → retry_delay base attempt ≡ min longest_delay (base_interval base * 2 ^ (attempt - 1))
unfolding retry_delay
retry_delay_closed base attempt = capped-doubled (attempt - 1) (base_interval base)
