-- ===== src/Curve/Math.antt =====
-- programs/cp-swap/src/utils/math.rs: the traits `CheckedCeilDiv` and `DownCast`, at `u128`.
use raydium_cp_swap.Base.{
  ℕ, ◌+◌, ◌*◌, ◌/◌, ◌%◌, ◌≤◌, Bool-cases, inl, inr, ◌<◌, ◌≡◌, not, arith, ltb, ◌==◌, if◌then◌else◌,
  ok, err, nothing, Maybe, ◌>>=◌,
}
use raydium_cp_swap.Base.Division.{div_mod, suc-mul, quotient-le}
use raydium_cp_swap.Base.Words.{u64_max, u128_max, checked_add, checked_div, checked_rem}

unfoldable pub checked_ceil_div : ℕ → ℕ → Maybe ℕ
unfolding checked_div checked_rem checked_add
checked_ceil_div self rhs = do
  quotient ← checked_div self rhs
  remainder ← checked_rem self rhs
  if not (remainder == 0) then checked_add u128_max quotient 1 else ok quotient

unfoldable pub to_u64 : ℕ → Maybe ℕ
to_u64 x = if ltb u64_max x then err nothing else ok x

-- The quotient rounded up is the least `q` with `a ≤ q * b`.
pub checked_ceil_div-ok :
    (a b : ℕ) {q : ℕ} → checked_ceil_div a b ≡ ok q → (0 < b) × (a ≤ q * b) × (q * b < a + b)
unfolding checked_ceil_div
checked_ceil_div-ok a b {q} h = ground (arith, div_mod a b, suc-mul q (a / b) b)

-- It exists for every divisor but 0.
pub checked_ceil_div_total :
    (a b : ℕ) → 0 < b → a < u128_max → (c : ℕ) × (checked_ceil_div a b ≡ ok c)
unfolding checked_ceil_div
checked_ceil_div_total a b h w = elim (Bool-cases (a % b == 0)) [
  | inl e ↦ (a / b, ground arith)
  | inr e ↦ (a / b + 1, ground (arith, quotient-le a b))
]
