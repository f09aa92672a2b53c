-- ===== src/Base/Words.antt =====
-- `u64` and `u128` arithmetic: checked, plain (which panics out of range) and wrapping.
-- The first argument of an operation is the largest value of its type.
use Prim.Native.Nat.{ℕ, ◌+◌, ◌-◌, ◌*◌, ◌/◌, ◌%◌, ◌^◌, ◌≤◌, ◌<◌}
use mathlib.Core.Path.{◌≡◌}
use mathlib.Core.Logic.{◌≢◌}
use native.Mathlib.Omega.{arith}
use raydium_cp_swap.Base.Tests.{ltb, leb, ◌==◌, if◌then◌else◌}
use raydium_cp_swap.Base.Outcome.{Result, ok, err, panic, Maybe, nothing}

abbrev pub u64_max : ℕ
u64_max = 2 ^ 64 - 1

abbrev pub u128_max : ℕ
u128_max = 2 ^ 128 - 1

-- `a.checked_add(b)`
unfoldable pub checked_add : ℕ → ℕ → ℕ → Maybe ℕ
checked_add max a b = if leb (a + b) max then ok (a + b) else err nothing

-- `a.checked_sub(b)`
unfoldable pub checked_sub : ℕ → ℕ → Maybe ℕ
checked_sub a b = if ltb a b then err nothing else ok (a - b)

-- `a.checked_mul(b)`
unfoldable pub checked_mul : ℕ → ℕ → ℕ → Maybe ℕ
checked_mul max a b = if leb (a * b) max then ok (a * b) else err nothing

-- `a.checked_div(b)`
unfoldable pub checked_div : ℕ → ℕ → Maybe ℕ
checked_div a b = if b == 0 then err nothing else ok (a / b)

-- `a.checked_rem(b)`
unfoldable pub checked_rem : ℕ → ℕ → Maybe ℕ
checked_rem a b = if b == 0 then err nothing else ok (a % b)

-- plain `a + b`, `a - b`, `a * b`, `a / b`
unfoldable pub add : {E : Type 0} → ℕ → ℕ → ℕ → Result E ℕ
add max a b = if leb (a + b) max then ok (a + b) else panic

unfoldable pub sub : {E : Type 0} → ℕ → ℕ → Result E ℕ
sub a b = if ltb a b then panic else ok (a - b)

unfoldable pub mul : {E : Type 0} → ℕ → ℕ → ℕ → Result E ℕ
mul max a b = if leb (a * b) max then ok (a * b) else panic

unfoldable pub div : {E : Type 0} → ℕ → ℕ → Result E ℕ
div a b = if b == 0 then panic else ok (a / b)

-- `u64::try_from(x).unwrap()` at a `u128`
unfoldable pub narrow : {E : Type 0} → ℕ → Result E ℕ
narrow x = if leb x u64_max then ok x else panic

-- `a.wrapping_add(b)`
abbrev pub wrapping_add : ℕ → ℕ → ℕ → ℕ
wrapping_add max a b = (a + b) % (max + 1)

-- A value that came back, and the range that it is known to be in.
pub checked_add-ok : (m a b : ℕ) {c : ℕ} → checked_add m a b ≡ ok c → (c ≡ a + b) × (c ≤ m)
unfolding checked_add
checked_add-ok m a b h = ground arith

pub checked_sub-ok : (a b : ℕ) {c : ℕ} → checked_sub a b ≡ ok c → (c ≡ a - b) × (b ≤ a)
unfolding checked_sub
checked_sub-ok a b h = ground arith

pub checked_mul-ok : (m a b : ℕ) {c : ℕ} → checked_mul m a b ≡ ok c → (c ≡ a * b) × (c ≤ m)
unfolding checked_mul
checked_mul-ok m a b h = ground arith

pub checked_div-ok : (a b : ℕ) {c : ℕ} → checked_div a b ≡ ok c → (c ≡ a / b) × (0 < b)
unfolding checked_div
checked_div-ok a b h = ground arith

pub checked_rem-ok : (a b : ℕ) {c : ℕ} → checked_rem a b ≡ ok c → (c ≡ a % b) × (0 < b)
unfolding checked_rem
checked_rem-ok a b h = ground arith

module _ {E : Type 0} where
  pub add-ok : (m a b : ℕ) {c : ℕ} → add {E = E} m a b ≡ ok c → (c ≡ a + b) × (c ≤ m)
  unfolding add
  add-ok m a b h = ground arith

  pub sub-ok : (a b : ℕ) {c : ℕ} → sub {E = E} a b ≡ ok c → (c ≡ a - b) × (b ≤ a)
  unfolding sub
  sub-ok a b h = ground arith

  pub mul-ok : (m a b : ℕ) {c : ℕ} → mul {E = E} m a b ≡ ok c → (c ≡ a * b) × (c ≤ m)
  unfolding mul
  mul-ok m a b h = ground arith

  pub div-ok : (a b : ℕ) {c : ℕ} → div {E = E} a b ≡ ok c → (c ≡ a / b) × (0 < b)
  unfolding div
  div-ok a b h = ground arith

  pub narrow-ok : (x : ℕ) {c : ℕ} → narrow {E = E} x ≡ ok c → (c ≡ x) × (x ≤ u64_max)
  unfolding narrow
  narrow-ok x h = ground arith

-- When a value comes back.
pub checked_add-eq : (m a b : ℕ) → a + b ≤ m → checked_add m a b ≡ ok (a + b)
unfolding checked_add
checked_add-eq m a b h = ground arith

pub checked_sub-eq : (a b : ℕ) → b ≤ a → checked_sub a b ≡ ok (a - b)
unfolding checked_sub
checked_sub-eq a b h = ground arith

pub checked_mul-eq : (m a b : ℕ) → a * b ≤ m → checked_mul m a b ≡ ok (a * b)
unfolding checked_mul
checked_mul-eq m a b h = ground arith

pub checked_div-eq : (a b : ℕ) → b ≢ 0 → checked_div a b ≡ ok (a / b)
unfolding checked_div
checked_div-eq a b h = ground arith

pub checked_rem-eq : (a b : ℕ) → b ≢ 0 → checked_rem a b ≡ ok (a % b)
unfolding checked_rem
checked_rem-eq a b h = ground arith

module _ {E : Type 0} where
  pub add-eq : (m a b : ℕ) → a + b ≤ m → add {E = E} m a b ≡ ok (a + b)
  unfolding add
  add-eq m a b h = ground arith

  pub sub-eq : (a b : ℕ) → b ≤ a → sub {E = E} a b ≡ ok (a - b)
  unfolding sub
  sub-eq a b h = ground arith
