-- ===== src/Base/Division.antt =====
-- Laws of quotients by an unknown.
use Prim.Native.Nat.{ℕ, ◌+◌, ◌-◌, ◌*◌, ◌/◌, ◌%◌, ◌≤◌, ◌<◌}
use mathlib.Core.Path.{◌≡◌, ap}
use native.Mathlib.Omega.{arith}

pub div_bounds : (a d : ℕ) → 0 < d → (a / d * d ≤ a) × (a < a / d * d + d)
div_bounds a d h = omega arith

pub le_div : (q a d : ℕ) → 0 < d → q * d ≤ a → q ≤ a / d
le_div q a d h p = grind arith

pub div_le : (q a d : ℕ) → 0 < d → a < (q + 1) * d → a / d ≤ q
div_le q a d h p = grind arith

pub ceil_bounds : (a d : ℕ) → 0 < d → (a ≤ (a + d - 1) / d * d) × ((a + d - 1) / d * d < a + d)
ceil_bounds a d h = omega (arith, div_bounds (a + d - 1) d h)

pub quotient-le : (a d : ℕ) → 0 < d → a / d ≤ a
quotient-le a d h = grind arith

pub div_mod : (a d : ℕ) → 0 < d → (a ≡ a / d * d + a % d) × (a % d < d)
div_mod a d h = omega arith

pub suc-mul : (q p d : ℕ) → q ≡ p + 1 → q * d ≡ p * d + d
suc-mul q p d e = rw e (omega arith)

pub mul_mono : (a b c d : ℕ) → a ≤ c → b ≤ d → a * b ≤ c * d
mul_mono a b c d h k = grind arith

-- Cancelling a factor.
pub mul_cancel_le : (a b m : ℕ) → 0 < m → a * m ≤ b * m → a ≤ b
mul_cancel_le a b m p h = grind arith

pub mul_cancel_lt : (a b m : ℕ) → a * m < b * m → a < b
mul_cancel_lt a b m h = grind arith

pub le_of_quotients : (a b m n : ℕ) → a * m < n + m → n ≤ b * m → a ≤ b
le_of_quotients a b m n h k = omega (arith, mul_cancel_lt a (b + 1) m (omega arith))

-- A part and its complement make up the whole.
pub mul-sub-add-mul : (a r d : ℕ) → r ≤ d → a * (d - r) + a * r ≡ a * d
mul-sub-add-mul a r d h =
    let whole : d - r + r ≡ d = omega arith in omega (arith, ap (λ t. a * t) whole)
