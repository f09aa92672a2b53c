-- ===== src/System/Amm.antt =====
-- What a pool promises, without the program: two reserves and a supply of shares. A move either keeps
-- the supply and does not lower the product of the reserves, or changes the supply and lowers no
-- reserve's part of a share.
use raydium_cp_swap.Base.{ℕ, ◌*◌, ◌≤◌, ◌<◌, ◌≡◌, arith}
use raydium_cp_swap.Base.Division.{mul_mono, mul_cancel_le}

pub record Amm : Type 0 where
  pub reserve_0 : ℕ
  pub reserve_1 : ℕ
  pub shares : ℕ

pub data Move (a b : Amm) : Type 0 where
  trade : b.shares ≡ a.shares → a.reserve_0 * a.reserve_1 ≤ b.reserve_0 * b.reserve_1 → Move a b
  resize :
      a.reserve_0 * b.shares ≤ b.reserve_0 * a.shares
      → a.reserve_1 * b.shares ≤ b.reserve_1 * a.shares
      → Move a b

-- The square of what a share is worth, the geometric mean of both reserves, has not fallen.
abbrev pub KeepsWorth : Amm → Amm → Type 0
KeepsWorth a b =
    a.reserve_0 * a.reserve_1 * (b.shares * b.shares)
    ≤ b.reserve_0 * b.reserve_1 * (a.shares * a.shares)

-- A share is backed by at least one unit of the geometric mean.
abbrev pub IsBacked : Amm → Type 0
IsBacked a = a.shares * a.shares ≤ a.reserve_0 * a.reserve_1

pub Move-KeepsWorth : {a b : Amm} → Move a b → KeepsWorth a b
Move-KeepsWorth {a} {b} (trade same grown) = rw same (
    mul_mono (a.reserve_0 * a.reserve_1) (a.shares * a.shares) (b.reserve_0 * b.reserve_1)
      (a.shares * a.shares) grown (omega arith))
Move-KeepsWorth {a} {b} (resize part_0 part_1) = omega (
  arith,
  mul_mono (a.reserve_0 * b.shares) (a.reserve_1 * b.shares) (b.reserve_0 * a.shares)
      (b.reserve_1 * a.shares) part_0 part_1,
)

-- Worth is transitive where there are shares in between.
pub KeepsWorth-trans :
    (a b c : Amm) → 0 < b.shares → KeepsWorth a b → KeepsWorth b c → KeepsWorth a c
KeepsWorth-trans a b c some_shares first second =
    mul_cancel_le _ _ (b.shares * b.shares) (mul_mono 1 1 b.shares b.shares some_shares some_shares)
      (omega (
        arith,
        mul_mono (a.reserve_0 * a.reserve_1 * (b.shares * b.shares)) (c.shares * c.shares)
            (b.reserve_0 * b.reserve_1 * (a.shares * a.shares)) (c.shares * c.shares) first
            (omega arith),
        mul_mono (b.reserve_0 * b.reserve_1 * (c.shares * c.shares)) (a.shares * a.shares)
            (c.reserve_0 * c.reserve_1 * (b.shares * b.shares)) (a.shares * a.shares) second
            (omega arith),
      ))

pub KeepsWorth-IsBacked : (a b : Amm) → 0 < a.shares → KeepsWorth a b → IsBacked a → IsBacked b
KeepsWorth-IsBacked a b some_shares kept backed =
    mul_cancel_le _ _ (a.shares * a.shares) (mul_mono 1 1 a.shares a.shares some_shares some_shares)
      (omega (
        arith,
        mul_mono (a.shares * a.shares) (b.shares * b.shares) (a.reserve_0 * a.reserve_1)
            (b.shares * b.shares) backed (omega arith),
      ))
