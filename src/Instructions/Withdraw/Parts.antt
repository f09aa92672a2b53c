-- ===== src/Instructions/Withdraw/Parts.antt =====
-- What withdraw.rs computes as the worth of pool tokens, in whole units.
use raydium_cp_swap.Base.{ℕ, ◌-◌, ◌*◌, ◌/◌, ◌≤◌, ◌<◌, ◌≡◌, refl, ok, ==_false, arith}
use raydium_cp_swap.Base.Division.{div_bounds, mul_mono}
use raydium_cp_swap.Base.Words.{u64_max, u128_max, checked_mul-eq, checked_div-eq}
use raydium_cp_swap.Curve.ConstantProduct.{RoundDirection, round, lp_tokens_to_trading_tokens}
use raydium_cp_swap.States.Pool.{PoolState}
use raydium_cp_swap.States.Pool.Fees.{fees_0, fees_1, IsSolvent, vault_amount-eq}
use raydium_cp_swap.Instructions.Withdraw.{withdraw_amounts}

-- The worth of `lp` pool tokens in a reserve.
abbrev pub part : ℕ → ℕ → ℕ → ℕ
part lp supply reserve = lp * reserve / supply

products_fit : (a b : ℕ) → a ≤ u64_max → b ≤ u64_max → a * b ≤ u128_max
products_fit a b h k = let m = mul_mono a b u64_max u64_max h k in omega arith

lp_tokens-eq :
    (lp supply r0 r1 : ℕ)
    → lp ≤ u64_max
    → r0 ≤ u64_max
    → r1 ≤ u64_max
    → 0 < supply
    → lp_tokens_to_trading_tokens lp supply r0 r1 RoundDirection.floor
      ≡ ok (record { token_0_amount = part lp supply r0; token_1_amount = part lp supply r1 })
unfolding lp_tokens_to_trading_tokens round
lp_tokens-eq lp supply r0 r1 h k0 k1 p =
    rw
      (
        checked_mul-eq u128_max lp r0 (products_fit lp r0 h k0),
        checked_div-eq (lp * r0) supply (λ q. omega arith),
        checked_mul-eq u128_max lp r1 (products_fit lp r1 h k1),
        checked_div-eq (lp * r1) supply (λ q. omega arith),
      )
      refl

-- A part of at most the whole supply is within the reserve, and not nothing if it is worth a unit.
pub part-fits :
    (lp supply r : ℕ)
    → lp ≤ supply
    → supply ≤ lp * r
    → 0 < supply
    → (part lp supply r ≤ r) × (0 < part lp supply r)
part-fits lp supply r h k p =
    let m = mul_mono lp r supply r h (omega arith) in
    let b = div_bounds (lp * r) supply p in (grind arith, grind arith)

pub withdraw_amounts-eq :
    (p : PoolState) (v0 v1 lp : ℕ)
    → IsSolvent p v0 v1
    → (v0 ≤ u64_max) × (v1 ≤ u64_max) × (p.lp_supply ≤ u64_max)
    → (0 < lp) × (lp ≤ p.lp_supply)
    → (p.lp_supply ≤ lp * (v0 - fees_0 p)) × (p.lp_supply ≤ lp * (v1 - fees_1 p))
    → withdraw_amounts p v0 v1 lp
      ≡ ok (record {
        total_token_0_amount = v0 - fees_0 p;
        total_token_1_amount = v1 - fees_1 p;
        results = record {
          token_0_amount = part lp p.lp_supply (v0 - fees_0 p);
          token_1_amount = part lp p.lp_supply (v1 - fees_1 p);
        };
      })
unfolding withdraw_amounts
withdraw_amounts-eq p v0 v1 lp (solvent_0, solvent_1) (u0, u1, us) (some_lp, most)
      (unit_0, unit_1) =
    let (_, some_0) = part-fits lp p.lp_supply (v0 - fees_0 p) most unit_0 (omega arith) in
    let (_, some_1) = part-fits lp p.lp_supply (v1 - fees_1 p) most unit_1 (omega arith) in
    rw
      (
        vault_amount-eq p v0 v1 (v0 - fees_0 p) (v1 - fees_1 p) u0 u1 (omega arith) (omega arith),
        lp_tokens-eq lp p.lp_supply (v0 - fees_0 p) (v1 - fees_1 p) (omega arith) (omega arith)
            (omega arith) (omega arith),
        ==_false (part lp p.lp_supply (v0 - fees_0 p)) 0 (λ q. omega arith),
        ==_false (part lp p.lp_supply (v1 - fees_1 p)) 0 (λ q. omega arith),
      )
      refl
