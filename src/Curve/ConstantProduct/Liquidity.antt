-- ===== src/Curve/ConstantProduct/Liquidity.antt =====
-- What a share of the pool is worth by constant_product.rs, rounded down and rounded up.
use raydium_cp_swap.Base.{ℕ, ◌+◌, ◌-◌, ◌*◌, ◌/◌, ◌≤◌, ◌<◌, ◌≡◌, arith, ok}
use raydium_cp_swap.Base.Division.{div_bounds, div_mod, suc-mul, mul_mono}
use raydium_cp_swap.Base.Words.{checked_mul, checked_div, checked_rem, add}
use raydium_cp_swap.Curve.ConstantProduct.{
  RoundDirection, TradingTokenResult, round_up, lp_tokens_to_trading_tokens,
}

-- One side of the result, rounded down: at most its share, and more than its share less one.
pub record IsFloor (lp supply vault amount : ℕ) : Type 0 where
  pub below : amount * supply ≤ lp * vault
  pub above : lp * vault < amount * supply + supply

-- One side of the result, rounded up, if it is worth one unit or more.
pub record IsCeiling (lp supply vault amount : ℕ) : Type 0 where
  pub above : 0 < amount → lp * vault ≤ amount * supply
  pub below : amount * supply < lp * vault + supply

round_up-IsCeiling :
    (lp supply vault : ℕ) {amount : ℕ}
    → 0 < supply
    → round_up lp supply vault (lp * vault / supply) ≡ ok amount
    → IsCeiling lp supply vault amount
unfolding round_up checked_mul checked_rem add
round_up-IsCeiling lp supply vault {amount} p h =
    ground (arith, div_mod (lp * vault) supply, suc-mul amount (lp * vault / supply) supply)

pub floor_shares-ok :
    (lp supply v0 v1 : ℕ) {r : TradingTokenResult}
    → lp_tokens_to_trading_tokens lp supply v0 v1 RoundDirection.floor ≡ ok r
    → (0 < supply) × IsFloor lp supply v0 r.token_0_amount × IsFloor lp supply v1 r.token_1_amount
unfolding lp_tokens_to_trading_tokens checked_mul checked_div
floor_shares-ok lp supply v0 v1 h =
    ground (arith, div_bounds (lp * v0) supply, div_bounds (lp * v1) supply)

-- What the code computes before it rounds: the products fit, and the supply is not 0.
ceiling_steps :
    (lp supply v0 v1 : ℕ) {r : TradingTokenResult}
    → lp_tokens_to_trading_tokens lp supply v0 v1 RoundDirection.ceiling ≡ ok r
    → (0 < supply)
      × (round_up lp supply v0 (lp * v0 / supply) ≡ ok r.token_0_amount)
      × (round_up lp supply v1 (lp * v1 / supply) ≡ ok r.token_1_amount)
unfolding lp_tokens_to_trading_tokens checked_mul checked_div
ceiling_steps lp supply v0 v1 h = ground arith

pub ceiling_shares-ok :
    (lp supply v0 v1 : ℕ) {r : TradingTokenResult}
    → lp_tokens_to_trading_tokens lp supply v0 v1 RoundDirection.ceiling ≡ ok r
    → (0 < supply)
      × IsCeiling lp supply v0 r.token_0_amount
      × IsCeiling lp supply v1 r.token_1_amount
ceiling_shares-ok lp supply v0 v1 h =
    let (p, up_0, up_1) = ceiling_steps lp supply v0 v1 h in
    (p, round_up-IsCeiling lp supply v0 p up_0, round_up-IsCeiling lp supply v1 p up_1)

share_after_floor :
    (lp supply v a : ℕ)
    → lp ≤ supply
    → 0 < supply
    → IsFloor lp supply v a
    → (a ≤ v) × (v * (supply - lp) ≤ (v - a) * supply)
share_after_floor lp supply v a h p f =
    let most : lp * v ≤ supply * v = mul_mono lp v supply v h (omega arith) in
    let fits : a ≤ v = grind arith in (fits, grind arith)

-- A withdrawal, when it returns amounts for at most the whole supply, takes no more than the
-- vaults hold, and what is left of each vault for a remaining pool token is at least what there
-- was before (both sides multiplied out).
pub withdrawal_keeps_share :
    (lp supply v0 v1 : ℕ) {r : TradingTokenResult}
    → lp ≤ supply
    → lp_tokens_to_trading_tokens lp supply v0 v1 RoundDirection.floor ≡ ok r
    → ((r.token_0_amount ≤ v0) × (v0 * (supply - lp) ≤ (v0 - r.token_0_amount) * supply))
      × ((r.token_1_amount ≤ v1) × (v1 * (supply - lp) ≤ (v1 - r.token_1_amount) * supply))
withdrawal_keeps_share lp supply v0 v1 {r} h e =
    let (p, f0, f1) = floor_shares-ok lp supply v0 v1 e in
    (
      share_after_floor lp supply v0 r.token_0_amount h p f0,
      share_after_floor lp supply v1 r.token_1_amount h p f1,
    )

-- A deposit, when it returns two amounts that are not 0, leaves in each vault, for each pool token
-- after it, at least what there was before (both sides multiplied out).
pub deposit_keeps_share :
    (lp supply v0 v1 : ℕ) {r : TradingTokenResult}
    → lp_tokens_to_trading_tokens lp supply v0 v1 RoundDirection.ceiling ≡ ok r
    → 0 < r.token_0_amount
    → 0 < r.token_1_amount
    → (v0 * (supply + lp) ≤ (v0 + r.token_0_amount) * supply)
      × (v1 * (supply + lp) ≤ (v1 + r.token_1_amount) * supply)
deposit_keeps_share lp supply v0 v1 h p0 p1 =
    let (p, c0, c1) = ceiling_shares-ok lp supply v0 v1 h in omega (arith, c0.above p0, c1.above p1)

back_le :
    (lp supply v a b : ℕ)
    → lp * v ≤ a * supply
    → IsFloor lp (supply + lp) (v + a) b
    → 0 < supply
    → b ≤ a
back_le lp supply v a b h f p =
    let scaled : b * (supply + lp) ≤ a * (supply + lp) = omega (arith, f.below) in grind arith

-- Burning the pool tokens of a deposit, against the vaults and the supply that the deposit left,
-- returns at most what the deposit paid, of either token.
pub deposit_then_withdraw_no_profit :
    (lp supply v0 v1 : ℕ) {paid back : TradingTokenResult}
    → lp_tokens_to_trading_tokens lp supply v0 v1 RoundDirection.ceiling ≡ ok paid
    → 0 < paid.token_0_amount
    → 0 < paid.token_1_amount
    → lp_tokens_to_trading_tokens lp
        (supply + lp)
        (v0 + paid.token_0_amount)
        (v1 + paid.token_1_amount)
        RoundDirection.floor
      ≡ ok back
    → (back.token_0_amount ≤ paid.token_0_amount) × (back.token_1_amount ≤ paid.token_1_amount)
deposit_then_withdraw_no_profit lp supply v0 v1 {paid} {back} h p0 p1 k =
    let (p, c0, c1) = ceiling_shares-ok lp supply v0 v1 h in
    let (q, f0, f1) =
      floor_shares-ok lp (supply + lp) (v0 + paid.token_0_amount) (v1 + paid.token_1_amount) k in
    (
      back_le lp supply v0 paid.token_0_amount back.token_0_amount (c0.above p0) f0 p,
      back_le lp supply v1 paid.token_1_amount back.token_1_amount (c1.above p1) f1 p,
    )
