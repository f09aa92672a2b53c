-- ===== src/Curve/ConstantProduct.antt =====
-- programs/cp-swap/src/curve/constant_product.rs
pub mod Quotes
pub mod Liquidity
use raydium_cp_swap.Base.{ℕ, ok, Maybe, Result, ◌>>=◌, unwrap, ◌&&◌, ltb, if◌then◌else◌}
use raydium_cp_swap.Base.Words.{
  u64_max, u128_max, checked_add, checked_sub, checked_mul, checked_div, checked_rem, add,
}
use raydium_cp_swap.Curve.Math.{checked_ceil_div}

-- `RoundDirection` of calculator.rs
pub data RoundDirection : Type 0 where
  floor ceiling : RoundDirection

-- `TradingTokenResult` of calculator.rs
pub record TradingTokenResult : Type 0 where
  pub token_0_amount : ℕ
  pub token_1_amount : ℕ

unfoldable pub swap_base_input_without_fees : {E : Type 0} → ℕ → ℕ → ℕ → Result E ℕ
swap_base_input_without_fees input_amount input_vault_amount output_vault_amount = do
  numerator ← unwrap (checked_mul u128_max input_amount output_vault_amount)
  denominator ← unwrap (checked_add u128_max input_vault_amount input_amount)
  unwrap (checked_div numerator denominator)

unfoldable pub swap_base_output_without_fees : {E : Type 0} → ℕ → ℕ → ℕ → Result E ℕ
swap_base_output_without_fees output_amount input_vault_amount output_vault_amount = do
  numerator ← unwrap (checked_mul u128_max input_vault_amount output_amount)
  denominator ← unwrap (checked_sub output_vault_amount output_amount)
  unwrap (checked_ceil_div numerator denominator)

-- `if remainder > 0 && amount > 0 { amount += 1 }`, where the remainder is computed first
unfoldable pub round_up : ℕ → ℕ → ℕ → ℕ → Maybe ℕ
round_up lp_token_amount lp_token_supply vault_amount amount = do
  product ← checked_mul u128_max lp_token_amount vault_amount
  remainder ← checked_rem product lp_token_supply
  if ltb 0 remainder && ltb 0 amount then add u128_max amount 1 else ok amount

-- `match round_direction`
unfoldable pub round : RoundDirection → ℕ → ℕ → ℕ → ℕ → Maybe ℕ
unfolding round_up
round RoundDirection.floor lp_token_amount lp_token_supply vault_amount amount = ok amount
round RoundDirection.ceiling lp_token_amount lp_token_supply vault_amount amount =
    round_up lp_token_amount lp_token_supply vault_amount amount

unfoldable pub lp_tokens_to_trading_tokens :
    ℕ → ℕ → ℕ → ℕ → RoundDirection → Maybe TradingTokenResult
unfolding round
lp_tokens_to_trading_tokens lp_token_amount lp_token_supply token_0_vault_amount
      token_1_vault_amount round_direction =
    do
      product_0 ← checked_mul u128_max lp_token_amount token_0_vault_amount
      amount_0 ← checked_div product_0 lp_token_supply
      product_1 ← checked_mul u128_max lp_token_amount token_1_vault_amount
      amount_1 ← checked_div product_1 lp_token_supply
      rounded_0 ←
          round round_direction lp_token_amount lp_token_supply token_0_vault_amount amount_0
      rounded_1 ←
          round round_direction lp_token_amount lp_token_supply token_1_vault_amount amount_1
      ok (record { token_0_amount = rounded_0; token_1_amount = rounded_1 })
