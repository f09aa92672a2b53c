-- ===== src/Curve/Fees.antt =====
-- programs/cp-swap/src/curve/fees.rs. A function that returns `Option<u128>` is a `Maybe`; the one
-- that adds two rates in plain `u64` arithmetic may panic.
pub mod Bounds
use raydium_cp_swap.Base.{ℕ, ok, err, nothing, Maybe, ◌>>=◌, ◌==◌, if◌then◌else◌}
use raydium_cp_swap.Base.Words.{
  u64_max, u128_max, checked_add, checked_sub, checked_mul, checked_div, add,
}

abbrev pub fee_rate_denominator_value : ℕ
fee_rate_denominator_value = 1_000_000

unfoldable pub ceil_div : ℕ → ℕ → ℕ → Maybe ℕ
ceil_div token_amount fee_numerator fee_denominator =
    if fee_denominator == 0 then err nothing else (do
      product ← checked_mul u128_max token_amount fee_numerator
      sum ← checked_add u128_max product fee_denominator
      difference ← checked_sub sum 1
      checked_div difference fee_denominator)

unfoldable pub floor_div : ℕ → ℕ → ℕ → Maybe ℕ
floor_div token_amount fee_numerator fee_denominator =
    if fee_denominator == 0 then err nothing else (do
      product ← checked_mul u128_max token_amount fee_numerator
      checked_div product fee_denominator)

unfoldable pub trading_fee : ℕ → ℕ → Maybe ℕ
unfolding ceil_div
trading_fee amount trade_fee_rate = ceil_div amount trade_fee_rate fee_rate_denominator_value

unfoldable pub protocol_fee : ℕ → ℕ → Maybe ℕ
unfolding floor_div
protocol_fee amount protocol_fee_rate =
    floor_div amount protocol_fee_rate fee_rate_denominator_value

unfoldable pub fund_fee : ℕ → ℕ → Maybe ℕ
unfolding floor_div
fund_fee amount fund_fee_rate = floor_div amount fund_fee_rate fee_rate_denominator_value

unfoldable pub creator_fee : ℕ → ℕ → Maybe ℕ
unfolding ceil_div
creator_fee amount creator_fee_rate = ceil_div amount creator_fee_rate fee_rate_denominator_value

unfoldable pub split_creator_fee : ℕ → ℕ → ℕ → Maybe ℕ
unfolding floor_div
split_creator_fee total_fee trade_fee_rate creator_fee_rate = do
  rates ← add u64_max trade_fee_rate creator_fee_rate
  floor_div total_fee creator_fee_rate rates

unfoldable pub calculate_pre_fee_amount : ℕ → ℕ → Maybe ℕ
calculate_pre_fee_amount post_fee_amount trade_fee_rate =
    if trade_fee_rate == 0 then ok post_fee_amount else (do
      numerator ← checked_mul u128_max post_fee_amount fee_rate_denominator_value
      denominator ← checked_sub fee_rate_denominator_value trade_fee_rate
      sum ← checked_add u128_max numerator denominator
      difference ← checked_sub sum 1
      checked_div difference denominator)
