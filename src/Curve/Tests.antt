-- ===== src/Curve/Tests.antt =====
-- The curve on numbers: the unit tests of constant_product.rs, and an example of each theorem.
use raydium_cp_swap.Base.{
  ◌+◌, ◌*◌, ◌≤◌, ◌<◌, ◌≡◌, ◌↔◌, ◌≢◌, refl, true, ok, err, nothing, Nothing, arith,
}
use raydium_cp_swap.Base.Words.{
  checked_add, checked_sub, checked_mul, checked_div, checked_rem, add, sub,
}
use raydium_cp_swap.Curve.Math.{checked_ceil_div}
use raydium_cp_swap.Curve.Fees.{
  ceil_div, floor_div, trading_fee, protocol_fee, fund_fee, creator_fee, split_creator_fee,
  calculate_pre_fee_amount,
}
use raydium_cp_swap.Curve.Fees.Bounds.{pre_fee_inverts_trading_fee}
use raydium_cp_swap.Curve.ConstantProduct.{
  RoundDirection, swap_base_input_without_fees, swap_base_output_without_fees,
  lp_tokens_to_trading_tokens, round, round_up,
}
use raydium_cp_swap.Curve.ConstantProduct.Quotes.{quotes_are_adjoint, swap_back_no_profit}
use raydium_cp_swap.Curve.ConstantProduct.Liquidity.{deposit_then_withdraw_no_profit}
use raydium_cp_swap.Curve.Calculator.{
  SwapResult, swap_base_input, swap_base_output, charge_input, charge_output, gross_input,
  gross_output,
}
use raydium_cp_swap.Curve.Calculator.Swaps.{
  IsBalanced, swap_base_input-IsBalanced, swap_base_output-IsBalanced, swap_base_input_fees,
  swaps_are_adjoint,
}
use raydium_cp_swap.Curve.Calculator.Total.{swap_base_input_total, zero_rates_block_swaps}

pre_fee_997 : calculate_pre_fee_amount 997_000 3_000 ≡ ok 1_000_000
unfolding calculate_pre_fee_amount checked_mul checked_sub checked_add checked_div
pre_fee_997 = refl

fee_3000 : trading_fee 1_000_000 3_000 ≡ ok 3_000
unfolding trading_fee ceil_div checked_mul checked_sub checked_add checked_div
fee_3000 = refl

pre_fee_inverts_trading_fee_example : 997_000 + 3_000 ≡ 1_000_000
pre_fee_inverts_trading_fee_example = pre_fee_inverts_trading_fee 997_000 3_000 pre_fee_997 fee_3000

buys_90 : swap_base_input_without_fees {E = Nothing} 100 1_000 1_000 ≡ ok 90
unfolding swap_base_input_without_fees checked_mul checked_add checked_div
buys_90 = refl

costs_99 : swap_base_output_without_fees {E = Nothing} 90 1_000 1_000 ≡ ok 99
unfolding swap_base_output_without_fees checked_mul checked_sub checked_add checked_div
    checked_ceil_div checked_rem
costs_99 = refl

buys_back_99 : swap_base_input_without_fees {E = Nothing} 90 910 1_100 ≡ ok 99
unfolding swap_base_input_without_fees checked_mul checked_add checked_div
buys_back_99 = refl

quotes_are_adjoint_example : (90 ≤ 90) ↔ (99 ≤ 100)
quotes_are_adjoint_example = quotes_are_adjoint 90 1_000 1_000 100 costs_99 buys_90

swap_back_no_profit_example : 99 ≤ 100
swap_back_no_profit_example = swap_back_no_profit 100 1_000 1_000 buys_90 buys_back_99

floor_5 :
    lp_tokens_to_trading_tokens 5 10 55 101 RoundDirection.floor
    ≡ ok (record { token_0_amount = 27; token_1_amount = 50 })
unfolding lp_tokens_to_trading_tokens round round_up checked_mul checked_div checked_rem add
floor_5 = refl

ceiling_5 :
    lp_tokens_to_trading_tokens 5 10 55 101 RoundDirection.ceiling
    ≡ ok (record { token_0_amount = 28; token_1_amount = 51 })
unfolding lp_tokens_to_trading_tokens round round_up checked_mul checked_div checked_rem add
ceiling_5 = refl

back_5 :
    lp_tokens_to_trading_tokens 5 15 83 152 RoundDirection.floor
    ≡ ok (record { token_0_amount = 27; token_1_amount = 50 })
unfolding lp_tokens_to_trading_tokens round round_up checked_mul checked_div checked_rem add
back_5 = refl

deposit_then_withdraw_no_profit_example : (27 ≤ 28) × (50 ≤ 51)
deposit_then_withdraw_no_profit_example =
    deposit_then_withdraw_no_profit 5 10 55 101 ceiling_5 (omega arith) (omega arith) back_5

abbrev quoted : SwapResult
quoted = record {
  new_input_vault_amount = 1_099_700;
  new_output_vault_amount = 909_339;
  input_amount = 100_000;
  output_amount = 90_661;
  trade_fee = 250;
  protocol_fee = 30;
  fund_fee = 10;
  creator_fee = 50;
}

sold : swap_base_input 100_000 1_000_000 1_000_000 2_500 500 120_000 40_000 true ≡ ok quoted
unfolding swap_base_input charge_input charge_output trading_fee protocol_fee fund_fee creator_fee
    split_creator_fee ceil_div floor_div swap_base_input_without_fees checked_mul checked_sub
    checked_add checked_div add sub
sold = refl

bought : swap_base_output 90_661 1_000_000 1_000_000 2_500 500 120_000 40_000 true ≡ ok quoted
unfolding swap_base_output gross_input gross_output calculate_pre_fee_amount protocol_fee fund_fee
    split_creator_fee floor_div swap_base_output_without_fees checked_ceil_div checked_mul
    checked_sub checked_add checked_div checked_rem add sub
bought = refl

swap_base_input-IsBalanced_example : IsBalanced 1_000_000 1_000_000 100_000 90_661 true quoted
swap_base_input-IsBalanced_example =
    swap_base_input-IsBalanced 100_000 1_000_000 1_000_000 2_500 500 120_000 40_000 true sold

swap_base_output-IsBalanced_example : IsBalanced 1_000_000 1_000_000 100_000 90_661 true quoted
swap_base_output-IsBalanced_example =
    swap_base_output-IsBalanced 90_661 1_000_000 1_000_000 2_500 500 120_000 40_000 true bought

swap_base_input_fees_example :
    (100_000 * 3_000 ≤ 300 * 1_000_000)
    × (300 * 1_000_000 < 100_000 * 3_000 + 1_000_000)
    × (30 + 10 ≤ 250)
swap_base_input_fees_example =
    swap_base_input_fees 100_000 1_000_000 1_000_000 2_500 500 120_000 40_000 true sold
      (omega arith)

swaps_are_adjoint_example : (90_661 ≤ 90_661) ↔ (100_000 ≤ 100_000)
swaps_are_adjoint_example =
    swaps_are_adjoint 90_661 1_000_000 1_000_000 2_500 500 120_000 40_000 100_000 true bought sold

swap_base_input_total_example :
    (r : SwapResult) × (swap_base_input 100_000 1_000_000 1_000_000 2_500 500 120_000 40_000 true
      ≡ ok r)
swap_base_input_total_example =
    swap_base_input_total 100_000 1_000_000 1_000_000 2_500 500 120_000 40_000 true (omega arith)
      (omega arith) (omega arith) (omega arith) (omega arith) (omega arith) (omega arith)
      (omega arith)

zero_rates_block_swaps_example :
    (swap_base_input 100_000 1_000_000 1_000_000 0 0 120_000 40_000 true ≡ err nothing)
    × ((r : SwapResult)
        → swap_base_output 100_000 1_000_000 1_000_000 0 0 120_000 40_000 true ≢ ok r)
zero_rates_block_swaps_example = zero_rates_block_swaps 100_000 1_000_000 1_000_000 120_000 40_000
