-- ===== src/Instructions/Tests.antt =====
-- A run of each handler on the sample accounts, and an example of each theorem.
use raydium_cp_swap.Base.{ℕ, ◌+◌, ◌≤◌, ◌≡◌, refl, true, false, ok, arith}
use raydium_cp_swap.Base.Lists.{set}
use raydium_cp_swap.Base.Words.{
  checked_add, checked_sub, checked_mul, checked_div, checked_rem, add, sub, mul, div, narrow,
}
use raydium_cp_swap.Curve.Math.{checked_ceil_div}
use raydium_cp_swap.Curve.Fees.{
  ceil_div, floor_div, trading_fee, protocol_fee, fund_fee, creator_fee, split_creator_fee,
  calculate_pre_fee_amount,
}
use raydium_cp_swap.Curve.ConstantProduct.{
  swap_base_input_without_fees, swap_base_output_without_fees,
}
use raydium_cp_swap.Curve.Calculator
use raydium_cp_swap.Curve.Calculator.{charge_input, charge_output, gross_input, gross_output}
use raydium_cp_swap.States.Sample.{pool, ring}
use raydium_cp_swap.States.Pool.{
  PoolState, from_u8, get_status_by_bit, vault_amount_without_fee, token_price_x32,
  is_creator_fee_on_input, get_swap_params, params_zero_for_one, adjust_creator_fee_rate,
  update_fees, PoolStatusBitIndex,
}
use raydium_cp_swap.States.Oracle
use raydium_cp_swap.States.Oracle.{ObservationState}
use raydium_cp_swap.Token.{
  transfer_from_user_to_pool_vault, transfer_from_pool_vault_to_user, get_transfer_fee, fee_of,
  get_transfer_inverse_fee, inverse_fee_of, checked_inverse_fee,
}
use raydium_cp_swap.Token.Sample
use raydium_cp_swap.Token.Sample.{Bank, sample, sample-IsTokenProgram}
use raydium_cp_swap.Instructions.Sample.{chain, bank, swap_accounts}
use raydium_cp_swap.Instructions.Swap.{
  SwapOutcome, check_accounts, check_open, swap_event, book_result, finish_swap, settle,
  check_output, check_input, swap_base_input, swap_base_output,
}
use raydium_cp_swap.Instructions.Swap.Settle.{IsLoaded}
use raydium_cp_swap.Instructions.Swap.Solvency.{
  ReservesGrow, swap_base_input-ReservesGrow, swap_base_output-ReservesGrow,
}
use raydium_cp_swap.Instructions.Swap.Limits.{
  IsApart, swap_base_input_limits, swap_base_output_limits,
}

-- The observation of the swaps, 50 seconds after the last one at a price of one.
abbrev observed : ObservationState
observed = record ring {
  observation_index = 0;
  observations = set ring.observations 0 (record {
    block_timestamp = 200;
    cumulative_token_0_price_x32 = 214_748_364_800;
    cumulative_token_1_price_x32 = 214_748_364_800;
  });
  last_update_timestamp = 200;
}

abbrev swapped_pool : PoolState
swapped_pool = record pool {
  protocol_fees_token_0 = 60;
  fund_fees_token_0 = 20;
  creator_fees_token_0 = 100;
  recent_epoch = 4;
}

abbrev after_in : ℕ → ℕ
after_in = Sample.set (Sample.set bank.balances 31 400_000) 11 1_100_090

abbrev swapped_bank : Bank
swapped_bank = record bank { balances = Sample.set (Sample.set after_in 12 909_371) 32 589_754 }

abbrev pub swapped : SwapOutcome Bank
swapped = record {
  pool_state = swapped_pool;
  observation_state = observed;
  bank = swapped_bank;
  event = record {
    pool_id = 4;
    input_vault_before = 1_000_000;
    output_vault_before = 1_000_000;
    input_amount = 100_000;
    output_amount = 90_661;
    input_transfer_fee = 0;
    output_transfer_fee = 907;
    base_input = true;
    input_mint = 21;
    output_mint = 22;
    trade_fee = 250;
    creator_fee = 50;
    creator_fee_on_input = true;
  };
}

pub input_swapped : swap_base_input sample chain swap_accounts 100_000 89_000 bank ≡ ok swapped
unfolding swap_base_input check_accounts check_open get_status_by_bit get_transfer_fee fee_of
    get_swap_params params_zero_for_one vault_amount_without_fee token_price_x32
    is_creator_fee_on_input from_u8 adjust_creator_fee_rate Calculator.swap_base_input charge_input
    charge_output trading_fee protocol_fee fund_fee creator_fee split_creator_fee ceil_div floor_div
    swap_base_input_without_fees checked_mul checked_sub checked_add checked_div add sub mul div
    narrow check_output settle book_result update_fees swap_event finish_swap
    transfer_from_user_to_pool_vault transfer_from_pool_vault_to_user Oracle.update Oracle.read
    Oracle.later_update Oracle.fill_last_update Oracle.accumulate Oracle.append Oracle.extend
    Oracle.write Oracle.next_observation_index
input_swapped = refl

abbrev sold : SwapOutcome Bank
sold = record swapped { event = record swapped.event { base_input = false } }

pub output_swapped : swap_base_output sample chain swap_accounts 100_000 89_754 bank ≡ ok sold
unfolding swap_base_output check_accounts check_open get_status_by_bit get_transfer_inverse_fee
    inverse_fee_of checked_inverse_fee get_swap_params params_zero_for_one vault_amount_without_fee
    token_price_x32 is_creator_fee_on_input from_u8 adjust_creator_fee_rate
    Calculator.swap_base_output gross_input gross_output calculate_pre_fee_amount protocol_fee
    fund_fee split_creator_fee floor_div swap_base_output_without_fees checked_ceil_div checked_rem
    checked_mul checked_sub checked_add checked_div add sub mul div narrow check_input settle
    book_result update_fees swap_event finish_swap transfer_from_user_to_pool_vault
    transfer_from_pool_vault_to_user Oracle.update Oracle.read Oracle.later_update
    Oracle.fill_last_update Oracle.accumulate Oracle.append Oracle.extend Oracle.write
    Oracle.next_observation_index
output_swapped = refl

swap-IsLoaded : IsLoaded sample chain (sample-IsTokenProgram 4) swap_accounts bank
swap-IsLoaded = record {
  input_amount = refl;
  output_amount = refl;
  two_vaults = λ q. omega arith;
  payer_apart = (λ q. omega arith, λ q. omega arith);
  receiver_apart = (λ q. omega arith, λ q. omega arith);
}

swap-IsApart : IsApart sample chain (sample-IsTokenProgram 4) swap_accounts
swap-IsApart = record {
  two = λ q. omega arith;
  payer_vaults = (λ q. omega arith, λ q. omega arith);
  receiver_vaults = (λ q. omega arith, λ q. omega arith);
}

swap_base_input-ReservesGrow_example :
    ReservesGrow sample chain (sample-IsTokenProgram 4) pool bank swapped_pool swapped_bank
swap_base_input-ReservesGrow_example =
    swap_base_input-ReservesGrow sample chain (sample-IsTokenProgram 4) swap_accounts 100_000 89_000
      bank swap-IsLoaded (omega arith) input_swapped

swap_base_output-ReservesGrow_example :
    ReservesGrow sample chain (sample-IsTokenProgram 4) pool bank swapped_pool swapped_bank
swap_base_output-ReservesGrow_example =
    swap_base_output-ReservesGrow sample chain (sample-IsTokenProgram 4) swap_accounts 100_000
      89_754 bank swap-IsLoaded (omega arith) output_swapped

swap_base_input_limits_example :
    (get_status_by_bit pool PoolStatusBitIndex.swap ≡ true)
    × (100 ≤ 200)
    × (400_000 + 100_000 ≡ 500_000)
    × (500_000 + 89_000 ≤ 589_754)
swap_base_input_limits_example =
    swap_base_input_limits sample chain (sample-IsTokenProgram 4) swap_accounts 100_000 89_000 bank
      swap-IsApart input_swapped

swap_base_output_limits_example :
    (get_status_by_bit pool PoolStatusBitIndex.swap ≡ true)
    × (100 ≤ 200)
    × (500_000 ≤ 400_000 + 100_000)
    × (589_754 ≡ 500_000 + 89_754)
swap_base_output_limits_example =
    swap_base_output_limits sample chain (sample-IsTokenProgram 4) swap_accounts 100_000 89_754 bank
      swap-IsApart output_swapped
