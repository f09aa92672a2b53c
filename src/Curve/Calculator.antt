-- ===== src/Curve/Calculator.antt =====
-- programs/cp-swap/src/curve/calculator.rs
pub mod Steps
pub mod Charges
pub mod Swaps
pub mod Total
use raydium_cp_swap.Base.{
  ℕ, Bool, true, false, ok, Maybe, Result, ◌>>=◌, ◌>>◌, unwrap, unwrap_result, ◌==◌, not, require,
}
use raydium_cp_swap.Base.Words.{u64_max, u128_max, checked_add, checked_sub, add, sub}
use raydium_cp_swap.Error.{Error, ErrorCode}
use raydium_cp_swap.Curve.Fees.{
  trading_fee, protocol_fee, fund_fee, creator_fee, split_creator_fee, calculate_pre_fee_amount,
}
use raydium_cp_swap.Curve.ConstantProduct.{
  swap_base_input_without_fees, swap_base_output_without_fees,
}

pub data TradeDirection : Type 0 where
  zero_for_one one_for_zero : TradeDirection

unfoldable pub opposite : TradeDirection → TradeDirection
opposite TradeDirection.zero_for_one = TradeDirection.one_for_zero
opposite TradeDirection.one_for_zero = TradeDirection.zero_for_one

pub record SwapResult : Type 0 where
  pub new_input_vault_amount : ℕ
  pub new_output_vault_amount : ℕ
  pub input_amount : ℕ
  pub output_amount : ℕ
  pub trade_fee : ℕ
  pub protocol_fee : ℕ
  pub fund_fee : ℕ
  pub creator_fee : ℕ

-- The two fees taken from one amount, with what the code goes on with: the input less the fees in
-- `swap_base_input`, the input with the fees in `swap_base_output`.
pub record Charged : Type 0 where
  pub amount : ℕ
  pub trade_fee : ℕ
  pub creator_fee : ℕ

-- The first `if` of `swap_base_input`.
unfoldable pub charge_input : Bool → ℕ → ℕ → ℕ → Maybe Charged
charge_input true input_amount trade_fee_rate creator_fee_rate = do
  rates ← add u64_max trade_fee_rate creator_fee_rate
  total_fee ← trading_fee input_amount rates
  creator_part ← split_creator_fee total_fee trade_fee_rate creator_fee_rate
  trade_part ← sub total_fee creator_part
  less_fees ← checked_sub input_amount total_fee
  ok (record { amount = less_fees; trade_fee = trade_part; creator_fee = creator_part })
charge_input false input_amount trade_fee_rate creator_fee_rate = do
  trade_part ← trading_fee input_amount trade_fee_rate
  less_fees ← checked_sub input_amount trade_part
  ok (record { amount = less_fees; trade_fee = trade_part; creator_fee = 0 })

-- The second `if` of `swap_base_input`: what the user receives, and the creator fee in the end.
unfoldable pub charge_output : Bool → ℕ → ℕ → ℕ → Maybe (ℕ × ℕ)
charge_output true output_amount_swapped creator_fee_rate creator_part =
    ok (output_amount_swapped, creator_part)
charge_output false output_amount_swapped creator_fee_rate creator_part = do
  fee ← creator_fee output_amount_swapped creator_fee_rate
  output_amount ← checked_sub output_amount_swapped fee
  ok (output_amount, fee)

unfoldable pub swap_base_input : ℕ → ℕ → ℕ → ℕ → ℕ → ℕ → ℕ → Bool → Maybe SwapResult
unfolding charge_input charge_output
swap_base_input input_amount input_vault_amount output_vault_amount trade_fee_rate creator_fee_rate
      protocol_fee_rate fund_fee_rate is_creator_fee_on_input =
    do
      charged ← charge_input is_creator_fee_on_input input_amount trade_fee_rate creator_fee_rate
      protocol_part ← protocol_fee charged.trade_fee protocol_fee_rate
      fund_part ← fund_fee charged.trade_fee fund_fee_rate
      output_amount_swapped ←
          swap_base_input_without_fees charged.amount input_vault_amount output_vault_amount
      (output_amount, creator_part) ←
          charge_output is_creator_fee_on_input output_amount_swapped creator_fee_rate
            charged.creator_fee
      new_input ← checked_add u128_max input_vault_amount charged.amount
      new_output ← checked_sub output_vault_amount output_amount_swapped
      ok (record {
        new_input_vault_amount = new_input;
        new_output_vault_amount = new_output;
        input_amount = input_amount;
        output_amount = output_amount;
        trade_fee = charged.trade_fee;
        protocol_fee = protocol_part;
        fund_fee = fund_part;
        creator_fee = creator_part;
      })

-- The first `if` of `swap_base_output`: the output with the creator fee, and that fee.
unfoldable pub gross_output : Bool → ℕ → ℕ → Maybe (ℕ × ℕ)
gross_output true output_amount creator_fee_rate = ok (output_amount, 0)
gross_output false output_amount creator_fee_rate = do
  with_creator_fee ← calculate_pre_fee_amount output_amount creator_fee_rate
  fee ← sub with_creator_fee output_amount
  ok (with_creator_fee, fee)

-- The second `if` of `swap_base_output`.
unfoldable pub gross_input : Bool → ℕ → ℕ → ℕ → ℕ → Maybe Charged
gross_input true input_amount_swapped trade_fee_rate creator_fee_rate creator_part = do
  rates ← add u64_max trade_fee_rate creator_fee_rate
  with_fee ← unwrap (calculate_pre_fee_amount input_amount_swapped rates)
  total_fee ← sub with_fee input_amount_swapped
  split_part ← split_creator_fee total_fee trade_fee_rate creator_fee_rate
  trade_part ← sub total_fee split_part
  ok (record { amount = with_fee; trade_fee = trade_part; creator_fee = split_part })
gross_input false input_amount_swapped trade_fee_rate creator_fee_rate creator_part = do
  with_fee ← unwrap (calculate_pre_fee_amount input_amount_swapped trade_fee_rate)
  trade_part ← sub with_fee input_amount_swapped
  ok (record { amount = with_fee; trade_fee = trade_part; creator_fee = creator_part })

unfoldable pub swap_base_output : ℕ → ℕ → ℕ → ℕ → ℕ → ℕ → ℕ → Bool → Maybe SwapResult
unfolding gross_output gross_input
swap_base_output output_amount input_vault_amount output_vault_amount trade_fee_rate
      creator_fee_rate protocol_fee_rate fund_fee_rate is_creator_fee_on_input =
    do
      (actual_output_amount, creator_part) ←
          gross_output is_creator_fee_on_input output_amount creator_fee_rate
      input_amount_swapped ←
          swap_base_output_without_fees actual_output_amount input_vault_amount output_vault_amount
      charged ←
          gross_input is_creator_fee_on_input input_amount_swapped trade_fee_rate creator_fee_rate
            creator_part
      protocol_part ← protocol_fee charged.trade_fee protocol_fee_rate
      fund_part ← fund_fee charged.trade_fee fund_fee_rate
      new_input ← checked_add u128_max input_vault_amount input_amount_swapped
      new_output ← checked_sub output_vault_amount actual_output_amount
      ok (record {
        new_input_vault_amount = new_input;
        new_output_vault_amount = new_output;
        input_amount = charged.amount;
        output_amount = output_amount;
        trade_fee = charged.trade_fee;
        protocol_fee = protocol_part;
        fund_fee = fund_part;
        creator_fee = charged.creator_fee;
      })

unfoldable pub validate_supply : ℕ → ℕ → Result Error (Unit {0})
validate_supply token_0_amount token_1_amount = do
  require (not (token_0_amount == 0)) (Error.code ErrorCode.empty_supply)
  require (not (token_1_amount == 0)) (Error.code ErrorCode.empty_supply)
