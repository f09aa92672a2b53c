-- ===== src/Client.antt =====
-- client/src: the quotes of the command line client for the two swaps (main.rs, from the accounts that
-- it has loaded to the amount before the slippage is applied) and its transfer fees
-- (instructions/utils.rs).
pub mod Steps
pub mod Agree
mod Tests
use raydium_cp_swap.Base.{
  ℕ, ◌-◌, Option, some, none, Result, ok, unwrap, unwrap_result, ◌>>=◌, ◌>>◌, ◌==◌, if◌then◌else◌,
}
use raydium_cp_swap.Base.Words.{u64_max, checked_add, checked_sub, narrow}
use raydium_cp_swap.Error.{Error}
use raydium_cp_swap.Curve.Calculator
use raydium_cp_swap.Curve.Calculator.{TradeDirection}
use raydium_cp_swap.States.Config.{AmmConfig}
use raydium_cp_swap.States.Pool.{
  PoolState, vault_amount_without_fee, is_creator_fee_on_input, adjust_creator_fee_rate,
}
use raydium_cp_swap.Token.Interface.{Spl, Mint, TokenAccount}

-- The accounts that a swap command loads, the mints unpacked.
pub record Loaded (MintData : Type 0) : Type 0 where
  pub pool_state : PoolState
  pub amm_config : AmmConfig
  pub token_0_vault : TokenAccount
  pub token_1_vault : TokenAccount
  pub token_0_mint : Mint MintData
  pub token_1_mint : Mint MintData
  pub user_input_mint : ℕ

module _ (spl : Spl) where
  open spl use {
    MintData, FeeConfig, fee_config, get_epoch_fee, calculate_epoch_fee,
    calculate_inverse_epoch_fee,
  }

  unfoldable pub get_transfer_inverse_fee : Option FeeConfig → ℕ → ℕ → Result Error ℕ
  get_transfer_inverse_fee (some config) epoch post_fee_amount =
      if (get_epoch_fee config epoch).transfer_fee_basis_points == spl.max_fee_basis_points
      then ok (get_epoch_fee config epoch).maximum_fee
      else unwrap (calculate_inverse_epoch_fee config epoch post_fee_amount)
  get_transfer_inverse_fee none epoch post_fee_amount = ok 0

  unfoldable pub get_transfer_fee : Option FeeConfig → ℕ → ℕ → Result Error ℕ
  get_transfer_fee (some config) epoch pre_fee_amount =
      unwrap (calculate_epoch_fee config epoch pre_fee_amount)
  get_transfer_fee none epoch pre_fee_amount = ok 0

  -- `SwapBaseIn` from the choice of the direction on: what the user receives.
  unfoldable pub quote_in :
      Loaded MintData
      → TradeDirection
      → Option FeeConfig
      → Option FeeConfig
      → ℕ
      → ℕ
      → ℕ
      → ℕ
      → Result Error ℕ
  quote_in l direction input_config output_config total_input total_output epoch user_input_amount =
      do
        transfer_fee ← get_transfer_fee input_config epoch user_input_amount
        let actual_amount_in = user_input_amount - transfer_fee
        on_input ← unwrap_result (is_creator_fee_on_input l.pool_state direction)
        result ← unwrap (
            Calculator.swap_base_input actual_amount_in total_input total_output
              l.amm_config.trade_fee_rate
              (adjust_creator_fee_rate l.pool_state l.amm_config.creator_fee_rate)
              l.amm_config.protocol_fee_rate l.amm_config.fund_fee_rate on_input)
        amount_out ← narrow result.output_amount
        output_fee ← get_transfer_fee output_config epoch amount_out
        unwrap (checked_sub amount_out output_fee)

  unfoldable pub quote_swap_base_in : Loaded MintData → ℕ → ℕ → Result Error ℕ
  quote_swap_base_in l epoch user_input_amount = do
    config_0 ← fee_config l.token_0_mint.content
    config_1 ← fee_config l.token_1_mint.content
    (total_0, total_1) ←
        unwrap_result
          (vault_amount_without_fee l.pool_state l.token_0_vault.amount l.token_1_vault.amount)
    if l.user_input_mint == l.token_0_vault.mint
        then quote_in l TradeDirection.zero_for_one config_0 config_1 total_0 total_1 epoch
            user_input_amount
        else quote_in l TradeDirection.one_for_zero config_1 config_0 total_1 total_0 epoch
            user_input_amount

  -- `SwapBaseOut` from the choice of the direction on: what the user sends.
  unfoldable pub quote_out :
      Loaded MintData
      → TradeDirection
      → Option FeeConfig
      → Option FeeConfig
      → ℕ
      → ℕ
      → ℕ
      → ℕ
      → Result Error ℕ
  quote_out l direction input_config output_config total_input total_output epoch
        amount_out_less_fee =
      do
        out_transfer_fee ← get_transfer_inverse_fee output_config epoch amount_out_less_fee
        actual_amount_out ← unwrap (checked_add u64_max amount_out_less_fee out_transfer_fee)
        on_input ← unwrap_result (is_creator_fee_on_input l.pool_state direction)
        result ← unwrap (
            Calculator.swap_base_output actual_amount_out total_input total_output
              l.amm_config.trade_fee_rate
              (adjust_creator_fee_rate l.pool_state l.amm_config.creator_fee_rate)
              l.amm_config.protocol_fee_rate l.amm_config.fund_fee_rate on_input)
        source_amount_swapped ← narrow result.input_amount
        amount_in_transfer_fee ← get_transfer_inverse_fee input_config epoch source_amount_swapped
        unwrap (checked_add u64_max source_amount_swapped amount_in_transfer_fee)

  unfoldable pub quote_swap_base_out : Loaded MintData → ℕ → ℕ → Result Error ℕ
  quote_swap_base_out l epoch amount_out_less_fee = do
    config_0 ← fee_config l.token_0_mint.content
    config_1 ← fee_config l.token_1_mint.content
    (total_0, total_1) ←
        unwrap_result
          (vault_amount_without_fee l.pool_state l.token_0_vault.amount l.token_1_vault.amount)
    if l.user_input_mint == l.token_0_vault.mint
        then quote_out l TradeDirection.zero_for_one config_0 config_1 total_0 total_1 epoch
            amount_out_less_fee
        else quote_out l TradeDirection.one_for_zero config_1 config_0 total_1 total_0 epoch
            amount_out_less_fee
