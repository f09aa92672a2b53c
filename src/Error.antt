-- ===== src/Error.antt =====
-- programs/cp-swap/src/error.rs, and the other errors that a handler ends with.
use raydium_cp_swap.Base.{ℕ}

-- `enum ErrorCode`
pub data ErrorCode : Type 0 where
  not_approved invalid_owner empty_supply invalid_input incorrect_lp_mint : ErrorCode
  exceeded_slippage zero_trading_tokens not_support_mint invalid_vault : ErrorCode
  init_lp_amount_too_less transfer_fee_calculate_not_match math_overflow : ErrorCode
  insufficient_vault invalid_fee_model no_fee_collect : ErrorCode

-- An error of the program, one of a `require_…!` macro with no code of its own, a failed account
-- constraint (Anchor's code for its kind), or an error that another program or the runtime returned.
pub data Error : Type 0 where
  code : ErrorCode → Error
  require_eq_violated require_gt_violated require_gte_violated require_keys_neq_violated : Error
  constraint_raw constraint_address constraint_token_mint constraint_token_owner : Error
  constraint_seeds constraint_owner constraint_mint_token_program constraint_associated : Error
  account_owned_by_wrong_program account_not_mutable account_discriminator_not_found : Error
  account_discriminator_mismatch account_discriminator_already_set : Error
  account_not_initialized account_already_in_use : Error
  external : ℕ → Error
