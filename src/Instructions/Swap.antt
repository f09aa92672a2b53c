-- ===== src/Instructions/Swap.antt =====
-- programs/cp-swap/src/instructions/swap_base_input.rs and swap_base_output.rs, with the account
-- constraints of `struct Swap`. The steps from `update_fees` on are the same in both files.
pub mod Steps
pub mod Settle
pub mod Solvency
pub mod Limits
use raydium_cp_swap.Base.{
  ℕ, ◌-◌, Bool, true, false, not, ◌||◌, Option, some, none, Result, ok, err, ok_or, unwrap, require,
  ◌>>=◌, ◌>>◌, ◌==◌, ltb, leb,
}
use raydium_cp_swap.Base.Words.{u64_max, u128_max, checked_add, checked_sub, checked_mul, narrow}
use raydium_cp_swap.Error.{Error, ErrorCode}
use raydium_cp_swap.Curve.Calculator
use raydium_cp_swap.Curve.Calculator.{SwapResult}
use raydium_cp_swap.States.Config.{AmmConfig}
use raydium_cp_swap.States.Pool.{
  PoolState, PoolStatusBitIndex, SwapParams, get_status_by_bit, get_swap_params,
  adjust_creator_fee_rate, update_fees,
}
use raydium_cp_swap.States.Oracle
use raydium_cp_swap.States.Oracle.{ObservationState}
use raydium_cp_swap.Token.{
  transfer_from_user_to_pool_vault, transfer_from_pool_vault_to_user, get_transfer_fee,
  get_transfer_inverse_fee,
}
use raydium_cp_swap.Token.Interface.{Spl, Mint, TokenAccount, Transfer}
use raydium_cp_swap.Instructions.Context.{Chain}

-- `SwapEvent` of states/events.rs
pub record SwapEvent : Type 0 where
  pub pool_id : ℕ
  pub input_vault_before : ℕ
  pub output_vault_before : ℕ
  pub input_amount : ℕ
  pub output_amount : ℕ
  pub input_transfer_fee : ℕ
  pub output_transfer_fee : ℕ
  pub base_input : Bool
  pub input_mint : ℕ
  pub output_mint : ℕ
  pub trade_fee : ℕ
  pub creator_fee : ℕ
  pub creator_fee_on_input : Bool

-- `struct Swap`
pub record SwapAccounts (MintData : Type 0) : Type 0 where
  pub payer : ℕ
  pub authority : ℕ
  pub amm_config_key : ℕ
  pub amm_config : AmmConfig
  pub pool_key : ℕ
  pub pool_state : PoolState
  pub input_token_account : TokenAccount
  pub output_token_account : TokenAccount
  pub input_vault : TokenAccount
  pub output_vault : TokenAccount
  pub input_token_program : ℕ
  pub output_token_program : ℕ
  pub input_token_mint : Mint MintData
  pub output_token_mint : Mint MintData
  pub observation_key : ℕ
  pub observation_state : ObservationState

-- What a swap leaves: the accounts that it writes, the token accounts, and the event.
pub record SwapOutcome (Bank : Type 0) : Type 0 where
  pub pool_state : PoolState
  pub observation_state : ObservationState
  pub bank : Bank
  pub event : SwapEvent

-- What goes through the token programs: the amounts sent, and the fees withheld of them.
pub record SwapTransfers : Type 0 where
  pub input_transfer_amount : ℕ
  pub input_transfer_fee : ℕ
  pub output_transfer_amount : ℕ
  pub output_transfer_fee : ℕ

-- The constraints of `struct Swap`.
unfoldable pub check_accounts :
    {MintData : Type 0} → Chain → SwapAccounts MintData → Result Error (Unit {0})
check_accounts chain a = do
  let pool = a.pool_state
  require (a.authority == chain.authority) Error.constraint_seeds
  require (a.amm_config_key == pool.amm_config) Error.constraint_address
  require (a.input_vault.key == pool.token_0_vault || a.input_vault.key == pool.token_1_vault)
      Error.constraint_raw
  require (a.output_vault.key == pool.token_0_vault || a.output_vault.key == pool.token_1_vault)
      Error.constraint_raw
  require (a.input_token_mint.key == a.input_vault.mint) Error.constraint_address
  require (a.output_token_mint.key == a.output_vault.mint) Error.constraint_address
  require (a.observation_key == pool.observation_key) Error.constraint_address

-- `if !get_status_by_bit(Swap) || block_timestamp < open_time { return err!(NotApproved) }`
unfoldable pub check_open : Chain → PoolState → Result Error (Unit {0})
check_open chain pool =
    require
      (not (
        not (get_status_by_bit pool PoolStatusBitIndex.swap)
        || ltb chain.unix_timestamp pool.open_time))
      (Error.code ErrorCode.not_approved)

-- `emit!(SwapEvent { … })`
unfoldable pub swap_event :
    {MintData : Type 0}
    → SwapAccounts MintData
    → SwapParams
    → SwapResult
    → SwapTransfers
    → Bool
    → Result Error SwapEvent
swap_event a params result t base_input = do
  input_amount ← narrow result.input_amount
  output_amount ← narrow result.output_amount
  trade_fee ← narrow result.trade_fee
  creator_fee ← narrow result.creator_fee
  ok (record {
    pool_id = a.pool_key;
    input_vault_before = params.total_input_token_amount;
    output_vault_before = params.total_output_token_amount;
    input_amount = input_amount;
    output_amount = output_amount;
    input_transfer_fee = t.input_transfer_fee;
    output_transfer_fee = t.output_transfer_fee;
    base_input = base_input;
    input_mint = a.input_token_mint.key;
    output_mint = a.output_token_mint.key;
    trade_fee = trade_fee;
    creator_fee = creator_fee;
    creator_fee_on_input = params.is_creator_fee_on_input;
  })

-- `pool_state.update_fees(…)` with its three `try_from(…).unwrap()`
unfoldable pub book_result : PoolState → SwapParams → SwapResult → Result Error PoolState
book_result pool params result = do
  protocol_fee ← narrow result.protocol_fee
  fund_fee ← narrow result.fund_fee
  creator_fee ← narrow result.creator_fee
  update_fees pool protocol_fee fund_fee creator_fee params.trade_direction

module _ (spl : Spl) where
  open spl use {MintData, Bank}

  -- The user's transfer to the input vault.
  abbrev pub transfer_in : SwapAccounts MintData → ℕ → Transfer MintData
  transfer_in a amount = record {
    program = a.input_token_program;
    from = a.input_token_account.key;
    to = a.input_vault.key;
    authority = a.payer;
    mint = a.input_token_mint;
    amount = amount;
    decimals = a.input_token_mint.decimals;
    signer = none;
  }

  -- The pool's transfer from the output vault.
  abbrev pub transfer_out : SwapAccounts MintData → ℕ → Transfer MintData
  transfer_out a amount = record {
    program = a.output_token_program;
    from = a.output_vault.key;
    to = a.output_token_account.key;
    authority = a.authority;
    mint = a.output_token_mint;
    amount = amount;
    decimals = a.output_token_mint.decimals;
    signer = some a.pool_state.auth_bump;
  }

  -- The two transfers, the observation and the epoch.
  unfoldable pub finish_swap :
      Chain
      → SwapAccounts MintData
      → SwapParams
      → SwapTransfers
      → PoolState
      → SwapEvent
      → Bank
      → Result Error (SwapOutcome Bank)
  finish_swap chain a params t pool event bank = do
    paid ←
        transfer_from_user_to_pool_vault spl chain.epoch (transfer_in a t.input_transfer_amount)
          bank
    received ←
        transfer_from_pool_vault_to_user spl chain.epoch (transfer_out a t.output_transfer_amount)
          paid
    observed ←
        Oracle.update a.observation_state chain.unix_timestamp params.token_0_price_x64
          params.token_1_price_x64
    ok (record {
      pool_state = record pool { recent_epoch = chain.epoch };
      observation_state = observed;
      bank = received;
      event = event;
    })

  -- The steps from `update_fees` on, for either handler.
  unfoldable pub settle :
      Chain
      → SwapAccounts MintData
      → SwapParams
      → SwapResult
      → SwapTransfers
      → Bool
      → ℕ
      → ℕ
      → Bank
      → Result Error (SwapOutcome Bank)
  settle chain a params result t base_input constant_before constant_after bank = do
    pool ← book_result a.pool_state params result
    event ← swap_event a params result t base_input
    require (leb constant_before constant_after) Error.require_gte_violated
    finish_swap chain a params t pool event bank

  -- The block that bounds what the user receives.
  unfoldable pub check_output :
      Chain → SwapAccounts MintData → SwapResult → ℕ → Result Error (ℕ × ℕ)
  check_output chain a result minimum_amount_out = do
    amount_out ← narrow result.output_amount
    transfer_fee ← get_transfer_fee spl chain.epoch a.output_token_mint amount_out
    amount_received ← unwrap (checked_sub amount_out transfer_fee)
    require (ltb 0 amount_received) Error.require_gt_violated
    require (leb minimum_amount_out amount_received) (Error.code ErrorCode.exceeded_slippage)
    ok (amount_out, transfer_fee)

  -- `swap_base_input`, its constraints checked.
  unfoldable pub swap_base_input :
      Chain → SwapAccounts MintData → ℕ → ℕ → Bank → Result Error (SwapOutcome Bank)
  swap_base_input chain a amount_in minimum_amount_out bank = do
    check_accounts chain a
    check_open chain a.pool_state
    transfer_fee ← get_transfer_fee spl chain.epoch a.input_token_mint amount_in
    let actual_amount_in = amount_in - transfer_fee
    require (ltb 0 actual_amount_in) Error.require_gt_violated
    params ←
        get_swap_params a.pool_state a.input_vault.key a.output_vault.key a.input_vault.amount
          a.output_vault.amount
    constant_before ←
        unwrap
          (checked_mul u128_max params.total_input_token_amount params.total_output_token_amount)
    let creator_fee_rate = adjust_creator_fee_rate a.pool_state a.amm_config.creator_fee_rate
    result ←
        ok_or
          (Calculator.swap_base_input actual_amount_in params.total_input_token_amount
            params.total_output_token_amount a.amm_config.trade_fee_rate creator_fee_rate
            a.amm_config.protocol_fee_rate a.amm_config.fund_fee_rate
            params.is_creator_fee_on_input)
          (Error.code ErrorCode.zero_trading_tokens)
    constant_after ←
        unwrap (checked_mul u128_max result.new_input_vault_amount result.new_output_vault_amount)
    input_amount ← narrow result.input_amount
    require (input_amount == actual_amount_in) Error.require_eq_violated
    (amount_out, output_fee) ← check_output chain a result minimum_amount_out
    settle chain a params result
        (record {
          input_transfer_amount = amount_in;
          input_transfer_fee = transfer_fee;
          output_transfer_amount = amount_out;
          output_transfer_fee = output_fee;
        })
        true constant_before constant_after bank

  -- The block that bounds what the user pays.
  unfoldable pub check_input : Chain → SwapAccounts MintData → SwapResult → ℕ → Result Error (ℕ × ℕ)
  check_input chain a result max_amount_in = do
    input_amount ← narrow result.input_amount
    require (ltb 0 input_amount) Error.require_gt_violated
    transfer_fee ← get_transfer_inverse_fee spl chain.epoch a.input_token_mint input_amount
    input_transfer_amount ← unwrap (checked_add u64_max input_amount transfer_fee)
    require (leb input_transfer_amount max_amount_in) (Error.code ErrorCode.exceeded_slippage)
    ok (input_transfer_amount, transfer_fee)

  -- `swap_base_output`, the constraints of its accounts checked.
  unfoldable pub swap_base_output :
      Chain → SwapAccounts MintData → ℕ → ℕ → Bank → Result Error (SwapOutcome Bank)
  swap_base_output chain a max_amount_in amount_out_received bank = do
    check_accounts chain a
    require (ltb 0 amount_out_received) Error.require_gt_violated
    check_open chain a.pool_state
    out_transfer_fee ←
        get_transfer_inverse_fee spl chain.epoch a.output_token_mint amount_out_received
    amount_out_with_transfer_fee ← unwrap (checked_add u64_max amount_out_received out_transfer_fee)
    params ←
        get_swap_params a.pool_state a.input_vault.key a.output_vault.key a.input_vault.amount
          a.output_vault.amount
    constant_before ←
        unwrap
          (checked_mul u128_max params.total_input_token_amount params.total_output_token_amount)
    let creator_fee_rate = adjust_creator_fee_rate a.pool_state a.amm_config.creator_fee_rate
    result ←
        ok_or
          (Calculator.swap_base_output amount_out_with_transfer_fee params.total_input_token_amount
            params.total_output_token_amount a.amm_config.trade_fee_rate creator_fee_rate
            a.amm_config.protocol_fee_rate a.amm_config.fund_fee_rate
            params.is_creator_fee_on_input)
          (Error.code ErrorCode.zero_trading_tokens)
    constant_after ←
        unwrap (checked_mul u128_max result.new_input_vault_amount result.new_output_vault_amount)
    (input_transfer_amount, input_fee) ← check_input chain a result max_amount_in
    output_amount ← narrow result.output_amount
    require (output_amount == amount_out_with_transfer_fee) Error.require_eq_violated
    settle chain a params result
        (record {
          input_transfer_amount = input_transfer_amount;
          input_transfer_fee = input_fee;
          output_transfer_amount = amount_out_with_transfer_fee;
          output_transfer_fee = out_transfer_fee;
        })
        false constant_before constant_after bank
