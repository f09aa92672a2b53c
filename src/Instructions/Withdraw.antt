-- ===== src/Instructions/Withdraw.antt =====
-- programs/cp-swap/src/instructions/withdraw.rs
pub mod Shares
pub mod Limits
pub mod Live
pub mod Parts
use raydium_cp_swap.Base.{
  ℕ, ◌||◌, not, some, none, min, Result, ok, ok_or, unwrap, require, ◌>>=◌, ◌>>◌, ◌==◌, ltb, leb,
}
use raydium_cp_swap.Base.Words.{checked_sub, narrow}
use raydium_cp_swap.Error.{Error, ErrorCode}
use raydium_cp_swap.Curve.ConstantProduct.{
  RoundDirection, TradingTokenResult, lp_tokens_to_trading_tokens,
}
use raydium_cp_swap.States.Pool.{
  PoolState, PoolStatusBitIndex, get_status_by_bit, vault_amount_without_fee,
}
use raydium_cp_swap.Token.{transfer_from_pool_vault_to_user, token_burn, get_transfer_fee}
use raydium_cp_swap.Token.Interface.{Spl, Mint, Transfer, Burn}
use raydium_cp_swap.Instructions.Context.{Chain}
use raydium_cp_swap.Instructions.Liquidity.{
  LpChangeEvent, LiquidityAccounts, LiquidityOutcome, program_of, check_vaults,
}

-- The constraints of `struct Withdraw`, but for the address of the memo program, which is not used.
unfoldable pub check_accounts :
    {MintData : Type 0} → Chain → LiquidityAccounts MintData → Result Error (Unit {0})
check_accounts chain a = do
  require (a.authority == chain.authority) Error.constraint_seeds
  require (a.owner_lp_token.owner == a.owner) Error.constraint_token_owner
  require (a.token_0_account.mint == a.token_0_vault.mint) Error.constraint_token_mint
  require (a.token_1_account.mint == a.token_1_vault.mint) Error.constraint_token_mint
  check_vaults a

-- The vaults less the fees owed, and what the curve gives.
pub record Amounts : Type 0 where
  pub total_token_0_amount : ℕ
  pub total_token_1_amount : ℕ
  pub results : TradingTokenResult

-- Up to `if results.token_0_amount == 0 || …`.
unfoldable pub withdraw_amounts : PoolState → ℕ → ℕ → ℕ → Result Error Amounts
withdraw_amounts pool vault_0 vault_1 lp_token_amount = do
  (total_0, total_1) ← vault_amount_without_fee pool vault_0 vault_1
  results ←
      ok_or
        (lp_tokens_to_trading_tokens lp_token_amount pool.lp_supply total_0 total_1
          RoundDirection.floor)
        (Error.code ErrorCode.zero_trading_tokens)
  require (not (results.token_0_amount == 0 || results.token_1_amount == 0))
      (Error.code ErrorCode.zero_trading_tokens)
  ok (record { total_token_0_amount = total_0; total_token_1_amount = total_1; results = results })

module _ (spl : Spl) where
  open spl use {MintData, Bank}

  -- The amount as a `u64` and within the vault, what arrives of it, and the fee taken from it.
  unfoldable pub less_transfer_fee : ℕ → Mint MintData → ℕ → ℕ → Result Error (ℕ × ℕ × ℕ)
  less_transfer_fee epoch mint total result = do
    narrowed ← narrow result
    let amount = min total narrowed
    transfer_fee ← get_transfer_fee spl epoch mint amount
    received ← unwrap (checked_sub amount transfer_fee)
    ok (amount, received, transfer_fee)

  abbrev pub withdraw_0 : LiquidityAccounts MintData → ℕ → Transfer MintData
  withdraw_0 a amount = record {
    program = program_of a.token_program a.token_program_2022 a.vault_0_mint;
    from = a.token_0_vault.key;
    to = a.token_0_account.key;
    authority = a.authority;
    mint = a.vault_0_mint;
    amount = amount;
    decimals = a.vault_0_mint.decimals;
    signer = some a.pool_state.auth_bump;
  }

  abbrev pub withdraw_1 : LiquidityAccounts MintData → ℕ → Transfer MintData
  withdraw_1 a amount = record {
    program = program_of a.token_program a.token_program_2022 a.vault_1_mint;
    from = a.token_1_vault.key;
    to = a.token_1_account.key;
    authority = a.authority;
    mint = a.vault_1_mint;
    amount = amount;
    decimals = a.vault_1_mint.decimals;
    signer = some a.pool_state.auth_bump;
  }

  abbrev pub lp_burn : LiquidityAccounts MintData → ℕ → Burn
  lp_burn a amount = record {
    program = a.token_program;
    mint = a.lp_mint.key;
    from = a.owner_lp_token.key;
    authority = a.owner;
    amount = amount;
    signer = a.pool_state.auth_bump;
  }

  -- The supply, the burning, the two transfers and the epoch.
  unfoldable pub finish_withdraw :
      Chain
      → LiquidityAccounts MintData
      → ℕ
      → ℕ
      → ℕ
      → LpChangeEvent
      → Bank
      → Result Error (LiquidityOutcome Bank)
  finish_withdraw chain a lp_token_amount amount_0 amount_1 event bank = do
    lp_supply ← unwrap (checked_sub a.pool_state.lp_supply lp_token_amount)
    burned ← token_burn spl (lp_burn a lp_token_amount) bank
    paid_0 ← transfer_from_pool_vault_to_user spl chain.epoch (withdraw_0 a amount_0) burned
    paid_1 ← transfer_from_pool_vault_to_user spl chain.epoch (withdraw_1 a amount_1) paid_0
    ok (record {
      pool_state = record a.pool_state { lp_supply = lp_supply; recent_epoch = chain.epoch };
      bank = paid_1;
      event = event;
    })

  unfoldable pub withdraw :
      Chain → LiquidityAccounts MintData → ℕ → ℕ → ℕ → Bank → Result Error (LiquidityOutcome Bank)
  withdraw chain a lp_token_amount minimum_token_0_amount minimum_token_1_amount bank = do
    check_accounts chain a
    require (ltb 0 lp_token_amount) Error.require_gt_violated
    require (leb lp_token_amount a.owner_lp_token.amount) Error.require_gte_violated
    require (get_status_by_bit a.pool_state PoolStatusBitIndex.withdraw)
        (Error.code ErrorCode.not_approved)
    amounts ←
        withdraw_amounts a.pool_state a.token_0_vault.amount a.token_1_vault.amount lp_token_amount
    (amount_0, receive_0, fee_0) ←
        less_transfer_fee chain.epoch a.vault_0_mint amounts.total_token_0_amount
          amounts.results.token_0_amount
    (amount_1, receive_1, fee_1) ←
        less_transfer_fee chain.epoch a.vault_1_mint amounts.total_token_1_amount
          amounts.results.token_1_amount
    let event : LpChangeEvent = record {
      pool_id = a.pool_key;
      lp_amount_before = a.pool_state.lp_supply;
      token_0_vault_before = amounts.total_token_0_amount;
      token_1_vault_before = amounts.total_token_1_amount;
      token_0_amount = receive_0;
      token_1_amount = receive_1;
      token_0_transfer_fee = fee_0;
      token_1_transfer_fee = fee_1;
      change_type = 1;
    }
    require (not (ltb receive_0 minimum_token_0_amount || ltb receive_1 minimum_token_1_amount))
        (Error.code ErrorCode.exceeded_slippage)
    finish_withdraw chain a lp_token_amount amount_0 amount_1 event bank
