-- ===== src/Instructions/Deposit.antt =====
-- programs/cp-swap/src/instructions/deposit.rs
pub mod Shares
pub mod Limits
use raydium_cp_swap.Base.{
  ℕ, ◌||◌, not, some, none, Result, ok, ok_or, unwrap, require, ◌>>=◌, ◌>>◌, ◌==◌, ltb,
}
use raydium_cp_swap.Base.Words.{u64_max, checked_add, narrow}
use raydium_cp_swap.Error.{Error, ErrorCode}
use raydium_cp_swap.Curve.ConstantProduct.{
  RoundDirection, TradingTokenResult, lp_tokens_to_trading_tokens,
}
use raydium_cp_swap.States.Pool.{
  PoolState, PoolStatusBitIndex, get_status_by_bit, vault_amount_without_fee,
}
use raydium_cp_swap.Token.{
  transfer_from_user_to_pool_vault, token_mint_to, get_transfer_inverse_fee,
}
use raydium_cp_swap.Token.Interface.{Spl, Mint, Transfer, MintTo}
use raydium_cp_swap.Instructions.Context.{Chain}
use raydium_cp_swap.Instructions.Liquidity.{
  LpChangeEvent, LiquidityAccounts, LiquidityOutcome, program_of, check_vaults,
}

-- The constraints of `struct Deposit`. Anchor checks all `token::…` constraints of a field together.
unfoldable pub check_accounts :
    {MintData : Type 0} → Chain → LiquidityAccounts MintData → Result Error (Unit {0})
check_accounts chain a = do
  require (a.authority == chain.authority) Error.constraint_seeds
  require (a.owner_lp_token.owner == a.owner) Error.constraint_token_owner
  require (a.token_0_account.mint == a.token_0_vault.mint) Error.constraint_token_mint
  require (a.token_0_account.owner == a.owner) Error.constraint_token_owner
  require (a.token_1_account.mint == a.token_1_vault.mint) Error.constraint_token_mint
  require (a.token_1_account.owner == a.owner) Error.constraint_token_owner
  check_vaults a

-- The vaults less the fees owed, and what the curve asks for.
pub record Amounts : Type 0 where
  pub total_token_0_amount : ℕ
  pub total_token_1_amount : ℕ
  pub results : TradingTokenResult

-- Up to `if results.token_0_amount == 0 || …`.
unfoldable pub deposit_amounts : PoolState → ℕ → ℕ → ℕ → Result Error Amounts
deposit_amounts pool vault_0 vault_1 lp_token_amount = do
  (total_0, total_1) ← vault_amount_without_fee pool vault_0 vault_1
  results ←
      ok_or
        (lp_tokens_to_trading_tokens lp_token_amount pool.lp_supply total_0 total_1
          RoundDirection.ceiling)
        (Error.code ErrorCode.zero_trading_tokens)
  require (not (results.token_0_amount == 0 || results.token_1_amount == 0))
      (Error.code ErrorCode.zero_trading_tokens)
  ok (record { total_token_0_amount = total_0; total_token_1_amount = total_1; results = results })

module _ (spl : Spl) where
  open spl use {MintData, Bank}

  -- The amount as a `u64`, the amount that has to be sent for it to arrive, and the fee in that.
  unfoldable pub with_transfer_fee : ℕ → Mint MintData → ℕ → Result Error (ℕ × ℕ × ℕ)
  with_transfer_fee epoch mint result = do
    amount ← narrow result
    transfer_fee ← get_transfer_inverse_fee spl epoch mint amount
    whole ← unwrap (checked_add u64_max amount transfer_fee)
    ok (amount, whole, transfer_fee)

  abbrev pub deposit_0 : LiquidityAccounts MintData → ℕ → Transfer MintData
  deposit_0 a amount = record {
    program = program_of a.token_program a.token_program_2022 a.vault_0_mint;
    from = a.token_0_account.key;
    to = a.token_0_vault.key;
    authority = a.owner;
    mint = a.vault_0_mint;
    amount = amount;
    decimals = a.vault_0_mint.decimals;
    signer = none;
  }

  abbrev pub deposit_1 : LiquidityAccounts MintData → ℕ → Transfer MintData
  deposit_1 a amount = record {
    program = program_of a.token_program a.token_program_2022 a.vault_1_mint;
    from = a.token_1_account.key;
    to = a.token_1_vault.key;
    authority = a.owner;
    mint = a.vault_1_mint;
    amount = amount;
    decimals = a.vault_1_mint.decimals;
    signer = none;
  }

  abbrev pub lp_request : LiquidityAccounts MintData → ℕ → MintTo
  lp_request a amount = record {
    program = a.token_program;
    mint = a.lp_mint.key;
    to = a.owner_lp_token.key;
    authority = a.authority;
    amount = amount;
    signer = a.pool_state.auth_bump;
  }

  -- The two transfers, the supply, the minting and the epoch.
  unfoldable pub finish_deposit :
      Chain
      → LiquidityAccounts MintData
      → ℕ
      → ℕ
      → ℕ
      → LpChangeEvent
      → Bank
      → Result Error (LiquidityOutcome Bank)
  finish_deposit chain a lp_token_amount transfer_0 transfer_1 event bank = do
    paid_0 ← transfer_from_user_to_pool_vault spl chain.epoch (deposit_0 a transfer_0) bank
    paid_1 ← transfer_from_user_to_pool_vault spl chain.epoch (deposit_1 a transfer_1) paid_0
    lp_supply ← unwrap (checked_add u64_max a.pool_state.lp_supply lp_token_amount)
    minted ← token_mint_to spl (lp_request a lp_token_amount) paid_1
    ok (record {
      pool_state = record a.pool_state { lp_supply = lp_supply; recent_epoch = chain.epoch };
      bank = minted;
      event = event;
    })

  unfoldable pub deposit :
      Chain → LiquidityAccounts MintData → ℕ → ℕ → ℕ → Bank → Result Error (LiquidityOutcome Bank)
  deposit chain a lp_token_amount maximum_token_0_amount maximum_token_1_amount bank = do
    check_accounts chain a
    require (ltb 0 lp_token_amount) Error.require_gt_violated
    require (get_status_by_bit a.pool_state PoolStatusBitIndex.deposit)
        (Error.code ErrorCode.not_approved)
    amounts ←
        deposit_amounts a.pool_state a.token_0_vault.amount a.token_1_vault.amount lp_token_amount
    (amount_0, transfer_0, fee_0) ←
        with_transfer_fee chain.epoch a.vault_0_mint amounts.results.token_0_amount
    (amount_1, transfer_1, fee_1) ←
        with_transfer_fee chain.epoch a.vault_1_mint amounts.results.token_1_amount
    let event : LpChangeEvent = record {
      pool_id = a.pool_key;
      lp_amount_before = a.pool_state.lp_supply;
      token_0_vault_before = amounts.total_token_0_amount;
      token_1_vault_before = amounts.total_token_1_amount;
      token_0_amount = amount_0;
      token_1_amount = amount_1;
      token_0_transfer_fee = fee_0;
      token_1_transfer_fee = fee_1;
      change_type = 0;
    }
    require (not (ltb maximum_token_0_amount transfer_0 || ltb maximum_token_1_amount transfer_1))
        (Error.code ErrorCode.exceeded_slippage)
    finish_deposit chain a lp_token_amount transfer_0 transfer_1 event bank
