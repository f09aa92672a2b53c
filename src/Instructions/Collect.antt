-- ===== src/Instructions/Collect.antt =====
-- programs/cp-swap/src/instructions: admin/collect_protocol_fee.rs, admin/collect_fund_fee.rs and
-- collect_creator_fee.rs.
pub mod Payout
pub mod Counters
pub mod Payments
use raydium_cp_swap.Base.{
  ℕ, ◌||◌, ◌&&◌, not, some, min, Result, ok, unwrap, require, ◌>>=◌, ◌>>◌, ◌==◌,
}
use raydium_cp_swap.Base.Words.{checked_sub}
use raydium_cp_swap.Error.{Error, ErrorCode}
use raydium_cp_swap.States.Config.{AmmConfig}
use raydium_cp_swap.States.Pool.{PoolState}
use raydium_cp_swap.Token.{transfer_from_pool_vault_to_user}
use raydium_cp_swap.Token.Interface.{Spl, Mint, TokenAccount, Transfer}
use raydium_cp_swap.Instructions.Context.{Chain}
use raydium_cp_swap.Instructions.Liquidity.{program_of}

-- The accounts of the three structs. `owner` is the signer (`creator` in `CollectCreatorFee`); the
-- recipients are the accounts that are paid; the programs are `token_program` and
-- `token_program_2022`, or `token_0_program` and `token_1_program` in `CollectCreatorFee`.
pub record CollectAccounts (MintData : Type 0) : Type 0 where
  pub owner : ℕ
  pub authority : ℕ
  pub authority_bump : ℕ
  pub pool_state : PoolState
  pub amm_config_key : ℕ
  pub amm_config : AmmConfig
  pub token_0_vault : TokenAccount
  pub token_1_vault : TokenAccount
  pub vault_0_mint : Mint MintData
  pub vault_1_mint : Mint MintData
  pub recipient_token_0_account : ℕ
  pub recipient_token_1_account : ℕ
  pub first_program : ℕ
  pub second_program : ℕ

pub record CollectOutcome (Bank : Type 0) : Type 0 where
  pub pool_state : PoolState
  pub bank : Bank

-- The constraints that the three structs share, after that on the signer.
unfoldable pub check_common :
    {MintData : Type 0} → Chain → CollectAccounts MintData → Result Error (Unit {0})
check_common chain a = do
  require (a.authority == chain.authority) Error.constraint_seeds
  require (a.amm_config_key == a.pool_state.amm_config) Error.constraint_address
  require (a.token_0_vault.key == a.pool_state.token_0_vault) Error.constraint_raw
  require (a.token_1_vault.key == a.pool_state.token_1_vault) Error.constraint_raw
  require (a.vault_0_mint.key == a.token_0_vault.mint) Error.constraint_address
  require (a.vault_1_mint.key == a.token_1_vault.mint) Error.constraint_address

module _ (spl : Spl) where
  open spl use {MintData, Bank}

  abbrev pub pay_0 : CollectAccounts MintData → ℕ → ℕ → ℕ → Transfer MintData
  pay_0 a program bump amount = record {
    program = program;
    from = a.token_0_vault.key;
    to = a.recipient_token_0_account;
    authority = a.authority;
    mint = a.vault_0_mint;
    amount = amount;
    decimals = a.vault_0_mint.decimals;
    signer = some bump;
  }

  abbrev pub pay_1 : CollectAccounts MintData → ℕ → ℕ → ℕ → Transfer MintData
  pay_1 a program bump amount = record {
    program = program;
    from = a.token_1_vault.key;
    to = a.recipient_token_1_account;
    authority = a.authority;
    mint = a.vault_1_mint;
    amount = amount;
    decimals = a.vault_1_mint.decimals;
    signer = some bump;
  }

  -- The two transfers that end each handler, by the programs and the bump given.
  unfoldable pub pay_both :
      Chain → CollectAccounts MintData → ℕ → ℕ → ℕ → ℕ → ℕ → Bank → Result Error Bank
  pay_both chain a program_0 program_1 bump amount_0 amount_1 bank = do
    paid ← transfer_from_pool_vault_to_user spl chain.epoch (pay_0 a program_0 bump amount_0) bank
    transfer_from_pool_vault_to_user spl chain.epoch (pay_1 a program_1 bump amount_1) paid

  unfoldable pub collect_protocol_fee :
      Chain → CollectAccounts MintData → ℕ → ℕ → Bank → Result Error (CollectOutcome Bank)
  collect_protocol_fee chain a amount_0_requested amount_1_requested bank = do
    require (a.owner == a.amm_config.protocol_owner || a.owner == chain.admin)
        (Error.code ErrorCode.invalid_owner)
    check_common chain a
    let pool = a.pool_state
    let amount_0 = min amount_0_requested pool.protocol_fees_token_0
    let amount_1 = min amount_1_requested pool.protocol_fees_token_1
    left_0 ← unwrap (checked_sub pool.protocol_fees_token_0 amount_0)
    left_1 ← unwrap (checked_sub pool.protocol_fees_token_1 amount_1)
    paid ←
        pay_both chain a (program_of a.first_program a.second_program a.vault_0_mint)
          (program_of a.first_program a.second_program a.vault_1_mint) pool.auth_bump amount_0
          amount_1 bank
    ok (record {
      pool_state = record pool {
        protocol_fees_token_0 = left_0;
        protocol_fees_token_1 = left_1;
        recent_epoch = chain.epoch;
      };
      bank = paid;
    })

  unfoldable pub collect_fund_fee :
      Chain → CollectAccounts MintData → ℕ → ℕ → Bank → Result Error (CollectOutcome Bank)
  collect_fund_fee chain a amount_0_requested amount_1_requested bank = do
    require (a.owner == a.amm_config.fund_owner || a.owner == chain.admin)
        (Error.code ErrorCode.invalid_owner)
    check_common chain a
    let pool = a.pool_state
    let amount_0 = min amount_0_requested pool.fund_fees_token_0
    let amount_1 = min amount_1_requested pool.fund_fees_token_1
    left_0 ← unwrap (checked_sub pool.fund_fees_token_0 amount_0)
    left_1 ← unwrap (checked_sub pool.fund_fees_token_1 amount_1)
    paid ←
        pay_both chain a (program_of a.first_program a.second_program a.vault_0_mint)
          (program_of a.first_program a.second_program a.vault_1_mint) pool.auth_bump amount_0
          amount_1 bank
    ok (record {
      pool_state = record pool {
        fund_fees_token_0 = left_0;
        fund_fees_token_1 = left_1;
        recent_epoch = chain.epoch;
      };
      bank = paid;
    })

  -- The creator's associated token accounts are made by Anchor where they are missing.
  unfoldable pub collect_creator_fee :
      Chain → CollectAccounts MintData → Bank → Result Error (CollectOutcome Bank)
  collect_creator_fee chain a bank = do
    require (a.owner == a.pool_state.pool_creator) Error.constraint_address
    check_common chain a
    let pool = a.pool_state
    require (not (pool.creator_fees_token_0 == 0 && pool.creator_fees_token_1 == 0))
        (Error.code ErrorCode.no_fee_collect)
    paid ←
        pay_both chain a a.first_program a.second_program a.authority_bump pool.creator_fees_token_0
          pool.creator_fees_token_1 bank
    ok (record {
      pool_state = record pool {
        creator_fees_token_0 = 0;
        creator_fees_token_1 = 0;
        recent_epoch = chain.epoch;
      };
      bank = paid;
    })
