-- ===== src/Instructions/Liquidity.antt =====
-- What deposit.rs and withdraw.rs share: their accounts, their event, and the choice of the token
-- program of a mint.
pub mod Shares
use raydium_cp_swap.Base.{ℕ, Result, require, ◌>>=◌, ◌>>◌, ◌==◌, if◌then◌else◌}
use raydium_cp_swap.Error.{Error, ErrorCode}
use raydium_cp_swap.States.Pool.{PoolState}
use raydium_cp_swap.Token.Interface.{Mint, TokenAccount}

-- `LpChangeEvent` of states/events.rs
pub record LpChangeEvent : Type 0 where
  pub pool_id : ℕ
  pub lp_amount_before : ℕ
  pub token_0_vault_before : ℕ
  pub token_1_vault_before : ℕ
  pub token_0_amount : ℕ
  pub token_1_amount : ℕ
  pub token_0_transfer_fee : ℕ
  pub token_1_transfer_fee : ℕ
  pub change_type : ℕ

-- `struct Deposit`; `struct Withdraw` has these accounts, and the memo program beside them.
pub record LiquidityAccounts (MintData : Type 0) : Type 0 where
  pub owner : ℕ
  pub authority : ℕ
  pub pool_key : ℕ
  pub pool_state : PoolState
  pub owner_lp_token : TokenAccount
  pub token_0_account : TokenAccount
  pub token_1_account : TokenAccount
  pub token_0_vault : TokenAccount
  pub token_1_vault : TokenAccount
  pub token_program : ℕ
  pub token_program_2022 : ℕ
  pub vault_0_mint : Mint MintData
  pub vault_1_mint : Mint MintData
  pub lp_mint : Mint MintData

-- `if mint.owner == token_program.key { token_program } else { token_program_2022 }`
abbrev pub program_of : {MintData : Type 0} → ℕ → ℕ → Mint MintData → ℕ
program_of token_program token_program_2022 mint =
    if mint.owner == token_program then token_program else token_program_2022

-- What either handler leaves.
pub record LiquidityOutcome (Bank : Type 0) : Type 0 where
  pub pool_state : PoolState
  pub bank : Bank
  pub event : LpChangeEvent

-- The constraints on the vaults and the mints, which both structs have.
unfoldable pub check_vaults :
    {MintData : Type 0} → LiquidityAccounts MintData → Result Error (Unit {0})
check_vaults a = do
  require (a.token_0_vault.key == a.pool_state.token_0_vault) Error.constraint_raw
  require (a.token_1_vault.key == a.pool_state.token_1_vault) Error.constraint_raw
  require (a.vault_0_mint.key == a.token_0_vault.mint) Error.constraint_address
  require (a.vault_1_mint.key == a.token_1_vault.mint) Error.constraint_address
  require (a.lp_mint.key == a.pool_state.lp_mint) (Error.code ErrorCode.incorrect_lp_mint)
