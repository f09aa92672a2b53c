-- ===== src/System.antt =====
-- The program as a whole, for one pool: the instructions of `#[program] mod raydium_cp_swap` in
-- programs/cp-swap/src/lib.rs that run on an existing pool, over the accounts that they load.
pub mod Effects
pub mod Amm
pub mod Sound
pub mod Refine
pub mod Execute
pub mod History
pub mod Creation
mod Tests
mod CreationTests
use raydium_cp_swap.Base.{ℕ, List, Result, ok, ◌>>=◌}
use raydium_cp_swap.Error.{Error}
use raydium_cp_swap.States.Config.{AmmConfig}
use raydium_cp_swap.States.Pool.{PoolState}
use raydium_cp_swap.States.Oracle.{ObservationState}
use raydium_cp_swap.Token.Interface.{Spl, TokenAccount}
use raydium_cp_swap.Instructions.Context.{Chain}
use raydium_cp_swap.Instructions.Swap
use raydium_cp_swap.Instructions.Swap.{SwapAccounts, SwapOutcome}
use raydium_cp_swap.Instructions.Liquidity.{LiquidityAccounts, LiquidityOutcome}
use raydium_cp_swap.Instructions.Deposit
use raydium_cp_swap.Instructions.Withdraw
use raydium_cp_swap.Instructions.Collect
use raydium_cp_swap.Instructions.Collect.{CollectAccounts, CollectOutcome}
use raydium_cp_swap.Instructions.Config

-- The pool, the config that it names, its observations, and the token accounts of the chain.
pub record World (Bank : Type 0) : Type 0 where
  pub pool : PoolState
  pub config : AmmConfig
  pub ring : ObservationState
  pub bank : Bank

-- The entry points, with the accounts and the arguments of a call.
pub data Instruction (MintData : Type 0) : Type 0 where
  update_amm_config : ℕ → ℕ → ℕ → List ℕ → Instruction MintData
  update_pool_status : ℕ → ℕ → Instruction MintData
  collect_protocol_fee : CollectAccounts MintData → ℕ → ℕ → Instruction MintData
  collect_fund_fee : CollectAccounts MintData → ℕ → ℕ → Instruction MintData
  collect_creator_fee : CollectAccounts MintData → Instruction MintData
  deposit : LiquidityAccounts MintData → ℕ → ℕ → ℕ → Instruction MintData
  withdraw : LiquidityAccounts MintData → ℕ → ℕ → ℕ → Instruction MintData
  swap_base_input : SwapAccounts MintData → ℕ → ℕ → Instruction MintData
  swap_base_output : SwapAccounts MintData → ℕ → ℕ → Instruction MintData

module _ (spl : Spl) where
  open spl use {MintData, Bank, balance}

  -- What Anchor loads: the contents of the accounts of the program and the amounts of the vaults are
  -- those of the chain. (The handlers check the addresses.)
  abbrev pub load_account : Bank → TokenAccount → TokenAccount
  load_account bank v = record v { amount = balance bank v.key }

  abbrev pub load_swap : World Bank → SwapAccounts MintData → SwapAccounts MintData
  load_swap w a = record a {
    pool_state = w.pool;
    amm_config = w.config;
    observation_state = w.ring;
    input_vault = load_account w.bank a.input_vault;
    output_vault = load_account w.bank a.output_vault;
  }

  abbrev pub load_liquidity : World Bank → LiquidityAccounts MintData → LiquidityAccounts MintData
  load_liquidity w a = record a {
    pool_state = w.pool;
    token_0_vault = load_account w.bank a.token_0_vault;
    token_1_vault = load_account w.bank a.token_1_vault;
    owner_lp_token = load_account w.bank a.owner_lp_token;
  }

  abbrev pub load_collect : World Bank → CollectAccounts MintData → CollectAccounts MintData
  load_collect w a = record a { pool_state = w.pool; amm_config = w.config }

  -- What is written back.
  abbrev pub after_swap : World Bank → SwapOutcome Bank → World Bank
  after_swap w o = record w { pool = o.pool_state; ring = o.observation_state; bank = o.bank }

  abbrev pub after_liquidity : World Bank → LiquidityOutcome Bank → World Bank
  after_liquidity w o = record w { pool = o.pool_state; bank = o.bank }

  abbrev pub after_collect : World Bank → CollectOutcome Bank → World Bank
  after_collect w o = record w { pool = o.pool_state; bank = o.bank }

  -- One call. An instruction that fails leaves the chain as it was.
  unfoldable pub execute : Chain → Instruction MintData → World Bank → Result Error (World Bank)
  execute chain (update_amm_config owner param value keys) w = do
    config ← Config.update_amm_config chain owner w.config param value keys
    ok (record w { config = config })
  execute chain (update_pool_status authority status) w = do
    pool ← Config.update_pool_status chain authority w.pool status
    ok (record w { pool = pool })
  execute chain (collect_protocol_fee a requested_0 requested_1) w = do
    o ← Collect.collect_protocol_fee spl chain (load_collect w a) requested_0 requested_1 w.bank
    ok (after_collect w o)
  execute chain (collect_fund_fee a requested_0 requested_1) w = do
    o ← Collect.collect_fund_fee spl chain (load_collect w a) requested_0 requested_1 w.bank
    ok (after_collect w o)
  execute chain (collect_creator_fee a) w = do
    o ← Collect.collect_creator_fee spl chain (load_collect w a) w.bank
    ok (after_collect w o)
  execute chain (deposit a lp maximum_0 maximum_1) w = do
    o ← Deposit.deposit spl chain (load_liquidity w a) lp maximum_0 maximum_1 w.bank
    ok (after_liquidity w o)
  execute chain (withdraw a lp minimum_0 minimum_1) w = do
    o ← Withdraw.withdraw spl chain (load_liquidity w a) lp minimum_0 minimum_1 w.bank
    ok (after_liquidity w o)
  execute chain (swap_base_input a amount_in minimum) w = do
    o ← Swap.swap_base_input spl chain (load_swap w a) amount_in minimum w.bank
    ok (after_swap w o)
  execute chain (swap_base_output a maximum amount_out) w = do
    o ← Swap.swap_base_output spl chain (load_swap w a) maximum amount_out w.bank
    ok (after_swap w o)
