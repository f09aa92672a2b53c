-- ===== src/Instructions/Config.antt =====
-- programs/cp-swap/src/instructions/admin: create_config.rs, update_config.rs and
-- update_pool_status.rs, with the asserts of `create_amm_config` in lib.rs. Plain `u64` sums panic
-- when they overflow.
pub mod Rates
use raydium_cp_swap.Base.{
  ℕ, Bool, true, false, not, List, [], ◌∷◌, Result, ok, err, panic, require, assert, ◌>>=◌, ◌>>◌,
  ◌==◌, ltb, leb, if◌then◌else◌,
}
use raydium_cp_swap.Base.Words.{u64_max, add}
use raydium_cp_swap.Error.{Error, ErrorCode}
use raydium_cp_swap.Curve.Fees.{fee_rate_denominator_value}
use raydium_cp_swap.States.Config.{AmmConfig}
use raydium_cp_swap.States.Pool.{PoolState, set_status}
use raydium_cp_swap.Instructions.Context.{Chain}

-- The handler of create_config.rs: the account is new, `bump` is that of its address.
unfoldable pub fill_amm_config : ℕ → ℕ → ℕ → ℕ → ℕ → ℕ → ℕ → ℕ → AmmConfig
fill_amm_config owner bump index trade_fee_rate protocol_fee_rate fund_fee_rate create_pool_fee
      creator_fee_rate =
    record {
      bump = bump;
      disable_create_pool = false;
      index = index;
      trade_fee_rate = trade_fee_rate;
      protocol_fee_rate = protocol_fee_rate;
      fund_fee_rate = fund_fee_rate;
      create_pool_fee = create_pool_fee;
      protocol_owner = owner;
      fund_owner = owner;
      creator_fee_rate = creator_fee_rate;
    }

-- `create_amm_config` of lib.rs, with the constraint of `CreateAmmConfig` on its signer.
unfoldable pub create_amm_config : Chain → ℕ → ℕ → ℕ → ℕ → ℕ → ℕ → ℕ → ℕ → Result Error AmmConfig
create_amm_config chain owner bump index trade_fee_rate protocol_fee_rate fund_fee_rate
      create_pool_fee creator_fee_rate =
    do
      require (owner == chain.admin) (Error.code ErrorCode.invalid_owner)
      trade_and_creator ← add u64_max trade_fee_rate creator_fee_rate
      assert (ltb trade_and_creator fee_rate_denominator_value)
      assert (leb protocol_fee_rate fee_rate_denominator_value)
      assert (leb fund_fee_rate fee_rate_denominator_value)
      fund_and_protocol ← add u64_max fund_fee_rate protocol_fee_rate
      assert (leb fund_and_protocol fee_rate_denominator_value)
      ok (
          fill_amm_config owner bump index trade_fee_rate protocol_fee_rate fund_fee_rate
            create_pool_fee creator_fee_rate)

unfoldable pub update_protocol_fee_rate : AmmConfig → ℕ → Result Error AmmConfig
update_protocol_fee_rate config protocol_fee_rate = do
  assert (leb protocol_fee_rate fee_rate_denominator_value)
  sum ← add u64_max protocol_fee_rate config.fund_fee_rate
  assert (leb sum fee_rate_denominator_value)
  ok (record config { protocol_fee_rate = protocol_fee_rate })

unfoldable pub update_trade_fee_rate : AmmConfig → ℕ → Result Error AmmConfig
update_trade_fee_rate config trade_fee_rate = do
  sum ← add u64_max trade_fee_rate config.creator_fee_rate
  assert (ltb sum fee_rate_denominator_value)
  ok (record config { trade_fee_rate = trade_fee_rate })

unfoldable pub update_fund_fee_rate : AmmConfig → ℕ → Result Error AmmConfig
update_fund_fee_rate config fund_fee_rate = do
  assert (leb fund_fee_rate fee_rate_denominator_value)
  sum ← add u64_max fund_fee_rate config.protocol_fee_rate
  assert (leb sum fee_rate_denominator_value)
  ok (record config { fund_fee_rate = fund_fee_rate })

unfoldable pub update_creator_fee_rate : AmmConfig → ℕ → Result Error AmmConfig
update_creator_fee_rate config creator_fee_rate = do
  sum ← add u64_max creator_fee_rate config.trade_fee_rate
  assert (ltb sum fee_rate_denominator_value)
  ok (record config { creator_fee_rate = creator_fee_rate })

unfoldable pub set_new_protocol_owner : AmmConfig → ℕ → Result Error AmmConfig
set_new_protocol_owner config new_owner = do
  require (not (new_owner == 0)) Error.require_keys_neq_violated
  ok (record config { protocol_owner = new_owner })

unfoldable pub set_new_fund_owner : AmmConfig → ℕ → Result Error AmmConfig
set_new_fund_owner config new_fund_owner = do
  require (not (new_fund_owner == 0)) Error.require_keys_neq_violated
  ok (record config { fund_owner = new_fund_owner })

-- `*ctx.remaining_accounts.iter().next().unwrap().key`
unfoldable pub first_account : List ℕ → Result Error ℕ
first_account [] = panic
first_account (key ∷ rest) = ok key

-- `match match_param`, on the keys of the remaining accounts.
unfoldable pub dispatch_update : AmmConfig → ℕ → ℕ → List ℕ → Result Error AmmConfig
dispatch_update config param value remaining_accounts =
    if param == 0
    then update_trade_fee_rate config value
    else if param == 1
    then update_protocol_fee_rate config value
    else if param == 2
    then update_fund_fee_rate config value
    else if param == 3
    then (do
      new_protocol_owner ← first_account remaining_accounts
      set_new_protocol_owner config new_protocol_owner)
    else if param == 4
    then (do
      new_fund_owner ← first_account remaining_accounts
      set_new_fund_owner config new_fund_owner)
    else if param == 5
    then ok (record config { create_pool_fee = value })
    else if param == 6
    then ok (record config { disable_create_pool = not (value == 0) })
    else if param == 7
    then update_creator_fee_rate config value
    else err (Error.code ErrorCode.invalid_input)

unfoldable pub update_amm_config : Chain → ℕ → AmmConfig → ℕ → ℕ → List ℕ → Result Error AmmConfig
update_amm_config chain owner config param value remaining_accounts = do
  require (owner == chain.admin) (Error.code ErrorCode.invalid_owner)
  dispatch_update config param value remaining_accounts

-- The test `require_gte!(255, status)` of a `u8` is kept.
unfoldable pub update_pool_status : Chain → ℕ → PoolState → ℕ → Result Error PoolState
update_pool_status chain authority pool status = do
  require (authority == chain.admin) Error.constraint_address
  require (leb status 255) Error.require_gte_violated
  ok (record (set_status pool status) { recent_epoch = chain.epoch })
