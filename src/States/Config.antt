-- ===== src/States/Config.antt =====
-- programs/cp-swap/src/states/config.rs, less the padding.
use raydium_cp_swap.Base.{ℕ, Bool}

pub record AmmConfig : Type 0 where
  pub bump : ℕ
  pub disable_create_pool : Bool
  pub index : ℕ
  pub trade_fee_rate : ℕ
  pub protocol_fee_rate : ℕ
  pub fund_fee_rate : ℕ
  pub create_pool_fee : ℕ
  pub protocol_owner : ℕ
  pub fund_owner : ℕ
  pub creator_fee_rate : ℕ
