-- ===== src/States/Sample.antt =====
-- A pool with both vaults of 1 000 000 beside the fees owed, a config, and a full observation ring.
use raydium_cp_swap.Base.{true, false}
use raydium_cp_swap.Base.Lists.{replicate}
use raydium_cp_swap.States.Config.{AmmConfig}
use raydium_cp_swap.States.Pool.{PoolState}
use raydium_cp_swap.States.Oracle.{Observation, ObservationState}

abbrev pub pool : PoolState
pool = record {
  amm_config = 5;
  pool_creator = 77;
  token_0_vault = 11;
  token_1_vault = 12;
  lp_mint = 13;
  token_0_mint = 21;
  token_1_mint = 22;
  token_0_program = 1;
  token_1_program = 2;
  observation_key = 6;
  auth_bump = 254;
  status = 0;
  lp_mint_decimals = 9;
  mint_0_decimals = 6;
  mint_1_decimals = 6;
  lp_supply = 1_000_000;
  protocol_fees_token_0 = 30;
  protocol_fees_token_1 = 20;
  fund_fees_token_0 = 10;
  fund_fees_token_1 = 5;
  open_time = 100;
  recent_epoch = 3;
  creator_fee_on = 0;
  enable_creator_fee = true;
  creator_fees_token_0 = 50;
  creator_fees_token_1 = 7;
}

abbrev pub config : AmmConfig
config = record {
  bump = 253;
  disable_create_pool = false;
  index = 0;
  trade_fee_rate = 2_500;
  protocol_fee_rate = 120_000;
  fund_fee_rate = 40_000;
  create_pool_fee = 0;
  protocol_owner = 70;
  fund_owner = 71;
  creator_fee_rate = 500;
}

abbrev pub first_observation : Observation
first_observation = record {
  block_timestamp = 150;
  cumulative_token_0_price_x32 = 0;
  cumulative_token_1_price_x32 = 0;
}

abbrev pub ring : ObservationState
ring = record {
  initialized = true;
  observation_index = 99;
  pool_id = 4;
  observations = replicate 100 first_observation;
  last_update_timestamp = 150;
}
