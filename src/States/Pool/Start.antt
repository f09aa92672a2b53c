-- ===== src/States/Pool/Start.antt =====
-- `PoolState::initialize` of programs/cp-swap/src/states/pool.rs.
use raydium_cp_swap.Base.{ℕ, Bool}
use raydium_cp_swap.States.Pool.{PoolState, CreatorFeeOn, to_u8}
use raydium_cp_swap.Token.Interface.{Mint}

-- The epoch comes first; the status is not set.
unfoldable pub initialize :
    {MintData : Type 0}
    → ℕ
    → PoolState
    → ℕ
    → ℕ
    → ℕ
    → ℕ
    → ℕ
    → ℕ
    → ℕ
    → Mint MintData
    → Mint MintData
    → ℕ
    → ℕ
    → ℕ
    → CreatorFeeOn
    → Bool
    → PoolState
initialize epoch self auth_bump lp_supply open_time pool_creator amm_config token_0_vault
      token_1_vault token_0_mint token_1_mint lp_mint lp_mint_decimals observation_key
      creator_fee_on enable_creator_fee =
    record self {
      amm_config = amm_config;
      pool_creator = pool_creator;
      token_0_vault = token_0_vault;
      token_1_vault = token_1_vault;
      lp_mint = lp_mint;
      token_0_mint = token_0_mint.key;
      token_1_mint = token_1_mint.key;
      token_0_program = token_0_mint.owner;
      token_1_program = token_1_mint.owner;
      observation_key = observation_key;
      auth_bump = auth_bump;
      lp_mint_decimals = lp_mint_decimals;
      mint_0_decimals = token_0_mint.decimals;
      mint_1_decimals = token_1_mint.decimals;
      lp_supply = lp_supply;
      protocol_fees_token_0 = 0;
      protocol_fees_token_1 = 0;
      fund_fees_token_0 = 0;
      fund_fees_token_1 = 0;
      open_time = open_time;
      recent_epoch = epoch;
      creator_fee_on = to_u8 creator_fee_on;
      enable_creator_fee = enable_creator_fee;
      creator_fees_token_0 = 0;
      creator_fees_token_1 = 0;
    }
