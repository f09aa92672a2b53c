-- ===== src/System/CreationTests.antt =====
-- Both ways to create a pool from sample accounts, and an example of each theorem on them.
use raydium_cp_swap.Base.{ℕ, ◌<◌, ◌≡◌, refl, true, false, Option, some, [], ok, arith}
use raydium_cp_swap.Base.Slices.{take, drop, from_le_bytes}
use raydium_cp_swap.Base.Words.{checked_mul, checked_sub, add, narrow}
use raydium_cp_swap.Curve.Calculator.{validate_supply}
use raydium_cp_swap.Accounts.{try_from_unchecked, load_init, view_bytes, check_owner}
use raydium_cp_swap.States.Sample.{pool, config}
use raydium_cp_swap.States.Pool.{CreatorFeeOn, to_u8}
use raydium_cp_swap.States.Pool.Start
use raydium_cp_swap.States.Oracle.{default_state}
use raydium_cp_swap.States.Support.{Permission}
use raydium_cp_swap.Token.{transfer_from_user_to_pool_vault, token_mint_to}
use raydium_cp_swap.Token.Interface.{TransferFee}
use raydium_cp_swap.Token.Sample
use raydium_cp_swap.Token.Sample.{Bank, sample, sample-IsTokenProgram}
use raydium_cp_swap.Token.SampleRuntime.{runtime, runtime-IsRuntime}
use raydium_cp_swap.Token.Create.{
  contains, all_allowed, is_supported_mint, support_mint_associated_is_initialized,
  create_or_allocate_account, token_account_space, create_token_account,
}
use raydium_cp_swap.Instructions.Sample.{chain, bank, mint_0, mint_1, user_0, user_1}
use raydium_cp_swap.Instructions.Initialize.{
  InitializeAccounts, InitializeOutcome, FeeReceiver, check_permission, next_open_time,
  check_address, check_accounts, init_accounts, check_mints, create_vaults, create_pool,
  fund_vaults, mint_liquidity, charge_creation, open_pool, initialize, initialize_with_permission,
}
use raydium_cp_swap.System.Creation.Terms.{HasTerms}
use raydium_cp_swap.System.Creation.{
  IsOpened, IsFresh, initialize-IsOpened, initialize_with_permission-IsOpened,
}

abbrev receiver : FeeReceiver
receiver = record { id = 95 }

abbrev accounts : InitializeAccounts (Option TransferFee)
accounts = record {
  payer = 80;
  creator = 77;
  amm_config_key = 5;
  amm_config = record config { create_pool_fee = 150_000 };
  authority = 90;
  pool_key = 4;
  pool_is_signer = false;
  token_0_mint = mint_0;
  token_1_mint = mint_1;
  lp_mint = 13;
  payer_token_0 = user_0;
  payer_token_1 = user_1;
  payer_lp_token = 34;
  token_0_vault = 1_021;
  token_1_vault = 1_022;
  create_pool_fee = 95;
  observation_key = 6;
  permission_key = 2_080;
  permission = some (record { authority = 80 });
  token_program = 1;
  token_0_program = 1;
  token_1_program = 2;
  remaining_accounts = [];
}

abbrev made : ℕ → ℕ
made = Sample.set (Sample.set (Sample.set bank.balances 11_021 1) 11_022 1) 10_004 1

abbrev paid : ℕ → ℕ
paid =
    Sample.set (Sample.set (Sample.set (Sample.set made 31 100_000) 1_021 400_000) 32 100_000) 1_022
      396_000

abbrev opened_bank : Bank
opened_bank = record {
  balances = Sample.set paid 34 397_894;
  supplies = Sample.set (Sample.set bank.supplies 13 0) 13 397_894;
}

abbrev opened : InitializeOutcome Bank
opened = record {
  pool_state = record pool {
    pool_creator = 80;
    token_0_vault = 1_021;
    token_1_vault = 1_022;
    lp_supply = 397_994;
    protocol_fees_token_0 = 0;
    protocol_fees_token_1 = 0;
    fund_fees_token_0 = 0;
    fund_fees_token_1 = 0;
    open_time = 201;
    recent_epoch = 4;
    enable_creator_fee = false;
    creator_fees_token_0 = 0;
    creator_fees_token_1 = 0;
  };
  observation_state = record default_state { pool_id = 4 };
  bank = opened_bank;
}

pool_opened : initialize sample runtime chain receiver accounts 400_000 400_000 150 bank ≡ ok opened
unfolding initialize check_accounts check_address init_accounts open_pool check_mints
    support_mint_associated_is_initialized is_supported_mint contains all_allowed next_open_time add
    create_vaults create_token_account token_account_space create_or_allocate_account create_pool
    try_from_unchecked check_owner load_init view_bytes take drop from_le_bytes fund_vaults
    transfer_from_user_to_pool_vault mint_liquidity validate_supply checked_mul narrow checked_sub
    token_mint_to charge_creation Start.initialize to_u8
pool_opened = refl

abbrev permitted : InitializeOutcome Bank
permitted = record opened {
  pool_state = record opened.pool_state {
    pool_creator = 77;
    open_time = 300;
    creator_fee_on = 2;
    enable_creator_fee = true;
  };
}

pool_permitted :
    initialize_with_permission sample runtime chain receiver accounts 400_000 400_000 300
      CreatorFeeOn.only_token_1 bank
    ≡ ok permitted
unfolding initialize_with_permission check_permission check_accounts check_address init_accounts
    open_pool check_mints support_mint_associated_is_initialized is_supported_mint contains
    all_allowed next_open_time add create_vaults create_token_account token_account_space
    create_or_allocate_account create_pool try_from_unchecked check_owner load_init view_bytes take
    drop from_le_bytes fund_vaults transfer_from_user_to_pool_vault mint_liquidity validate_supply
    checked_mul narrow checked_sub token_mint_to charge_creation Start.initialize to_u8
pool_permitted = refl

accounts-IsFresh : IsFresh sample runtime chain (sample-IsTokenProgram 4) runtime-IsRuntime accounts
accounts-IsFresh = ((λ q. omega arith, λ q. omega arith), (λ q. omega arith, λ q. omega arith))

initialize-IsOpened_example :
    IsOpened sample runtime chain (sample-IsTokenProgram 4) runtime-IsRuntime accounts opened
    × (21 < 22)
initialize-IsOpened_example =
    initialize-IsOpened sample runtime chain (sample-IsTokenProgram 4) runtime-IsRuntime receiver
      accounts 400_000 400_000 150 bank accounts-IsFresh
      (record { charged = omega arith; shared = omega arith }) pool_opened

initialize_with_permission-IsOpened_example :
    IsOpened sample runtime chain (sample-IsTokenProgram 4) runtime-IsRuntime accounts permitted
    × (21 < 22)
    × (accounts.permission_key ≡ 2_080)
    × ((p : Permission) × (accounts.permission ≡ some p))
    × HasTerms accounts 77 CreatorFeeOn.only_token_1 true permitted.pool_state
initialize_with_permission-IsOpened_example =
    initialize_with_permission-IsOpened sample runtime chain (sample-IsTokenProgram 4)
      runtime-IsRuntime receiver accounts 400_000 400_000 300 CreatorFeeOn.only_token_1 bank
      accounts-IsFresh (record { charged = omega arith; shared = omega arith }) pool_permitted
