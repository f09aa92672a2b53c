-- ===== src/Instructions/Sample.antt =====
-- Accounts and balances for a run of each handler on the sample pool: token 0 is a classic token,
-- token 1 carries a transfer fee of 1 %.
use raydium_cp_swap.Base.{ℕ, Option, some, none, ◌==◌, if◌then◌else◌}
use raydium_cp_swap.Token.Interface.{Mint, TokenAccount, TransferFee}
use raydium_cp_swap.Token.Sample.{Bank}
use raydium_cp_swap.States.Sample.{pool, config, ring}
use raydium_cp_swap.Instructions.Context.{Chain}
use raydium_cp_swap.Instructions.Swap.{SwapAccounts}
use raydium_cp_swap.Instructions.Liquidity.{LiquidityAccounts}
use raydium_cp_swap.Instructions.Collect.{CollectAccounts}

abbrev pub chain : Chain
chain = record { unix_timestamp = 200; epoch = 4; authority = 90; admin = 91 }

abbrev pub mint_0 : Mint (Option TransferFee)
mint_0 = record { key = 21; owner = 1; decimals = 6; content = none }

abbrev pub mint_1 : Mint (Option TransferFee)
mint_1 = record {
  key = 22;
  owner = 2;
  decimals = 6;
  content = some (record { transfer_fee_basis_points = 100; maximum_fee = 5_000 });
}

abbrev pub lp_mint : Mint (Option TransferFee)
lp_mint = record { key = 13; owner = 1; decimals = 9; content = none }

abbrev pub vault_0 : TokenAccount
vault_0 = record { key = 11; mint = 21; owner = 90; amount = 1_000_090 }

abbrev pub vault_1 : TokenAccount
vault_1 = record { key = 12; mint = 22; owner = 90; amount = 1_000_032 }

abbrev pub user_0 : TokenAccount
user_0 = record { key = 31; mint = 21; owner = 80; amount = 500_000 }

abbrev pub user_1 : TokenAccount
user_1 = record { key = 32; mint = 22; owner = 80; amount = 500_000 }

abbrev pub user_lp : TokenAccount
user_lp = record { key = 33; mint = 13; owner = 80; amount = 300_000 }

abbrev pub bank : Bank
bank = record {
  balances = λ k.
      if k == 11
      then 1_000_090
      else if k == 12
      then 1_000_032
      else if k == 31
      then 500_000
      else if k == 32
      then 500_000
      else if k == 33
      then 300_000
      else 0;
  supplies = λ m. if m == 13 then 999_900 else 0;
}

abbrev pub swap_accounts : SwapAccounts (Option TransferFee)
swap_accounts = record {
  payer = 80;
  authority = 90;
  amm_config_key = 5;
  amm_config = config;
  pool_key = 4;
  pool_state = pool;
  input_token_account = user_0;
  output_token_account = user_1;
  input_vault = vault_0;
  output_vault = vault_1;
  input_token_program = 1;
  output_token_program = 2;
  input_token_mint = mint_0;
  output_token_mint = mint_1;
  observation_key = 6;
  observation_state = ring;
}

abbrev pub liquidity_accounts : LiquidityAccounts (Option TransferFee)
liquidity_accounts = record {
  owner = 80;
  authority = 90;
  pool_key = 4;
  pool_state = pool;
  owner_lp_token = user_lp;
  token_0_account = user_0;
  token_1_account = user_1;
  token_0_vault = vault_0;
  token_1_vault = vault_1;
  token_program = 1;
  token_program_2022 = 2;
  vault_0_mint = mint_0;
  vault_1_mint = mint_1;
  lp_mint = lp_mint;
}

-- Signed by `owner`.
abbrev pub collect_accounts : ℕ → CollectAccounts (Option TransferFee)
collect_accounts owner = record {
  owner = owner;
  authority = 90;
  authority_bump = 254;
  pool_state = pool;
  amm_config_key = 5;
  amm_config = config;
  token_0_vault = vault_0;
  token_1_vault = vault_1;
  vault_0_mint = mint_0;
  vault_1_mint = mint_1;
  recipient_token_0_account = 41;
  recipient_token_1_account = 42;
  first_program = 1;
  second_program = 2;
}
