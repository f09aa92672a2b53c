-- ===== src/Instructions/LiquidityTests.antt =====
-- A deposit and a withdrawal on the sample accounts, and an example of each theorem.
use raydium_cp_swap.Base.{ℕ, ◌+◌, ◌<◌, ◌≤◌, ◌≡◌, refl, true, ok, arith}
use raydium_cp_swap.Base.Words.{
  checked_add, checked_sub, checked_mul, checked_div, checked_rem, add, narrow,
}
use raydium_cp_swap.Curve.ConstantProduct.{lp_tokens_to_trading_tokens, round, round_up}
use raydium_cp_swap.States.Sample.{pool}
use raydium_cp_swap.States.Pool.{PoolStatusBitIndex, get_status_by_bit, vault_amount_without_fee}
use raydium_cp_swap.Token.{
  transfer_from_user_to_pool_vault, transfer_from_pool_vault_to_user, token_mint_to, token_burn,
  get_transfer_fee, fee_of, get_transfer_inverse_fee, inverse_fee_of, checked_inverse_fee,
}
use raydium_cp_swap.Token.Sample
use raydium_cp_swap.Token.Sample.{Bank, sample, sample-IsTokenProgram}
use raydium_cp_swap.Token.StrictSample.{
  strict, strict-IsTokenProgram, strict-IsLive, Usable, Burnable,
}
use raydium_cp_swap.Instructions.Sample.{chain, bank, liquidity_accounts}
use raydium_cp_swap.Instructions.Liquidity.{LiquidityOutcome, check_vaults}
use raydium_cp_swap.Instructions.Liquidity.Shares.{IsLoaded, IsApart, KeepsShares}
use raydium_cp_swap.Instructions.Deposit
use raydium_cp_swap.Instructions.Deposit.{
  deposit_amounts, with_transfer_fee, finish_deposit, deposit,
}
use raydium_cp_swap.Instructions.Deposit.Limits.{deposit_limits}
use raydium_cp_swap.Instructions.Withdraw.Live.{IsPayable, share_0, share_1, withdraw-total}
use raydium_cp_swap.Instructions.Withdraw.Limits.{withdraw_limits}
use raydium_cp_swap.Instructions.Deposit.Shares.{deposit-KeepsShares}
use raydium_cp_swap.Instructions.Withdraw
use raydium_cp_swap.Instructions.Withdraw.{
  withdraw_amounts, less_transfer_fee, finish_withdraw, withdraw,
}
use raydium_cp_swap.Instructions.Withdraw.Shares.{withdraw-KeepsShares}

abbrev paid_0 : ℕ → ℕ
paid_0 = Sample.set (Sample.set bank.balances 31 499_000) 11 1_001_090

abbrev paid_1 : ℕ → ℕ
paid_1 = Sample.set (Sample.set paid_0 32 498_989) 12 1_001_032

abbrev deposited : LiquidityOutcome Bank
deposited = record {
  pool_state = record pool { lp_supply = 1_001_000; recent_epoch = 4 };
  bank = record {
    balances = Sample.set paid_1 33 301_000;
    supplies = Sample.set bank.supplies 13 1_000_900;
  };
  event = record {
    pool_id = 4;
    lp_amount_before = 1_000_000;
    token_0_vault_before = 1_000_000;
    token_1_vault_before = 1_000_000;
    token_0_amount = 1_000;
    token_1_amount = 1_000;
    token_0_transfer_fee = 0;
    token_1_transfer_fee = 11;
    change_type = 0;
  };
}

deposit_1000 : deposit sample chain liquidity_accounts 1_000 1_000 1_011 bank ≡ ok deposited
unfolding deposit Deposit.check_accounts check_vaults get_status_by_bit deposit_amounts
    vault_amount_without_fee lp_tokens_to_trading_tokens round round_up with_transfer_fee
    get_transfer_inverse_fee inverse_fee_of checked_inverse_fee finish_deposit
    transfer_from_user_to_pool_vault token_mint_to checked_add checked_sub checked_mul checked_div
    checked_rem add narrow
deposit_1000 = refl

abbrev burned : ℕ → ℕ
burned = Sample.set bank.balances 33 299_000

abbrev left_0 : ℕ → ℕ
left_0 = Sample.set (Sample.set burned 11 999_090) 31 501_000

abbrev withdrawn : LiquidityOutcome Bank
withdrawn = record {
  pool_state = record pool { lp_supply = 999_000; recent_epoch = 4 };
  bank = record {
    balances = Sample.set (Sample.set left_0 12 999_032) 32 500_990;
    supplies = Sample.set bank.supplies 13 998_900;
  };
  event = record {
    pool_id = 4;
    lp_amount_before = 1_000_000;
    token_0_vault_before = 1_000_000;
    token_1_vault_before = 1_000_000;
    token_0_amount = 1_000;
    token_1_amount = 990;
    token_0_transfer_fee = 0;
    token_1_transfer_fee = 10;
    change_type = 1;
  };
}

withdraw_1000 : withdraw sample chain liquidity_accounts 1_000 1_000 990 bank ≡ ok withdrawn
unfolding withdraw Withdraw.check_accounts check_vaults get_status_by_bit withdraw_amounts
    vault_amount_without_fee lp_tokens_to_trading_tokens round round_up less_transfer_fee
    get_transfer_fee fee_of finish_withdraw transfer_from_pool_vault_to_user token_burn checked_add
    checked_sub checked_mul checked_div checked_rem add narrow
withdraw_1000 = refl

liquidity-IsLoaded : IsLoaded sample liquidity_accounts bank
liquidity-IsLoaded = record {
  amount_0 = refl;
  amount_1 = refl;
  two_vaults = λ q. omega arith;
  user_0 = (λ q. omega arith, λ q. omega arith);
  user_1 = (λ q. omega arith, λ q. omega arith);
  user_lp = (λ q. omega arith, λ q. omega arith);
}

deposit-KeepsShares_example :
    KeepsShares sample pool bank deposited.pool_state deposited.bank
    × (1_001_000 ≡ 1_000_000 + 1_000)
    × (0 < 1_000)
deposit-KeepsShares_example =
    deposit-KeepsShares sample chain (sample-IsTokenProgram 4) liquidity_accounts 1_000 1_000 1_011
      bank deposit_1000 liquidity-IsLoaded

withdraw-KeepsShares_example :
    KeepsShares sample pool bank withdrawn.pool_state withdrawn.bank
    × (999_000 + 1_000 ≡ 1_000_000)
    × (1_000 ≤ 300_000)
withdraw-KeepsShares_example =
    withdraw-KeepsShares sample chain (sample-IsTokenProgram 4) liquidity_accounts 1_000 1_000 990
      bank withdraw_1000 liquidity-IsLoaded

deposit_limits_example :
    (get_status_by_bit pool PoolStatusBitIndex.deposit ≡ true)
    × (500_000 ≤ 499_000 + 1_000)
    × (500_000 ≤ 498_989 + 1_011)
deposit_limits_example =
    deposit_limits sample chain (sample-IsTokenProgram 4) liquidity_accounts 1_000 1_000 1_011 bank
      deposit_1000
      (record {
        two = λ q. omega arith;
        account_0 = (λ q. omega arith, λ q. omega arith);
        account_1 = (λ q. omega arith, λ q. omega arith);
        lp = (λ q. omega arith, λ q. omega arith);
      })

withdraw_limits_example :
    (get_status_by_bit pool PoolStatusBitIndex.withdraw ≡ true)
    × (500_000 + 1_000 ≤ 501_000)
    × (500_000 + 990 ≤ 500_990)
withdraw_limits_example =
    withdraw_limits sample chain (sample-IsTokenProgram 4) liquidity_accounts 1_000 1_000 990 bank
      withdraw_1000
      (record {
        two = λ q. omega arith;
        account_0 = (λ q. omega arith, λ q. omega arith);
        account_1 = (λ q. omega arith, λ q. omega arith);
        lp = (λ q. omega arith, λ q. omega arith);
      })

strict-IsLoaded : IsLoaded strict liquidity_accounts bank
strict-IsLoaded = record {
  amount_0 = refl;
  amount_1 = refl;
  two_vaults = λ q. omega arith;
  user_0 = (λ q. omega arith, λ q. omega arith);
  user_1 = (λ q. omega arith, λ q. omega arith);
  user_lp = (λ q. omega arith, λ q. omega arith);
}

strict-IsApart : IsApart strict liquidity_accounts
strict-IsApart = record {
  two = λ q. omega arith;
  account_0 = (λ q. omega arith, λ q. omega arith);
  account_1 = (λ q. omega arith, λ q. omega arith);
  lp = (λ q. omega arith, λ q. omega arith);
}

strict-IsPayable :
    IsPayable strict chain Usable Burnable liquidity_accounts 1_000
      (share_0 liquidity_accounts 1_000)
      (share_1 liquidity_accounts 1_000)
      bank
unfolding get_transfer_fee fee_of
strict-IsPayable = record {
  usable_0 = (λ q. omega arith, λ q. omega arith);
  usable_1 = (λ q. omega arith, λ q. omega arith);
  burnable = λ q. omega arith;
  room_0 = omega arith;
  room_1 = omega arith;
  fee_0 = (0, refl, omega arith);
  fee_1 = (10, refl, omega arith);
  held = refl;
  issued = omega arith;
}

accounts_checked : Withdraw.check_accounts chain liquidity_accounts ≡ ok tt
unfolding Withdraw.check_accounts check_vaults
accounts_checked = refl

withdrawals_enabled : get_status_by_bit pool PoolStatusBitIndex.withdraw ≡ true
unfolding get_status_by_bit
withdrawals_enabled = refl

withdraw-total_example :
    (o : LiquidityOutcome Bank) × (withdraw strict chain liquidity_accounts 1_000 0 0 bank ≡ ok o)
withdraw-total_example =
    withdraw-total strict chain (strict-IsTokenProgram 4) Usable Burnable (strict-IsLive 4)
      liquidity_accounts 1_000 bank accounts_checked strict-IsLoaded strict-IsApart strict-IsPayable
      withdrawals_enabled (omega arith, omega arith) (omega arith, omega arith, omega arith)
      (omega arith, omega arith, omega arith) (omega arith, omega arith)
