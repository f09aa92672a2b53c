-- ===== src/Instructions/AdminTests.antt =====
-- The collections and the config on the sample accounts, and an example of each theorem.
use raydium_cp_swap.Base.{ℕ, ◌+◌, ◌<◌, ◌≡◌, ◌⊎◌, refl, ok, arith, []}
use raydium_cp_swap.Base.Words.{checked_sub, add}
use raydium_cp_swap.States.Sample.{pool, config}
use raydium_cp_swap.States.Config.{AmmConfig}
use raydium_cp_swap.Token.{transfer_from_pool_vault_to_user}
use raydium_cp_swap.Token.Sample
use raydium_cp_swap.Token.Sample.{Bank, sample, sample-IsTokenProgram}
use raydium_cp_swap.Instructions.Sample.{chain, bank, collect_accounts}
use raydium_cp_swap.Instructions.Collect.{
  CollectOutcome, check_common, pay_both, collect_protocol_fee, collect_fund_fee,
  collect_creator_fee,
}
use raydium_cp_swap.Instructions.Collect.Payout.{
  collect_protocol_fee-IsPaid, collect_fund_fee-IsPaid, collect_creator_fee-IsPaid,
}
use raydium_cp_swap.Instructions.Collect.Payments.{IsApart, IsPaid}
use raydium_cp_swap.Instructions.Collect.Counters.{Holder, LowersOnly}
use raydium_cp_swap.Instructions.Config.{
  create_amm_config, fill_amm_config, update_amm_config, dispatch_update, update_trade_fee_rate,
}
use raydium_cp_swap.Instructions.Config.Rates.{
  IsConfig, create_amm_config-IsConfig, update_amm_config-IsConfig,
}

-- The bank when the vaults hold `left_0` and `left_1`, and the recipients `paid_0` and `paid_1`.
abbrev paid_bank : ℕ → ℕ → ℕ → ℕ → Bank
paid_bank left_0 paid_0 left_1 paid_1 = record bank {
  balances =
      Sample.set (Sample.set (Sample.set (Sample.set bank.balances 11 left_0) 41 paid_0) 12 left_1)
        42 paid_1;
}

collect-IsApart :
    (owner : ℕ) → IsApart sample chain (sample-IsTokenProgram 4) (collect_accounts owner)
collect-IsApart owner = record {
  two_vaults = λ q. omega arith;
  recipient_0 = (λ q. omega arith, λ q. omega arith);
  recipient_1 = (λ q. omega arith, λ q. omega arith);
}

abbrev protocol_paid : CollectOutcome Bank
protocol_paid = record {
  pool_state = record pool {
    protocol_fees_token_0 = 10;
    protocol_fees_token_1 = 0;
    recent_epoch = 4;
  };
  bank = paid_bank 1_000_070 20 1_000_012 19;
}

abbrev fund_paid : CollectOutcome Bank
fund_paid = record {
  pool_state = record pool { fund_fees_token_0 = 0; fund_fees_token_1 = 2; recent_epoch = 4 };
  bank = paid_bank 1_000_080 10 1_000_029 2;
}

abbrev creator_paid : CollectOutcome Bank
creator_paid = record {
  pool_state = record pool { creator_fees_token_0 = 0; creator_fees_token_1 = 0; recent_epoch = 4 };
  bank = paid_bank 1_000_040 50 1_000_025 6;
}

protocol_collected :
    collect_protocol_fee sample chain (collect_accounts 70) 20 100 bank ≡ ok protocol_paid
unfolding collect_protocol_fee check_common pay_both checked_sub transfer_from_pool_vault_to_user
protocol_collected = refl

fund_collected : collect_fund_fee sample chain (collect_accounts 91) 100 3 bank ≡ ok fund_paid
unfolding collect_fund_fee check_common pay_both checked_sub transfer_from_pool_vault_to_user
fund_collected = refl

creator_collected : collect_creator_fee sample chain (collect_accounts 77) bank ≡ ok creator_paid
unfolding collect_creator_fee check_common pay_both transfer_from_pool_vault_to_user
creator_collected = refl

collect_protocol_fee-IsPaid_example :
    IsPaid sample chain
      (sample-IsTokenProgram 4)
      pool
      20
      20
      bank
      protocol_paid.pool_state
      protocol_paid.bank
    × ((70 ≡ config.protocol_owner) ⊎ (70 ≡ chain.admin))
    × LowersOnly Holder.protocol pool 20 20 protocol_paid.pool_state
collect_protocol_fee-IsPaid_example =
    collect_protocol_fee-IsPaid sample chain (sample-IsTokenProgram 4) (collect_accounts 70) 20 100
      bank protocol_collected (collect-IsApart 70)

collect_fund_fee-IsPaid_example :
    IsPaid sample chain (sample-IsTokenProgram 4) pool 10 3 bank fund_paid.pool_state fund_paid.bank
    × ((91 ≡ config.fund_owner) ⊎ (91 ≡ chain.admin))
    × LowersOnly Holder.fund pool 10 3 fund_paid.pool_state
collect_fund_fee-IsPaid_example =
    collect_fund_fee-IsPaid sample chain (sample-IsTokenProgram 4) (collect_accounts 91) 100 3 bank
      fund_collected (collect-IsApart 91)

collect_creator_fee-IsPaid_example :
    IsPaid sample chain
      (sample-IsTokenProgram 4)
      pool
      50
      7
      bank
      creator_paid.pool_state
      creator_paid.bank
    × (0 < 50 + 7)
    × (77 ≡ pool.pool_creator)
    × LowersOnly Holder.creator pool 50 7 creator_paid.pool_state
collect_creator_fee-IsPaid_example =
    collect_creator_fee-IsPaid sample chain (sample-IsTokenProgram 4) (collect_accounts 77) bank
      creator_collected (collect-IsApart 77)

abbrev created : AmmConfig
created = record config { protocol_owner = 91; fund_owner = 91 }

config_created : create_amm_config chain 91 253 0 2_500 120_000 40_000 0 500 ≡ ok created
unfolding create_amm_config fill_amm_config add
config_created = refl

create_amm_config-IsConfig_example : IsConfig created × (91 ≡ chain.admin)
create_amm_config-IsConfig_example =
    create_amm_config-IsConfig chain 91 253 0 2_500 120_000 40_000 0 500 config_created

abbrev updated : AmmConfig
updated = record config { trade_fee_rate = 3_000 }

rate_changed : update_amm_config chain 91 config 0 3_000 [] ≡ ok updated
unfolding update_amm_config dispatch_update update_trade_fee_rate add
rate_changed = refl

sample-IsConfig : IsConfig config
sample-IsConfig = record { charged = omega arith; shared = omega arith }

update_amm_config-IsConfig_example :
    (IsConfig updated × (updated.index ≡ config.index) × (updated.bump ≡ config.bump))
    × (91 ≡ chain.admin)
update_amm_config-IsConfig_example =
    update_amm_config-IsConfig chain 91 config 0 3_000 [] sample-IsConfig rate_changed
