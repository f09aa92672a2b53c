-- ===== src/Instructions/Collect/Payout.antt =====
-- What the three collect handlers pay: out of each vault leaves what the counters lose, so that the
-- reserves of the pool stay.
use raydium_cp_swap.Base.{
  ℕ, ◌+◌, ◌<◌, ◌≡◌, ◌⊎◌, refl, sym, min, ok, take_apart, require, require-ok, unwrap, unwrap-ok,
  arith, not, ◌==◌, ◌||◌, ◌&&◌, ok_injective,
}
use raydium_cp_swap.Base.Words.{checked_sub, checked_sub-ok}
use raydium_cp_swap.Token.Interface.{Spl}
use raydium_cp_swap.Token.Transfers.{IsTokenProgram}
use raydium_cp_swap.Instructions.Context.{Chain}
use raydium_cp_swap.Instructions.Collect.Payments.{IsApart, IsPaid, check_common-ok, pay_both-ok}
use raydium_cp_swap.Instructions.Collect.Counters.{
  Holder, LowersOnly, protocol-LowersOnly, fund-LowersOnly, creator-LowersOnly,
}
use raydium_cp_swap.Instructions.Collect.{
  CollectAccounts, CollectOutcome, check_common, pay_both, collect_protocol_fee, collect_fund_fee,
  collect_creator_fee,
}

module _ (spl : Spl) (chain : Chain) (laws : IsTokenProgram spl chain.epoch) where
  open spl use {MintData, Bank, balance, supply}

  -- A collection of the protocol fees that succeeds, with two vaults neither of which is paid, takes
  -- out of each vault the smaller of what was asked for and what is owed to the protocol, and takes
  -- just that from the protocol's two counters; those of the fund and of the creator stay, and so
  -- do the vaults' addresses, the supply, the fee model and the status. Only the protocol owner of
  -- the config or the admin has one.
  pub collect_protocol_fee-IsPaid :
      (a : CollectAccounts MintData) (requested_0 requested_1 : ℕ) (bank : Bank)
      {o : CollectOutcome Bank}
      → collect_protocol_fee spl chain a requested_0 requested_1 bank ≡ ok o
      → IsApart spl chain laws a
      → IsPaid spl chain laws a.pool_state
          (min requested_0 a.pool_state.protocol_fees_token_0)
          (min requested_1 a.pool_state.protocol_fees_token_1)
          bank
          o.pool_state
          o.bank
        × ((a.owner ≡ a.amm_config.protocol_owner) ⊎ (a.owner ≡ chain.admin))
        × LowersOnly Holder.protocol a.pool_state
            (min requested_0 a.pool_state.protocol_fees_token_0)
            (min requested_1 a.pool_state.protocol_fees_token_1)
            o.pool_state
  unfolding collect_protocol_fee
  collect_protocol_fee-IsPaid a requested_0 requested_1 bank h apart =
      let paid_0 = min requested_0 a.pool_state.protocol_fees_token_0 in
      let paid_1 = min requested_1 a.pool_state.protocol_fees_token_1 in
      take_apart (require (a.owner == a.amm_config.protocol_owner || a.owner == chain.admin) _) h
        λ _ e1 h1. take_apart (check_common chain a) h1 λ _ e2 h2.
          take_apart (unwrap (checked_sub a.pool_state.protocol_fees_token_0 paid_0)) h2
            λ left_0 e3 h3.
              take_apart (unwrap (checked_sub a.pool_state.protocol_fees_token_1 paid_1)) h3
                λ left_1 e4 h4.
                  take_apart (pay_both spl chain a _ _ _ paid_0 paid_1 bank) h4 λ paid e5 h5.
                    let signed =
                      require-ok (a.owner == a.amm_config.protocol_owner || a.owner == chain.admin)
                        _ e1 in
                    let (rest_0, _) =
                      checked_sub-ok a.pool_state.protocol_fees_token_0 paid_0 (unwrap-ok _ e3) in
                    let (rest_1, _) =
                      checked_sub-ok a.pool_state.protocol_fees_token_1 paid_1 (unwrap-ok _ e4) in
                    let (at_0, at_1, supplies) =
                      pay_both-ok spl chain laws a _ _ _ paid_0 paid_1 bank paid e5
                        (check_common-ok spl chain laws a e2) apart in
                    simp (sym (ok_injective h5)) (
                      record {
                        vault_0 = at_0;
                        vault_1 = at_1;
                        owed_0 = ground arith;
                        owed_1 = ground arith;
                        same_supplies = supplies;
                        kept = record {
                          same_0 = refl;
                          same_1 = refl;
                          same_mint = refl;
                          same_supply = refl;
                          same_fee_on = refl;
                          same_status = refl;
                        };
                      },
                      ground arith,
                      protocol-LowersOnly a.pool_state _ _ _ (omega arith) (omega arith) refl refl,
                    )

  -- A collection of the fund fees that succeeds, with two vaults neither of which is paid, takes
  -- out of each vault the smaller of what was asked for and what is owed to the fund, and takes
  -- just that from the fund's two counters; those of the protocol and of the creator stay, and so
  -- do the vaults' addresses, the supply, the fee model and the status. Only the fund owner of the
  -- config or the admin has one.
  pub collect_fund_fee-IsPaid :
      (a : CollectAccounts MintData) (requested_0 requested_1 : ℕ) (bank : Bank)
      {o : CollectOutcome Bank}
      → collect_fund_fee spl chain a requested_0 requested_1 bank ≡ ok o
      → IsApart spl chain laws a
      → IsPaid spl chain laws a.pool_state
          (min requested_0 a.pool_state.fund_fees_token_0)
          (min requested_1 a.pool_state.fund_fees_token_1)
          bank
          o.pool_state
          o.bank
        × ((a.owner ≡ a.amm_config.fund_owner) ⊎ (a.owner ≡ chain.admin))
        × LowersOnly Holder.fund a.pool_state
            (min requested_0 a.pool_state.fund_fees_token_0)
            (min requested_1 a.pool_state.fund_fees_token_1)
            o.pool_state
  unfolding collect_fund_fee
  collect_fund_fee-IsPaid a requested_0 requested_1 bank h apart =
      let paid_0 = min requested_0 a.pool_state.fund_fees_token_0 in
      let paid_1 = min requested_1 a.pool_state.fund_fees_token_1 in
      take_apart (require (a.owner == a.amm_config.fund_owner || a.owner == chain.admin) _) h
        λ _ e1 h1. take_apart (check_common chain a) h1 λ _ e2 h2.
          take_apart (unwrap (checked_sub a.pool_state.fund_fees_token_0 paid_0)) h2 λ left_0 e3 h3.
            take_apart (unwrap (checked_sub a.pool_state.fund_fees_token_1 paid_1)) h3
              λ left_1 e4 h4.
                take_apart (pay_both spl chain a _ _ _ paid_0 paid_1 bank) h4 λ paid e5 h5.
                  let signed =
                    require-ok (a.owner == a.amm_config.fund_owner || a.owner == chain.admin) _
                      e1 in
                  let (rest_0, _) =
                    checked_sub-ok a.pool_state.fund_fees_token_0 paid_0 (unwrap-ok _ e3) in
                  let (rest_1, _) =
                    checked_sub-ok a.pool_state.fund_fees_token_1 paid_1 (unwrap-ok _ e4) in
                  let (at_0, at_1, supplies) =
                    pay_both-ok spl chain laws a _ _ _ paid_0 paid_1 bank paid e5
                      (check_common-ok spl chain laws a e2) apart in
                  simp (sym (ok_injective h5)) (
                    record {
                      vault_0 = at_0;
                      vault_1 = at_1;
                      owed_0 = ground arith;
                      owed_1 = ground arith;
                      same_supplies = supplies;
                      kept = record {
                        same_0 = refl;
                        same_1 = refl;
                        same_mint = refl;
                        same_supply = refl;
                        same_fee_on = refl;
                        same_status = refl;
                      };
                    },
                    ground arith,
                    fund-LowersOnly a.pool_state _ _ _ (omega arith) (omega arith) refl refl,
                  )

  -- A collection of the creator fees that succeeds, with two vaults neither of which is paid, takes
  -- out of each vault all that is owed to the creator, and takes just that from the creator's two
  -- counters; those of the protocol and of the fund stay, and so do the vaults' addresses, the
  -- supply, the fee model and the status. Something is owed of one token at least,
  -- and only the creator of the pool has a collection.
  pub collect_creator_fee-IsPaid :
      (a : CollectAccounts MintData) (bank : Bank) {o : CollectOutcome Bank}
      → collect_creator_fee spl chain a bank ≡ ok o
      → IsApart spl chain laws a
      → IsPaid spl chain laws a.pool_state a.pool_state.creator_fees_token_0
          a.pool_state.creator_fees_token_1 bank o.pool_state o.bank
        × (0 < a.pool_state.creator_fees_token_0 + a.pool_state.creator_fees_token_1)
        × (a.owner ≡ a.pool_state.pool_creator)
        × LowersOnly Holder.creator a.pool_state a.pool_state.creator_fees_token_0
            a.pool_state.creator_fees_token_1 o.pool_state
  unfolding collect_creator_fee
  collect_creator_fee-IsPaid a bank h apart =
      let paid_0 = a.pool_state.creator_fees_token_0 in
      let paid_1 = a.pool_state.creator_fees_token_1 in
      take_apart (require (a.owner == a.pool_state.pool_creator) _) h λ _ e1 h1.
        take_apart (check_common chain a) h1 λ _ e2 h2.
          take_apart (require (not (paid_0 == 0 && paid_1 == 0)) _) h2 λ _ e3 h3.
            take_apart (pay_both spl chain a _ _ _ paid_0 paid_1 bank) h3 λ paid e4 h4.
              let signed = require-ok (a.owner == a.pool_state.pool_creator) _ e1 in
              let some_fee = require-ok (not (paid_0 == 0 && paid_1 == 0)) _ e3 in
              let (at_0, at_1, supplies) =
                pay_both-ok spl chain laws a _ _ _ paid_0 paid_1 bank paid e4
                  (check_common-ok spl chain laws a e2) apart in
              simp (sym (ok_injective h4)) (
                record {
                  vault_0 = at_0;
                  vault_1 = at_1;
                  owed_0 = ground arith;
                  owed_1 = ground arith;
                  same_supplies = supplies;
                  kept = record {
                    same_0 = refl;
                    same_1 = refl;
                    same_mint = refl;
                    same_supply = refl;
                    same_fee_on = refl;
                    same_status = refl;
                  };
                },
                ground arith,
                ground arith,
                creator-LowersOnly a.pool_state _ _ _ (omega arith) (omega arith) refl refl,
              )
