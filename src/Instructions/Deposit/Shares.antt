-- ===== src/Instructions/Deposit/Shares.antt =====
-- A deposit by deposit.rs does not lower what the other pool tokens are worth.
use raydium_cp_swap.Base.{
  ℕ, ◌+◌, ◌-◌, ◌<◌, ◌≡◌, refl, sym, ◌∙◌, ok, take_apart, require, require-ok, unwrap, unwrap-ok,
  ok_or, ok_or-ok, arith, not, ◌==◌, ◌||◌, ltb, ok_injective,
}
use raydium_cp_swap.Base.Words.{u64_max, checked_add, checked_add-ok, narrow, narrow-ok}
use raydium_cp_swap.Curve.ConstantProduct.{RoundDirection, lp_tokens_to_trading_tokens}
use raydium_cp_swap.Curve.ConstantProduct.Liquidity.{deposit_keeps_share}
use raydium_cp_swap.States.Pool.{
  PoolState, PoolStatusBitIndex, get_status_by_bit, vault_amount_without_fee,
}
use raydium_cp_swap.States.Pool.Fees.{fees_0, fees_1, vault_amount-ok}
use raydium_cp_swap.Token.{
  transfer_from_user_to_pool_vault, token_mint_to, get_transfer_fee, get_transfer_inverse_fee,
}
use raydium_cp_swap.Token.Interface.{Spl, Mint}
use raydium_cp_swap.Token.Transfers.{
  IsTokenProgram, user_to_vault-ok, user_to_vault-supply, inverse_fee-ok,
}
use raydium_cp_swap.Instructions.Context.{Chain}
use raydium_cp_swap.Instructions.Liquidity.{LiquidityAccounts, LiquidityOutcome, LpChangeEvent}
use raydium_cp_swap.Instructions.Liquidity.Shares.{IsLoaded, KeepsShares, check_vaults-ok}
use raydium_cp_swap.Instructions.Deposit.{
  Amounts, check_accounts, deposit_amounts, with_transfer_fee, deposit_0, deposit_1, lp_request,
  finish_deposit, deposit,
}

deposit_amounts-ok :
    (p : PoolState) (vault_0 vault_1 lp : ℕ) {m : Amounts}
    → deposit_amounts p vault_0 vault_1 lp ≡ ok m
    → ((m.total_token_0_amount + fees_0 p ≡ vault_0)
        × (m.total_token_1_amount + fees_1 p ≡ vault_1))
      × (lp_tokens_to_trading_tokens lp p.lp_supply m.total_token_0_amount m.total_token_1_amount
            RoundDirection.ceiling
          ≡ ok m.results)
      × ((0 < m.results.token_0_amount) × (0 < m.results.token_1_amount))
unfolding deposit_amounts
deposit_amounts-ok p vault_0 vault_1 lp {m} h =
    take_apart (vault_amount_without_fee p vault_0 vault_1) h λ t e1 h1.
      take_apart
        (ok_or (lp_tokens_to_trading_tokens lp p.lp_supply t.0 t.1 RoundDirection.ceiling) _) h1
        λ r e2 h2.
          take_apart (require (not (r.token_0_amount == 0 || r.token_1_amount == 0)) _) h2
            λ _ e3 h3.
              let some_each =
                require-ok (not (r.token_0_amount == 0 || r.token_1_amount == 0)) _ e3 in
              let vaults = vault_amount-ok p vault_0 vault_1 e1 in
              simp (sym (ok_injective h3)) (vaults, ok_or-ok _ _ e2, ground arith)

module _ (spl : Spl) (chain : Chain) (laws : IsTokenProgram spl chain.epoch) where
  open spl use {MintData, Bank, balance, supply}

  with_transfer_fee-ok :
      (mint : Mint MintData) (result : ℕ) {t : ℕ × ℕ × ℕ}
      → with_transfer_fee spl chain.epoch mint result ≡ ok t
      → 0 < result
      → (t.1 ≡ result + t.2) × (get_transfer_fee spl chain.epoch mint t.1 ≡ ok t.2)
  unfolding with_transfer_fee
  with_transfer_fee-ok mint result {t} h some_amount = take_apart (narrow result) h λ amount e1 h1.
      take_apart (get_transfer_inverse_fee spl chain.epoch mint amount) h1 λ fee e2 h2.
        take_apart (unwrap (checked_add u64_max amount fee)) h2 λ whole e3 h3.
          let (same, _) = narrow-ok result e1 in
          let (sum, _) = checked_add-ok u64_max amount fee (unwrap-ok _ e3) in
          let arrives = inverse_fee-ok spl chain.epoch laws mint amount (omega arith) e2 in
          simp (sym (ok_injective h3)) (omega arith, rw sum arrives)

  -- The vaults, the supply and the mint after the transfers.
  finish_deposit-ok :
      (a : LiquidityAccounts MintData) (lp transfer_0 transfer_1 fee_0 fee_1 : ℕ)
      (event : LpChangeEvent) (bank : Bank) {o : LiquidityOutcome Bank}
      → finish_deposit spl chain a lp transfer_0 transfer_1 event bank ≡ ok o
      → IsLoaded spl a bank
      → (a.token_0_vault.key ≡ a.pool_state.token_0_vault)
        × (a.token_1_vault.key ≡ a.pool_state.token_1_vault)
        × (a.lp_mint.key ≡ a.pool_state.lp_mint)
      → 0 < transfer_0
      → 0 < transfer_1
      → get_transfer_fee spl chain.epoch a.vault_0_mint transfer_0 ≡ ok fee_0
      → get_transfer_fee spl chain.epoch a.vault_1_mint transfer_1 ≡ ok fee_1
      → (balance o.bank a.pool_state.token_0_vault + fee_0 ≡ a.token_0_vault.amount + transfer_0)
        × (balance o.bank a.pool_state.token_1_vault + fee_1 ≡ a.token_1_vault.amount + transfer_1)
        × (supply o.bank a.pool_state.lp_mint ≡ supply bank a.pool_state.lp_mint + lp)
        × ((o.pool_state.lp_supply ≡ a.pool_state.lp_supply + lp)
            × (fees_0 o.pool_state ≡ fees_0 a.pool_state)
            × (fees_1 o.pool_state ≡ fees_1 a.pool_state)
            × ((o.pool_state.token_0_vault ≡ a.pool_state.token_0_vault)
                × (o.pool_state.token_1_vault ≡ a.pool_state.token_1_vault)
                × (o.pool_state.lp_mint ≡ a.pool_state.lp_mint)))
  unfolding finish_deposit token_mint_to
  finish_deposit-ok a lp transfer_0 transfer_1 fee_0 fee_1 event bank {o} h loaded
        (key_0, key_1, key_lp) some_0 some_1 taken_0 taken_1 =
      take_apart
        (transfer_from_user_to_pool_vault spl chain.epoch (deposit_0 spl a transfer_0) bank) h
        λ paid_0 e1 h1.
          take_apart
            (transfer_from_user_to_pool_vault spl chain.epoch (deposit_1 spl a transfer_1) paid_0)
            h1
            λ paid_1 e2 h2.
              take_apart (unwrap (checked_add u64_max a.pool_state.lp_supply lp)) h2 λ total e3 h3.
                take_apart (spl.mint_to (lp_request spl a lp) paid_1) h3 λ minted e4 h4.
                  let v0 = a.pool_state.token_0_vault in
                  let v1 = a.pool_state.token_1_vault in
                  let (sum, _) =
                    checked_add-ok u64_max a.pool_state.lp_supply lp (unwrap-ok _ e3) in
                  let (credit_0, others_0) =
                    user_to_vault-ok spl chain.epoch laws (deposit_0 spl a transfer_0) bank paid_0
                      fee_0 v1 e1 (λ q. loaded.user_0.0 (sym (q ∙ key_0))) some_0 taken_0 in
                  let (credit_1, others_1) =
                    user_to_vault-ok spl chain.epoch laws (deposit_1 spl a transfer_1) paid_0 paid_1
                      fee_1 v0 e2 (λ q. loaded.user_1.1 (sym (q ∙ key_1))) some_1 taken_1 in
                  let kept_1 =
                    others_0 loaded.user_0.1 (λ q. loaded.two_vaults (sym (q ∙ key_0))) in
                  let kept_0 = others_1 loaded.user_1.0 (λ q. loaded.two_vaults (q ∙ key_1)) in
                  let last_0 =
                    laws.mint_others (lp_request spl a lp) paid_1 minted v0 e4 loaded.user_lp.0 in
                  let last_1 =
                    laws.mint_others (lp_request spl a lp) paid_1 minted v1 e4 loaded.user_lp.1 in
                  let printed = laws.mint_supply (lp_request spl a lp) paid_1 minted e4 in
                  let supply_0 =
                    user_to_vault-supply spl chain.epoch laws (deposit_0 spl a transfer_0) bank
                      paid_0 a.lp_mint.key e1 in
                  let supply_1 =
                    user_to_vault-supply spl chain.epoch laws (deposit_1 spl a transfer_1) paid_0
                      paid_1 a.lp_mint.key e2 in
                  let at_0 = rw key_0 at credit_0 in
                  let at_1 = rw key_1 at credit_1 in
                  let amount_0 = loaded.amount_0 in
                  let amount_1 = loaded.amount_1 in
                  let in_supply : supply minted a.lp_mint.key ≡ supply bank a.lp_mint.key + lp =
                    omega arith in
                  simp (sym (ok_injective h4)) (
                    omega arith,
                    omega arith,
                    (rw key_lp at in_supply),
                    (sum, refl, refl, (refl, refl, refl)),
                  )

  pub check_accounts-ok :
      (a : LiquidityAccounts MintData) {u : Unit {0}}
      → check_accounts chain a ≡ ok u
      → (a.token_0_vault.key ≡ a.pool_state.token_0_vault)
        × (a.token_1_vault.key ≡ a.pool_state.token_1_vault)
        × (a.lp_mint.key ≡ a.pool_state.lp_mint)
  unfolding check_accounts
  check_accounts-ok a h = take_apart (require (a.authority == chain.authority) _) h λ _ e1 h1.
      take_apart (require (a.owner_lp_token.owner == a.owner) _) h1 λ _ e2 h2.
        take_apart (require (a.token_0_account.mint == a.token_0_vault.mint) _) h2 λ _ e3 h3.
          take_apart (require (a.token_0_account.owner == a.owner) _) h3 λ _ e4 h4.
            take_apart (require (a.token_1_account.mint == a.token_1_vault.mint) _) h4 λ _ e5 h5.
              take_apart (require (a.token_1_account.owner == a.owner) _) h5
                λ _ e6 h6. check_vaults-ok spl a h6

  -- The reserves, from what has arrived.
  shares :
      (a : LiquidityAccounts MintData) (lp fee_0 fee_1 whole_0 whole_1 : ℕ) (m : Amounts)
      (bank : Bank) (o : LiquidityOutcome Bank)
      → deposit_amounts a.pool_state a.token_0_vault.amount a.token_1_vault.amount lp ≡ ok m
      → IsLoaded spl a bank
      → (whole_0 ≡ m.results.token_0_amount + fee_0) × (whole_1 ≡ m.results.token_1_amount + fee_1)
      → (balance o.bank a.pool_state.token_0_vault + fee_0 ≡ a.token_0_vault.amount + whole_0)
        × (balance o.bank a.pool_state.token_1_vault + fee_1 ≡ a.token_1_vault.amount + whole_1)
        × (supply o.bank a.pool_state.lp_mint ≡ supply bank a.pool_state.lp_mint + lp)
        × ((o.pool_state.lp_supply ≡ a.pool_state.lp_supply + lp)
            × (fees_0 o.pool_state ≡ fees_0 a.pool_state)
            × (fees_1 o.pool_state ≡ fees_1 a.pool_state)
            × ((o.pool_state.token_0_vault ≡ a.pool_state.token_0_vault)
                × (o.pool_state.token_1_vault ≡ a.pool_state.token_1_vault)
                × (o.pool_state.lp_mint ≡ a.pool_state.lp_mint)))
      → KeepsShares spl a.pool_state bank o.pool_state o.bank
  shares a lp fee_0 fee_1 whole_0 whole_1 m bank o e loaded (w0, w1)
        (in_0, in_1, minted, (sum, same_0, same_1, keys)) =
      let ((held_0, held_1), quote, (some_0, some_1)) = deposit_amounts-ok a.pool_state _ _ lp e in
      let (kept_0, kept_1) =
        deposit_keeps_share lp a.pool_state.lp_supply m.total_token_0_amount m.total_token_1_amount
          quote some_0 some_1 in
      let amount_0 = loaded.amount_0 in
      let amount_1 = loaded.amount_1 in
      let before_0 : balance bank a.pool_state.token_0_vault - fees_0 a.pool_state
          ≡ m.total_token_0_amount =
        omega arith in
      let before_1 : balance bank a.pool_state.token_1_vault - fees_1 a.pool_state
          ≡ m.total_token_1_amount =
        omega arith in
      let after_0 : balance o.bank a.pool_state.token_0_vault - fees_0 o.pool_state
          ≡ m.total_token_0_amount + m.results.token_0_amount =
        omega arith in
      let after_1 : balance o.bank a.pool_state.token_1_vault - fees_1 o.pool_state
          ≡ m.total_token_1_amount + m.results.token_1_amount =
        omega arith in
      record {
        solvent = (omega arith, omega arith);
        share_0 = rw (before_0, after_0, sum) kept_0;
        share_1 = rw (before_1, after_1, sum) kept_1;
        counted = omega arith;
        same_keys = keys;
        same_fees = (same_0, same_1);
      }

  -- A deposit that succeeds, from accounts loaded as they are on the chain, keeps the vaults above the
  -- fees owed, changes none of these, and lowers what a pool token is worth in neither reserve; the
  -- supply that the pool counts moves with the supply of its mint, up by the pool tokens asked for,
  -- which are not 0.
  pub deposit-KeepsShares :
      (a : LiquidityAccounts MintData) (lp maximum_0 maximum_1 : ℕ) (bank : Bank)
      {o : LiquidityOutcome Bank}
      → deposit spl chain a lp maximum_0 maximum_1 bank ≡ ok o
      → IsLoaded spl a bank
      → KeepsShares spl a.pool_state bank o.pool_state o.bank
        × (o.pool_state.lp_supply ≡ a.pool_state.lp_supply + lp)
        × (0 < lp)
  unfolding deposit
  deposit-KeepsShares a lp maximum_0 maximum_1 bank {o} h loaded =
      take_apart (check_accounts chain a) h λ _ e1 h1.
        take_apart (require (ltb 0 lp) _) h1 λ _ e2 h2.
          take_apart (require (get_status_by_bit a.pool_state PoolStatusBitIndex.deposit) _) h2
            λ _ e3 h3.
              take_apart
                (deposit_amounts a.pool_state a.token_0_vault.amount a.token_1_vault.amount lp) h3
                λ m e4 h4.
                  take_apart
                    (with_transfer_fee spl chain.epoch a.vault_0_mint m.results.token_0_amount) h4
                    λ t e5 h5.
                      take_apart
                        (with_transfer_fee spl chain.epoch a.vault_1_mint m.results.token_1_amount)
                        h5
                        λ s e6 h6.
                          take_apart (require (not (ltb maximum_0 t.1 || ltb maximum_1 s.1)) _) h6
                            λ _ e7 h7.
                              let some_lp = require-ok (ltb 0 lp) _ e2 in
                              let (_, _, (some_0, some_1)) =
                                deposit_amounts-ok a.pool_state _ _ lp e4 in
                              let (sent_0, taken_0) =
                                with_transfer_fee-ok a.vault_0_mint m.results.token_0_amount e5
                                  some_0 in
                              let (sent_1, taken_1) =
                                with_transfer_fee-ok a.vault_1_mint m.results.token_1_amount e6
                                  some_1 in
                              let done =
                                finish_deposit-ok a lp t.1 s.1 t.2 s.2 _ bank h7 loaded
                                  (check_accounts-ok a e1) (omega arith) (omega arith) taken_0
                                  taken_1 in
                              (
                                shares a lp t.2 s.2 t.1 s.1 m bank o e4 loaded (sent_0, sent_1)
                                    done,
                                done.3.0,
                                ground arith,
                              )
