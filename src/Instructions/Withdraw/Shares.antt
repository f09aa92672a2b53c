-- ===== src/Instructions/Withdraw/Shares.antt =====
-- A withdrawal by withdraw.rs does not lower what the remaining pool tokens are worth.
use raydium_cp_swap.Base.{
  ℕ, ◌+◌, ◌-◌, ◌≤◌, ◌≡◌, refl, sym, ◌∙◌, min, ok, take_apart, require, require-ok, unwrap,
  unwrap-ok, ok_or, ok_or-ok, arith, not, ◌==◌, ◌||◌, ltb, leb, ok_injective,
}
use raydium_cp_swap.Base.Words.{checked_sub, checked_sub-ok, narrow, narrow-ok}
use raydium_cp_swap.Curve.ConstantProduct.{RoundDirection, lp_tokens_to_trading_tokens}
use raydium_cp_swap.Curve.ConstantProduct.Liquidity.{withdrawal_keeps_share}
use raydium_cp_swap.States.Pool.{
  PoolState, PoolStatusBitIndex, get_status_by_bit, vault_amount_without_fee,
}
use raydium_cp_swap.States.Pool.Fees.{fees_0, fees_1, vault_amount-ok}
use raydium_cp_swap.Token.{transfer_from_pool_vault_to_user, token_burn, get_transfer_fee}
use raydium_cp_swap.Token.Interface.{Spl, Mint}
use raydium_cp_swap.Token.Transfers.{IsTokenProgram, vault_to_user-ok, vault_to_user-supply}
use raydium_cp_swap.Instructions.Context.{Chain}
use raydium_cp_swap.Instructions.Liquidity.{LiquidityAccounts, LiquidityOutcome, LpChangeEvent}
use raydium_cp_swap.Instructions.Liquidity.Shares.{IsLoaded, KeepsShares, check_vaults-ok}
use raydium_cp_swap.Instructions.Withdraw.{
  Amounts, check_accounts, withdraw_amounts, less_transfer_fee, withdraw_0, withdraw_1, lp_burn,
  finish_withdraw, withdraw,
}

withdraw_amounts-ok :
    (p : PoolState) (vault_0 vault_1 lp : ℕ) {m : Amounts}
    → withdraw_amounts p vault_0 vault_1 lp ≡ ok m
    → ((m.total_token_0_amount + fees_0 p ≡ vault_0)
        × (m.total_token_1_amount + fees_1 p ≡ vault_1))
      × (lp_tokens_to_trading_tokens lp p.lp_supply m.total_token_0_amount m.total_token_1_amount
            RoundDirection.floor
          ≡ ok m.results)
unfolding withdraw_amounts
withdraw_amounts-ok p vault_0 vault_1 lp {m} h =
    take_apart (vault_amount_without_fee p vault_0 vault_1) h λ t e1 h1.
      take_apart (ok_or (lp_tokens_to_trading_tokens lp p.lp_supply t.0 t.1 RoundDirection.floor) _)
        h1
        λ r e2 h2.
          take_apart (require (not (r.token_0_amount == 0 || r.token_1_amount == 0)) _) h2
            λ _ e3 h3.
              let vaults = vault_amount-ok p vault_0 vault_1 e1 in
              simp (sym (ok_injective h3)) (vaults, ok_or-ok _ _ e2)

module _ (spl : Spl) (chain : Chain) (laws : IsTokenProgram spl chain.epoch) where
  open spl use {MintData, Bank, balance, supply}

  less_transfer_fee-ok :
      (mint : Mint MintData) (total result : ℕ) {t : ℕ × ℕ × ℕ}
      → less_transfer_fee spl chain.epoch mint total result ≡ ok t
      → t.0 ≡ min total result
  unfolding less_transfer_fee
  less_transfer_fee-ok mint total result {t} h = take_apart (narrow result) h λ amount e1 h1.
      take_apart (get_transfer_fee spl chain.epoch mint (min total amount)) h1 λ fee e2 h2.
        take_apart (unwrap (checked_sub (min total amount) fee)) h2 λ received e3 h3.
          let (same, _) = narrow-ok result e1 in simp (sym (ok_injective h3)) (omega arith)

  -- The vaults, the supply and the mint after the transfers.
  finish_withdraw-ok :
      (a : LiquidityAccounts MintData) (lp amount_0 amount_1 : ℕ) (event : LpChangeEvent)
      (bank : Bank) {o : LiquidityOutcome Bank}
      → finish_withdraw spl chain a lp amount_0 amount_1 event bank ≡ ok o
      → IsLoaded spl a bank
      → (a.token_0_vault.key ≡ a.pool_state.token_0_vault)
        × (a.token_1_vault.key ≡ a.pool_state.token_1_vault)
        × (a.lp_mint.key ≡ a.pool_state.lp_mint)
      → (balance o.bank a.pool_state.token_0_vault + amount_0 ≡ a.token_0_vault.amount)
        × (balance o.bank a.pool_state.token_1_vault + amount_1 ≡ a.token_1_vault.amount)
        × (supply o.bank a.pool_state.lp_mint + lp ≡ supply bank a.pool_state.lp_mint)
        × ((o.pool_state.lp_supply ≡ a.pool_state.lp_supply - lp)
            × (lp ≤ a.pool_state.lp_supply)
            × (fees_0 o.pool_state ≡ fees_0 a.pool_state)
            × (fees_1 o.pool_state ≡ fees_1 a.pool_state)
            × ((o.pool_state.token_0_vault ≡ a.pool_state.token_0_vault)
                × (o.pool_state.token_1_vault ≡ a.pool_state.token_1_vault)
                × (o.pool_state.lp_mint ≡ a.pool_state.lp_mint)))
  unfolding finish_withdraw token_burn
  finish_withdraw-ok a lp amount_0 amount_1 event bank {o} h loaded (key_0, key_1, key_lp) =
      take_apart (unwrap (checked_sub a.pool_state.lp_supply lp)) h λ rest e1 h1.
        take_apart (spl.burn (lp_burn spl a lp) bank) h1 λ burned e2 h2.
          take_apart
            (transfer_from_pool_vault_to_user spl chain.epoch (withdraw_0 spl a amount_0) burned) h2
            λ paid_0 e3 h3.
              take_apart
                (transfer_from_pool_vault_to_user spl chain.epoch (withdraw_1 spl a amount_1)
                  paid_0)
                h3
                λ paid_1 e4 h4.
                  let v0 = a.pool_state.token_0_vault in
                  let v1 = a.pool_state.token_1_vault in
                  let (left, most) = checked_sub-ok a.pool_state.lp_supply lp (unwrap-ok _ e1) in
                  let first_0 =
                    laws.burn_others (lp_burn spl a lp) bank burned v0 e2 loaded.user_lp.0 in
                  let first_1 =
                    laws.burn_others (lp_burn spl a lp) bank burned v1 e2 loaded.user_lp.1 in
                  let burnt = laws.burn_supply (lp_burn spl a lp) bank burned e2 in
                  let (debit_0, others_0) =
                    vault_to_user-ok spl chain.epoch laws (withdraw_0 spl a amount_0) burned paid_0
                      v1 e3 (rw key_0 loaded.user_0.0) in
                  let (debit_1, others_1) =
                    vault_to_user-ok spl chain.epoch laws (withdraw_1 spl a amount_1) paid_0 paid_1
                      v0 e4 (rw key_1 loaded.user_1.1) in
                  let kept_1 =
                    others_0 (λ q. loaded.two_vaults (sym (q ∙ key_0))) loaded.user_0.1 in
                  let kept_0 = others_1 (λ q. loaded.two_vaults (q ∙ key_1)) loaded.user_1.0 in
                  let supply_0 =
                    vault_to_user-supply spl chain.epoch laws (withdraw_0 spl a amount_0) burned
                      paid_0 a.lp_mint.key e3 in
                  let supply_1 =
                    vault_to_user-supply spl chain.epoch laws (withdraw_1 spl a amount_1) paid_0
                      paid_1 a.lp_mint.key e4 in
                  let at_0 = rw key_0 at debit_0 in
                  let at_1 = rw key_1 at debit_1 in
                  let held_0 = loaded.amount_0 in
                  let held_1 = loaded.amount_1 in
                  let in_supply : supply paid_1 a.lp_mint.key + lp ≡ supply bank a.lp_mint.key =
                    omega arith in
                  simp (sym (ok_injective h4)) (
                    omega arith,
                    omega arith,
                    (rw key_lp at in_supply),
                    (left, most, refl, refl, (refl, refl, refl)),
                  )

  pub check_accounts-ok :
      (a : LiquidityAccounts MintData) {u : Unit {0}}
      → check_accounts chain a ≡ ok u
      → (a.token_0_vault.key ≡ a.pool_state.token_0_vault)
        × (a.token_1_vault.key ≡ a.pool_state.token_1_vault)
        × (a.lp_mint.key ≡ a.pool_state.lp_mint)
  unfolding check_accounts
  check_accounts-ok a h = take_apart (require (a.authority == chain.authority) _) h λ _ e1 h1.
      take_apart (require (a.owner_lp_token.owner == a.owner) _) h1 λ _ e2 h2.
        take_apart (require (a.token_0_account.mint == a.token_0_vault.mint) _) h2 λ _ e3 h3.
          take_apart (require (a.token_1_account.mint == a.token_1_vault.mint) _) h3
            λ _ e4 h4. check_vaults-ok spl a h4

  -- The reserves, from what has left the vaults.
  shares :
      (a : LiquidityAccounts MintData) (lp out_0 out_1 : ℕ) (m : Amounts) (bank : Bank)
      (o : LiquidityOutcome Bank)
      → withdraw_amounts a.pool_state a.token_0_vault.amount a.token_1_vault.amount lp ≡ ok m
      → IsLoaded spl a bank
      → (out_0 ≡ min m.total_token_0_amount m.results.token_0_amount)
        × (out_1 ≡ min m.total_token_1_amount m.results.token_1_amount)
      → (balance o.bank a.pool_state.token_0_vault + out_0 ≡ a.token_0_vault.amount)
        × (balance o.bank a.pool_state.token_1_vault + out_1 ≡ a.token_1_vault.amount)
        × (supply o.bank a.pool_state.lp_mint + lp ≡ supply bank a.pool_state.lp_mint)
        × ((o.pool_state.lp_supply ≡ a.pool_state.lp_supply - lp)
            × (lp ≤ a.pool_state.lp_supply)
            × (fees_0 o.pool_state ≡ fees_0 a.pool_state)
            × (fees_1 o.pool_state ≡ fees_1 a.pool_state)
            × ((o.pool_state.token_0_vault ≡ a.pool_state.token_0_vault)
                × (o.pool_state.token_1_vault ≡ a.pool_state.token_1_vault)
                × (o.pool_state.lp_mint ≡ a.pool_state.lp_mint)))
      → KeepsShares spl a.pool_state bank o.pool_state o.bank
  shares a lp out_0 out_1 m bank o e loaded (w0, w1)
        (left_0, left_1, burnt, (rest, most, same_0, same_1, keys)) =
      let ((held_0, held_1), quote) = withdraw_amounts-ok a.pool_state _ _ lp e in
      let ((fits_0, kept_0), (fits_1, kept_1)) =
        withdrawal_keeps_share lp a.pool_state.lp_supply m.total_token_0_amount
          m.total_token_1_amount most quote in
      let amount_0 = loaded.amount_0 in
      let amount_1 = loaded.amount_1 in
      let before_0 : balance bank a.pool_state.token_0_vault - fees_0 a.pool_state
          ≡ m.total_token_0_amount =
        omega arith in
      let before_1 : balance bank a.pool_state.token_1_vault - fees_1 a.pool_state
          ≡ m.total_token_1_amount =
        omega arith in
      let after_0 : balance o.bank a.pool_state.token_0_vault - fees_0 o.pool_state
          ≡ m.total_token_0_amount - m.results.token_0_amount =
        omega arith in
      let after_1 : balance o.bank a.pool_state.token_1_vault - fees_1 o.pool_state
          ≡ m.total_token_1_amount - m.results.token_1_amount =
        omega arith in
      record {
        solvent = (omega arith, omega arith);
        share_0 = rw (before_0, after_0, rest) kept_0;
        share_1 = rw (before_1, after_1, rest) kept_1;
        counted = omega arith;
        same_keys = keys;
        same_fees = (same_0, same_1);
      }

  -- A withdrawal that succeeds, from accounts loaded as they are on the chain, keeps the vaults above
  -- the fees owed, changes none of these, and lowers what a remaining pool token is worth in neither
  -- reserve; the supply that the pool counts moves with the supply of its mint, down by the pool
  -- tokens given back, which are not more than the user's account holds.
  pub withdraw-KeepsShares :
      (a : LiquidityAccounts MintData) (lp minimum_0 minimum_1 : ℕ) (bank : Bank)
      {o : LiquidityOutcome Bank}
      → withdraw spl chain a lp minimum_0 minimum_1 bank ≡ ok o
      → IsLoaded spl a bank
      → KeepsShares spl a.pool_state bank o.pool_state o.bank
        × (o.pool_state.lp_supply + lp ≡ a.pool_state.lp_supply)
        × (lp ≤ a.owner_lp_token.amount)
  unfolding withdraw
  withdraw-KeepsShares a lp minimum_0 minimum_1 bank {o} h loaded =
      take_apart (check_accounts chain a) h λ _ e1 h1.
        take_apart (require (ltb 0 lp) _) h1 λ _ e2 h2.
          take_apart (require (leb lp a.owner_lp_token.amount) _) h2 λ _ e3 h3.
            take_apart (require (get_status_by_bit a.pool_state PoolStatusBitIndex.withdraw) _) h3
              λ _ e4 h4.
                take_apart
                  (withdraw_amounts a.pool_state a.token_0_vault.amount a.token_1_vault.amount lp)
                  h4
                  λ m e5 h5.
                    take_apart
                      (less_transfer_fee spl chain.epoch a.vault_0_mint m.total_token_0_amount
                        m.results.token_0_amount)
                      h5
                      λ t e6 h6.
                        take_apart
                          (less_transfer_fee spl chain.epoch a.vault_1_mint m.total_token_1_amount
                            m.results.token_1_amount)
                          h6
                          λ s e7 h7.
                            take_apart (require (not (ltb t.1 minimum_0 || ltb s.1 minimum_1)) _) h7
                              λ _ e8 h8.
                                let held = require-ok (leb lp a.owner_lp_token.amount) _ e3 in
                                let out_0 =
                                  less_transfer_fee-ok a.vault_0_mint m.total_token_0_amount
                                    m.results.token_0_amount e6 in
                                let out_1 =
                                  less_transfer_fee-ok a.vault_1_mint m.total_token_1_amount
                                    m.results.token_1_amount e7 in
                                let done =
                                  finish_withdraw-ok a lp t.0 s.0 _ bank h8 loaded
                                    (check_accounts-ok a e1) in
                                (
                                  shares a lp t.0 s.0 m bank o e5 loaded (out_0, out_1) done,
                                  omega (arith, done.3.0, done.3.1),
                                  ground arith,
                                )
