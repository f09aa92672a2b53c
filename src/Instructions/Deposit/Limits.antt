-- ===== src/Instructions/Deposit/Limits.antt =====
-- What deposit.rs takes from the user's two accounts, against the limits that the user gave.
use raydium_cp_swap.Base.{
  ℕ, ◌+◌, ◌≤◌, ◌≡◌, true, ok, take_apart, require, require-ok, unwrap, arith, not, ◌||◌, ltb,
  ok_injective, sym,
}
use raydium_cp_swap.Base.Words.{u64_max, checked_add}
use raydium_cp_swap.States.Pool.{PoolStatusBitIndex, get_status_by_bit}
use raydium_cp_swap.Token.{transfer_from_user_to_pool_vault, token_mint_to}
use raydium_cp_swap.Token.Interface.{Spl}
use raydium_cp_swap.Token.Transfers.{IsTokenProgram, user_to_vault-debit, user_to_vault-others}
use raydium_cp_swap.Instructions.Context.{Chain}
use raydium_cp_swap.Instructions.Liquidity.{LiquidityAccounts, LiquidityOutcome, LpChangeEvent}
use raydium_cp_swap.Instructions.Liquidity.Shares.{IsApart}
use raydium_cp_swap.Instructions.Deposit.{
  check_accounts, deposit_amounts, with_transfer_fee, deposit_0, deposit_1, lp_request,
  finish_deposit, deposit,
}

module _ (spl : Spl) (chain : Chain) (laws : IsTokenProgram spl chain.epoch) where
  open spl use {MintData, Bank, balance}

  finish_deposit_user :
      (a : LiquidityAccounts MintData) (lp transfer_0 transfer_1 : ℕ) (event : LpChangeEvent)
      (bank : Bank) {o : LiquidityOutcome Bank}
      → finish_deposit spl chain a lp transfer_0 transfer_1 event bank ≡ ok o
      → IsApart spl a
      → (balance o.bank a.token_0_account.key + transfer_0 ≡ balance bank a.token_0_account.key)
        × (balance o.bank a.token_1_account.key + transfer_1 ≡ balance bank a.token_1_account.key)
  unfolding finish_deposit token_mint_to
  finish_deposit_user a lp transfer_0 transfer_1 event bank h apart =
      take_apart
        (transfer_from_user_to_pool_vault spl chain.epoch (deposit_0 spl a transfer_0) bank) h
        λ paid_0 e1 h1.
          take_apart
            (transfer_from_user_to_pool_vault spl chain.epoch (deposit_1 spl a transfer_1) paid_0)
            h1
            λ paid_1 e2 h2.
              take_apart (unwrap (checked_add u64_max a.pool_state.lp_supply lp)) h2 λ total e3 h3.
                take_apart (spl.mint_to (lp_request spl a lp) paid_1) h3 λ minted e4 h4.
                  let user_0 = a.token_0_account.key in
                  let user_1 = a.token_1_account.key in
                  let debit_0 =
                    user_to_vault-debit spl chain.epoch laws (deposit_0 spl a transfer_0) bank
                      paid_0 e1 apart.account_0.0 in
                  let debit_1 =
                    user_to_vault-debit spl chain.epoch laws (deposit_1 spl a transfer_1) paid_0
                      paid_1 e2 apart.account_1.1 in
                  let kept_1 =
                    user_to_vault-others spl chain.epoch laws (deposit_0 spl a transfer_0) bank
                      paid_0 user_1 e1 (λ q. apart.two (sym q)) apart.account_1.0 in
                  let kept_0 =
                    user_to_vault-others spl chain.epoch laws (deposit_1 spl a transfer_1) paid_0
                      paid_1 user_0 e2 apart.two apart.account_0.1 in
                  let last_0 =
                    laws.mint_others (lp_request spl a lp) paid_1 minted user_0 e4 apart.lp.0 in
                  let last_1 =
                    laws.mint_others (lp_request spl a lp) paid_1 minted user_1 e4 apart.lp.1 in
                  simp (sym (ok_injective h4)) (omega arith, omega arith)

  -- A deposit that succeeds, for three accounts of the user of which the token accounts are no
  -- vaults, runs on a pool whose deposits are enabled, and takes from each token account at most the
  -- maximum given, transfer fees included.
  pub deposit_limits :
      (a : LiquidityAccounts MintData) (lp maximum_0 maximum_1 : ℕ) (bank : Bank)
      {o : LiquidityOutcome Bank}
      → deposit spl chain a lp maximum_0 maximum_1 bank ≡ ok o
      → IsApart spl a
      → (get_status_by_bit a.pool_state PoolStatusBitIndex.deposit ≡ true)
        × (balance bank a.token_0_account.key ≤ balance o.bank a.token_0_account.key + maximum_0)
        × (balance bank a.token_1_account.key ≤ balance o.bank a.token_1_account.key + maximum_1)
  unfolding deposit
  deposit_limits a lp maximum_0 maximum_1 bank {o} h apart =
      take_apart (check_accounts chain a) h λ _ e1 h1.
        take_apart (require (ltb 0 lp) _) h1 λ _ e2 h2.
          take_apart (require (get_status_by_bit a.pool_state PoolStatusBitIndex.deposit) _) h2
            λ _ e3 h3.
              take_apart
                (deposit_amounts a.pool_state a.token_0_vault.amount a.token_1_vault.amount lp) h3
                λ m e4 h4.
                  take_apart
                    (with_transfer_fee spl chain.epoch a.vault_0_mint m.results.token_0_amount) h4
                    λ t e5 h5.
                      take_apart
                        (with_transfer_fee spl chain.epoch a.vault_1_mint m.results.token_1_amount)
                        h5
                        λ s e6 h6.
                          take_apart (require (not (ltb maximum_0 t.1 || ltb maximum_1 s.1)) _) h6
                            λ _ e7 h7.
                              let within =
                                require-ok (not (ltb maximum_0 t.1 || ltb maximum_1 s.1)) _ e7 in
                              let (most_0, most_1) : (t.1 ≤ maximum_0) × (s.1 ≤ maximum_1) =
                                ground arith in
                              let (paid_0, paid_1) =
                                finish_deposit_user a lp t.1 s.1 _ bank h7 apart in
                              (require-ok _ _ e3, omega arith, omega arith)
