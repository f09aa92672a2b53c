-- ===== src/Instructions/Withdraw/Limits.antt =====
-- What withdraw.rs pays to the user's two accounts, against the limits that the user gave.
use raydium_cp_swap.Base.{
  ℕ, ◌+◌, ◌-◌, ◌≤◌, ◌≡◌, ◌≢◌, true, min, ok, take_apart, require, require-ok, unwrap, unwrap-ok,
  arith, not, ◌||◌, ◌==◌, ltb, leb, ok_injective, sym, Bool-cases, inl, inr,
}
use raydium_cp_swap.Base.Words.{checked_sub, checked_sub-ok, narrow}
use raydium_cp_swap.States.Pool.{PoolStatusBitIndex, get_status_by_bit}
use raydium_cp_swap.Token.{transfer_from_pool_vault_to_user, token_burn, get_transfer_fee}
use raydium_cp_swap.Token.Interface.{Spl, Mint, Transfer}
use raydium_cp_swap.Token.Transfers.{IsTokenProgram, vault_to_user-ok}
use raydium_cp_swap.Instructions.Context.{Chain}
use raydium_cp_swap.Instructions.Liquidity.{LiquidityAccounts, LiquidityOutcome, LpChangeEvent}
use raydium_cp_swap.Instructions.Liquidity.Shares.{IsApart}
use raydium_cp_swap.Instructions.Withdraw.{
  check_accounts, withdraw_amounts, less_transfer_fee, withdraw_0, withdraw_1, lp_burn,
  finish_withdraw, withdraw,
}

module _ (spl : Spl) (chain : Chain) (laws : IsTokenProgram spl chain.epoch) where
  open spl use {MintData, Bank, balance}

  -- What the user receives, of a transfer of nothing too.
  received :
      (tr : Transfer MintData) (b b' : Bank) (fee : ℕ)
      → transfer_from_pool_vault_to_user spl chain.epoch tr b ≡ ok b'
      → tr.from ≢ tr.to
      → get_transfer_fee spl chain.epoch tr.mint tr.amount ≡ ok fee
      → fee ≤ tr.amount
      → balance b' tr.to ≡ balance b tr.to + (tr.amount - fee)
  unfolding transfer_from_pool_vault_to_user
  received tr b b' fee h ne e le = elim (Bool-cases (tr.amount == 0)) [
    | inl z ↦ let h' = rw z at h in ground arith
    | inr z ↦ let h' = rw z at h in omega (arith, laws.credit tr b b' fee h' ne e)
  ]

  less_transfer_fee_parts :
      (mint : Mint MintData) (total result : ℕ) {t : ℕ × ℕ × ℕ}
      → less_transfer_fee spl chain.epoch mint total result ≡ ok t
      → (get_transfer_fee spl chain.epoch mint t.0 ≡ ok t.2) × (t.2 ≤ t.0) × (t.1 ≡ t.0 - t.2)
  unfolding less_transfer_fee
  less_transfer_fee_parts mint total result {t} h = take_apart (narrow result) h λ amount e1 h1.
      take_apart (get_transfer_fee spl chain.epoch mint (min total amount)) h1 λ fee e2 h2.
        take_apart (unwrap (checked_sub (min total amount) fee)) h2 λ rest e3 h3.
          let (less, covered) = checked_sub-ok (min total amount) fee (unwrap-ok _ e3) in
          simp (sym (ok_injective h3)) (e2, covered, less)

  finish_withdraw_user :
      (a : LiquidityAccounts MintData) (lp amount_0 amount_1 fee_0 fee_1 : ℕ)
      (event : LpChangeEvent) (bank : Bank) {o : LiquidityOutcome Bank}
      → finish_withdraw spl chain a lp amount_0 amount_1 event bank ≡ ok o
      → IsApart spl a
      → (get_transfer_fee spl chain.epoch a.vault_0_mint amount_0 ≡ ok fee_0) × (fee_0 ≤ amount_0)
      → (get_transfer_fee spl chain.epoch a.vault_1_mint amount_1 ≡ ok fee_1) × (fee_1 ≤ amount_1)
      → (balance o.bank a.token_0_account.key
          ≡ balance bank a.token_0_account.key + (amount_0 - fee_0))
        × (balance o.bank a.token_1_account.key
            ≡ balance bank a.token_1_account.key + (amount_1 - fee_1))
  unfolding finish_withdraw token_burn
  finish_withdraw_user a lp amount_0 amount_1 fee_0 fee_1 event bank h apart (taken_0, le_0)
        (taken_1, le_1) =
      take_apart (unwrap (checked_sub a.pool_state.lp_supply lp)) h λ rest e1 h1.
        take_apart (spl.burn (lp_burn spl a lp) bank) h1 λ burned e2 h2.
          take_apart
            (transfer_from_pool_vault_to_user spl chain.epoch (withdraw_0 spl a amount_0) burned) h2
            λ paid_0 e3 h3.
              take_apart
                (transfer_from_pool_vault_to_user spl chain.epoch (withdraw_1 spl a amount_1)
                  paid_0)
                h3
                λ paid_1 e4 h4.
                  let user_0 = a.token_0_account.key in
                  let user_1 = a.token_1_account.key in
                  let first_0 =
                    laws.burn_others (lp_burn spl a lp) bank burned user_0 e2 apart.lp.0 in
                  let first_1 =
                    laws.burn_others (lp_burn spl a lp) bank burned user_1 e2 apart.lp.1 in
                  let gain_0 =
                    received (withdraw_0 spl a amount_0) burned paid_0 fee_0 e3
                      (λ q. apart.account_0.0 (sym q)) taken_0 le_0 in
                  let gain_1 =
                    received (withdraw_1 spl a amount_1) paid_0 paid_1 fee_1 e4
                      (λ q. apart.account_1.1 (sym q)) taken_1 le_1 in
                  let (_, others_0) =
                    vault_to_user-ok spl chain.epoch laws (withdraw_0 spl a amount_0) burned paid_0
                      user_1 e3 (λ q. apart.account_0.0 (sym q)) in
                  let (_, others_1) =
                    vault_to_user-ok spl chain.epoch laws (withdraw_1 spl a amount_1) paid_0 paid_1
                      user_0 e4 (λ q. apart.account_1.1 (sym q)) in
                  let kept_1 = others_0 apart.account_1.0 (λ q. apart.two (sym q)) in
                  let kept_0 = others_1 apart.account_0.1 apart.two in
                  simp (sym (ok_injective h4)) (omega arith, omega arith)

  -- A withdrawal that succeeds, for three accounts of the user of which the token accounts are no
  -- vaults, runs on a pool whose withdrawals are enabled, and adds to each token account at least the
  -- minimum given, transfer fees taken off.
  pub withdraw_limits :
      (a : LiquidityAccounts MintData) (lp minimum_0 minimum_1 : ℕ) (bank : Bank)
      {o : LiquidityOutcome Bank}
      → withdraw spl chain a lp minimum_0 minimum_1 bank ≡ ok o
      → IsApart spl a
      → (get_status_by_bit a.pool_state PoolStatusBitIndex.withdraw ≡ true)
        × (balance bank a.token_0_account.key + minimum_0 ≤ balance o.bank a.token_0_account.key)
        × (balance bank a.token_1_account.key + minimum_1 ≤ balance o.bank a.token_1_account.key)
  unfolding withdraw
  withdraw_limits a lp minimum_0 minimum_1 bank {o} h apart =
      take_apart (check_accounts chain a) h λ _ e1 h1.
        take_apart (require (ltb 0 lp) _) h1 λ _ e2 h2.
          take_apart (require (leb lp a.owner_lp_token.amount) _) h2 λ _ e3 h3.
            take_apart (require (get_status_by_bit a.pool_state PoolStatusBitIndex.withdraw) _) h3
              λ _ e4 h4.
                take_apart
                  (withdraw_amounts a.pool_state a.token_0_vault.amount a.token_1_vault.amount lp)
                  h4
                  λ m e5 h5.
                    take_apart
                      (less_transfer_fee spl chain.epoch a.vault_0_mint m.total_token_0_amount
                        m.results.token_0_amount)
                      h5
                      λ t e6 h6.
                        take_apart
                          (less_transfer_fee spl chain.epoch a.vault_1_mint m.total_token_1_amount
                            m.results.token_1_amount)
                          h6
                          λ s e7 h7.
                            take_apart (require (not (ltb t.1 minimum_0 || ltb s.1 minimum_1)) _) h7
                              λ _ e8 h8.
                                let within =
                                  require-ok (not (ltb t.1 minimum_0 || ltb s.1 minimum_1)) _ e8 in
                                let (least_0, least_1) : (minimum_0 ≤ t.1) × (minimum_1 ≤ s.1) =
                                  ground arith in
                                let (taken_0, le_0, net_0) =
                                  less_transfer_fee_parts a.vault_0_mint m.total_token_0_amount
                                    m.results.token_0_amount e6 in
                                let (taken_1, le_1, net_1) =
                                  less_transfer_fee_parts a.vault_1_mint m.total_token_1_amount
                                    m.results.token_1_amount e7 in
                                let (gain_0, gain_1) =
                                  finish_withdraw_user a lp t.0 s.0 t.2 s.2 _ bank h8 apart
                                    (taken_0, le_0) (taken_1, le_1) in
                                (require-ok _ _ e4, omega arith, omega arith)
