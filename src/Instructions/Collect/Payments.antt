-- ===== src/Instructions/Collect/Payments.antt =====
-- The two transfers that pay for a collection of fees, and the constraints that the three collect
-- handlers share.
use raydium_cp_swap.Base.{
  ℕ, ◌+◌, ◌≡◌, ◌≢◌, sym, ◌∙◌, ok, take_apart, require, require-ok, arith, ◌==◌,
}
use raydium_cp_swap.States.Pool.{PoolState}
use raydium_cp_swap.States.Pool.Fees.{fees_0, fees_1, KeepsPool}
use raydium_cp_swap.Token.{transfer_from_pool_vault_to_user}
use raydium_cp_swap.Token.Interface.{Spl}
use raydium_cp_swap.Token.Transfers.{IsTokenProgram, vault_to_user-ok, vault_to_user-supply}
use raydium_cp_swap.Instructions.Context.{Chain}
use raydium_cp_swap.Instructions.Collect.{CollectAccounts, check_common, pay_0, pay_1, pay_both}

module _ (spl : Spl) (chain : Chain) (laws : IsTokenProgram spl chain.epoch) where
  open spl use {MintData, Bank, balance, supply}

  -- The vaults are two accounts, and neither is paid.
  pub record IsApart (a : CollectAccounts MintData) : Type 0 where
    pub two_vaults : a.pool_state.token_0_vault ≢ a.pool_state.token_1_vault
    pub recipient_0 :
        (a.pool_state.token_0_vault ≢ a.recipient_token_0_account)
        × (a.pool_state.token_1_vault ≢ a.recipient_token_0_account)
    pub recipient_1 :
        (a.pool_state.token_0_vault ≢ a.recipient_token_1_account)
        × (a.pool_state.token_1_vault ≢ a.recipient_token_1_account)

  -- Each vault of `p` loses the amount paid of its token, and so do the fees owed of it.
  pub record IsPaid (p : PoolState) (paid_0 paid_1 : ℕ) (bank : Bank) (q : PoolState) (bank' : Bank)
      : Type 0 where
    pub vault_0 : balance bank' p.token_0_vault + paid_0 ≡ balance bank p.token_0_vault
    pub vault_1 : balance bank' p.token_1_vault + paid_1 ≡ balance bank p.token_1_vault
    pub owed_0 : fees_0 q + paid_0 ≡ fees_0 p
    pub owed_1 : fees_1 q + paid_1 ≡ fees_1 p
    pub same_supplies : (m : ℕ) → supply bank' m ≡ supply bank m
    pub kept : KeepsPool p q

  pub check_common-ok :
      (a : CollectAccounts MintData) {u : Unit {0}}
      → check_common chain a ≡ ok u
      → (a.token_0_vault.key ≡ a.pool_state.token_0_vault)
        × (a.token_1_vault.key ≡ a.pool_state.token_1_vault)
  unfolding check_common
  check_common-ok a h = take_apart (require (a.authority == chain.authority) _) h λ _ e1 h1.
      take_apart (require (a.amm_config_key == a.pool_state.amm_config) _) h1 λ _ e2 h2.
        take_apart (require (a.token_0_vault.key == a.pool_state.token_0_vault) _) h2 λ _ e3 h3.
          take_apart (require (a.token_1_vault.key == a.pool_state.token_1_vault) _) h3 λ _ e4 h4.
            let same_0 = require-ok (a.token_0_vault.key == a.pool_state.token_0_vault) _ e3 in
            let same_1 = require-ok (a.token_1_vault.key == a.pool_state.token_1_vault) _ e4 in
            (ground arith, ground arith)

  pub pay_both-ok :
      (a : CollectAccounts MintData) (program_0 program_1 bump amount_0 amount_1 : ℕ)
      (bank bank' : Bank)
      → pay_both spl chain a program_0 program_1 bump amount_0 amount_1 bank ≡ ok bank'
      → (a.token_0_vault.key ≡ a.pool_state.token_0_vault)
        × (a.token_1_vault.key ≡ a.pool_state.token_1_vault)
      → IsApart a
      → (balance bank' a.pool_state.token_0_vault + amount_0
          ≡ balance bank a.pool_state.token_0_vault)
        × (balance bank' a.pool_state.token_1_vault + amount_1
            ≡ balance bank a.pool_state.token_1_vault)
        × ((m : ℕ) → supply bank' m ≡ supply bank m)
  unfolding pay_both
  pay_both-ok a program_0 program_1 bump amount_0 amount_1 bank bank' h (key_0, key_1) apart =
      take_apart
        (transfer_from_pool_vault_to_user spl chain.epoch (pay_0 spl a program_0 bump amount_0)
          bank)
        h
        λ paid e1 h1.
          let (debit_0, others_0) =
            vault_to_user-ok spl chain.epoch laws (pay_0 spl a program_0 bump amount_0) bank paid
              a.pool_state.token_1_vault e1 (rw key_0 apart.recipient_0.0) in
          let (debit_1, others_1) =
            vault_to_user-ok spl chain.epoch laws (pay_1 spl a program_1 bump amount_1) paid bank'
              a.pool_state.token_0_vault h1 (rw key_1 apart.recipient_1.1) in
          let kept_1 = others_0 (λ q. apart.two_vaults (sym (q ∙ key_0))) apart.recipient_0.1 in
          let kept_0 = others_1 (λ q. apart.two_vaults (q ∙ key_1)) apart.recipient_1.0 in
          let at_0 = rw key_0 at debit_0 in
          let at_1 = rw key_1 at debit_1 in
          (
            rw kept_0 at_0,
            rw (← kept_1) at_1,
            λ m.
                vault_to_user-supply spl chain.epoch laws (pay_1 spl a program_1 bump amount_1) paid
                  bank' m h1
                ∙ vault_to_user-supply spl chain.epoch laws (pay_0 spl a program_0 bump amount_0)
                    bank paid m e1,
          )
