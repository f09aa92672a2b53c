-- ===== src/Instructions/Liquidity/Shares.antt =====
-- What a pool token is worth before and after deposit.rs or withdraw.rs has run.
use raydium_cp_swap.Base.{
  ℕ, ◌+◌, ◌-◌, ◌*◌, ◌≤◌, ◌≡◌, ◌≢◌, arith, ok, take_apart, require, require-ok, ◌==◌,
}
use raydium_cp_swap.States.Pool.{PoolState}
use raydium_cp_swap.States.Pool.Fees.{fees_0, fees_1, IsSolvent}
use raydium_cp_swap.Token.Interface.{Spl}
use raydium_cp_swap.Instructions.Liquidity.{LiquidityAccounts, check_vaults}

module _ (spl : Spl) where
  open spl use {MintData, Bank, balance, supply}

  -- The accounts were loaded from this bank, the vaults are two accounts, and the user's accounts are
  -- not vaults.
  pub record IsLoaded (a : LiquidityAccounts MintData) (bank : Bank) : Type 0 where
    pub amount_0 : balance bank a.pool_state.token_0_vault ≡ a.token_0_vault.amount
    pub amount_1 : balance bank a.pool_state.token_1_vault ≡ a.token_1_vault.amount
    pub two_vaults : a.pool_state.token_0_vault ≢ a.pool_state.token_1_vault
    pub user_0 :
        (a.pool_state.token_0_vault ≢ a.token_0_account.key)
        × (a.pool_state.token_1_vault ≢ a.token_0_account.key)
    pub user_1 :
        (a.pool_state.token_0_vault ≢ a.token_1_account.key)
        × (a.pool_state.token_1_vault ≢ a.token_1_account.key)
    pub user_lp :
        (a.pool_state.token_0_vault ≢ a.owner_lp_token.key)
        × (a.pool_state.token_1_vault ≢ a.owner_lp_token.key)

  -- The user's three accounts are three, and neither token account is a vault.
  pub record IsApart (a : LiquidityAccounts MintData) : Type 0 where
    pub two : a.token_0_account.key ≢ a.token_1_account.key
    pub account_0 :
        (a.token_0_account.key ≢ a.token_0_vault.key)
        × (a.token_0_account.key ≢ a.token_1_vault.key)
    pub account_1 :
        (a.token_1_account.key ≢ a.token_0_vault.key)
        × (a.token_1_account.key ≢ a.token_1_vault.key)
    pub lp :
        (a.token_0_account.key ≢ a.owner_lp_token.key)
        × (a.token_1_account.key ≢ a.owner_lp_token.key)

  -- What is left in the vaults of `p` when the fees owed by `q` are taken out.
  abbrev pub reserve_0 : PoolState → PoolState → Bank → ℕ
  reserve_0 p q bank = balance bank p.token_0_vault - fees_0 q

  abbrev pub reserve_1 : PoolState → PoolState → Bank → ℕ
  reserve_1 p q bank = balance bank p.token_1_vault - fees_1 q

  -- The vaults still cover the fees; no pool token has lost worth in either reserve (multiplied out);
  -- the supply that the pool counts moves with that of its mint; the fees owed, the vaults' addresses
  -- and the mint have not changed.
  pub record KeepsShares (p : PoolState) (bank : Bank) (q : PoolState) (bank' : Bank) : Type 0 where
    pub solvent : IsSolvent q (balance bank' p.token_0_vault) (balance bank' p.token_1_vault)
    pub share_0 : reserve_0 p p bank * q.lp_supply ≤ reserve_0 p q bank' * p.lp_supply
    pub share_1 : reserve_1 p p bank * q.lp_supply ≤ reserve_1 p q bank' * p.lp_supply
    pub counted : supply bank' p.lp_mint + p.lp_supply ≡ supply bank p.lp_mint + q.lp_supply
    pub same_keys :
        (q.token_0_vault ≡ p.token_0_vault)
        × (q.token_1_vault ≡ p.token_1_vault)
        × (q.lp_mint ≡ p.lp_mint)
    pub same_fees : (fees_0 q ≡ fees_0 p) × (fees_1 q ≡ fees_1 p)

  pub check_vaults-ok :
      (a : LiquidityAccounts MintData) {u : Unit {0}}
      → check_vaults a ≡ ok u
      → (a.token_0_vault.key ≡ a.pool_state.token_0_vault)
        × (a.token_1_vault.key ≡ a.pool_state.token_1_vault)
        × (a.lp_mint.key ≡ a.pool_state.lp_mint)
  unfolding check_vaults
  check_vaults-ok a h =
      take_apart (require (a.token_0_vault.key == a.pool_state.token_0_vault) _) h λ _ e1 h1.
        take_apart (require (a.token_1_vault.key == a.pool_state.token_1_vault) _) h1 λ _ e2 h2.
          take_apart (require (a.vault_0_mint.key == a.token_0_vault.mint) _) h2 λ _ e3 h3.
            take_apart (require (a.vault_1_mint.key == a.token_1_vault.mint) _) h3 λ _ e4 h4.
              let same_0 = require-ok (a.token_0_vault.key == a.pool_state.token_0_vault) _ e1 in
              let same_1 = require-ok (a.token_1_vault.key == a.pool_state.token_1_vault) _ e2 in
              let same_lp = require-ok (a.lp_mint.key == a.pool_state.lp_mint) _ h4 in
              (ground arith, ground arith, ground arith)
