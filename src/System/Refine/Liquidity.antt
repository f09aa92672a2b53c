-- ===== src/System/Refine/Liquidity.antt =====
-- A deposit and a withdrawal change the number of shares of the abstract pool.
use raydium_cp_swap.Base.{ℕ, ◌≡◌, ap, sym, ok, take_apart, arith}
use raydium_cp_swap.Token.Interface.{Spl}
use raydium_cp_swap.Token.Transfers.{IsTokenProgram}
use raydium_cp_swap.Instructions.Context.{Chain}
use raydium_cp_swap.Instructions.Liquidity.{LiquidityAccounts, LiquidityOutcome}
use raydium_cp_swap.Instructions.Liquidity.Shares.{IsLoaded, KeepsShares}
use raydium_cp_swap.Instructions.Deposit
use raydium_cp_swap.Instructions.Deposit.{deposit}
use raydium_cp_swap.Instructions.Deposit.Shares
use raydium_cp_swap.Instructions.Deposit.Shares.{deposit-KeepsShares}
use raydium_cp_swap.Instructions.Withdraw
use raydium_cp_swap.Instructions.Withdraw.{withdraw}
use raydium_cp_swap.Instructions.Withdraw.Shares as WithdrawShares
use raydium_cp_swap.Instructions.Withdraw.Shares.{withdraw-KeepsShares}
use raydium_cp_swap.System.{World, load_liquidity, after_liquidity}
use raydium_cp_swap.System.Amm.{Move}
use raydium_cp_swap.System.Sound.{IsSound, IsOutside}
use raydium_cp_swap.System.Refine.{Refines, refines}

module _ (spl : Spl) (chain : Chain) (laws : IsTokenProgram spl chain.epoch) where
  open spl use {MintData, Bank, balance}

  liquidity-IsLoaded :
      (w : World Bank) (a : LiquidityAccounts MintData)
      → IsSound spl w
      → IsOutside spl w a.token_0_account.key
        × IsOutside spl w a.token_1_account.key
        × IsOutside spl w a.owner_lp_token.key
      → (a.token_0_vault.key ≡ w.pool.token_0_vault) × (a.token_1_vault.key ≡ w.pool.token_1_vault)
      → IsLoaded spl (load_liquidity spl w a) w.bank
  liquidity-IsLoaded w a s (user_0, user_1, user_lp) (key_0, key_1) = record {
    amount_0 = ap (balance w.bank) (sym key_0);
    amount_1 = ap (balance w.bank) (sym key_1);
    two_vaults = s.two_vaults;
    user_0 = user_0;
    user_1 = user_1;
    user_lp = user_lp;
  }

  kept :
      (w : World Bank) (o : LiquidityOutcome Bank)
      → IsSound spl w
      → KeepsShares spl w.pool w.bank o.pool_state o.bank
      → Refines spl w (after_liquidity spl w o)
  kept w o s k =
      let counted = k.counted in
      refines spl w (after_liquidity spl w o) s k.same_keys k.solvent (omega (arith, s.counted))
        s.rates s.ring (Move.resize k.share_0 k.share_1)

  deposit_keys :
      (a : LiquidityAccounts MintData) (lp maximum_0 maximum_1 : ℕ) (bank : Bank)
      {o : LiquidityOutcome Bank}
      → deposit spl chain a lp maximum_0 maximum_1 bank ≡ ok o
      → (a.token_0_vault.key ≡ a.pool_state.token_0_vault)
        × (a.token_1_vault.key ≡ a.pool_state.token_1_vault)
  unfolding deposit
  deposit_keys a lp maximum_0 maximum_1 bank h =
      take_apart (Deposit.check_accounts chain a) h
        λ _ e1 h1. let keys = Shares.check_accounts-ok spl chain laws a e1 in (keys.0, keys.1)

  withdraw_keys :
      (a : LiquidityAccounts MintData) (lp minimum_0 minimum_1 : ℕ) (bank : Bank)
      {o : LiquidityOutcome Bank}
      → withdraw spl chain a lp minimum_0 minimum_1 bank ≡ ok o
      → (a.token_0_vault.key ≡ a.pool_state.token_0_vault)
        × (a.token_1_vault.key ≡ a.pool_state.token_1_vault)
  unfolding withdraw
  withdraw_keys a lp minimum_0 minimum_1 bank h =
      take_apart (Withdraw.check_accounts chain a) h λ _ e1 h1.
        let keys = WithdrawShares.check_accounts-ok spl chain laws a e1 in (keys.0, keys.1)

  pub deposit-Refines :
      (w : World Bank) (a : LiquidityAccounts MintData) (lp maximum_0 maximum_1 : ℕ)
      {o : LiquidityOutcome Bank}
      → IsSound spl w
      → IsOutside spl w a.token_0_account.key
        × IsOutside spl w a.token_1_account.key
        × IsOutside spl w a.owner_lp_token.key
      → deposit spl chain (load_liquidity spl w a) lp maximum_0 maximum_1 w.bank ≡ ok o
      → Refines spl w (after_liquidity spl w o)
  deposit-Refines w a lp maximum_0 maximum_1 {o} s apart h =
      let b = load_liquidity spl w a in
      let loaded =
        liquidity-IsLoaded w a s apart (deposit_keys b lp maximum_0 maximum_1 w.bank h) in
      kept w o s (deposit-KeepsShares spl chain laws b lp maximum_0 maximum_1 w.bank h loaded).0

  pub withdraw-Refines :
      (w : World Bank) (a : LiquidityAccounts MintData) (lp minimum_0 minimum_1 : ℕ)
      {o : LiquidityOutcome Bank}
      → IsSound spl w
      → IsOutside spl w a.token_0_account.key
        × IsOutside spl w a.token_1_account.key
        × IsOutside spl w a.owner_lp_token.key
      → withdraw spl chain (load_liquidity spl w a) lp minimum_0 minimum_1 w.bank ≡ ok o
      → Refines spl w (after_liquidity spl w o)
  withdraw-Refines w a lp minimum_0 minimum_1 {o} s apart h =
      let b = load_liquidity spl w a in
      let loaded =
        liquidity-IsLoaded w a s apart (withdraw_keys b lp minimum_0 minimum_1 w.bank h) in
      kept w o s (withdraw-KeepsShares spl chain laws b lp minimum_0 minimum_1 w.bank h loaded).0
