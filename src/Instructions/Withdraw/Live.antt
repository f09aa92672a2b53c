-- ===== src/Instructions/Withdraw/Live.antt =====
-- When a withdrawal goes through: withdraw.rs has no way to keep back what a pool token is worth but
-- the status bit.
use raydium_cp_swap.Base.{
  ℕ, true, not, ◌||◌, min, ◌-◌, ◌*◌, ◌≤◌, ◌<◌, ◌≡◌, ◌≢◌, ◌+◌, refl, sym, ok, unwrap, require, leb,
  ltb, leb-true, ltb-true, ltb-false, bind-total, ==_false, arith,
}
use raydium_cp_swap.Base.Words.{u64_max, checked_sub, checked_sub-eq, narrow}
use raydium_cp_swap.States.Pool.{PoolStatusBitIndex, get_status_by_bit}
use raydium_cp_swap.States.Pool.Fees.{fees_0, fees_1, IsSolvent}
use raydium_cp_swap.Token.{transfer_from_pool_vault_to_user, token_burn, get_transfer_fee}
use raydium_cp_swap.Token.Interface.{Spl, Mint, Transfer, Burn}
use raydium_cp_swap.Token.Live.{IsLive}
use raydium_cp_swap.Token.Transfers.{IsTokenProgram}
use raydium_cp_swap.Instructions.Context.{Chain}
use raydium_cp_swap.Instructions.Liquidity.{LpChangeEvent, LiquidityAccounts, LiquidityOutcome}
use raydium_cp_swap.Instructions.Liquidity.Shares.{IsLoaded, IsApart}
use raydium_cp_swap.Instructions.Withdraw.{
  check_accounts, withdraw_amounts, less_transfer_fee, withdraw_0, withdraw_1, lp_burn,
  finish_withdraw, withdraw,
}
use raydium_cp_swap.Instructions.Withdraw.Shares.{check_accounts-ok}
use raydium_cp_swap.Instructions.Withdraw.Parts.{part, part-fits, withdraw_amounts-eq}

module _ (spl : Spl) (chain : Chain) where
  open spl use {MintData, Bank, balance, supply}

  -- What a withdrawal of `n_0` and `n_1` for `lp` pool tokens asks of the accounts when it begins: the
  -- two transfers and the burning are in order, the recipients have room, the fee on either amount is
  -- computed and is within it, the pool tokens are in the account that was loaded, and they are no more
  -- than their mint has issued.
  pub record IsPayable (Usable : Transfer MintData → Bank → Type 0)
      (Burnable : Burn → Bank → Type 0) (a : LiquidityAccounts MintData) (lp n_0 n_1 : ℕ)
      (bank : Bank) : Type 0 where
    pub usable_0 : Usable (withdraw_0 spl a n_0) bank
    pub usable_1 : Usable (withdraw_1 spl a n_1) bank
    pub burnable : Burnable (lp_burn spl a lp) bank
    pub room_0 : balance bank a.token_0_account.key + n_0 ≤ u64_max
    pub room_1 : balance bank a.token_1_account.key + n_1 ≤ u64_max
    pub fee_0 :
        (fee : ℕ) × (get_transfer_fee spl chain.epoch a.vault_0_mint n_0 ≡ ok fee) × (fee ≤ n_0)
    pub fee_1 :
        (fee : ℕ) × (get_transfer_fee spl chain.epoch a.vault_1_mint n_1 ≡ ok fee) × (fee ≤ n_1)
    pub held : balance bank a.owner_lp_token.key ≡ a.owner_lp_token.amount
    pub issued : lp ≤ supply bank a.lp_mint.key

  less_transfer_fee-eq :
      (mint : Mint MintData) (total n fee : ℕ)
      → total ≤ u64_max
      → n ≤ total
      → get_transfer_fee spl chain.epoch mint n ≡ ok fee
      → fee ≤ n
      → less_transfer_fee spl chain.epoch mint total n ≡ ok (n, n - fee, fee)
  unfolding less_transfer_fee narrow
  less_transfer_fee-eq mint total n fee fits h e k =
      let least : min total n ≡ n = omega arith in
      rw (leb-true n u64_max (omega arith), least, e, checked_sub-eq n fee k) refl

-- What a withdrawal of `lp` pool tokens takes out of each vault.
abbrev pub share_0 : {MintData : Type 0} → LiquidityAccounts MintData → ℕ → ℕ
share_0 a lp = part lp a.pool_state.lp_supply (a.token_0_vault.amount - fees_0 a.pool_state)

abbrev pub share_1 : {MintData : Type 0} → LiquidityAccounts MintData → ℕ → ℕ
share_1 a lp = part lp a.pool_state.lp_supply (a.token_1_vault.amount - fees_1 a.pool_state)

module _ (spl : Spl) (chain : Chain) (laws : IsTokenProgram spl chain.epoch)
    (Usable : Transfer (Spl.MintData spl) → Spl.Bank spl → Type 0)
    (Burnable : Burn → Spl.Bank spl → Type 0) (live : IsLive spl chain.epoch Usable Burnable) where
  open spl use {MintData, Bank, balance}

  finish_withdraw-total :
      (a : LiquidityAccounts MintData) (lp n_0 n_1 : ℕ) (event : LpChangeEvent) (bank : Bank)
      → check_accounts chain a ≡ ok tt
      → IsLoaded spl a bank
      → IsApart spl a
      → IsPayable spl chain Usable Burnable a lp n_0 n_1 bank
      → (lp ≤ a.pool_state.lp_supply) × (lp ≤ a.owner_lp_token.amount)
      → (0 < n_0) × (n_0 ≤ a.token_0_vault.amount)
      → (0 < n_1) × (n_1 ≤ a.token_1_vault.amount)
      → (o : LiquidityOutcome Bank) × (finish_withdraw spl chain a lp n_0 n_1 event bank ≡ ok o)
  unfolding finish_withdraw token_burn transfer_from_pool_vault_to_user
  finish_withdraw-total a lp n_0 n_1 event bank checked loaded apart payable (counted, held)
        (some_0, fits_0) (some_1, fits_1) =
      let tr_0 = withdraw_0 spl a n_0 in
      let tr_1 = withdraw_1 spl a n_1 in
      let request = lp_burn spl a lp in
      let (key_0, key_1, _) = check_accounts-ok spl chain laws a checked in
      let amount_0 = loaded.amount_0 in
      let amount_1 = loaded.amount_1 in
      let in_account = payable.held in
      let (burned, e1) = live.burns request bank payable.burnable (omega arith) payable.issued in
      let vault_0_lp : a.token_0_vault.key ≢ a.owner_lp_token.key = rw key_0 loaded.user_lp.0 in
      let vault_1_lp : a.token_1_vault.key ≢ a.owner_lp_token.key = rw key_1 loaded.user_lp.1 in
      let vaults : a.token_1_vault.key ≢ a.token_0_vault.key =
        rw (key_0, key_1) (λ q. loaded.two_vaults (sym q)) in
      let burn_0 = laws.burn_others request bank burned a.token_0_vault.key e1 vault_0_lp in
      let burn_1 = laws.burn_others request bank burned a.token_1_vault.key e1 vault_1_lp in
      let user_0 = laws.burn_others request bank burned a.token_0_account.key e1 apart.lp.0 in
      let user_1 = laws.burn_others request bank burned a.token_1_account.key e1 apart.lp.1 in
      let ready_0 =
        live.usable_after_burn tr_0 request bank burned e1 vault_0_lp apart.lp.0 payable.usable_0 in
      let ready_1 =
        live.usable_after_burn tr_1 request bank burned e1 vault_1_lp apart.lp.1 payable.usable_1 in
      let covers_0 : n_0 ≤ balance burned a.token_0_vault.key =
        rw (burn_0, key_0, amount_0) fits_0 in
      let (paid, e2) = live.transfers tr_0 burned ready_0 covers_0 (rw user_0 payable.room_0) in
      let vault_1_user : a.token_1_vault.key ≢ a.token_0_account.key =
        λ q. apart.account_0.1 (sym q) in
      let users : a.token_1_account.key ≢ a.token_0_account.key = λ q. apart.two (sym q) in
      let pay_1 = laws.others tr_0 burned paid a.token_1_vault.key e2 vaults vault_1_user in
      let pay_user =
        laws.others tr_0 burned paid a.token_1_account.key e2 apart.account_1.0 users in
      let still_1 =
        live.usable_after_transfer tr_1 tr_0 burned paid e2 (vaults, vault_1_user)
          (apart.account_1.0, users) ready_1 in
      let covers_1 : n_1 ≤ balance paid a.token_1_vault.key =
        rw (pay_1, burn_1, key_1, amount_1) fits_1 in
      let (last, e3) =
        live.transfers tr_1 paid still_1 covers_1 (rw (pay_user, user_1) payable.room_1) in
      bind-total (unwrap (checked_sub a.pool_state.lp_supply lp)) _ (a.pool_state.lp_supply - lp)
        (rw (checked_sub-eq a.pool_state.lp_supply lp counted) refl)
        (bind-total (spl.burn (lp_burn spl a lp) bank) _ burned e1 (
          bind-total
            (transfer_from_pool_vault_to_user spl chain.epoch (withdraw_0 spl a n_0) burned) _ paid
            (rw (==_false n_0 0 (λ q. omega arith)) e2)
            (bind-total
              (transfer_from_pool_vault_to_user spl chain.epoch (withdraw_1 spl a n_1) paid) _ last
              (rw (==_false n_1 0 (λ q. omega arith)) e3) (_, refl))))

  -- On a pool whose withdrawals are enabled and whose vaults cover the fees owed, a holder of pool
  -- tokens can always withdraw an amount that is worth one unit of each token or more, up to all
  -- they hold and no more than the pool counts: without a minimum the handler succeeds. Vaults and
  -- supply are 64-bit amounts; the accounts meet the constraints of the instruction and are as they
  -- were loaded; the user's three accounts are three and no vaults; and as the call begins, the
  -- accounts are in order for the token programs, the recipients have room, the pool tokens are issued
  -- and the transfer fees are within the amounts. The token programs are taken to serve accounts in
  -- order, and not to spoil a transfer between accounts that they do not touch.
  pub withdraw-total :
      (a : LiquidityAccounts MintData) (lp : ℕ) (bank : Bank)
      → check_accounts chain a ≡ ok tt
      → IsLoaded spl a bank
      → IsApart spl a
      → IsPayable spl chain Usable Burnable a lp (share_0 a lp) (share_1 a lp) bank
      → get_status_by_bit a.pool_state PoolStatusBitIndex.withdraw ≡ true
      → IsSolvent a.pool_state a.token_0_vault.amount a.token_1_vault.amount
      → (a.token_0_vault.amount ≤ u64_max)
        × (a.token_1_vault.amount ≤ u64_max)
        × (a.pool_state.lp_supply ≤ u64_max)
      → (0 < lp) × (lp ≤ a.owner_lp_token.amount) × (lp ≤ a.pool_state.lp_supply)
      → (a.pool_state.lp_supply ≤ lp * (a.token_0_vault.amount - fees_0 a.pool_state))
        × (a.pool_state.lp_supply ≤ lp * (a.token_1_vault.amount - fees_1 a.pool_state))
      → (o : LiquidityOutcome Bank) × (withdraw spl chain a lp 0 0 bank ≡ ok o)
  unfolding withdraw
  withdraw-total a lp bank checked loaded apart payable enabled solvent (u0, u1, us)
        (some_lp, held, counted) (unit_0, unit_1) =
      let p = a.pool_state in
      let n_0 = share_0 a lp in
      let n_1 = share_1 a lp in
      let r0 = a.token_0_vault.amount - fees_0 p in
      let r1 = a.token_1_vault.amount - fees_1 p in
      let (fits_0, some_0) = part-fits lp p.lp_supply r0 counted unit_0 (omega arith) in
      let (fits_1, some_1) = part-fits lp p.lp_supply r1 counted unit_1 (omega arith) in
      let (fee_0, e0, within_0) = payable.fee_0 in
      let (fee_1, e1, within_1) = payable.fee_1 in
      bind-total (check_accounts chain a) _ tt checked (
        bind-total (require (ltb 0 lp) _) _ tt (rw (ltb-true 0 lp some_lp) refl) (
          bind-total (require (leb lp a.owner_lp_token.amount) _) _ tt
            (rw (leb-true lp a.owner_lp_token.amount held) refl)
            (bind-total (require (get_status_by_bit p PoolStatusBitIndex.withdraw) _) _ tt
              (rw enabled refl)
              (bind-total (withdraw_amounts p a.token_0_vault.amount a.token_1_vault.amount lp) _ _
                (withdraw_amounts-eq p a.token_0_vault.amount a.token_1_vault.amount lp solvent
                  (u0, u1, us) (some_lp, counted) (unit_0, unit_1))
                (bind-total (less_transfer_fee spl chain.epoch a.vault_0_mint r0 (share_0 a lp)) _ _
                  (less_transfer_fee-eq spl chain a.vault_0_mint r0 (share_0 a lp) fee_0
                    (omega arith) fits_0 e0 within_0)
                  (bind-total (less_transfer_fee spl chain.epoch a.vault_1_mint r1 (share_1 a lp)) _
                    _
                    (less_transfer_fee-eq spl chain a.vault_1_mint r1 (share_1 a lp) fee_1
                      (omega arith) fits_1 e1 within_1)
                    (bind-total (require (not (ltb (n_0 - fee_0) 0 || ltb (n_1 - fee_1) 0)) _) _ tt
                      (rw
                        (
                          ltb-false (n_0 - fee_0) 0 (omega arith),
                          ltb-false (n_1 - fee_1) 0 (omega arith),
                        )
                        refl)
                      (finish_withdraw-total a lp n_0 n_1 _ bank checked loaded apart payable
                        (counted, held) (some_0, omega arith) (some_1, omega arith)))))))))
