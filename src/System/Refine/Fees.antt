-- ===== src/System/Refine/Fees.antt =====
-- The collections of fees, and the instructions of the admin, leave the abstract pool as it is.
use raydium_cp_swap.Base.{
  ℕ, List, ◌≡◌, refl, sym, ok, take_apart, require, leb, ◌==◌, arith, ok_injective,
}
use raydium_cp_swap.Base.Division.{mul_mono}
use raydium_cp_swap.States.Pool.{PoolState, set_status}
use raydium_cp_swap.Token.Interface.{Spl}
use raydium_cp_swap.Token.Transfers.{IsTokenProgram}
use raydium_cp_swap.Instructions.Context.{Chain}
use raydium_cp_swap.Instructions.Collect.{
  CollectAccounts, CollectOutcome, collect_protocol_fee, collect_fund_fee, collect_creator_fee,
}
use raydium_cp_swap.Instructions.Collect.Payout.{
  collect_protocol_fee-IsPaid, collect_fund_fee-IsPaid, collect_creator_fee-IsPaid,
}
use raydium_cp_swap.Instructions.Collect.Payments.{IsApart, IsPaid}
use raydium_cp_swap.Instructions.Config.{update_amm_config, update_pool_status}
use raydium_cp_swap.Instructions.Config.Rates.{update_amm_config-IsConfig}
use raydium_cp_swap.States.Config.{AmmConfig}
use raydium_cp_swap.System.{World, load_collect, after_collect}
use raydium_cp_swap.System.Amm.{Move}
use raydium_cp_swap.System.Sound.{IsSound, IsOutside}
use raydium_cp_swap.System.Refine.{Refines, refines}

module _ (spl : Spl) (chain : Chain) (laws : IsTokenProgram spl chain.epoch) where
  open spl use {MintData, Bank}

  paid :
      (w : World Bank) (o : CollectOutcome Bank) (paid_0 paid_1 : ℕ)
      → IsSound spl w
      → IsPaid spl chain laws w.pool paid_0 paid_1 w.bank o.pool_state o.bank
      → Refines spl w (after_collect spl w o)
  paid w o paid_0 paid_1 s p =
      let supplies = p.same_supplies w.pool.lp_mint in
      let same_supply = p.kept.same_supply in
      let solvent = s.solvent in
      let v0 = p.vault_0 in
      let v1 = p.vault_1 in
      let o0 = p.owed_0 in
      let o1 = p.owed_1 in
      refines spl w (after_collect spl w o) s (p.kept.same_0, p.kept.same_1, p.kept.same_mint)
        (omega arith, omega arith) (omega (arith, s.counted)) s.rates s.ring
        (Move.trade p.kept.same_supply (mul_mono _ _ _ _ (omega arith) (omega arith)))

  apart :
      (w : World Bank) (a : CollectAccounts MintData)
      → IsSound spl w
      → IsOutside spl w a.recipient_token_0_account × IsOutside spl w a.recipient_token_1_account
      → IsApart spl chain laws (load_collect spl w a)
  apart w a s (to_0, to_1) = record {
    two_vaults = s.two_vaults;
    recipient_0 = to_0;
    recipient_1 = to_1;
  }

  pub collect_protocol_fee-Refines :
      (w : World Bank) (a : CollectAccounts MintData) (requested_0 requested_1 : ℕ)
      {o : CollectOutcome Bank}
      → IsSound spl w
      → IsOutside spl w a.recipient_token_0_account × IsOutside spl w a.recipient_token_1_account
      → collect_protocol_fee spl chain (load_collect spl w a) requested_0 requested_1 w.bank ≡ ok o
      → Refines spl w (after_collect spl w o)
  collect_protocol_fee-Refines w a requested_0 requested_1 {o} s outside h =
      paid w o _ _ s
        (collect_protocol_fee-IsPaid spl chain laws (load_collect spl w a) requested_0 requested_1
          w.bank h (apart w a s outside)).0

  pub collect_fund_fee-Refines :
      (w : World Bank) (a : CollectAccounts MintData) (requested_0 requested_1 : ℕ)
      {o : CollectOutcome Bank}
      → IsSound spl w
      → IsOutside spl w a.recipient_token_0_account × IsOutside spl w a.recipient_token_1_account
      → collect_fund_fee spl chain (load_collect spl w a) requested_0 requested_1 w.bank ≡ ok o
      → Refines spl w (after_collect spl w o)
  collect_fund_fee-Refines w a requested_0 requested_1 {o} s outside h =
      paid w o _ _ s
        (collect_fund_fee-IsPaid spl chain laws (load_collect spl w a) requested_0 requested_1
          w.bank h (apart w a s outside)).0

  pub collect_creator_fee-Refines :
      (w : World Bank) (a : CollectAccounts MintData) {o : CollectOutcome Bank}
      → IsSound spl w
      → IsOutside spl w a.recipient_token_0_account × IsOutside spl w a.recipient_token_1_account
      → collect_creator_fee spl chain (load_collect spl w a) w.bank ≡ ok o
      → Refines spl w (after_collect spl w o)
  collect_creator_fee-Refines w a {o} s outside h =
      paid w o _ _ s
        (collect_creator_fee-IsPaid spl chain laws (load_collect spl w a) w.bank h
          (apart w a s outside)).0

module _ (spl : Spl) (chain : Chain) where
  open spl use {Bank}

  pub update_amm_config-Refines :
      (w : World Bank) (owner param value : ℕ) (keys : List ℕ) {c : AmmConfig}
      → IsSound spl w
      → update_amm_config chain owner w.config param value keys ≡ ok c
      → Refines spl w (record w { config = c })
  update_amm_config-Refines w owner param value keys {c} s h =
      let ((rates, _, _), _) =
        update_amm_config-IsConfig chain owner w.config param value keys s.rates h in
      refines spl w (record w { config = c }) s (refl, refl, refl) s.solvent s.counted rates s.ring
        (Move.trade refl (omega arith))

  pub update_pool_status-Refines :
      (w : World Bank) (authority status : ℕ) {p : PoolState}
      → IsSound spl w
      → update_pool_status chain authority w.pool status ≡ ok p
      → Refines spl w (record w { pool = p })
  unfolding update_pool_status set_status
  update_pool_status-Refines w authority status {p} s h =
      take_apart (require (authority == chain.admin) _) h λ _ e1 h1.
        take_apart (require (leb status 255) _) h1 λ _ e2 h2. simp (sym (ok_injective h2)) (
          refines spl w (record w { pool = _ }) s (refl, refl, refl) s.solvent s.counted s.rates
            s.ring (Move.trade refl (omega arith)))
