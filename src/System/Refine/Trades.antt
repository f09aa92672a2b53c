-- ===== src/System/Refine/Trades.antt =====
-- The two swaps are trades of the abstract pool.
use raydium_cp_swap.Base.{ℕ, ◌≡◌, ◌≢◌, refl, sym, ◌∙◌, ok, arith}
use raydium_cp_swap.Curve.Calculator.{TradeDirection}
use raydium_cp_swap.States.Pool.{PoolState, SwapParams}
use raydium_cp_swap.States.Pool.Direction.{vault_in, vault_out, IsParams, get_swap_params-IsParams}
use raydium_cp_swap.Token.Interface.{Spl}
use raydium_cp_swap.Token.Transfers.{IsTokenProgram}
use raydium_cp_swap.Instructions.Context.{Chain}
use raydium_cp_swap.Instructions.Swap.{SwapAccounts, SwapOutcome, swap_base_input, swap_base_output}
use raydium_cp_swap.Instructions.Swap.Steps.{input_run, output_run}
use raydium_cp_swap.Instructions.Swap.Settle.{IsLoaded}
use raydium_cp_swap.Instructions.Swap.Solvency.{
  ReservesGrow, swap_base_input-ReservesGrow, swap_base_output-ReservesGrow,
}
use raydium_cp_swap.System.{World, load_swap, after_swap}
use raydium_cp_swap.System.Amm.{Move}
use raydium_cp_swap.System.Effects.{
  KeepsRest, swap_base_input-KeepsRest, swap_base_output-KeepsRest,
}
use raydium_cp_swap.System.Sound.{IsSound, IsOutside}
use raydium_cp_swap.System.Refine.{Refines, refines}

-- An account that is neither vault is apart from the vaults of a swap, whatever its direction.
apart_from :
    (p : PoolState) (key_in key_out k x y : ℕ) (s : SwapParams)
    → IsParams p key_in key_out x y s
    → (p.token_0_vault ≢ k) × (p.token_1_vault ≢ k)
    → (k ≢ key_in) × (k ≢ key_out)
apart_from p key_in key_out k x y s v (ne_0, ne_1) = go s.trade_direction v.from v.into
  where
    go :
        (d : TradeDirection)
        → key_in ≡ vault_in d p
        → key_out ≡ vault_out d p
        → (k ≢ key_in) × (k ≢ key_out)
    go TradeDirection.zero_for_one e f = (λ q. ne_0 (sym (q ∙ e)), λ q. ne_1 (sym (q ∙ f)))
    go TradeDirection.one_for_zero e f = (λ q. ne_1 (sym (q ∙ e)), λ q. ne_0 (sym (q ∙ f)))

module _ (spl : Spl) (chain : Chain) (laws : IsTokenProgram spl chain.epoch) where
  open spl use {MintData, Bank}

  swap-IsLoaded :
      (w : World Bank) (a : SwapAccounts MintData) (s : SwapParams) {x y : ℕ}
      → IsSound spl w
      → IsParams w.pool a.input_vault.key a.output_vault.key x y s
      → IsOutside spl w a.input_token_account.key × IsOutside spl w a.output_token_account.key
      → IsLoaded spl chain laws (load_swap spl w a) w.bank
  swap-IsLoaded w a s {x} {y} sound v (payer, receiver) = record {
    input_amount = refl;
    output_amount = refl;
    two_vaults = sound.two_vaults;
    payer_apart =
        apart_from w.pool a.input_vault.key a.output_vault.key a.input_token_account.key x y s v
          payer;
    receiver_apart =
        apart_from w.pool a.input_vault.key a.output_vault.key a.output_token_account.key x y s v
          receiver;
  }

  grown :
      (w : World Bank) (a : SwapAccounts MintData) (o : SwapOutcome Bank)
      → IsSound spl w
      → ReservesGrow spl chain laws w.pool w.bank o.pool_state o.bank
      → KeepsRest spl chain laws (load_swap spl w a) w.bank o
      → Refines spl w (after_swap spl w o)
  grown w a o s g rest =
      let supplies = rest.same_supplies w.pool.lp_mint in
      let same_supply = g.kept.same_supply in
      refines spl w (after_swap spl w o) s (g.kept.same_0, g.kept.same_1, g.kept.same_mint)
        g.solvent (omega (arith, s.counted)) s.rates (rest.valid_ring s.ring)
        (Move.trade g.kept.same_supply g.product)

  pub swap_base_input-Refines :
      (w : World Bank) (a : SwapAccounts MintData) (amount_in minimum : ℕ) {o : SwapOutcome Bank}
      → IsSound spl w
      → IsOutside spl w a.input_token_account.key × IsOutside spl w a.output_token_account.key
      → swap_base_input spl chain (load_swap spl w a) amount_in minimum w.bank ≡ ok o
      → Refines spl w (after_swap spl w o)
  swap_base_input-Refines w a amount_in minimum {o} s apart h =
      let b = load_swap spl w a in
      let run = input_run spl chain b w.bank amount_in minimum h in
      let v =
        get_swap_params-IsParams w.pool a.input_vault.key a.output_vault.key b.input_vault.amount
          b.output_vault.amount run.ready.got in
      grown w a o s
        (swap_base_input-ReservesGrow spl chain laws b amount_in minimum w.bank
          (swap-IsLoaded w a run.params s v apart) s.rates.shared h)
        (swap_base_input-KeepsRest spl chain laws b amount_in minimum w.bank h)

  pub swap_base_output-Refines :
      (w : World Bank) (a : SwapAccounts MintData) (maximum amount_out : ℕ) {o : SwapOutcome Bank}
      → IsSound spl w
      → IsOutside spl w a.input_token_account.key × IsOutside spl w a.output_token_account.key
      → swap_base_output spl chain (load_swap spl w a) maximum amount_out w.bank ≡ ok o
      → Refines spl w (after_swap spl w o)
  swap_base_output-Refines w a maximum amount_out {o} s apart h =
      let b = load_swap spl w a in
      let run = output_run spl chain b w.bank maximum amount_out h in
      let v =
        get_swap_params-IsParams w.pool a.input_vault.key a.output_vault.key b.input_vault.amount
          b.output_vault.amount run.ready.got in
      grown w a o s
        (swap_base_output-ReservesGrow spl chain laws b maximum amount_out w.bank
          (swap-IsLoaded w a run.params s v apart) s.rates.shared h)
        (swap_base_output-KeepsRest spl chain laws b maximum amount_out w.bank h)
