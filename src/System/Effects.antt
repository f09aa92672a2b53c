-- ===== src/System/Effects.antt =====
-- What a swap leaves alone: every supply of pool tokens, and the shape of the observation ring.
use raydium_cp_swap.Base.{ℕ, Bool, ◌≡◌, ◌∙◌, sym, ok, take_apart, require, leb, ok_injective}
use mathlib.Core.Path.{subst}
use raydium_cp_swap.Curve.Calculator.{SwapResult}
use raydium_cp_swap.States.Pool.{SwapParams}
use raydium_cp_swap.States.Oracle
use raydium_cp_swap.States.Oracle.Ring.{IsValid, IsSafe, update-IsSafe}
use raydium_cp_swap.Token.{transfer_from_user_to_pool_vault, transfer_from_pool_vault_to_user}
use raydium_cp_swap.Token.Interface.{Spl}
use raydium_cp_swap.Token.Transfers.{IsTokenProgram, user_to_vault-supply, vault_to_user-supply}
use raydium_cp_swap.Instructions.Context.{Chain}
use raydium_cp_swap.Instructions.Swap.{
  SwapAccounts, SwapOutcome, SwapTransfers, transfer_in, transfer_out, finish_swap, settle,
  book_result, swap_event, swap_base_input, swap_base_output,
}
use raydium_cp_swap.Instructions.Swap.Steps.{input_run, output_run}

module _ (spl : Spl) (chain : Chain) (laws : IsTokenProgram spl chain.epoch) where
  open spl use {MintData, Bank, supply}

  -- The supplies are the same, and a valid ring is one again.
  pub record KeepsRest (a : SwapAccounts MintData) (bank : Bank) (o : SwapOutcome Bank)
      : Type 0 where
    pub same_supplies : (m : ℕ) → supply o.bank m ≡ supply bank m
    pub valid_ring : IsValid a.observation_state → IsValid o.observation_state

  settle-KeepsRest :
      (a : SwapAccounts MintData) (params : SwapParams) (r : SwapResult) (t : SwapTransfers)
      (base_input : Bool) (before after : ℕ) (bank : Bank) {o : SwapOutcome Bank}
      → settle spl chain a params r t base_input before after bank ≡ ok o
      → KeepsRest a bank o
  unfolding settle finish_swap
  settle-KeepsRest a params r t base_input before after bank {o} h =
      take_apart (book_result a.pool_state params r) h λ q e1 h1.
        take_apart (swap_event a params r t base_input) h1 λ event e2 h2.
          take_apart (require (leb before after) _) h2 λ _ e3 h3.
            take_apart
              (transfer_from_user_to_pool_vault spl chain.epoch
                (transfer_in spl a t.input_transfer_amount) bank)
              h3
              λ paid e4 h4.
                take_apart
                  (transfer_from_pool_vault_to_user spl chain.epoch
                    (transfer_out spl a t.output_transfer_amount) paid)
                  h4
                  λ last e5 h5.
                    take_apart
                      (Oracle.update a.observation_state chain.unix_timestamp
                        params.token_0_price_x64 params.token_1_price_x64)
                      h5
                      λ observed e6 h6.
                        let tr_in = transfer_in spl a t.input_transfer_amount in
                        let tr_out = transfer_out spl a t.output_transfer_amount in
                        simp (sym (ok_injective h6)) (record {
                          same_supplies = λ m.
                              vault_to_user-supply spl chain.epoch laws tr_out paid last m e5
                              ∙ user_to_vault-supply spl chain.epoch laws tr_in bank paid m e4;
                          valid_ring = λ v. subst IsSafe e6 (
                              update-IsSafe a.observation_state chain.unix_timestamp
                                params.token_0_price_x64 params.token_1_price_x64 v);
                        })

  pub swap_base_input-KeepsRest :
      (a : SwapAccounts MintData) (amount_in minimum : ℕ) (bank : Bank) {o : SwapOutcome Bank}
      → swap_base_input spl chain a amount_in minimum bank ≡ ok o
      → KeepsRest a bank o
  swap_base_input-KeepsRest a amount_in minimum bank h =
      let s = input_run spl chain a bank amount_in minimum h in
      settle-KeepsRest a s.params s.result s.t _ s.before s.after bank s.settled

  pub swap_base_output-KeepsRest :
      (a : SwapAccounts MintData) (max received : ℕ) (bank : Bank) {o : SwapOutcome Bank}
      → swap_base_output spl chain a max received bank ≡ ok o
      → KeepsRest a bank o
  swap_base_output-KeepsRest a max received bank h =
      let s = output_run spl chain a bank max received h in
      settle-KeepsRest a s.params s.result s.t _ s.before s.after bank s.settled
