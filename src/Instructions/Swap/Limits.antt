-- ===== src/Instructions/Swap/Limits.antt =====
-- What a swap does to the user's two accounts, against the limits that the user gave.
use raydium_cp_swap.Base.{
  ℕ, ◌+◌, ◌≤◌, ◌<◌, ◌≡◌, ◌≢◌, sym, Bool, true, false, ok, take_apart, arith, leb, require,
}
use raydium_cp_swap.Curve.Calculator.{SwapResult}
use raydium_cp_swap.States.Pool.{SwapParams, PoolStatusBitIndex, get_status_by_bit}
use raydium_cp_swap.States.Oracle
use raydium_cp_swap.Token.{
  get_transfer_fee, transfer_from_user_to_pool_vault, transfer_from_pool_vault_to_user,
}
use raydium_cp_swap.Token.Interface.{Spl}
use raydium_cp_swap.Token.Transfers.{
  IsTokenProgram, user_to_vault-others, vault_to_user-ok, user_to_vault-debit, vault_to_user-credit,
  inverse_fee-ok,
}
use raydium_cp_swap.Instructions.Context.{Chain}
use raydium_cp_swap.Instructions.Swap.{
  SwapAccounts, SwapOutcome, SwapTransfers, transfer_in, transfer_out, finish_swap, settle,
  book_result, swap_event, swap_base_input, swap_base_output,
}
use raydium_cp_swap.Instructions.Swap.Steps.{check_open-ok, input_run, output_run}

module _ (spl : Spl) (chain : Chain) (laws : IsTokenProgram spl chain.epoch) where
  open spl use {MintData, Bank, balance}

  -- The user's accounts are two, and neither is a vault of the swap.
  pub record IsApart (a : SwapAccounts MintData) : Type 0 where
    pub two : a.input_token_account.key ≢ a.output_token_account.key
    pub payer_vaults :
        (a.input_token_account.key ≢ a.input_vault.key)
        × (a.input_token_account.key ≢ a.output_vault.key)
    pub receiver_vaults :
        (a.output_token_account.key ≢ a.input_vault.key)
        × (a.output_token_account.key ≢ a.output_vault.key)

  settle_user :
      (a : SwapAccounts MintData) (params : SwapParams) (r : SwapResult) (t : SwapTransfers)
      (base_input : Bool) (before after fee : ℕ) (bank : Bank) {o : SwapOutcome Bank}
      → settle spl chain a params r t base_input before after bank ≡ ok o
      → IsApart a
      → 0 < t.output_transfer_amount
      → get_transfer_fee spl chain.epoch a.output_token_mint t.output_transfer_amount ≡ ok fee
      → (balance o.bank a.input_token_account.key + t.input_transfer_amount
          ≡ balance bank a.input_token_account.key)
        × (balance o.bank a.output_token_account.key + fee
            ≡ balance bank a.output_token_account.key + t.output_transfer_amount)
  unfolding settle finish_swap
  settle_user a params r t base_input before after fee bank {o} h apart some_out e =
      take_apart (book_result a.pool_state params r) h λ q e1 h1.
        take_apart (swap_event a params r t base_input) h1 λ event e2 h2.
          take_apart (require (leb before after) _) h2 λ _ e3 h3.
            take_apart
              (transfer_from_user_to_pool_vault spl chain.epoch
                (transfer_in spl a t.input_transfer_amount) bank)
              h3
              λ paid e4 h4.
                take_apart
                  (transfer_from_pool_vault_to_user spl chain.epoch
                    (transfer_out spl a t.output_transfer_amount) paid)
                  h4
                  λ last e5 h5.
                    take_apart
                      (Oracle.update a.observation_state chain.unix_timestamp
                        params.token_0_price_x64 params.token_1_price_x64)
                      h5
                      λ observed e6 h6.
                        let tr_in = transfer_in spl a t.input_transfer_amount in
                        let tr_out = transfer_out spl a t.output_transfer_amount in
                        let debit =
                          user_to_vault-debit spl chain.epoch laws tr_in bank paid e4
                            apart.payer_vaults.0 in
                        let credit =
                          vault_to_user-credit spl chain.epoch laws tr_out paid last fee e5
                            (λ q. apart.receiver_vaults.1 (sym q)) some_out e in
                        let kept_out : balance paid a.output_token_account.key
                            ≡ balance bank a.output_token_account.key =
                          user_to_vault-others spl chain.epoch laws tr_in bank paid
                            a.output_token_account.key e4 (λ q. apart.two (sym q))
                            apart.receiver_vaults.0 in
                        let (_, kept) =
                          vault_to_user-ok spl chain.epoch laws tr_out paid last
                            a.input_token_account.key e5 (λ q. apart.receiver_vaults.1 (sym q)) in
                        let kept_in = kept apart.payer_vaults.1 apart.two in
                        let bank_same : o.bank ≡ last = cc in
                        (
                          rw bank_same (omega (arith, debit, kept_in)),
                          rw bank_same (omega (arith, credit, kept_out)),
                        )

  -- A `swap_base_input` that succeeds, for two accounts of the user that are no vaults, runs on a pool whose swaps are enabled and that has opened;
  -- the user's input account pays exactly the amount given, and the output account gains at least
  -- the minimum given.
  pub swap_base_input_limits :
      (a : SwapAccounts MintData) (amount_in minimum : ℕ) (bank : Bank) {o : SwapOutcome Bank}
      → IsApart a
      → swap_base_input spl chain a amount_in minimum bank ≡ ok o
      → (get_status_by_bit a.pool_state PoolStatusBitIndex.swap ≡ true)
        × (a.pool_state.open_time ≤ chain.unix_timestamp)
        × (balance o.bank a.input_token_account.key + amount_in
            ≡ balance bank a.input_token_account.key)
        × (balance bank a.output_token_account.key + minimum
            ≤ balance o.bank a.output_token_account.key)
  swap_base_input_limits a amount_in minimum bank {o} apart h =
      let s = input_run spl chain a bank amount_in minimum h in
      let (enabled, opened) = check_open-ok chain a.pool_state s.ready.open_pool in
      let (pays, gains) =
        settle_user a s.params s.result s.t true s.before s.after s.t.output_transfer_fee bank
          s.settled apart (omega (arith, s.some_received)) s.out_fee in
      (enabled, opened, omega (arith, pays, s.sent), omega (arith, gains, s.received))

  -- A `swap_base_output` that succeeds, for two accounts of the user that are no vaults, runs on a pool whose swaps are enabled and that has opened;
  -- the user's output account gains exactly the amount asked for, and the input account pays at most
  -- the maximum given.
  pub swap_base_output_limits :
      (a : SwapAccounts MintData) (max received : ℕ) (bank : Bank) {o : SwapOutcome Bank}
      → IsApart a
      → swap_base_output spl chain a max received bank ≡ ok o
      → (get_status_by_bit a.pool_state PoolStatusBitIndex.swap ≡ true)
        × (a.pool_state.open_time ≤ chain.unix_timestamp)
        × (balance bank a.input_token_account.key ≤ balance o.bank a.input_token_account.key + max)
        × (balance o.bank a.output_token_account.key
            ≡ balance bank a.output_token_account.key + received)
  swap_base_output_limits a max received bank {o} apart h =
      let s = output_run spl chain a bank max received h in
      let (enabled, opened) = check_open-ok chain a.pool_state s.ready.open_pool in
      let fee =
        inverse_fee-ok spl chain.epoch laws a.output_token_mint received s.asked s.out_fee in
      let (pays, gains) =
        settle_user a s.params s.result s.t false s.before s.after s.t.output_transfer_fee bank
          s.settled apart (omega (arith, s.paid_out, s.asked)) (rw s.paid_out fee) in
      (enabled, opened, omega (arith, pays, s.limit), omega (arith, gains, s.paid_out))
