-- ===== src/Instructions/Swap/Solvency.antt =====
-- A swap keeps the pool able to pay every fee that it owes, and never lowers the product of what is
-- left in the vaults.
use native.Mathlib.Nat.{le_trans}
use raydium_cp_swap.Base.{
  ℕ, ◌+◌, ◌-◌, ◌*◌, ◌≤◌, ◌<◌, ◌≡◌, refl, sym, ap, ◌∙◌, Bool, true, false, ok, arith,
}
use raydium_cp_swap.Base.Division.{mul_mono}
use raydium_cp_swap.Curve.Calculator.{SwapResult, TradeDirection}
use raydium_cp_swap.Curve.Calculator.Swaps.{
  IsBalanced, swap_base_input-IsBalanced, swap_base_output-IsBalanced, swap_base_input_fees,
  swap_base_output_parts,
}
use raydium_cp_swap.Curve.Fees.{fee_rate_denominator_value}
use raydium_cp_swap.States.Pool.{PoolState, SwapParams}
use raydium_cp_swap.States.Pool.Fees.{fees_0, fees_1, fees_in, fees_out, KeepsPool, IsSolvent}
use raydium_cp_swap.States.Pool.Direction.{vault_in, vault_out, IsParams, get_swap_params-IsParams}
use raydium_cp_swap.Token.{get_transfer_fee}
use raydium_cp_swap.Token.Interface.{Spl}
use raydium_cp_swap.Token.Transfers.{IsTokenProgram, inverse_fee-ok}
use raydium_cp_swap.Instructions.Context.{Chain}
use raydium_cp_swap.Instructions.Swap.Settle.{IsLoaded, settle-ok}
use raydium_cp_swap.Instructions.Swap.{
  SwapAccounts, SwapOutcome, SwapTransfers, settle, swap_base_input, swap_base_output,
}
use raydium_cp_swap.Instructions.Swap.Steps.{creator_rate, input_run, output_run}

module _ (spl : Spl) (chain : Chain) (laws : IsTokenProgram spl chain.epoch) where
  open spl use {MintData, Bank, balance}

  -- What is left of a vault when the fees owed of its token are taken out.
  abbrev pub reserve_0 : PoolState → PoolState → Bank → ℕ
  reserve_0 p q bank = balance bank p.token_0_vault - fees_0 q

  abbrev pub reserve_1 : PoolState → PoolState → Bank → ℕ
  reserve_1 p q bank = balance bank p.token_1_vault - fees_1 q

  -- From pool `p` to pool `q`: the vaults of `p` still cover the fees owed, and the product of the
  -- reserves has not fallen.
  pub record ReservesGrow (p : PoolState) (bank : Bank) (q : PoolState) (bank' : Bank)
      : Type 0 where
    pub solvent : IsSolvent q (balance bank' p.token_0_vault) (balance bank' p.token_1_vault)
    pub product :
        reserve_0 p p bank * reserve_1 p p bank ≤ reserve_0 p q bank' * reserve_1 p q bank'
    pub kept : KeepsPool p q

  grow :
      (d : TradeDirection) (p q : PoolState) (bank bank' : Bank)
      (total_in total_out new_in new_out key_in key_out : ℕ)
      → key_in ≡ vault_in d p
      → key_out ≡ vault_out d p
      → total_in + fees_in d p ≡ balance bank key_in
      → total_out + fees_out d p ≡ balance bank key_out
      → new_in + fees_in d q ≤ balance bank' key_in
      → new_out + fees_out d q ≡ balance bank' key_out
      → total_in * total_out ≤ new_in * new_out
      → KeepsPool p q
      → ReservesGrow p bank q bank'
  grow TradeDirection.zero_for_one p q bank bank' ti to mi mo ki ko ei eo bi bo ai ao prod kept =
      let (vi, vo) : (balance bank ki ≡ balance bank p.token_0_vault)
          × (balance bank ko ≡ balance bank p.token_1_vault) =
        (ap (balance bank) ei, ap (balance bank) eo) in
      let (wi, wo) : (balance bank' ki ≡ balance bank' p.token_0_vault)
          × (balance bank' ko ≡ balance bank' p.token_1_vault) =
        (ap (balance bank') ei, ap (balance bank') eo) in
      let before_in : reserve_0 p p bank ≡ ti = omega arith in
      let before_out : reserve_1 p p bank ≡ to = omega arith in
      record {
        solvent = omega arith;
        product =
            rw (before_in, before_out)
              (le_trans prod (
                mul_mono mi mo (reserve_0 p q bank') (reserve_1 p q bank') (omega arith)
                  (omega arith)));
        kept = kept;
      }
  grow TradeDirection.one_for_zero p q bank bank' ti to mi mo ki ko ei eo bi bo ai ao prod kept =
      let (vi, vo) : (balance bank ki ≡ balance bank p.token_1_vault)
          × (balance bank ko ≡ balance bank p.token_0_vault) =
        (ap (balance bank) ei, ap (balance bank) eo) in
      let (wi, wo) : (balance bank' ki ≡ balance bank' p.token_1_vault)
          × (balance bank' ko ≡ balance bank' p.token_0_vault) =
        (ap (balance bank') ei, ap (balance bank') eo) in
      let before_in : reserve_1 p p bank ≡ ti = omega arith in
      let before_out : reserve_0 p p bank ≡ to = omega arith in
      let turned : mi * mo ≡ mo * mi = omega arith in
      record {
        solvent = omega arith;
        product =
            rw (before_in, before_out)
              (omega (
                arith,
                mul_mono mo mi (reserve_0 p q bank') (reserve_1 p q bank') (omega arith)
                    (omega arith),
              ));
        kept = kept;
      }

  settle_grows :
      (a : SwapAccounts MintData) (params : SwapParams) (r : SwapResult) (t : SwapTransfers)
      (base_input : Bool) (before after inp out : ℕ) (bank : Bank) {o : SwapOutcome Bank}
      → settle spl chain a params r t base_input before after bank ≡ ok o
      → IsLoaded spl chain laws a bank
      → IsParams a.pool_state a.input_vault.key a.output_vault.key a.input_vault.amount
          a.output_vault.amount params
      → IsBalanced params.total_input_token_amount params.total_output_token_amount inp out
          params.is_creator_fee_on_input r
      → r.protocol_fee + r.fund_fee ≤ r.trade_fee
      → 0 < inp
      → t.input_transfer_amount ≡ inp + t.input_transfer_fee
      → t.output_transfer_amount ≡ out
      → get_transfer_fee spl chain.epoch a.input_token_mint t.input_transfer_amount
        ≡ ok t.input_transfer_fee
      → ReservesGrow a.pool_state bank o.pool_state o.bank
  settle_grows a params r t base_input before after inp out bank {o} h loaded v b parts some_in sent
        paid fee =
      let (held_in, held_out, kept) =
        settle-ok spl chain laws a params r t base_input before after inp out bank h loaded v b
          parts some_in sent paid fee in
      grow params.trade_direction a.pool_state o.pool_state bank o.bank
        params.total_input_token_amount params.total_output_token_amount r.new_input_vault_amount
        r.new_output_vault_amount a.input_vault.key a.output_vault.key v.from v.into
        (v.total_in ∙ sym loaded.input_amount) (v.total_out ∙ sym loaded.output_amount) held_in
        held_out b.product kept

  -- A `swap_base_input` that succeeds, on accounts loaded from the bank and rates of the protocol
  -- and the fund that are together at most one, leaves vaults that cover all fees owed, does not
  -- lower the product of the reserves beside them, and keeps the vaults, the pool token supply, the
  -- fee model and the status.
  pub swap_base_input-ReservesGrow :
      (a : SwapAccounts MintData) (amount_in minimum : ℕ) (bank : Bank) {o : SwapOutcome Bank}
      → IsLoaded spl chain laws a bank
      → a.amm_config.protocol_fee_rate + a.amm_config.fund_fee_rate ≤ fee_rate_denominator_value
      → swap_base_input spl chain a amount_in minimum bank ≡ ok o
      → ReservesGrow a.pool_state bank o.pool_state o.bank
  swap_base_input-ReservesGrow a amount_in minimum bank loaded rates h =
      let s = input_run spl chain a bank amount_in minimum h in
      let v =
        get_swap_params-IsParams a.pool_state a.input_vault.key a.output_vault.key
          a.input_vault.amount a.output_vault.amount s.ready.got in
      let net : ℕ = amount_in - s.t.input_transfer_fee in
      let arrives = s.arrives in
      let sent = s.sent in
      let b =
        swap_base_input-IsBalanced net s.params.total_input_token_amount
          s.params.total_output_token_amount a.amm_config.trade_fee_rate
          (creator_rate spl chain a bank) a.amm_config.protocol_fee_rate a.amm_config.fund_fee_rate
          s.params.is_creator_fee_on_input s.quote in
      let (_, _, parts) =
        swap_base_input_fees net s.params.total_input_token_amount
          s.params.total_output_token_amount a.amm_config.trade_fee_rate
          (creator_rate spl chain a bank) a.amm_config.protocol_fee_rate a.amm_config.fund_fee_rate
          s.params.is_creator_fee_on_input s.quote rates in
      settle_grows a s.params s.result s.t true s.before s.after net s.result.output_amount bank
        s.settled loaded v b parts (omega arith) (omega arith) s.paid_out (rw s.sent s.fee)

  -- A `swap_base_output` that succeeds, on accounts loaded from the bank and rates of the protocol
  -- and the fund that are together at most one, leaves vaults that cover all fees owed, does not
  -- lower the product of the reserves beside them, and keeps the vaults, the pool token supply, the
  -- fee model and the status.
  pub swap_base_output-ReservesGrow :
      (a : SwapAccounts MintData) (max received : ℕ) (bank : Bank) {o : SwapOutcome Bank}
      → IsLoaded spl chain laws a bank
      → a.amm_config.protocol_fee_rate + a.amm_config.fund_fee_rate ≤ fee_rate_denominator_value
      → swap_base_output spl chain a max received bank ≡ ok o
      → ReservesGrow a.pool_state bank o.pool_state o.bank
  swap_base_output-ReservesGrow a max received bank loaded rates h =
      let s = output_run spl chain a bank max received h in
      let v =
        get_swap_params-IsParams a.pool_state a.input_vault.key a.output_vault.key
          a.input_vault.amount a.output_vault.amount s.ready.got in
      let b =
        swap_base_output-IsBalanced s.t.output_transfer_amount s.params.total_input_token_amount
          s.params.total_output_token_amount a.amm_config.trade_fee_rate
          (creator_rate spl chain a bank) a.amm_config.protocol_fee_rate a.amm_config.fund_fee_rate
          s.params.is_creator_fee_on_input s.quote in
      let parts =
        swap_base_output_parts s.t.output_transfer_amount s.params.total_input_token_amount
          s.params.total_output_token_amount a.amm_config.trade_fee_rate
          (creator_rate spl chain a bank) a.amm_config.protocol_fee_rate a.amm_config.fund_fee_rate
          s.params.is_creator_fee_on_input s.quote rates in
      settle_grows a s.params s.result s.t false s.before s.after s.result.input_amount
        s.t.output_transfer_amount bank s.settled loaded v b parts s.some_input s.sent refl
        (rw s.sent (
          inverse_fee-ok spl chain.epoch laws a.input_token_mint s.result.input_amount s.some_input
            s.in_fee))
