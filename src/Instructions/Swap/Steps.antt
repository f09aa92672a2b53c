-- ===== src/Instructions/Swap/Steps.antt =====
-- What a swap handler that succeeded computed on the way.
use raydium_cp_swap.Base.{
  ℕ, ◌+◌, ◌-◌, ◌*◌, ◌≤◌, ◌<◌, ◌≡◌, refl, true, false, Maybe, ok, unwrap, ok_or, require, take_apart,
  require-ok, ok_or-ok, unwrap-ok, arith, ltb, leb, ◌==◌,
}
use raydium_cp_swap.Base.Words.{
  u64_max, u128_max, checked_add, checked_sub, checked_mul, narrow, checked_add-ok, checked_sub-ok,
  checked_mul-ok, narrow-ok,
}
use raydium_cp_swap.Curve.Calculator
use raydium_cp_swap.Curve.Calculator.{SwapResult}
use raydium_cp_swap.States.Pool.{
  PoolState, SwapParams, PoolStatusBitIndex, get_status_by_bit, get_swap_params,
  adjust_creator_fee_rate,
}
use raydium_cp_swap.Token.{get_transfer_fee, get_transfer_inverse_fee}
use raydium_cp_swap.Token.Interface.{Spl}
use raydium_cp_swap.Instructions.Context.{Chain}
use raydium_cp_swap.Instructions.Swap.{
  SwapAccounts, SwapOutcome, SwapTransfers, check_accounts, check_open, check_output, check_input,
  settle, swap_base_input, swap_base_output,
}

-- `check_open` passes only an enabled pool that has opened.
pub check_open-ok :
    (chain : Chain) (p : PoolState) {u : Unit {0}}
    → check_open chain p ≡ ok u
    → (get_status_by_bit p PoolStatusBitIndex.swap ≡ true) × (p.open_time ≤ chain.unix_timestamp)
unfolding check_open
check_open-ok chain p h = ground arith

module _ (spl : Spl) (chain : Chain) (a : SwapAccounts spl.MintData) (bank : spl.Bank) where
  open spl use {MintData, Bank}

  -- What both handlers have computed before they settle.
  pub record Ready (params : SwapParams) (result : SwapResult) (t : SwapTransfers)
      (before after : ℕ) : Type 0 where
    pub open_pool : check_open chain a.pool_state ≡ ok tt
    pub got :
        get_swap_params a.pool_state a.input_vault.key a.output_vault.key a.input_vault.amount
          a.output_vault.amount
        ≡ ok params
    pub product_before : before ≡ params.total_input_token_amount * params.total_output_token_amount
    pub product_after : after ≡ result.new_input_vault_amount * result.new_output_vault_amount

  abbrev pub creator_rate : ℕ
  creator_rate = adjust_creator_fee_rate a.pool_state a.amm_config.creator_fee_rate

  abbrev pub quote_input : ℕ → SwapParams → Maybe SwapResult
  quote_input amount params =
      Calculator.swap_base_input amount params.total_input_token_amount
        params.total_output_token_amount a.amm_config.trade_fee_rate creator_rate
        a.amm_config.protocol_fee_rate a.amm_config.fund_fee_rate params.is_creator_fee_on_input

  abbrev pub quote_output : ℕ → SwapParams → Maybe SwapResult
  quote_output amount params =
      Calculator.swap_base_output amount params.total_input_token_amount
        params.total_output_token_amount a.amm_config.trade_fee_rate creator_rate
        a.amm_config.protocol_fee_rate a.amm_config.fund_fee_rate params.is_creator_fee_on_input

  pub record InputRun (amount_in minimum : ℕ) (o : SwapOutcome Bank) : Type 0 where
    pub params : SwapParams
    pub result : SwapResult
    pub t : SwapTransfers
    pub before : ℕ
    pub after : ℕ
    pub ready : Ready params result t before after
    pub fee :
        get_transfer_fee spl chain.epoch a.input_token_mint amount_in ≡ ok t.input_transfer_fee
    pub sent : t.input_transfer_amount ≡ amount_in
    pub arrives : t.input_transfer_fee < amount_in
    pub quote : quote_input (amount_in - t.input_transfer_fee) params ≡ ok result
    pub paid_out : t.output_transfer_amount ≡ result.output_amount
    pub out_fee :
        get_transfer_fee spl chain.epoch a.output_token_mint t.output_transfer_amount
        ≡ ok t.output_transfer_fee
    pub received : minimum + t.output_transfer_fee ≤ t.output_transfer_amount
    pub some_received : t.output_transfer_fee < t.output_transfer_amount
    pub settled : settle spl chain a params result t true before after bank ≡ ok o

  check_output-ok :
      (r : SwapResult) (minimum : ℕ) {out : ℕ × ℕ}
      → check_output spl chain a r minimum ≡ ok out
      → (out.0 ≡ r.output_amount)
        × (get_transfer_fee spl chain.epoch a.output_token_mint out.0 ≡ ok out.1)
        × (minimum + out.1 ≤ out.0)
        × (out.1 < out.0)
  unfolding check_output
  check_output-ok r minimum {out} h = take_apart (narrow r.output_amount) h λ amount e1 h1.
      take_apart (get_transfer_fee spl chain.epoch a.output_token_mint amount) h1 λ fee e2 h2.
        take_apart (unwrap (checked_sub amount fee)) h2 λ rest e3 h3.
          take_apart (require (ltb 0 rest) _) h3 λ _ e4 h4.
            take_apart (require (leb minimum rest) _) h4 λ _ e5 h5.
              let (same, _) = narrow-ok r.output_amount e1 in
              let (left, fits) = checked_sub-ok amount fee (unwrap-ok _ e3) in
              let some_left = require-ok _ _ e4 in
              let enough = require-ok _ _ e5 in (ground arith, cc, ground arith, ground arith)

  pub input_run :
      (amount_in minimum : ℕ) {o : SwapOutcome Bank}
      → swap_base_input spl chain a amount_in minimum bank ≡ ok o
      → InputRun amount_in minimum o
  unfolding swap_base_input
  input_run amount_in minimum {o} h = take_apart (check_accounts chain a) h λ _ e1 h1.
      take_apart (check_open chain a.pool_state) h1 λ _ e2 h2.
        take_apart (get_transfer_fee spl chain.epoch a.input_token_mint amount_in) h2 λ fee e3 h3.
          take_apart (require (ltb 0 (amount_in - fee)) _) h3 λ _ e4 h4.
            take_apart
              (get_swap_params a.pool_state a.input_vault.key a.output_vault.key
                a.input_vault.amount a.output_vault.amount)
              h4
              λ params e5 h5.
                take_apart
                  (unwrap (
                    checked_mul u128_max params.total_input_token_amount
                      params.total_output_token_amount))
                  h5
                  λ before e6 h6.
                    take_apart (ok_or (quote_input (amount_in - fee) params) _) h6 λ result e7 h7.
                      take_apart
                        (unwrap (
                          checked_mul u128_max result.new_input_vault_amount
                            result.new_output_vault_amount))
                        h7
                        λ after e8 h8.
                          take_apart (narrow result.input_amount) h8 λ input_amount e9 h9.
                            take_apart (require (input_amount == (amount_in - fee)) _) h9
                              λ _ e10 h10.
                                take_apart (check_output spl chain a result minimum) h10
                                  λ out e11 h11.
                                    let (paid, out_fee, received, some_received) =
                                      check_output-ok result minimum e11 in
                                    let some_in = require-ok _ _ e4 in
                                    let (same_before, _) =
                                      checked_mul-ok u128_max _ _ (unwrap-ok _ e6) in
                                    let (same_after, _) =
                                      checked_mul-ok u128_max _ _ (unwrap-ok _ e8) in
                                    record {
                                      params = params;
                                      result = result;
                                      t = record {
                                        input_transfer_amount = amount_in;
                                        input_transfer_fee = fee;
                                        output_transfer_amount = out.0;
                                        output_transfer_fee = out.1;
                                      };
                                      before = before;
                                      after = after;
                                      ready = record {
                                        open_pool = e2;
                                        got = e5;
                                        product_before = same_before;
                                        product_after = same_after;
                                      };
                                      fee = e3;
                                      sent = refl;
                                      arrives = ground arith;
                                      quote = ok_or-ok _ _ e7;
                                      paid_out = paid;
                                      out_fee = out_fee;
                                      received = received;
                                      some_received = some_received;
                                      settled = h11;
                                    }

  pub record OutputRun (max received : ℕ) (o : SwapOutcome Bank) : Type 0 where
    pub params : SwapParams
    pub result : SwapResult
    pub t : SwapTransfers
    pub before : ℕ
    pub after : ℕ
    pub ready : Ready params result t before after
    pub asked : 0 < received
    pub out_fee :
        get_transfer_inverse_fee spl chain.epoch a.output_token_mint received
        ≡ ok t.output_transfer_fee
    pub paid_out : t.output_transfer_amount ≡ received + t.output_transfer_fee
    pub fits : t.output_transfer_amount ≤ u64_max
    pub quote : quote_output t.output_transfer_amount params ≡ ok result
    pub some_input : 0 < result.input_amount
    pub in_fee :
        get_transfer_inverse_fee spl chain.epoch a.input_token_mint result.input_amount
        ≡ ok t.input_transfer_fee
    pub sent : t.input_transfer_amount ≡ result.input_amount + t.input_transfer_fee
    pub sent_fits : t.input_transfer_amount ≤ u64_max
    pub limit : t.input_transfer_amount ≤ max
    pub settled : settle spl chain a params result t false before after bank ≡ ok o

  check_input-ok :
      (r : SwapResult) (max : ℕ) {inp : ℕ × ℕ}
      → check_input spl chain a r max ≡ ok inp
      → (0 < r.input_amount)
        × (get_transfer_inverse_fee spl chain.epoch a.input_token_mint r.input_amount ≡ ok inp.1)
        × (inp.0 ≡ r.input_amount + inp.1)
        × (inp.0 ≤ u64_max)
        × (inp.0 ≤ max)
  unfolding check_input
  check_input-ok r max {inp} h = take_apart (narrow r.input_amount) h λ amount e1 h1.
      take_apart (require (ltb 0 amount) _) h1 λ _ e2 h2.
        take_apart (get_transfer_inverse_fee spl chain.epoch a.input_token_mint amount) h2
          λ fee e3 h3. take_apart (unwrap (checked_add u64_max amount fee)) h3 λ whole e4 h4.
            take_apart (require (leb whole max) _) h4 λ _ e5 h5.
              let (same, _) = narrow-ok r.input_amount e1 in
              let (sum, whole_fits) = checked_add-ok u64_max amount fee (unwrap-ok _ e4) in
              let some_input = require-ok _ _ e2 in
              let enough = require-ok _ _ e5 in
              (ground arith, cc, ground arith, ground arith, ground arith)

  pub output_run :
      (max received : ℕ) {o : SwapOutcome Bank}
      → swap_base_output spl chain a max received bank ≡ ok o
      → OutputRun max received o
  unfolding swap_base_output
  output_run max received {o} h = take_apart (check_accounts chain a) h λ _ e1 h1.
      take_apart (require (ltb 0 received) _) h1 λ _ e2 h2.
        take_apart (check_open chain a.pool_state) h2 λ _ e3 h3.
          take_apart (get_transfer_inverse_fee spl chain.epoch a.output_token_mint received) h3
            λ fee e4 h4. take_apart (unwrap (checked_add u64_max received fee)) h4 λ whole e5 h5.
              take_apart
                (get_swap_params a.pool_state a.input_vault.key a.output_vault.key
                  a.input_vault.amount a.output_vault.amount)
                h5
                λ params e6 h6.
                  take_apart
                    (unwrap (
                      checked_mul u128_max params.total_input_token_amount
                        params.total_output_token_amount))
                    h6
                    λ before e7 h7.
                      take_apart (ok_or (quote_output whole params) _) h7 λ result e8 h8.
                        take_apart
                          (unwrap (
                            checked_mul u128_max result.new_input_vault_amount
                              result.new_output_vault_amount))
                          h8
                          λ after e9 h9.
                            take_apart (check_input spl chain a result max) h9 λ inp e10 h10.
                              take_apart (narrow result.output_amount) h10 λ output_amount e11 h11.
                                take_apart (require (output_amount == whole) _) h11 λ _ e12 h12.
                                  let (some_input, in_fee, sent, sent_fits, limit) =
                                    check_input-ok result max e10 in
                                  let asked = require-ok _ _ e2 in
                                  let (sum, fits) =
                                    checked_add-ok u64_max received fee (unwrap-ok _ e5) in
                                  let (same_before, _) =
                                    checked_mul-ok u128_max _ _ (unwrap-ok _ e7) in
                                  let (same_after, _) =
                                    checked_mul-ok u128_max _ _ (unwrap-ok _ e9) in
                                  record {
                                    params = params;
                                    result = result;
                                    t = record {
                                      input_transfer_amount = inp.0;
                                      input_transfer_fee = inp.1;
                                      output_transfer_amount = whole;
                                      output_transfer_fee = fee;
                                    };
                                    before = before;
                                    after = after;
                                    ready = record {
                                      open_pool = e3;
                                      got = e6;
                                      product_before = same_before;
                                      product_after = same_after;
                                    };
                                    asked = ground arith;
                                    out_fee = e4;
                                    paid_out = sum;
                                    fits = fits;
                                    quote = ok_or-ok _ _ e8;
                                    some_input = some_input;
                                    in_fee = in_fee;
                                    sent = sent;
                                    sent_fits = sent_fits;
                                    limit = limit;
                                    settled = h12;
                                  }
