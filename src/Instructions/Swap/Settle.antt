-- ===== src/Instructions/Swap/Settle.antt =====
-- What the steps from `update_fees` on leave, in the two swap handlers: the counters of the fees and
-- the balances of the vaults.
use raydium_cp_swap.Base.{
  ℕ, ◌+◌, ◌≤◌, ◌<◌, ◌≡◌, ◌≢◌, refl, sym, ◌∙◌, Bool, true, false, ok, take_apart, arith, leb,
  require, if◌then◌else◌,
}
use raydium_cp_swap.Base.Words.{narrow, narrow-ok}
use raydium_cp_swap.Curve.Calculator.{SwapResult, TradeDirection}
use raydium_cp_swap.Curve.Calculator.Swaps.{IsBalanced}
use raydium_cp_swap.Curve.Calculator.Charges.{input_fees, output_fees}
use raydium_cp_swap.States.Pool.{PoolState, SwapParams}
use raydium_cp_swap.States.Pool.Fees.{fees_in, fees_out, KeepsPool, update_fees_lem, IsBooked-owed}
use raydium_cp_swap.States.Pool.Direction.{vault_in, vault_out, IsParams}
use raydium_cp_swap.States.Oracle
use raydium_cp_swap.Token.{
  get_transfer_fee, transfer_from_user_to_pool_vault, transfer_from_pool_vault_to_user,
}
use raydium_cp_swap.Token.Interface.{Spl}
use raydium_cp_swap.Token.Transfers.{IsTokenProgram, user_to_vault-ok, vault_to_user-ok}
use raydium_cp_swap.Instructions.Context.{Chain}
use raydium_cp_swap.Instructions.Swap.{
  SwapAccounts, SwapOutcome, SwapTransfers, SwapEvent, transfer_in, transfer_out, finish_swap,
  settle, book_result, swap_event,
}

-- Where the result books its fees.
book_result-ok :
    (p : PoolState) (params : SwapParams) (r : SwapResult) {q : PoolState} {key_in key_out x y : ℕ}
    → book_result p params r ≡ ok q
    → IsParams p key_in key_out x y params
    → (fees_in params.trade_direction q
        ≡ fees_in params.trade_direction p
          + r.protocol_fee
          + r.fund_fee
          + (if params.is_creator_fee_on_input then r.creator_fee else 0))
      × (fees_out params.trade_direction q
          ≡ fees_out params.trade_direction p
            + (if params.is_creator_fee_on_input then 0 else r.creator_fee))
      × KeepsPool p q
unfolding book_result
book_result-ok p params r {q} h v = take_apart (narrow r.protocol_fee) h λ a e1 h1.
    take_apart (narrow r.fund_fee) h1 λ b e2 h2. take_apart (narrow r.creator_fee) h2 λ c e3 h3.
      let (same_a, _) = narrow-ok r.protocol_fee e1 in
      let (same_b, _) = narrow-ok r.fund_fee e2 in
      let (same_c, _) = narrow-ok r.creator_fee e3 in
      let d = params.trade_direction in
      let on_input = params.is_creator_fee_on_input in
      let (booked, _) = update_fees_lem p a b c d on_input h3 v.side in
      let (owed_in, owed_out) = IsBooked-owed p a b c d on_input booked in
      rw (← same_a, ← same_b, ← same_c) (owed_in, owed_out, booked.kept)

-- The epoch is no part of the books.
fees_epoch :
    (d : TradeDirection) (p : PoolState) (e : ℕ)
    → (fees_in d (record p { recent_epoch = e }) ≡ fees_in d p)
      × (fees_out d (record p { recent_epoch = e }) ≡ fees_out d p)
fees_epoch TradeDirection.zero_for_one p e = (refl, refl)
fees_epoch TradeDirection.one_for_zero p e = (refl, refl)

-- The sums of one side.
close_in :
    (on_input : Bool)
    (new_in trade creator x inp protocol fund fee sent owed owed' vault vault' : ℕ)
    → new_in + input_fees on_input trade creator ≡ x + inp
    → protocol + fund ≤ trade
    → sent ≡ inp + fee
    → owed' ≡ owed + protocol + fund + (if on_input then creator else 0)
    → x + owed ≡ vault
    → vault' + fee ≡ vault + sent
    → new_in + owed' ≤ vault'
close_in true new_in trade creator x inp protocol fund fee sent owed owed' vault vault' a b c d e
      f =
    omega arith
close_in false new_in trade creator x inp protocol fund fee sent owed owed' vault vault' a b c d e
      f =
    omega arith

close_out :
    (on_input : Bool) (new_out creator y out sent owed owed' vault vault' : ℕ)
    → new_out + out + output_fees on_input creator ≡ y
    → sent ≡ out
    → owed' ≡ owed + (if on_input then 0 else creator)
    → y + owed ≡ vault
    → vault' + sent ≡ vault
    → new_out + owed' ≡ vault'
close_out true new_out creator y out sent owed owed' vault vault' a b c d e = omega arith
close_out false new_out creator y out sent owed owed' vault vault' a b c d e = omega arith

module _ (spl : Spl) (chain : Chain) (laws : IsTokenProgram spl chain.epoch) where
  open spl use {MintData, Bank, balance}

  -- The accounts were loaded from this bank, and the user's accounts are not the vaults.
  pub record IsLoaded (a : SwapAccounts MintData) (bank : Bank) : Type 0 where
    pub input_amount : balance bank a.input_vault.key ≡ a.input_vault.amount
    pub output_amount : balance bank a.output_vault.key ≡ a.output_vault.amount
    pub two_vaults : a.pool_state.token_0_vault ≢ a.pool_state.token_1_vault
    pub payer_apart :
        (a.input_token_account.key ≢ a.input_vault.key)
        × (a.input_token_account.key ≢ a.output_vault.key)
    pub receiver_apart :
        (a.output_token_account.key ≢ a.input_vault.key)
        × (a.output_token_account.key ≢ a.output_vault.key)

  -- What the two transfers do to the vaults.
  finish_swap-ok :
      (a : SwapAccounts MintData) (params : SwapParams) (t : SwapTransfers) (p : PoolState)
      (e : SwapEvent) (bank : Bank) {o : SwapOutcome Bank}
      → finish_swap spl chain a params t p e bank ≡ ok o
      → IsLoaded a bank
      → a.input_vault.key ≢ a.output_vault.key
      → 0 < t.input_transfer_amount
      → get_transfer_fee spl chain.epoch a.input_token_mint t.input_transfer_amount
        ≡ ok t.input_transfer_fee
      → (balance o.bank a.input_vault.key + t.input_transfer_fee
          ≡ a.input_vault.amount + t.input_transfer_amount)
        × (balance o.bank a.output_vault.key + t.output_transfer_amount ≡ a.output_vault.amount)
        × (o.pool_state ≡ record p { recent_epoch = chain.epoch })
  unfolding finish_swap
  finish_swap-ok a params t p e bank {o} h loaded ne some_amount fee =
      take_apart
        (transfer_from_user_to_pool_vault spl chain.epoch
          (transfer_in spl a t.input_transfer_amount) bank)
        h
        λ paid e1 h1.
          take_apart
            (transfer_from_pool_vault_to_user spl chain.epoch
              (transfer_out spl a t.output_transfer_amount) paid)
            h1
            λ last e2 h2.
              take_apart
                (Oracle.update a.observation_state chain.unix_timestamp params.token_0_price_x64
                  params.token_1_price_x64)
                h2
                λ observed e3 h3.
                  let (credit, same_out) =
                    user_to_vault-ok spl chain.epoch laws
                      (transfer_in spl a t.input_transfer_amount) bank paid t.input_transfer_fee
                      a.output_vault.key e1 loaded.payer_apart.0 some_amount fee in
                  let (debit, same_in) =
                    vault_to_user-ok spl chain.epoch laws
                      (transfer_out spl a t.output_transfer_amount) paid last a.input_vault.key e2
                      (λ q. loaded.receiver_apart.1 (sym q)) in
                  let kept_out = same_out (λ q. loaded.payer_apart.1 (sym q)) (λ q. ne (sym q)) in
                  let kept_in = same_in ne (λ q. loaded.receiver_apart.0 (sym q)) in
                  let bank_same : o.bank ≡ last = cc in
                  let in_amount = loaded.input_amount in
                  let out_amount = loaded.output_amount in
                  (
                    rw bank_same (omega (arith, credit, kept_in)),
                    rw bank_same (omega (arith, debit, kept_out)),
                    cc,
                  )

  vaults_differ :
      (a : SwapAccounts MintData) (params : SwapParams) {bank : Bank} {x y : ℕ}
      → IsLoaded a bank
      → IsParams a.pool_state a.input_vault.key a.output_vault.key x y params
      → a.input_vault.key ≢ a.output_vault.key
  vaults_differ a params loaded v = go params.trade_direction v.from v.into
    where
      go :
          (d : TradeDirection)
          → a.input_vault.key ≡ vault_in d a.pool_state
          → a.output_vault.key ≡ vault_out d a.pool_state
          → a.input_vault.key ≢ a.output_vault.key
      go TradeDirection.zero_for_one e f q = loaded.two_vaults (sym e ∙ q ∙ f)
      go TradeDirection.one_for_zero e f q = loaded.two_vaults (sym f ∙ sym q ∙ e)

  -- The two sides of a settled swap: the vaults hold the new reserves, at least, beside the fees.
  pub settle-ok :
      (a : SwapAccounts MintData) (params : SwapParams) (r : SwapResult) (t : SwapTransfers)
      (base_input : Bool) (before after inp out : ℕ) (bank : Bank) {o : SwapOutcome Bank}
      → settle spl chain a params r t base_input before after bank ≡ ok o
      → IsLoaded a bank
      → IsParams a.pool_state a.input_vault.key a.output_vault.key a.input_vault.amount
          a.output_vault.amount params
      → IsBalanced params.total_input_token_amount params.total_output_token_amount inp out
          params.is_creator_fee_on_input r
      → r.protocol_fee + r.fund_fee ≤ r.trade_fee
      → 0 < inp
      → t.input_transfer_amount ≡ inp + t.input_transfer_fee
      → t.output_transfer_amount ≡ out
      → get_transfer_fee spl chain.epoch a.input_token_mint t.input_transfer_amount
        ≡ ok t.input_transfer_fee
      → (r.new_input_vault_amount + fees_in params.trade_direction o.pool_state
          ≤ balance o.bank a.input_vault.key)
        × (r.new_output_vault_amount + fees_out params.trade_direction o.pool_state
            ≡ balance o.bank a.output_vault.key)
        × KeepsPool a.pool_state o.pool_state
  unfolding settle
  settle-ok a params r t base_input before after inp out bank {o} h loaded v b parts some_in sent
        paid fee =
      take_apart (book_result a.pool_state params r) h λ q e1 h1.
        take_apart (swap_event a params r t base_input) h1 λ event e2 h2.
          take_apart (require (leb before after) _) h2 λ _ e3 h3.
            let (grown_in, grown_out, kept) = book_result-ok a.pool_state params r e1 v in
            let (x, y, last) =
              finish_swap-ok a params t q event bank h3 loaded (vaults_differ a params loaded v)
                (omega arith) fee in
            let (epoch_in, epoch_out) = fees_epoch params.trade_direction q chain.epoch in
            let in_total = v.total_in in
            let out_total = v.total_out in
            let in_side = b.input_side in
            let out_side = b.output_side in
            rw (last, epoch_in, epoch_out)
              (
                close_in params.is_creator_fee_on_input _ _ _ _ _ _ _ _ _ _ _ _ _ in_side parts sent
                    grown_in in_total x,
                close_out params.is_creator_fee_on_input _ _ _ _ _ _ _ _ _ out_side paid grown_out
                    out_total y,
                record {
                  same_0 = kept.same_0;
                  same_1 = kept.same_1;
                  same_mint = kept.same_mint;
                  same_supply = kept.same_supply;
                  same_fee_on = kept.same_fee_on;
                  same_status = kept.same_status;
                },
              )
