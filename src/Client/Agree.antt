-- ===== src/Client/Agree.antt =====
-- The quotes of the client and what the handlers of the program do on the same accounts.
use raydium_cp_swap.Base.{
  ℕ, true, false, Option, ok, ◌+◌, ◌-◌, ◌≡◌, ◌≢◌, ◌∙◌, refl, sym, ==_true, ==_false, arith,
}
use raydium_cp_swap.Base.Words.{u64_max, checked_add-eq, checked_sub-eq, narrow-ok}
use raydium_cp_swap.Curve.Calculator.{TradeDirection}
use raydium_cp_swap.States.Pool.{is_creator_fee_on_input}
use raydium_cp_swap.States.Pool.Direction.{vault_in, vault_out}
use raydium_cp_swap.Token.Interface.{Spl}
use raydium_cp_swap.Instructions.Context.{Chain}
use raydium_cp_swap.Instructions.Swap.{SwapAccounts, SwapOutcome, swap_base_input, swap_base_output}
use raydium_cp_swap.Instructions.Swap.Steps.{input_run, output_run}
use raydium_cp_swap.Client.{Loaded, quote_in, quote_out, quote_swap_base_in, quote_swap_base_out}
use raydium_cp_swap.Client.Steps.{
  zero_for_one-totals, one_for_zero-totals, get_swap_params-zero_for_one,
  get_swap_params-one_for_zero, IsReadable, fee-agrees, inverse_fee-agrees, settle-event,
  event-amounts,
}

module _ (spl : Spl) (chain : Chain) where
  open spl use {MintData, FeeConfig, Bank}

  -- The accounts as the client loads them for a swap in a direction.
  abbrev pub seen : TradeDirection → SwapAccounts MintData → Loaded MintData
  seen TradeDirection.zero_for_one a = record {
    pool_state = a.pool_state;
    amm_config = a.amm_config;
    token_0_vault = a.input_vault;
    token_1_vault = a.output_vault;
    token_0_mint = a.input_token_mint;
    token_1_mint = a.output_token_mint;
    user_input_mint = a.input_token_account.mint;
  }
  seen TradeDirection.one_for_zero a = record {
    pool_state = a.pool_state;
    amm_config = a.amm_config;
    token_0_vault = a.output_vault;
    token_1_vault = a.input_vault;
    token_0_mint = a.output_token_mint;
    token_1_mint = a.input_token_mint;
    user_input_mint = a.input_token_account.mint;
  }

  -- The vaults and the mints of a swap in a direction, on a pool of two vaults with two mints.
  pub record IsSeen (d : TradeDirection) (a : SwapAccounts MintData)
      (config_in config_out : Option FeeConfig) : Type 0 where
    pub two_vaults : a.pool_state.token_0_vault ≢ a.pool_state.token_1_vault
    pub key_in : a.input_vault.key ≡ vault_in d a.pool_state
    pub key_out : a.output_vault.key ≡ vault_out d a.pool_state
    pub mint_in : a.input_token_account.mint ≡ a.input_vault.mint
    pub two_mints : a.input_vault.mint ≢ a.output_vault.mint
    pub readable_in : IsReadable spl chain a.input_token_mint config_in
    pub readable_out : IsReadable spl chain a.output_token_mint config_out

  -- From the same totals and side of the fee, both come to the same amounts.
  quote_in-agrees :
      (l : Loaded MintData) (d : TradeDirection) (a : SwapAccounts MintData)
      (config_in config_out : Option FeeConfig) (amount_in minimum : ℕ) (bank : Bank)
      {o : SwapOutcome Bank}
      → l.pool_state ≡ a.pool_state
      → l.amm_config ≡ a.amm_config
      → IsReadable spl chain a.input_token_mint config_in
      → IsReadable spl chain a.output_token_mint config_out
      → (h : swap_base_input spl chain a amount_in minimum bank ≡ ok o)
      → is_creator_fee_on_input a.pool_state d
        ≡ ok (input_run spl chain a bank amount_in minimum h).params.is_creator_fee_on_input
      → quote_in spl l d config_in config_out
          (input_run spl chain a bank amount_in minimum h).params.total_input_token_amount
          (input_run spl chain a bank amount_in minimum h).params.total_output_token_amount
          chain.epoch
          amount_in
        ≡ ok (o.event.output_amount - o.event.output_transfer_fee)
  unfolding quote_in
  quote_in-agrees l d a config_in config_out amount_in minimum bank {o} same_pool same_config
        readable_in readable_out h side =
      let run = input_run spl chain a bank amount_in minimum h in
      let (_, out, _, out_fee) = event-amounts spl chain a run.params run.result run.t true (
        settle-event spl chain a run.params run.result run.t true run.before run.after bank
          run.settled) in
      let (narrowed, _) = narrow-ok run.result.output_amount out in
      let paid = run.paid_out in
      let less = run.some_received in
      let is_out : o.event.output_amount ≡ run.t.output_transfer_amount = omega arith in
      let fee_out =
        fee-agrees spl chain a.output_token_mint config_out run.t.output_transfer_amount
          readable_out run.out_fee in
      rw
        (
          same_pool,
          same_config,
          fee-agrees spl chain a.input_token_mint config_in amount_in readable_in run.fee,
          side,
          run.quote,
          out,
          is_out,
          fee_out,
          checked_sub-eq run.t.output_transfer_amount run.t.output_transfer_fee (omega arith),
          out_fee,
        )
        refl

  quote_out-agrees :
      (l : Loaded MintData) (d : TradeDirection) (a : SwapAccounts MintData)
      (config_in config_out : Option FeeConfig) (max received : ℕ) (bank : Bank)
      {o : SwapOutcome Bank}
      → l.pool_state ≡ a.pool_state
      → l.amm_config ≡ a.amm_config
      → IsReadable spl chain a.input_token_mint config_in
      → IsReadable spl chain a.output_token_mint config_out
      → (h : swap_base_output spl chain a max received bank ≡ ok o)
      → is_creator_fee_on_input a.pool_state d
        ≡ ok (output_run spl chain a bank max received h).params.is_creator_fee_on_input
      → quote_out spl l d config_in config_out
          (output_run spl chain a bank max received h).params.total_input_token_amount
          (output_run spl chain a bank max received h).params.total_output_token_amount
          chain.epoch
          received
        ≡ ok (o.event.input_amount + o.event.input_transfer_fee)
  unfolding quote_out
  quote_out-agrees l d a config_in config_out max received bank {o} same_pool same_config
        readable_in readable_out h side =
      let run = output_run spl chain a bank max received h in
      let (inp, _, in_fee, _) = event-amounts spl chain a run.params run.result run.t false (
        settle-event spl chain a run.params run.result run.t false run.before run.after bank
          run.settled) in
      let (narrowed, _) = narrow-ok run.result.input_amount inp in
      let whole = run.paid_out in
      let fits = run.fits in
      let sent = run.sent in
      let sent_fits = run.sent_fits in
      rw
        (
          same_pool,
          same_config,
          inverse_fee-agrees spl chain a.output_token_mint config_out received readable_out
              run.out_fee,
          checked_add-eq u64_max received run.t.output_transfer_fee (omega arith),
          side,
          ← whole,
          run.quote,
          inp,
          narrowed,
          inverse_fee-agrees spl chain a.input_token_mint config_in run.result.input_amount
              readable_in run.in_fee,
          checked_add-eq u64_max run.result.input_amount run.t.input_transfer_fee (omega arith),
          in_fee,
        )
        refl

  -- On the accounts that a `swap_base_input` succeeds on, with a user's account of the mint of the input
  -- vault, two different vaults and two different mints that unpack, the client's quote for the
  -- exact input is the amount that the program reports as paid out, less the transfer fee.
  pub quote_swap_base_in-agrees :
      (d : TradeDirection) (a : SwapAccounts MintData) (config_in config_out : Option FeeConfig)
      (amount_in minimum : ℕ) (bank : Bank) {o : SwapOutcome Bank}
      → IsSeen d a config_in config_out
      → swap_base_input spl chain a amount_in minimum bank ≡ ok o
      → quote_swap_base_in spl (seen d a) chain.epoch amount_in
        ≡ ok (o.event.output_amount - o.event.output_transfer_fee)
  unfolding quote_swap_base_in
  quote_swap_base_in-agrees TradeDirection.zero_for_one a config_in config_out amount_in minimum
        bank i h =
      let run = input_run spl chain a bank amount_in minimum h in
      let (totals, side) =
        zero_for_one-totals a.pool_state a.input_vault.amount a.output_vault.amount (
          sym (
            get_swap_params-zero_for_one a.pool_state a.input_vault.key a.output_vault.key
              a.input_vault.amount a.output_vault.amount i.key_in i.key_out)
          ∙ run.ready.got) in
      rw
        (
          i.readable_in.reads,
          i.readable_out.reads,
          totals,
          ==_true a.input_token_account.mint a.input_vault.mint i.mint_in,
        )
        (quote_in-agrees (seen TradeDirection.zero_for_one a) TradeDirection.zero_for_one a
          config_in config_out amount_in minimum bank refl refl i.readable_in i.readable_out h side)
  quote_swap_base_in-agrees TradeDirection.one_for_zero a config_in config_out amount_in minimum
        bank i h =
      let run = input_run spl chain a bank amount_in minimum h in
      let (totals, side) =
        one_for_zero-totals a.pool_state a.input_vault.amount a.output_vault.amount (
          sym (
            get_swap_params-one_for_zero a.pool_state a.input_vault.key a.output_vault.key
              a.input_vault.amount a.output_vault.amount i.two_vaults i.key_in i.key_out)
          ∙ run.ready.got) in
      rw
        (
          i.readable_out.reads,
          i.readable_in.reads,
          totals,
          ==_false a.input_token_account.mint a.output_vault.mint
              (λ q. i.two_mints (sym i.mint_in ∙ q)),
        )
        (quote_in-agrees (seen TradeDirection.one_for_zero a) TradeDirection.one_for_zero a
          config_in config_out amount_in minimum bank refl refl i.readable_in i.readable_out h side)

  -- Under the same conditions, the client's quote for an exact output of a `swap_base_output` that
  -- succeeds is the amount that the program reports as taken in, with the transfer fee.
  pub quote_swap_base_out-agrees :
      (d : TradeDirection) (a : SwapAccounts MintData) (config_in config_out : Option FeeConfig)
      (max received : ℕ) (bank : Bank) {o : SwapOutcome Bank}
      → IsSeen d a config_in config_out
      → swap_base_output spl chain a max received bank ≡ ok o
      → quote_swap_base_out spl (seen d a) chain.epoch received
        ≡ ok (o.event.input_amount + o.event.input_transfer_fee)
  unfolding quote_swap_base_out
  quote_swap_base_out-agrees TradeDirection.zero_for_one a config_in config_out max received bank i
        h =
      let run = output_run spl chain a bank max received h in
      let (totals, side) =
        zero_for_one-totals a.pool_state a.input_vault.amount a.output_vault.amount (
          sym (
            get_swap_params-zero_for_one a.pool_state a.input_vault.key a.output_vault.key
              a.input_vault.amount a.output_vault.amount i.key_in i.key_out)
          ∙ run.ready.got) in
      rw
        (
          i.readable_in.reads,
          i.readable_out.reads,
          totals,
          ==_true a.input_token_account.mint a.input_vault.mint i.mint_in,
        )
        (quote_out-agrees (seen TradeDirection.zero_for_one a) TradeDirection.zero_for_one a
          config_in config_out max received bank refl refl i.readable_in i.readable_out h side)
  quote_swap_base_out-agrees TradeDirection.one_for_zero a config_in config_out max received bank i
        h =
      let run = output_run spl chain a bank max received h in
      let (totals, side) =
        one_for_zero-totals a.pool_state a.input_vault.amount a.output_vault.amount (
          sym (
            get_swap_params-one_for_zero a.pool_state a.input_vault.key a.output_vault.key
              a.input_vault.amount a.output_vault.amount i.two_vaults i.key_in i.key_out)
          ∙ run.ready.got) in
      rw
        (
          i.readable_out.reads,
          i.readable_in.reads,
          totals,
          ==_false a.input_token_account.mint a.output_vault.mint
              (λ q. i.two_mints (sym i.mint_in ∙ q)),
        )
        (quote_out-agrees (seen TradeDirection.one_for_zero a) TradeDirection.one_for_zero a
          config_in config_out max received bank refl refl i.readable_in i.readable_out h side)
