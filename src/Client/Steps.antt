-- ===== src/Client/Steps.antt =====
-- What the client and the program have in common: the direction of a swap, the transfer fees, and
-- the event that reports the amounts.
use raydium_cp_swap.Base.{
  ℕ, Bool, not, Option, some, none, ok, unwrap, require, ◌≡◌, ◌≢◌, ◌∙◌, refl, sym, take_apart,
  ok_injective, leb, ◌==◌, ==_true, ==_false, Bool-cases, inl, inr, arith,
}
use raydium_cp_swap.Base.Words.{u64_max, checked_add, narrow}
use raydium_cp_swap.Error.{Error}
use raydium_cp_swap.Curve.Calculator.{TradeDirection, SwapResult}
use raydium_cp_swap.States.Pool.{
  PoolState, SwapParams, vault_amount_without_fee, token_price_x32, is_creator_fee_on_input,
  get_swap_params, params_zero_for_one, params_one_for_zero,
}
use raydium_cp_swap.States.Oracle
use raydium_cp_swap.Token
use raydium_cp_swap.Token.{fee_of, inverse_fee_of, checked_inverse_fee}
use raydium_cp_swap.Token.Interface.{Spl, Mint}
use raydium_cp_swap.Instructions.Context.{Chain}
use raydium_cp_swap.Instructions.Swap.{
  SwapAccounts, SwapOutcome, SwapTransfers, book_result, swap_event, settle, finish_swap,
  transfer_in, transfer_out, SwapEvent,
}
use raydium_cp_swap.Client.{get_transfer_fee, get_transfer_inverse_fee}

-- The totals and the side of the fee that `get_swap_params` finds in each direction.
pub zero_for_one-totals :
    (p : PoolState) (x y : ℕ) {s : SwapParams}
    → params_zero_for_one p x y ≡ ok s
    → (vault_amount_without_fee p x y
        ≡ ok (s.total_input_token_amount, s.total_output_token_amount))
      × (is_creator_fee_on_input p TradeDirection.zero_for_one ≡ ok s.is_creator_fee_on_input)
unfolding params_zero_for_one
zero_for_one-totals p x y {s} h = take_apart (vault_amount_without_fee p x y) h λ t e1 h1.
    take_apart (token_price_x32 p x y) h1 λ q e2 h2.
      take_apart (is_creator_fee_on_input p TradeDirection.zero_for_one) h2
        λ b e3 h3. simp (sym (ok_injective h3)) (e1, e3)

pub one_for_zero-totals :
    (p : PoolState) (x y : ℕ) {s : SwapParams}
    → params_one_for_zero p x y ≡ ok s
    → (vault_amount_without_fee p y x
        ≡ ok (s.total_output_token_amount, s.total_input_token_amount))
      × (is_creator_fee_on_input p TradeDirection.one_for_zero ≡ ok s.is_creator_fee_on_input)
unfolding params_one_for_zero
one_for_zero-totals p x y {s} h = take_apart (vault_amount_without_fee p y x) h λ t e1 h1.
    take_apart (token_price_x32 p y x) h1 λ q e2 h2.
      take_apart (is_creator_fee_on_input p TradeDirection.one_for_zero) h2
        λ b e3 h3. simp (sym (ok_injective h3)) (e1, e3)

pub get_swap_params-zero_for_one :
    (p : PoolState) (key_in key_out x y : ℕ)
    → key_in ≡ p.token_0_vault
    → key_out ≡ p.token_1_vault
    → get_swap_params p key_in key_out x y ≡ params_zero_for_one p x y
unfolding get_swap_params
get_swap_params-zero_for_one p key_in key_out x y e f =
    rw (==_true key_in p.token_0_vault e, ==_true key_out p.token_1_vault f) refl

pub get_swap_params-one_for_zero :
    (p : PoolState) (key_in key_out x y : ℕ)
    → p.token_0_vault ≢ p.token_1_vault
    → key_in ≡ p.token_1_vault
    → key_out ≡ p.token_0_vault
    → get_swap_params p key_in key_out x y ≡ params_one_for_zero p x y
unfolding get_swap_params
get_swap_params-one_for_zero p key_in key_out x y two e f =
    rw
      (
        ==_false key_in p.token_0_vault (λ q. two (sym q ∙ e)),
        ==_true key_in p.token_1_vault e,
        ==_true key_out p.token_0_vault f,
      )
      refl

module _ (spl : Spl) (chain : Chain) where
  open spl use {MintData, FeeConfig, Bank, fee_config}

  -- A mint that unpacks; the classic token program has no extensions.
  pub record IsReadable (mint : Mint MintData) (config : Option FeeConfig) : Type 0 where
    pub reads : fee_config mint.content ≡ ok config
    pub classic : mint.owner ≡ spl.token_id → config ≡ none

  pub fee-agrees :
      (mint : Mint MintData) (config : Option FeeConfig) (n : ℕ) {fee : ℕ}
      → IsReadable mint config
      → Token.get_transfer_fee spl chain.epoch mint n ≡ ok fee
      → get_transfer_fee spl config chain.epoch n ≡ ok fee
  unfolding Token.get_transfer_fee fee_of get_transfer_fee
  fee-agrees mint config n readable h = elim (Bool-cases (mint.owner == spl.token_id)) [
    | inl old ↦
        let h' = rw old at h in let no_config = readable.classic (ground arith) in rw no_config h'
    | inr new ↦ by_config config (rw (new, readable.reads) at h)
  ]
    where
      by_config :
          (c : Option FeeConfig) {fee : ℕ}
          → fee_of spl chain.epoch c n ≡ ok fee
          → get_transfer_fee spl c chain.epoch n ≡ ok fee
      by_config none h = h
      by_config (some c) h = h

  pub inverse_fee-agrees :
      (mint : Mint MintData) (config : Option FeeConfig) (n : ℕ) {fee : ℕ}
      → IsReadable mint config
      → Token.get_transfer_inverse_fee spl chain.epoch mint n ≡ ok fee
      → get_transfer_inverse_fee spl config chain.epoch n ≡ ok fee
  unfolding Token.get_transfer_inverse_fee inverse_fee_of checked_inverse_fee
      get_transfer_inverse_fee
  inverse_fee-agrees mint config n readable h = elim (Bool-cases (mint.owner == spl.token_id)) [
    | inl old ↦
        let h' = rw old at h in let no_config = readable.classic (ground arith) in rw no_config h'
    | inr new ↦ take_apart (require (not (n == 0)) _) (rw new at h) λ _ e1 h1.
        take_apart (fee_config mint.content) h1
          λ c e2 h2. by_config config (rw (ok_injective (sym e2 ∙ readable.reads)) at h2)
  ]
    where
      by_config :
          (c : Option FeeConfig) {fee : ℕ}
          → inverse_fee_of spl chain.epoch c n ≡ ok fee
          → get_transfer_inverse_fee spl c chain.epoch n ≡ ok fee
      by_config none h = h
      by_config (some c) {fee} h =
          elim (Bool-cases (
            (spl.get_epoch_fee c chain.epoch).transfer_fee_basis_points
            == spl.max_fee_basis_points)) [
              | inl full ↦ rw full (rw full at h)
              | inr partial ↦ rw partial (
                  take_apart (unwrap (spl.calculate_inverse_epoch_fee c chain.epoch n))
                    (rw partial at h)
                    λ f e1 h1. take_apart (unwrap (checked_add u64_max n f)) h1 λ whole e2 h2.
                      take_apart (unwrap (spl.calculate_epoch_fee c chain.epoch whole)) h2
                        λ g e3 h3. take_apart (require (f == g) _) h3 λ _ e4 h4. e1 ∙ h4)
            ]

  -- The event of a swap has what was quoted.
  pub settle-event :
      (a : SwapAccounts MintData) (params : SwapParams) (r : SwapResult) (t : SwapTransfers)
      (base_input : Bool) (before after : ℕ) (bank : Bank) {o : SwapOutcome Bank}
      → settle spl chain a params r t base_input before after bank ≡ ok o
      → swap_event a params r t base_input ≡ ok o.event
  unfolding settle finish_swap
  settle-event a params r t base_input before after bank h =
      take_apart (book_result a.pool_state params r) h λ q e1 h1.
        take_apart (swap_event a params r t base_input) h1 λ event e2 h2.
          take_apart (require (leb before after) _) h2 λ _ e3 h3.
            take_apart
              (Token.transfer_from_user_to_pool_vault spl chain.epoch
                (transfer_in spl a t.input_transfer_amount) bank)
              h3
              λ paid e4 h4.
                take_apart
                  (Token.transfer_from_pool_vault_to_user spl chain.epoch
                    (transfer_out spl a t.output_transfer_amount) paid)
                  h4
                  λ last e5 h5.
                    take_apart
                      (Oracle.update a.observation_state chain.unix_timestamp
                        params.token_0_price_x64 params.token_1_price_x64)
                      h5 λ observed e6 h6. simp (sym (ok_injective h6)) e2

  pub event-amounts :
      (a : SwapAccounts MintData) (params : SwapParams) (r : SwapResult) (t : SwapTransfers)
      (base_input : Bool) {event : SwapEvent}
      → swap_event a params r t base_input ≡ ok event
      → (narrow {E = Error} r.input_amount ≡ ok event.input_amount)
        × (narrow {E = Error} r.output_amount ≡ ok event.output_amount)
        × (event.input_transfer_fee ≡ t.input_transfer_fee)
        × (event.output_transfer_fee ≡ t.output_transfer_fee)
  unfolding swap_event
  event-amounts a params r t base_input h = take_apart (narrow r.input_amount) h λ i e1 h1.
      take_apart (narrow r.output_amount) h1 λ u e2 h2.
        take_apart (narrow r.trade_fee) h2 λ f e3 h3.
          take_apart (narrow r.creator_fee) h3
            λ c e4 h4. simp (sym (ok_injective h4)) (e1, e2, refl, refl)
