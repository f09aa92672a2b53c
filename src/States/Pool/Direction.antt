-- ===== src/States/Pool/Direction.antt =====
-- Which token a swap of pool.rs takes the creator fee from, and the two directions of a swap.
use raydium_cp_swap.Base.{ℕ, ◌+◌, ◌≡◌, refl, Bool, true, false, arith, ok, take_apart}
use raydium_cp_swap.Curve.Calculator.{TradeDirection}
use raydium_cp_swap.States.Pool.{
  PoolState, CreatorFeeOn, SwapParams, from_u8, to_u8, vault_amount_without_fee, token_price_x32,
  is_creator_fee_on_input, get_swap_params, params_zero_for_one, params_one_for_zero,
}
use raydium_cp_swap.States.Pool.Fees.{fees_in, fees_out, vault_amount-ok}

-- A fee model survives the byte that stores it, and every byte that reads as a model is the byte
-- of that model.
pub from_u8-to_u8 :
    (m : CreatorFeeOn) (n : ℕ) → (from_u8 (to_u8 m) ≡ ok m) × (from_u8 n ≡ ok m → to_u8 m ≡ n)
unfolding from_u8 to_u8
from_u8-to_u8 CreatorFeeOn.both_token n = (refl, λ h. ground arith)
from_u8-to_u8 CreatorFeeOn.only_token_0 n = (refl, λ h. ground arith)
from_u8-to_u8 CreatorFeeOn.only_token_1 n = (refl, λ h. ground arith)

-- Does the fee on this side of a swap fall on token 0?
abbrev pub fee_is_token_0 : TradeDirection → Bool → Bool
fee_is_token_0 TradeDirection.zero_for_one on_input = on_input
fee_is_token_0 TradeDirection.one_for_zero true = false
fee_is_token_0 TradeDirection.one_for_zero false = true

abbrev pub input_is_token_0 : TradeDirection → Bool
input_is_token_0 TradeDirection.zero_for_one = true
input_is_token_0 TradeDirection.one_for_zero = false

-- The token that the model charges for a swap in this direction: is it token 0?
abbrev pub charged_token_0 : CreatorFeeOn → TradeDirection → Bool
charged_token_0 CreatorFeeOn.both_token direction = input_is_token_0 direction
charged_token_0 CreatorFeeOn.only_token_0 direction = true
charged_token_0 CreatorFeeOn.only_token_1 direction = false

-- For every stored fee model, `is_creator_fee_on_input` succeeds, and the side that it names is the
-- one of the token that the model charges: the input token of the swap for `BothToken`, and the
-- fixed token for the other two.
pub creator_fee_token :
    (p : PoolState) (m : CreatorFeeOn) (direction : TradeDirection)
    → p.creator_fee_on ≡ to_u8 m
    → (b : Bool) × (is_creator_fee_on_input p direction ≡ ok b)
      × (fee_is_token_0 direction b ≡ charged_token_0 m direction)
unfolding is_creator_fee_on_input from_u8 to_u8
creator_fee_token p CreatorFeeOn.both_token TradeDirection.zero_for_one h =
    (true, ground arith, refl)
creator_fee_token p CreatorFeeOn.both_token TradeDirection.one_for_zero h =
    (true, ground arith, refl)
creator_fee_token p CreatorFeeOn.only_token_0 TradeDirection.zero_for_one h =
    (true, ground arith, refl)
creator_fee_token p CreatorFeeOn.only_token_0 TradeDirection.one_for_zero h =
    (false, ground arith, refl)
creator_fee_token p CreatorFeeOn.only_token_1 TradeDirection.zero_for_one h =
    (false, ground arith, refl)
creator_fee_token p CreatorFeeOn.only_token_1 TradeDirection.one_for_zero h =
    (true, ground arith, refl)

-- The vault that a swap in this direction pays into, and the one that it pays from.
abbrev pub vault_in : TradeDirection → PoolState → ℕ
vault_in TradeDirection.zero_for_one p = p.token_0_vault
vault_in TradeDirection.one_for_zero p = p.token_1_vault

abbrev pub vault_out : TradeDirection → PoolState → ℕ
vault_out TradeDirection.zero_for_one p = p.token_1_vault
vault_out TradeDirection.one_for_zero p = p.token_0_vault

-- What `get_swap_params` returns belongs together: the direction is that of the two vaults, the
-- totals are the vaults less the fees owed of each token, and the side of the creator fee is that
-- of this direction.
pub record IsParams (p : PoolState) (key_in key_out amount_in amount_out : ℕ) (s : SwapParams)
    : Type 0 where
  pub from : key_in ≡ vault_in s.trade_direction p
  pub into : key_out ≡ vault_out s.trade_direction p
  pub total_in : s.total_input_token_amount + fees_in s.trade_direction p ≡ amount_in
  pub total_out : s.total_output_token_amount + fees_out s.trade_direction p ≡ amount_out
  pub side : is_creator_fee_on_input p s.trade_direction ≡ ok s.is_creator_fee_on_input

zero_for_one-IsParams :
    (p : PoolState) (a b : ℕ) {s : SwapParams}
    → params_zero_for_one p a b ≡ ok s
    → IsParams p p.token_0_vault p.token_1_vault a b s
unfolding params_zero_for_one
zero_for_one-IsParams p a b h = take_apart (vault_amount_without_fee p a b) h λ v e1 h1.
    take_apart (token_price_x32 p a b) h1 λ prices e2 h2.
      take_apart (is_creator_fee_on_input p TradeDirection.zero_for_one) h2
        λ on_input e3 h3. ground (arith, vault_amount-ok p a b {a = v.0} {b = v.1})

one_for_zero-IsParams :
    (p : PoolState) (a b : ℕ) {s : SwapParams}
    → params_one_for_zero p a b ≡ ok s
    → IsParams p p.token_1_vault p.token_0_vault a b s
unfolding params_one_for_zero
one_for_zero-IsParams p a b h = take_apart (vault_amount_without_fee p b a) h λ v e1 h1.
    take_apart (token_price_x32 p b a) h1 λ prices e2 h2.
      take_apart (is_creator_fee_on_input p TradeDirection.one_for_zero) h2
        λ on_input e3 h3. ground (arith, vault_amount-ok p b a {a = v.0} {b = v.1})

-- When `get_swap_params` succeeds, the vault keys are the pool's two vaults in the direction that it
-- returns, the totals are the vaults' amounts less the fees owed of each token, and the side of the
-- creator fee is that of the direction.
pub get_swap_params-IsParams :
    (p : PoolState) (key_in key_out a b : ℕ) {s : SwapParams}
    → get_swap_params p key_in key_out a b ≡ ok s
    → IsParams p key_in key_out a b s
unfolding get_swap_params
get_swap_params-IsParams p key_in key_out a b {s} h =
    ground (arith, zero_for_one-IsParams p a b {s = s}, one_for_zero-IsParams p a b {s = s})
