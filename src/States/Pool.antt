-- ===== src/States/Pool.antt =====
-- programs/cp-swap/src/states/pool.rs: the pool account (less its padding) and its methods. A method
-- on `&mut self` returns the new state. Addresses are numbers, since they are only compared.
pub mod Status
pub mod Fees
pub mod Direction
pub mod Start
use Prim.Native.Nat.{bit_and, bit_or, bit_xor}
use raydium_cp_swap.Base.{
  ℕ, ◌^◌, Bool, true, false, not, ◌&&◌, ◌||◌, Result, ok, err, panic, ok_or, unwrap, require, ◌>>=◌,
  ◌>>◌, ◌==◌, if◌then◌else◌,
}
use raydium_cp_swap.Base.Words.{u64_max, u128_max, checked_add, checked_sub, mul, div}
use raydium_cp_swap.Error.{Error, ErrorCode}
use raydium_cp_swap.Curve.Calculator.{TradeDirection}

abbrev pub q32 : ℕ
q32 = 2 ^ 32

pub data PoolStatusBitIndex : Type 0 where
  deposit withdraw swap : PoolStatusBitIndex

pub data PoolStatusBitFlag : Type 0 where
  enable disable : PoolStatusBitFlag

pub data CreatorFeeOn : Type 0 where
  both_token only_token_0 only_token_1 : CreatorFeeOn

unfoldable pub from_u8 : ℕ → Result Error CreatorFeeOn
from_u8 value =
    if value == 0
    then ok CreatorFeeOn.both_token
    else if value == 1
    then ok CreatorFeeOn.only_token_0
    else if value == 2
    then ok CreatorFeeOn.only_token_1
    else err (Error.code ErrorCode.invalid_fee_model)

unfoldable pub to_u8 : CreatorFeeOn → ℕ
to_u8 CreatorFeeOn.both_token = 0
to_u8 CreatorFeeOn.only_token_0 = 1
to_u8 CreatorFeeOn.only_token_1 = 2

pub record SwapParams : Type 0 where
  pub trade_direction : TradeDirection
  pub total_input_token_amount : ℕ
  pub total_output_token_amount : ℕ
  pub token_0_price_x64 : ℕ
  pub token_1_price_x64 : ℕ
  pub is_creator_fee_on_input : Bool

pub record PoolState : Type 0 where
  pub amm_config : ℕ
  pub pool_creator : ℕ
  pub token_0_vault : ℕ
  pub token_1_vault : ℕ
  pub lp_mint : ℕ
  pub token_0_mint : ℕ
  pub token_1_mint : ℕ
  pub token_0_program : ℕ
  pub token_1_program : ℕ
  pub observation_key : ℕ
  pub auth_bump : ℕ
  pub status : ℕ
  pub lp_mint_decimals : ℕ
  pub mint_0_decimals : ℕ
  pub mint_1_decimals : ℕ
  pub lp_supply : ℕ
  pub protocol_fees_token_0 : ℕ
  pub protocol_fees_token_1 : ℕ
  pub fund_fees_token_0 : ℕ
  pub fund_fees_token_1 : ℕ
  pub open_time : ℕ
  pub recent_epoch : ℕ
  pub creator_fee_on : ℕ
  pub enable_creator_fee : Bool
  pub creator_fees_token_0 : ℕ
  pub creator_fees_token_1 : ℕ

unfoldable pub set_status : PoolState → ℕ → PoolState
set_status self status = record self { status = status }

-- `1 << (bit as u8)`
abbrev pub status_bit : PoolStatusBitIndex → ℕ
status_bit PoolStatusBitIndex.deposit = 1
status_bit PoolStatusBitIndex.withdraw = 2
status_bit PoolStatusBitIndex.swap = 4

unfoldable pub set_status_by_bit : PoolState → PoolStatusBitIndex → PoolStatusBitFlag → PoolState
set_status_by_bit self bit PoolStatusBitFlag.disable = record self {
  status = bit_or self.status (status_bit bit);
}
set_status_by_bit self bit PoolStatusBitFlag.enable = record self {
  status = bit_and self.status (bit_xor 255 (status_bit bit));
}

unfoldable pub get_status_by_bit : PoolState → PoolStatusBitIndex → Bool
get_status_by_bit self bit = bit_and self.status (status_bit bit) == 0

-- The fees of one token that are owed and still lie in its vault.
owed : ℕ → ℕ → ℕ → Result Error ℕ
owed protocol_fees fund_fees creator_fees = do
  sum ← ok_or (checked_add u64_max protocol_fees fund_fees) (Error.code ErrorCode.math_overflow)
  ok_or (checked_add u64_max sum creator_fees) (Error.code ErrorCode.math_overflow)

unfoldable pub vault_amount_without_fee : PoolState → ℕ → ℕ → Result Error (ℕ × ℕ)
unfolding owed
vault_amount_without_fee self vault_0 vault_1 = do
  fees_0 ← owed self.protocol_fees_token_0 self.fund_fees_token_0 self.creator_fees_token_0
  fees_1 ← owed self.protocol_fees_token_1 self.fund_fees_token_1 self.creator_fees_token_1
  amount_0 ← ok_or (checked_sub vault_0 fees_0) (Error.code ErrorCode.insufficient_vault)
  amount_1 ← ok_or (checked_sub vault_1 fees_1) (Error.code ErrorCode.insufficient_vault)
  ok (amount_0, amount_1)

-- Plain `u128` arithmetic: an empty vault makes a division panic.
unfoldable pub token_price_x32 : PoolState → ℕ → ℕ → Result Error (ℕ × ℕ)
token_price_x32 self vault_0 vault_1 = do
  (token_0_amount, token_1_amount) ← vault_amount_without_fee self vault_0 vault_1
  scaled_1 ← mul u128_max token_1_amount q32
  price_0 ← div scaled_1 token_0_amount
  scaled_0 ← mul u128_max token_0_amount q32
  price_1 ← div scaled_0 token_1_amount
  ok (price_0, price_1)

unfoldable pub update_lp_supply : PoolState → ℕ → Bool → ℕ → Result Error PoolState
update_lp_supply self liquidity_delta true recent_epoch = do
  lp_supply ←
      ok_or (checked_add u64_max self.lp_supply liquidity_delta)
        (Error.code ErrorCode.math_overflow)
  ok (record self { lp_supply = lp_supply; recent_epoch = recent_epoch })
update_lp_supply self liquidity_delta false recent_epoch = do
  lp_supply ←
      ok_or (checked_sub self.lp_supply liquidity_delta) (Error.code ErrorCode.math_overflow)
  ok (record self { lp_supply = lp_supply; recent_epoch = recent_epoch })

-- `match (fee_on, direction)`
fee_on_input : CreatorFeeOn → TradeDirection → Bool
fee_on_input CreatorFeeOn.both_token direction = true
fee_on_input CreatorFeeOn.only_token_0 TradeDirection.zero_for_one = true
fee_on_input CreatorFeeOn.only_token_1 TradeDirection.one_for_zero = true
fee_on_input CreatorFeeOn.only_token_0 TradeDirection.one_for_zero = false
fee_on_input CreatorFeeOn.only_token_1 TradeDirection.zero_for_one = false

unfoldable pub is_creator_fee_on_input : PoolState → TradeDirection → Result Error Bool
unfolding fee_on_input
is_creator_fee_on_input self direction = do
  fee_on ← from_u8 self.creator_fee_on
  ok (fee_on_input fee_on direction)

-- The branch of `get_swap_params` for token 0 in, and the one for token 1 in.
unfoldable pub params_zero_for_one : PoolState → ℕ → ℕ → Result Error SwapParams
params_zero_for_one self input_vault_amount output_vault_amount = do
  (total_input, total_output) ← vault_amount_without_fee self input_vault_amount output_vault_amount
  (price_0, price_1) ← token_price_x32 self input_vault_amount output_vault_amount
  on_input ← is_creator_fee_on_input self TradeDirection.zero_for_one
  ok (record {
    trade_direction = TradeDirection.zero_for_one;
    total_input_token_amount = total_input;
    total_output_token_amount = total_output;
    token_0_price_x64 = price_0;
    token_1_price_x64 = price_1;
    is_creator_fee_on_input = on_input;
  })

unfoldable pub params_one_for_zero : PoolState → ℕ → ℕ → Result Error SwapParams
params_one_for_zero self input_vault_amount output_vault_amount = do
  (total_output, total_input) ← vault_amount_without_fee self output_vault_amount input_vault_amount
  (price_0, price_1) ← token_price_x32 self output_vault_amount input_vault_amount
  on_input ← is_creator_fee_on_input self TradeDirection.one_for_zero
  ok (record {
    trade_direction = TradeDirection.one_for_zero;
    total_input_token_amount = total_input;
    total_output_token_amount = total_output;
    token_0_price_x64 = price_0;
    token_1_price_x64 = price_1;
    is_creator_fee_on_input = on_input;
  })

unfoldable pub get_swap_params : PoolState → ℕ → ℕ → ℕ → ℕ → Result Error SwapParams
get_swap_params self input_vault_key output_vault_key input_vault_amount output_vault_amount =
    if input_vault_key == self.token_0_vault && output_vault_key == self.token_1_vault
    then params_zero_for_one self input_vault_amount output_vault_amount
    else if input_vault_key == self.token_1_vault && output_vault_key == self.token_0_vault
    then params_one_for_zero self input_vault_amount output_vault_amount
    else err (Error.code ErrorCode.invalid_vault)

unfoldable pub adjust_creator_fee_rate : PoolState → ℕ → ℕ
adjust_creator_fee_rate self creator_fee_rate =
    if self.enable_creator_fee then creator_fee_rate else 0

-- The creator fee goes to the input token's counter or to the output token's.
add_creator_fee_0 : PoolState → ℕ → Result Error PoolState
add_creator_fee_0 self creator_fee = do
  creator_fees ← unwrap (checked_add u64_max self.creator_fees_token_0 creator_fee)
  ok (record self { creator_fees_token_0 = creator_fees })

add_creator_fee_1 : PoolState → ℕ → Result Error PoolState
add_creator_fee_1 self creator_fee = do
  creator_fees ← unwrap (checked_add u64_max self.creator_fees_token_1 creator_fee)
  ok (record self { creator_fees_token_1 = creator_fees })

-- `match direction`
book_fees : PoolState → ℕ → ℕ → ℕ → Bool → TradeDirection → Result Error PoolState
unfolding add_creator_fee_0 add_creator_fee_1
book_fees self protocol_fee fund_fee creator_fee on_input TradeDirection.zero_for_one = do
  protocol_fees ← unwrap (checked_add u64_max self.protocol_fees_token_0 protocol_fee)
  fund_fees ← unwrap (checked_add u64_max self.fund_fees_token_0 fund_fee)
  let booked = record self { protocol_fees_token_0 = protocol_fees; fund_fees_token_0 = fund_fees }
  if on_input then add_creator_fee_0 booked creator_fee else add_creator_fee_1 booked creator_fee
book_fees self protocol_fee fund_fee creator_fee on_input TradeDirection.one_for_zero = do
  protocol_fees ← unwrap (checked_add u64_max self.protocol_fees_token_1 protocol_fee)
  fund_fees ← unwrap (checked_add u64_max self.fund_fees_token_1 fund_fee)
  let booked = record self { protocol_fees_token_1 = protocol_fees; fund_fees_token_1 = fund_fees }
  if on_input then add_creator_fee_1 booked creator_fee else add_creator_fee_0 booked creator_fee

unfoldable pub update_fees : PoolState → ℕ → ℕ → ℕ → TradeDirection → Result Error PoolState
unfolding book_fees
update_fees self protocol_fee fund_fee creator_fee direction = do
  require (self.enable_creator_fee || creator_fee == 0) Error.require_eq_violated
  on_input ← is_creator_fee_on_input self direction
  book_fees self protocol_fee fund_fee creator_fee on_input direction
