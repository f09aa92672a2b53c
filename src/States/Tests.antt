-- ===== src/States/Tests.antt =====
-- The pool and the oracle on the sample accounts.
use raydium_cp_swap.Base.{
  ℕ, ◌+◌, ◌*◌, ◌%◌, ◌^◌, ◌<◌, ◌≡◌, ◌≢◌, ◌↔◌, ◌⊎◌, refl, Bool, true, false, ok, some, arith,
}
use raydium_cp_swap.Base.Lists.{get_elem?}
use raydium_cp_swap.Base.Words.{checked_add, checked_sub, mul, div}
use raydium_cp_swap.Curve.Calculator.{TradeDirection}
use raydium_cp_swap.States.Sample.{pool, ring, first_observation}
use raydium_cp_swap.States.Pool.{
  PoolState, PoolStatusBitIndex, PoolStatusBitFlag, CreatorFeeOn, SwapParams, set_status_by_bit,
  get_status_by_bit, from_u8, to_u8, vault_amount_without_fee, update_fees, is_creator_fee_on_input,
  get_swap_params, params_zero_for_one, token_price_x32,
}
use raydium_cp_swap.States.Pool.Status.{get-set_status_by_bit}
use raydium_cp_swap.States.Pool.Fees.{vault_amount_iff, update_fees_lem, fees_0, fees_1, IsBooked}
use raydium_cp_swap.States.Pool.Direction.{creator_fee_token, fee_is_token_0, charged_token_0}
use raydium_cp_swap.States.Oracle.{ObservationState, update}
use raydium_cp_swap.States.Oracle.Ring.{IsValid, IsSafe, update-IsSafe, update_accumulates}

get-set_status_by_bit_example :
    ((set_status_by_bit pool PoolStatusBitIndex.swap PoolStatusBitFlag.disable).status < 256)
    × (get_status_by_bit
          (set_status_by_bit pool PoolStatusBitIndex.swap PoolStatusBitFlag.disable)
          PoolStatusBitIndex.swap
        ≡ false)
get-set_status_by_bit_example =
    get-set_status_by_bit pool PoolStatusBitIndex.swap PoolStatusBitFlag.disable
      PoolStatusBitIndex.swap (omega arith)

vault_amount_iff_example :
    (vault_amount_without_fee pool 1_000_090 1_000_032 ≡ ok (1_000_000, 1_000_000))
    ↔ ((1_000_000 + fees_0 pool ≡ 1_000_090) × (1_000_000 + fees_1 pool ≡ 1_000_032))
vault_amount_iff_example =
    vault_amount_iff pool 1_000_090 1_000_032 1_000_000 1_000_000 (omega arith) (omega arith)

abbrev booked : PoolState
booked = record pool {
  protocol_fees_token_0 = 60;
  fund_fees_token_0 = 20;
  creator_fees_token_0 = 100;
}

on_input : is_creator_fee_on_input pool TradeDirection.zero_for_one ≡ ok true
unfolding is_creator_fee_on_input from_u8
on_input = refl

books : update_fees pool 30 10 50 TradeDirection.zero_for_one ≡ ok booked
unfolding update_fees is_creator_fee_on_input from_u8 checked_add
books = refl

update_fees_lem_example :
    IsBooked TradeDirection.zero_for_one pool 30 10 50 true booked
    × ((pool.enable_creator_fee ≡ true) ⊎ ◌≡◌ {A = ℕ} 50 0)
update_fees_lem_example =
    update_fees_lem pool 30 10 50 TradeDirection.zero_for_one true books on_input

stored_model : pool.creator_fee_on ≡ to_u8 CreatorFeeOn.both_token
unfolding to_u8
stored_model = refl

creator_fee_token_example :
    (b : Bool) × (is_creator_fee_on_input pool TradeDirection.one_for_zero ≡ ok b)
    × (fee_is_token_0 TradeDirection.one_for_zero b
        ≡ charged_token_0 CreatorFeeOn.both_token TradeDirection.one_for_zero)
creator_fee_token_example =
    creator_fee_token pool CreatorFeeOn.both_token TradeDirection.one_for_zero stored_model

abbrev params : SwapParams
params = record {
  trade_direction = TradeDirection.zero_for_one;
  total_input_token_amount = 1_000_000;
  total_output_token_amount = 1_000_000;
  token_0_price_x64 = 2 ^ 32;
  token_1_price_x64 = 2 ^ 32;
  is_creator_fee_on_input = true;
}

got : get_swap_params pool 11 12 1_000_090 1_000_032 ≡ ok params
unfolding get_swap_params params_zero_for_one vault_amount_without_fee token_price_x32
    is_creator_fee_on_input from_u8 checked_add checked_sub mul div
got = refl

ring-IsValid : IsValid ring
ring-IsValid = record { slots = refl; in_range = omega arith }

update-IsSafe_example : IsSafe (update ring 200 (2 ^ 32) (2 ^ 32))
update-IsSafe_example = update-IsSafe ring 200 (2 ^ 32) (2 ^ 32) ring-IsValid

update_accumulates_example :
    (u : ObservationState) × (update ring 200 (2 ^ 32) (2 ^ 32) ≡ ok u)
    × (u.last_update_timestamp ≡ 200)
    × (get_elem? u.observations u.observation_index
        ≡ some (record {
          block_timestamp = 200;
          cumulative_token_0_price_x32 = (0 + 2 ^ 32 * 50) % 2 ^ 128;
          cumulative_token_1_price_x32 = (0 + 2 ^ 32 * 50) % 2 ^ 128;
        }))
    × ((j : ℕ)
        → j ≢ u.observation_index
        → get_elem? u.observations j ≡ get_elem? ring.observations j)
update_accumulates_example =
    update_accumulates ring 200 (2 ^ 32) (2 ^ 32) first_observation ring-IsValid refl refl
      (omega arith) (omega arith) (omega arith) (omega arith) (omega arith)
