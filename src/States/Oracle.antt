-- ===== src/States/Oracle.antt =====
-- programs/cp-swap/src/states/oracle.rs: the ring of 100 price observations, less the padding.
pub mod Ring
use raydium_cp_swap.Base.{
  ℕ, ◌+◌, ◌-◌, Bool, true, false, ◌||◌, not, Option, some, none, List, Result, ok, err, panic,
  ok_or, ◌>>=◌, ◌==◌, ltb, if◌then◌else◌,
}
use raydium_cp_swap.Base.Lists.{get_elem?, set, length}
use raydium_cp_swap.Base.Words.{u128_max, checked_mul, wrapping_add}
use raydium_cp_swap.Base.Lists.{replicate}
use raydium_cp_swap.Error.{Error, ErrorCode}

abbrev pub observation_num : ℕ
observation_num = 100

abbrev pub observation_update_duration_default : ℕ
observation_update_duration_default = 15

pub record Observation : Type 0 where
  pub block_timestamp : ℕ
  pub cumulative_token_0_price_x32 : ℕ
  pub cumulative_token_1_price_x32 : ℕ

pub record ObservationState : Type 0 where
  pub initialized : Bool
  pub observation_index : ℕ
  pub pool_id : ℕ
  pub observations : List Observation
  pub last_update_timestamp : ℕ

-- `impl Default`; the bytes of an account that has just been allocated read as this state.
abbrev pub default_state : ObservationState
default_state = record {
  initialized = false;
  observation_index = 0;
  pool_id = 0;
  observations = replicate observation_num (record {
    block_timestamp = 0;
    cumulative_token_0_price_x32 = 0;
    cumulative_token_1_price_x32 = 0;
  });
  last_update_timestamp = 0;
}

-- `self.observations[i]`, which panics out of range
unfoldable pub read : List Observation → ℕ → Result Error Observation
read observations i = elim (get_elem? observations i) [ some o ↦ ok o | none ↦ panic ]

-- `self.observations[i] = o`
unfoldable pub write : List Observation → ℕ → Observation → Result Error (List Observation)
write observations i o = if ltb i (length observations) then ok (set observations i o) else panic

-- The branch for an account that was never updated.
unfoldable pub first_update : ObservationState → ℕ → Result Error ObservationState
first_update self block_timestamp = do
  observations ← write self.observations self.observation_index (record {
    block_timestamp = block_timestamp;
    cumulative_token_0_price_x32 = 0;
    cumulative_token_1_price_x32 = 0;
  })
  ok (record self {
    initialized = true;
    observations = observations;
    last_update_timestamp = block_timestamp;
  })

unfoldable pub next_observation_index : ℕ → ℕ
next_observation_index i = if i == observation_num - 1 then 0 else i + 1

-- Within 15 seconds of the last observation: write to its slot.
unfoldable pub extend : ObservationState → ℕ → Observation → ℕ → ℕ → Result Error ObservationState
extend self block_timestamp last cumulative_0 cumulative_1 = do
  observations ← write self.observations self.observation_index (record last {
    cumulative_token_0_price_x32 = cumulative_0;
    cumulative_token_1_price_x32 = cumulative_1;
  })
  ok (record self { observations = observations; last_update_timestamp = block_timestamp })

-- Later: write to the next slot, and move the index.
unfoldable pub append : ObservationState → ℕ → ℕ → ℕ → Result Error ObservationState
append self block_timestamp cumulative_0 cumulative_1 = do
  let next = next_observation_index self.observation_index
  observations ← write self.observations next (record {
    block_timestamp = block_timestamp;
    cumulative_token_0_price_x32 = cumulative_0;
    cumulative_token_1_price_x32 = cumulative_1;
  })
  ok (record self {
    observation_index = next;
    observations = observations;
    last_update_timestamp = block_timestamp;
  })

-- The last two writes, from the last observation and the price increments on.
unfoldable pub accumulate :
    ObservationState → ℕ → Observation → ℕ → ℕ → Result Error ObservationState
accumulate self block_timestamp last delta_0 delta_1 =
    let cumulative_0 = wrapping_add u128_max last.cumulative_token_0_price_x32 delta_0 in
    let cumulative_1 = wrapping_add u128_max last.cumulative_token_1_price_x32 delta_1 in
    if ltb (block_timestamp - last.block_timestamp) observation_update_duration_default
    then extend self block_timestamp last cumulative_0 cumulative_1
    else append self block_timestamp cumulative_0 cumulative_1

-- The branch for an account that was updated before; `self` is already as the legacy rule leaves it.
unfoldable pub later_update :
    ObservationState → ℕ → ℕ → ℕ → Observation → Result Error ObservationState
later_update self block_timestamp token_0_price_x32 token_1_price_x32 last =
    let since_update = block_timestamp - self.last_update_timestamp in
    if since_update == 0 || block_timestamp - last.block_timestamp == 0 then ok self else (do
      delta_0 ←
          ok_or (checked_mul u128_max token_0_price_x32 since_update)
            (Error.code ErrorCode.math_overflow)
      delta_1 ←
          ok_or (checked_mul u128_max token_1_price_x32 since_update)
            (Error.code ErrorCode.math_overflow)
      accumulate self block_timestamp last delta_0 delta_1)

-- "Ensure last_update_timestamp is set for legacy accounts"
unfoldable pub fill_last_update : ObservationState → Observation → ObservationState
fill_last_update self last =
    if self.last_update_timestamp == 0
    then record self { last_update_timestamp = last.block_timestamp }
    else self

-- On an error the changes are rolled back with the transaction, so no state is returned.
unfoldable pub update : ObservationState → ℕ → ℕ → ℕ → Result Error ObservationState
update self block_timestamp token_0_price_x32 token_1_price_x32 =
    if not self.initialized then first_update self block_timestamp else (do
      last ← read self.observations self.observation_index
      later_update (fill_last_update self last) block_timestamp token_0_price_x32 token_1_price_x32
          last)
