-- ===== src/States/Oracle/Ring.antt =====
-- The observation ring of oracle.rs.
use raydium_cp_swap.Base.{
  ℕ, ◌+◌, ◌-◌, ◌*◌, ◌%◌, ◌^◌, ◌≤◌, ◌<◌, ◌≡◌, ◌≢◌, refl, sym, true, arith, ok, err, panic, Result,
  ◌∙◌, some, if◌then◌else◌, ltb, Bool-cases, inl, inr, List,
}
use raydium_cp_swap.Base.Lists.{
  get_elem?, set, length, length-set, get_elem?-set_self, get_elem?-set_ne, get_elem?_total,
}
use raydium_cp_swap.Base.Words.{u128_max, checked_mul, wrapping_add}
use raydium_cp_swap.Error.{Error, ErrorCode}
use raydium_cp_swap.States.Oracle.{
  Observation, ObservationState, observation_num, observation_update_duration_default, read, write,
  extend, append, extend, append, first_update, next_observation_index, accumulate, later_update,
  fill_last_update, update,
}

-- A full array, and an index in it.
pub record IsValid (s : ObservationState) : Type 0 where
  pub slots : length s.observations ≡ observation_num
  pub in_range : s.observation_index < observation_num

write-eq :
    (xs : List Observation) (i : ℕ) (o : Observation)
    → i < length xs
    → write xs i o ≡ ok (set xs i o)
unfolding write
write-eq xs i o h = ground arith

next-lt : (i : ℕ) → i < observation_num → next_observation_index i < observation_num
unfolding next_observation_index
next-lt i h = ground arith

-- An account after the write of one observation.
abbrev pub written : ObservationState → ℕ → ℕ → Observation → ObservationState
written s t i o = record s {
  observation_index = i;
  observations = set s.observations i o;
  last_update_timestamp = t;
}

-- The observation that the code writes, and where.
abbrev pub new_observation : ℕ → Observation → ℕ → ℕ → Observation
new_observation t last c0 c1 = record {
  block_timestamp =
      if ltb (t - last.block_timestamp) observation_update_duration_default
      then last.block_timestamp
      else t;
  cumulative_token_0_price_x32 = c0;
  cumulative_token_1_price_x32 = c1;
}

abbrev pub new_index : ObservationState → ℕ → Observation → ℕ
new_index s t last =
    if ltb (t - last.block_timestamp) observation_update_duration_default
    then s.observation_index
    else next_observation_index s.observation_index

accumulate-eq :
    (s : ObservationState) (t d0 d1 : ℕ) (last : Observation)
    → IsValid s
    → accumulate s t last d0 d1
      ≡ ok (
          written s t (new_index s t last) (
            new_observation t last
              (wrapping_add u128_max last.cumulative_token_0_price_x32 d0)
              (wrapping_add u128_max last.cumulative_token_1_price_x32 d1)))
unfolding accumulate extend append
accumulate-eq s t d0 d1 last v =
    elim (Bool-cases (ltb (t - last.block_timestamp) observation_update_duration_default)) [
      | inl e ↦
          rw (e, write-eq s.observations s.observation_index _ (omega (arith, v.slots, v.in_range)))
      | inr e ↦ rw (
        e,
        write-eq s.observations (next_observation_index s.observation_index) _
            (omega (arith, v.slots, next-lt s.observation_index v.in_range)),
      )
    ]

new_index-lt :
    (s : ObservationState) (t : ℕ) (last : Observation)
    → IsValid s
    → new_index s t last < observation_num
new_index-lt s t last v = ground (arith, next-lt s.observation_index)

written-IsValid :
    (s : ObservationState) (t i : ℕ) (o : Observation)
    → IsValid s
    → i < observation_num
    → IsValid (written s t i o)
written-IsValid s t i o v h = record {
  slots = length-set s.observations i o ∙ v.slots;
  in_range = h;
}

read_total :
    (s : ObservationState)
    → IsValid s
    → (o : Observation) × (read s.observations s.observation_index ≡ ok o)
      × (get_elem? s.observations s.observation_index ≡ some o)
unfolding read
read_total s v =
    let (o, e) =
      get_elem?_total s.observations s.observation_index (omega (arith, v.slots, v.in_range)) in
    (o, rw (e, read), e)

first_update-eq :
    (s : ObservationState) (t : ℕ)
    → IsValid s
    → first_update s t
      ≡ ok
          (record (written s t s.observation_index (record {
            block_timestamp = t;
            cumulative_token_0_price_x32 = 0;
            cumulative_token_1_price_x32 = 0;
          })) { initialized = true })
unfolding first_update
first_update-eq s t v =
    rw (write-eq s.observations s.observation_index _ (omega (arith, v.slots, v.in_range)))

-- A call that returns a valid account, or fails with `MathOverflow`.
abbrev pub IsSafe : Result Error ObservationState → Type 0
IsSafe (ok u) = IsValid u
IsSafe (err e) = e ≡ Error.code ErrorCode.math_overflow
IsSafe panic = ⊥

later_update-IsSafe :
    (s : ObservationState) (t p0 p1 : ℕ) (last : Observation)
    → IsValid s
    → IsSafe (later_update s t p0 p1 last)
unfolding later_update checked_mul
later_update-IsSafe s t p0 p1 last v = ground (
  arith,
  accumulate-eq s t (p0 * (t - s.last_update_timestamp)) (p1 * (t - s.last_update_timestamp)) last
      v,
  written-IsValid s t (new_index s t last)
      (new_observation t last
        (wrapping_add u128_max last.cumulative_token_0_price_x32
          (p0 * (t - s.last_update_timestamp)))
        (wrapping_add u128_max last.cumulative_token_1_price_x32
          (p1 * (t - s.last_update_timestamp))))
      v,
  new_index-lt s t last v,
)

fill-IsValid :
    (s : ObservationState) (last : Observation) → IsValid s → IsValid (fill_last_update s last)
unfolding fill_last_update
fill-IsValid s last v = ground arith

-- On an account whose array has its 100 slots and whose index is in it, `update` never panics: it
-- returns such an account again, or fails with `MathOverflow`.
pub update-IsSafe : (s : ObservationState) (t p0 p1 : ℕ) → IsValid s → IsSafe (update s t p0 p1)
unfolding update
update-IsSafe s t p0 p1 v =
    let (last, e, _) = read_total s v in
    elim (Bool-cases s.initialized) [
      | inl i ↦
          simp (i, e)
            (later_update-IsSafe (fill_last_update s last) t p0 p1 last (fill-IsValid s last v))
      | inr i ↦
          simp (i, first_update-eq s t v)
            (record {
              slots = length-set s.observations s.observation_index _ ∙ v.slots;
              in_range = v.in_range;
            })
    ]

-- On a valid, initialized account with its last update time set, an update later than that time and
-- than the last observation returns, if both price increments fit, and whatever slot it writes: the
-- current observation is then the last one plus the price times the time since the last update,
-- modulo 2^128, for both tokens; its time is the last one's within 15 seconds of that, and the
-- present otherwise; the last update is the present; and no other slot has changed.
pub update_accumulates :
    (s : ObservationState) (t p0 p1 : ℕ) (last : Observation)
    → IsValid s
    → s.initialized ≡ true
    → get_elem? s.observations s.observation_index ≡ some last
    → s.last_update_timestamp ≢ 0
    → s.last_update_timestamp < t
    → last.block_timestamp < t
    → p0 * (t - s.last_update_timestamp) ≤ u128_max
    → p1 * (t - s.last_update_timestamp) ≤ u128_max
    → (u : ObservationState) × (update s t p0 p1 ≡ ok u)
      × (u.last_update_timestamp ≡ t)
      × (get_elem? u.observations u.observation_index
          ≡ some (record {
            block_timestamp = if ltb (t - last.block_timestamp) 15 then last.block_timestamp else t;
            cumulative_token_0_price_x32 =
                (last.cumulative_token_0_price_x32 + p0 * (t - s.last_update_timestamp)) % 2 ^ 128;
            cumulative_token_1_price_x32 =
                (last.cumulative_token_1_price_x32 + p1 * (t - s.last_update_timestamp)) % 2 ^ 128;
          }))
      × ((j : ℕ)
          → j ≢ u.observation_index
          → get_elem? u.observations j ≡ get_elem? s.observations j)
unfolding update fill_last_update read later_update checked_mul
update_accumulates s t p0 p1 last v init at set_before later newer fits_0 fits_1 =
    let dt : ℕ = t - s.last_update_timestamp in
    let o =
      new_observation t last (wrapping_add u128_max last.cumulative_token_0_price_x32 (p0 * dt))
        (wrapping_add u128_max last.cumulative_token_1_price_x32 (p1 * dt)) in
    let i = new_index s t last in
    (
      written s t i o,
      ground (arith, accumulate-eq s t (p0 * dt) (p1 * dt) last v),
      refl,
      get_elem?-set_self s.observations i o (omega (arith, v.slots, new_index-lt s t last v)),
      λ j ne. get_elem?-set_ne s.observations i j o (λ e. ne (sym e)),
    )
