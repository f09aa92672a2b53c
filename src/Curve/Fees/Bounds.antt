-- ===== src/Curve/Fees/Bounds.antt =====
-- What each fee function of fees.rs returns, and between which bounds.
use raydium_cp_swap.Base.{ℕ, ◌+◌, ◌-◌, ◌*◌, ◌/◌, ◌≤◌, ◌<◌, ◌≡◌, ◌↔◌, arith, ok}
use raydium_cp_swap.Base.Division.{
  div_bounds, ceil_bounds, mul_mono, mul-sub-add-mul, le_of_quotients,
}
use raydium_cp_swap.Base.Words.{u128_max, checked_add, checked_sub, checked_mul, checked_div}
use raydium_cp_swap.Curve.Fees.{
  fee_rate_denominator_value, ceil_div, floor_div, trading_fee, calculate_pre_fee_amount,
}

-- A rounded up fee covers the exact fee, and exceeds it by less than one unit.
pub ceil_div-ok :
    (a n d : ℕ) {q : ℕ} → ceil_div a n d ≡ ok q → (a * n ≤ q * d) × (q * d < a * n + d)
unfolding ceil_div checked_mul checked_add checked_sub checked_div
ceil_div-ok a n d h = ground (arith, ceil_bounds (a * n) d)

pub floor_div-ok :
    (a n d : ℕ) {q : ℕ} → floor_div a n d ≡ ok q → (0 < d) × (q * d ≤ a * n) × (a * n < q * d + d)
unfolding floor_div checked_mul checked_div
floor_div-ok a n d h = ground (arith, div_bounds (a * n) d)

pub ceil_div_total : (a n d : ℕ) → 0 < d → a * n + d ≤ u128_max → (q : ℕ) × (ceil_div a n d ≡ ok q)
unfolding ceil_div checked_mul checked_add checked_sub checked_div
ceil_div_total a n d h w = ((a * n + d - 1) / d, ground arith)

pub floor_div_total : (a n d : ℕ) → 0 < d → a * n ≤ u128_max → (q : ℕ) × (floor_div a n d ≡ ok q)
unfolding floor_div checked_mul checked_div
floor_div_total a n d h w = (a * n / d, ground arith)

-- The amount before fees, less the part `rate` of it, is the amount after fees, rounded up.
pub pre_fee-ok :
    (post rate : ℕ) {pre : ℕ}
    → calculate_pre_fee_amount post rate ≡ ok pre
    → (rate < fee_rate_denominator_value)
      × (post * fee_rate_denominator_value ≤ pre * (fee_rate_denominator_value - rate))
      × (pre * (fee_rate_denominator_value - rate)
          < post * fee_rate_denominator_value + (fee_rate_denominator_value - rate))
unfolding calculate_pre_fee_amount checked_mul checked_add checked_sub checked_div
pre_fee-ok post rate h =
    ground
      (arith, ceil_bounds (post * fee_rate_denominator_value) (fee_rate_denominator_value - rate))

complement :
    (a r : ℕ)
    → r ≤ fee_rate_denominator_value
    → a * (fee_rate_denominator_value - r) + a * r ≡ a * fee_rate_denominator_value
complement a r h = mul-sub-add-mul a r fee_rate_denominator_value h

-- The amount before fees is the exact inverse of the trading fee: whatever
-- `calculate_pre_fee_amount` returns for an amount and a rate, the trading fee on it, at the same
-- rate, leaves exactly that amount.
pub pre_fee_inverts_trading_fee :
    (post rate : ℕ) {pre fee : ℕ}
    → calculate_pre_fee_amount post rate ≡ ok pre
    → trading_fee pre rate ≡ ok fee
    → post + fee ≡ pre
unfolding trading_fee
pre_fee_inverts_trading_fee post rate {pre} {fee} h k =
    let (r, low, high) = pre_fee-ok post rate h in
    let (below, above) = ceil_div-ok pre rate fee_rate_denominator_value k in
    omega (arith, complement pre rate (omega arith))

pre_fee-le :
    (post rate other : ℕ) {pre fee : ℕ}
    → calculate_pre_fee_amount post rate ≡ ok pre
    → trading_fee other rate ≡ ok fee
    → post + fee ≤ other
    → pre ≤ other
unfolding trading_fee
pre_fee-le post rate other {pre} h k enough =
    let (r, low, high) = pre_fee-ok post rate h in
    let (below, above) = ceil_div-ok other rate fee_rate_denominator_value k in
    let bound : post * fee_rate_denominator_value ≤ other * (fee_rate_denominator_value - rate) =
      omega (arith, complement other rate (omega arith)) in
    le_of_quotients pre other (fee_rate_denominator_value - rate)
      (post * fee_rate_denominator_value) high bound

le-pre_fee :
    (post rate other : ℕ) {pre fee : ℕ}
    → calculate_pre_fee_amount post rate ≡ ok pre
    → trading_fee other rate ≡ ok fee
    → pre ≤ other
    → post + fee ≤ other
unfolding trading_fee
le-pre_fee post rate other {pre} h k le =
    let (r, low, high) = pre_fee-ok post rate h in
    let (below, above) = ceil_div-ok other rate fee_rate_denominator_value k in
    let scaled =
      mul_mono pre (fee_rate_denominator_value - rate) other (fee_rate_denominator_value - rate) le
        (omega arith) in
    omega (arith, complement other rate (omega arith))

-- Charging a fee and adding one are adjoint at one rate: if `calculate_pre_fee_amount` returns
-- `pre` for `post`, and the trading fee on `other` is `fee`, then `other` leaves `post` after that
-- fee exactly when it is at least `pre`. So `pre` is the least amount that leaves `post`.
pub pre_fee_adjoint :
    (post rate other : ℕ) {pre fee : ℕ}
    → calculate_pre_fee_amount post rate ≡ ok pre
    → trading_fee other rate ≡ ok fee
    → (post + fee ≤ other) ↔ (pre ≤ other)
pre_fee_adjoint post rate other h k =
    (pre_fee-le post rate other h k, le-pre_fee post rate other h k)

-- A fee at a rate of at most one is at most the amount.
pub trading_fee-le :
    (a rate : ℕ) {f : ℕ} → trading_fee a rate ≡ ok f → rate ≤ fee_rate_denominator_value → f ≤ a
unfolding trading_fee
trading_fee-le a rate {f} h r =
    let (below, above) = ceil_div-ok a rate fee_rate_denominator_value h in
    omega (arith, complement a rate r)
