-- ===== src/Curve/ConstantProduct/Quotes.antt =====
-- The two swap formulas of constant_product.rs against the product of the reserves, and against
-- each other.
use raydium_cp_swap.Base.{ℕ, ◌+◌, ◌-◌, ◌*◌, ◌/◌, ◌≤◌, ◌<◌, ◌≡◌, ◌↔◌, arith, ok}
use raydium_cp_swap.Base.Division.{div_bounds, mul_mono, mul_cancel_le, mul_cancel_lt}
use raydium_cp_swap.Base.Words.{u64_max, checked_add, checked_sub, checked_mul, checked_div}
use raydium_cp_swap.Curve.Math.{checked_ceil_div-ok}
use raydium_cp_swap.Curve.ConstantProduct.{
  swap_base_input_without_fees, swap_base_output_without_fees,
}

module _ {E : Type 0} where
  -- The output is the exact quotient, rounded down.
  pub input_swap-ok :
      (i x y : ℕ) {o : ℕ}
      → swap_base_input_without_fees {E = E} i x y ≡ ok o
      → (0 < x + i) × (o * (x + i) ≤ i * y) × (i * y < o * (x + i) + (x + i))
  unfolding swap_base_input_without_fees checked_mul checked_add checked_div
  input_swap-ok i x y h = ground (arith, div_bounds (i * y) (x + i))

  -- The input is the exact quotient, rounded up.
  pub output_swap-ok :
      (d x y : ℕ) {i : ℕ}
      → swap_base_output_without_fees {E = E} d x y ≡ ok i
      → (d < y) × (x * d ≤ i * (y - d)) × (i * (y - d) < x * d + (y - d))
  unfolding swap_base_output_without_fees checked_mul checked_sub
  output_swap-ok d x y {i} h = ground (arith, checked_ceil_div-ok (x * d) (y - d) {q = i})

  pub input_swap_total :
      (i x y : ℕ)
      → i ≤ u64_max
      → x ≤ u64_max
      → y ≤ u64_max
      → 0 < x + i
      → (o : ℕ) × (swap_base_input_without_fees {E = E} i x y ≡ ok o)
  unfolding swap_base_input_without_fees checked_mul checked_add checked_div
  input_swap_total i x y hi hx hy h =
      (i * y / (x + i), ground (arith, mul_mono i y u64_max u64_max))

-- An output never exceeds the reserve.
pub input_swap-le : (i x y o : ℕ) → 0 < x + i → o * (x + i) ≤ i * y → o ≤ y
input_swap-le i x y o p h = grind arith

pub product_of_input : (i x y o : ℕ) → o ≤ y → o * (x + i) ≤ i * y → x * y ≤ (x + i) * (y - o)
product_of_input i x y o p h = grind arith

pub product_of_output : (d x y i : ℕ) → d ≤ y → x * d ≤ i * (y - d) → x * y ≤ (x + i) * (y - d)
product_of_output d x y i p h = grind arith

input_of_output :
    (d x y i j o : ℕ) → d < y → i * (y - d) < x * d + (y - d) → o * (x + j) ≤ j * y → d ≤ o → i ≤ j
input_of_output d x y i j o dy hi ho h =
    let scaled : d * (x + j) ≤ o * (x + j) = mul_mono d (x + j) o (x + j) h (omega arith) in
    let bound : i * (y - d) < (j + 1) * (y - d) = grind arith in
    omega (arith, mul_cancel_lt i (j + 1) (y - d) bound)

output_of_input :
    (d x y i j o : ℕ) → d ≤ y → x * d ≤ i * (y - d) → j * y < o * (x + j) + (x + j) → i ≤ j → d ≤ o
output_of_input d x y i j o dy hi ho h =
    let scaled : i * (y - d) ≤ j * (y - d) = mul_mono i (y - d) j (y - d) h (omega arith) in
    let bound : d * (x + j) < (o + 1) * (x + j) = grind arith in
    omega (arith, mul_cancel_lt d (o + 1) (x + j) bound)

module _ {E : Type 0} where
  -- A swap of a given input, when it returns an output, takes at most the output reserve, and the
  -- product of the reserves after it is at least the product before.
  pub input_swap_keeps_product :
      (i x y : ℕ) {o : ℕ}
      → swap_base_input_without_fees {E = E} i x y ≡ ok o
      → (o ≤ y) × (x * y ≤ (x + i) * (y - o))
  input_swap_keeps_product i x y {o} h =
      let (p, low, high) = input_swap-ok i x y h in
      let fits : o ≤ y = input_swap-le i x y o p low in (fits, product_of_input i x y o fits low)

  -- A swap for a given output, when it returns an input, asks for less than the output reserve, and
  -- the product of the reserves after it is at least the product before.
  pub output_swap_keeps_product :
      (d x y : ℕ) {i : ℕ}
      → swap_base_output_without_fees {E = E} d x y ≡ ok i
      → (d < y) × (x * y ≤ (x + i) * (y - d))
  output_swap_keeps_product d x y {i} h =
      let (p, low, high) = output_swap-ok d x y h in
      (p, product_of_output d x y i (omega arith) low)

  -- The two formulas are adjoint on the same reserves: if the output formula quotes the input `i`
  -- for the output `d`, and the input formula quotes the output `o` for the input `j`, then `o`
  -- reaches `d` exactly when `j` reaches `i`. So `i` is the least input that buys `d`.
  pub quotes_are_adjoint :
      (d x y j : ℕ) {i o : ℕ}
      → swap_base_output_without_fees {E = E} d x y ≡ ok i
      → swap_base_input_without_fees {E = E} j x y ≡ ok o
      → (d ≤ o) ↔ (i ≤ j)
  quotes_are_adjoint d x y j {i} {o} h k =
      let (p, low, high) = output_swap-ok d x y h in
      let (q, below, above) = input_swap-ok j x y k in
      (
        λ reached. input_of_output d x y i j o p high below reached,
        λ paid. output_of_input d x y i j o (omega arith) low above paid,
      )

  -- Swapping an input, and then swapping the whole output back against the reserves that the first
  -- swap left, returns at most the input.
  pub swap_back_no_profit :
      (i x y : ℕ) {o b : ℕ}
      → swap_base_input_without_fees {E = E} i x y ≡ ok o
      → swap_base_input_without_fees {E = E} o (y - o) (x + i) ≡ ok b
      → b ≤ i
  swap_back_no_profit i x y {o} {b} h k =
      let (p, low, high) = input_swap-ok i x y h in
      let (q, below, above) = input_swap-ok o (y - o) (x + i) k in
      let whole : y - o + o ≡ y = omega (arith, input_swap-le i x y o p low) in
      let back : b * y ≤ i * y = omega (arith, rw whole at below) in
      mul_cancel_le b i y (rw whole at q) back
