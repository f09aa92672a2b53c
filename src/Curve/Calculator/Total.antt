-- ===== src/Curve/Calculator/Total.antt =====
-- When `CurveCalculator::swap_base_input` returns a result, and when it cannot.
use raydium_cp_swap.Base.{
  ℕ, ◌+◌, ◌-◌, ◌≤◌, ◌<◌, ◌≡◌, ◌≢◌, Bool, true, false, arith, ok, err, nothing, Nothing, refl,
  unwrap, take_apart,
}
use raydium_cp_swap.Base.Division.{mul_mono}
use raydium_cp_swap.Base.Words.{
  u64_max, u128_max, add, sub, add-eq, sub-eq, checked_sub-eq, checked_add-eq,
}
use raydium_cp_swap.Curve.Fees.{
  fee_rate_denominator_value, floor_div, trading_fee, creator_fee, protocol_fee, fund_fee,
  split_creator_fee, calculate_pre_fee_amount,
}
use raydium_cp_swap.Curve.Fees.Bounds.{ceil_div_total, floor_div_total, trading_fee-le}
use raydium_cp_swap.Curve.ConstantProduct.Quotes.{input_swap_total, input_swap_keeps_product}
use raydium_cp_swap.Curve.Calculator.{
  Charged, SwapResult, charge_input, charge_output, gross_input, swap_base_input, swap_base_output,
}
use raydium_cp_swap.Curve.Calculator.Steps.{output_steps}
use raydium_cp_swap.Curve.Calculator.Charges.{split-le, input_fees, charge_input-ok}

module _ (a rate : ℕ) (fits : a ≤ u64_max) (small : rate ≤ fee_rate_denominator_value) where
  trading_fee_total : (f : ℕ) × (trading_fee a rate ≡ ok f) × (f ≤ a)
  unfolding trading_fee
  trading_fee_total =
      let bound = mul_mono a rate u64_max fee_rate_denominator_value fits small in
      let (f, e) = ceil_div_total a rate fee_rate_denominator_value (omega arith) (omega arith) in
      (f, e, trading_fee-le a rate e small)

  part_total : (f : ℕ) × (floor_div a rate fee_rate_denominator_value ≡ ok f)
  part_total =
      let bound = mul_mono a rate u64_max fee_rate_denominator_value fits small in
      floor_div_total a rate fee_rate_denominator_value (omega arith) (omega arith)

split_total :
    (total t c : ℕ)
    → total ≤ u64_max
    → t + c ≤ fee_rate_denominator_value
    → 0 < t + c
    → (part : ℕ) × (split_creator_fee total t c ≡ ok part) × (part ≤ total)
unfolding split_creator_fee
split_total total t c fits small some_rate =
    let bound = mul_mono total c u64_max fee_rate_denominator_value fits (omega arith) in
    let (part, e) = floor_div_total total c (t + c) some_rate (omega arith) in
    let split : split_creator_fee total t c ≡ ok part = rw (add-eq u64_max t c (omega arith)) e in
    (part, split, split-le total t c split)

charge_input_total :
    (on_input : Bool) (i t c : ℕ)
    → i ≤ u64_max
    → t + c ≤ fee_rate_denominator_value
    → 0 < t + c
    → (charged : Charged) × (charge_input on_input i t c ≡ ok charged)
unfolding charge_input
charge_input_total true i t c fits small some_rate =
    let (total, e, le) = trading_fee_total i (t + c) fits small in
    let (part, split, part_le) = split_total total t c (omega arith) small some_rate in
    (
      record { amount = i - total; trade_fee = total - part; creator_fee = part },
      rw (
        add-eq u64_max t c (omega arith),
        e,
        split,
        sub-eq total part part_le,
        checked_sub-eq i total le,
      ),
    )
charge_input_total false i t c fits small some_rate =
    let (fee, e, le) = trading_fee_total i t fits (omega arith) in
    (record { amount = i - fee; trade_fee = fee; creator_fee = 0 }, rw (e, checked_sub-eq i fee le))

charge_output_total :
    (on_input : Bool) (swapped c before : ℕ)
    → swapped ≤ u64_max
    → c ≤ fee_rate_denominator_value
    → (out : ℕ × ℕ) × (charge_output on_input swapped c before ≡ ok out)
unfolding charge_output trading_fee creator_fee
charge_output_total true swapped c before fits small = ((swapped, before), refl)
charge_output_total false swapped c before fits small =
    let (fee, e, le) = trading_fee_total swapped c fits small in
    ((swapped - fee, fee), rw (e, checked_sub-eq swapped fee le))

parts_le :
    (on_input : Bool) (amount trade creator i : ℕ)
    → amount + input_fees on_input trade creator ≡ i
    → (trade ≤ i) × (amount ≤ i)
parts_le true amount trade creator i h = omega arith
parts_le false amount trade creator i h = omega arith

-- `swap_base_input` neither panics nor fails on `u64` amounts, an input reserve that is not empty,
-- rates of the trade and the creator fee that are together more than 0 and at most one, and rates
-- of the protocol and the fund that are each at most one.
pub swap_base_input_total :
    (i x y t c p f : ℕ) (on_input : Bool)
    → i ≤ u64_max
    → x ≤ u64_max
    → y ≤ u64_max
    → 0 < x
    → 0 < t + c
    → t + c ≤ fee_rate_denominator_value
    → p ≤ fee_rate_denominator_value
    → f ≤ fee_rate_denominator_value
    → (r : SwapResult) × (swap_base_input i x y t c p f on_input ≡ ok r)
unfolding swap_base_input protocol_fee fund_fee
swap_base_input_total i x y t c p f on_input fit_i fit_x fit_y full some_rate small small_p
      small_f =
    let (charged, e1) = charge_input_total on_input i t c fit_i small some_rate in
    let (sum, _) = charge_input-ok on_input i t c e1 in
    let (trade_le, amount_le) =
      parts_le on_input charged.amount charged.trade_fee charged.creator_fee i sum in
    let (protocol_part, e2) = part_total charged.trade_fee p (omega arith) small_p in
    let (fund_part, e3) = part_total charged.trade_fee f (omega arith) small_f in
    let (swapped, e4) =
      input_swap_total {E = Nothing} charged.amount x y (omega arith) fit_x fit_y (omega arith) in
    let (covered, _) = input_swap_keeps_product charged.amount x y e4 in
    let (out, e5) =
      charge_output_total on_input swapped c charged.creator_fee (omega arith) (omega arith) in
    (
      record {
        new_input_vault_amount = x + charged.amount;
        new_output_vault_amount = y - swapped;
        input_amount = i;
        output_amount = out.0;
        trade_fee = charged.trade_fee;
        protocol_fee = protocol_part;
        fund_fee = fund_part;
        creator_fee = out.1;
      },
      rw (
        e1,
        e2,
        e3,
        e4,
        e5,
        checked_add-eq u128_max x charged.amount (omega arith),
        checked_sub-eq y swapped covered,
      ),
    )

split_zero : (total : ℕ) → split_creator_fee total 0 0 ≡ err nothing
unfolding split_creator_fee add
split_zero total = refl

charge_zero : (i : ℕ) → charge_input true i 0 0 ≡ err nothing
unfolding charge_input trading_fee add
charge_zero i =
    let (total, e) = ceil_div_total i 0 fee_rate_denominator_value (omega arith) (omega arith) in
    rw (e, split_zero total)

gross_zero :
    (swapped before : ℕ) (charged : Charged) → gross_input true swapped 0 0 before ≢ ok charged
unfolding gross_input add
gross_zero swapped before charged h =
    take_apart (unwrap (calculate_pre_fee_amount swapped 0)) h λ with_fee e1 h1.
      take_apart (sub with_fee swapped) h1 λ total e2 h2.
        take_apart (split_creator_fee total 0 0) h2 λ part e3 h3. cc (split_zero total)

-- If the rates of the trade fee and of the creator fee are both 0, and the creator fee is on the
-- input, the split of the (zero) fee divides by 0: `swap_base_input` returns `None` for every
-- input, and `swap_base_output` never returns a result.
pub zero_rates_block_swaps :
    (i x y p f : ℕ)
    → (swap_base_input i x y 0 0 p f true ≡ err nothing)
      × ((r : SwapResult) → swap_base_output i x y 0 0 p f true ≢ ok r)
unfolding swap_base_input
zero_rates_block_swaps i x y p f = (
  rw (charge_zero i),
  λ r h.
      let s = output_steps i x y 0 0 p f true h in
      gross_zero s.swapped s.creator_part s.charged s.charge,
)
