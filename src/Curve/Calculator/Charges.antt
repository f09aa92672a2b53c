-- ===== src/Curve/Calculator/Charges.antt =====
-- What the fee branches of the two swaps take, on either side.
use native.Mathlib.Nat.{le_trans}
use raydium_cp_swap.Base.{
  ℕ, ◌+◌, ◌*◌, ◌≤◌, ◌≡◌, Bool, true, false, arith, ok, if◌then◌else◌, take_apart,
}
use raydium_cp_swap.Base.Division.{mul_mono, mul_cancel_le}
use raydium_cp_swap.Base.Words.{u64_max, add, sub, checked_sub, add-ok}
use raydium_cp_swap.Curve.Fees.{
  fee_rate_denominator_value, trading_fee, split_creator_fee, protocol_fee, fund_fee,
  calculate_pre_fee_amount,
}
use raydium_cp_swap.Curve.Fees.Bounds.{floor_div-ok}
use raydium_cp_swap.Curve.Calculator.{
  Charged, charge_input, charge_output, gross_output, gross_input,
}

-- The rate that is taken from the input.
abbrev pub input_rate : Bool → ℕ → ℕ → ℕ
input_rate on_input t c = if on_input then t + c else t

-- What the input side gives up in all.
abbrev pub input_fees : Bool → ℕ → ℕ → ℕ
input_fees on_input trade creator = if on_input then trade + creator else trade

abbrev pub output_fees : Bool → ℕ → ℕ
output_fees on_input creator = if on_input then 0 else creator

-- The creator's part is within the total.
pub split-le : (total t c : ℕ) {part : ℕ} → split_creator_fee total t c ≡ ok part → part ≤ total
unfolding split_creator_fee
split-le total t c {part} h = take_apart (add u64_max t c) h λ rates e1 h1.
    let (p, low, high) = floor_div-ok total c rates h1 in
    let (sum, fits) = add-ok u64_max t c e1 in
    mul_cancel_le part total rates p
      (le_trans low (mul_mono total c total rates (omega arith) (omega arith)))

pub charge_input-ok :
    (on_input : Bool) (i t c : ℕ) {charged : Charged}
    → charge_input on_input i t c ≡ ok charged
    → (charged.amount + input_fees on_input charged.trade_fee charged.creator_fee ≡ i)
      × (trading_fee i (input_rate on_input t c)
          ≡ ok (input_fees on_input charged.trade_fee charged.creator_fee))
unfolding charge_input add sub checked_sub
charge_input-ok true i t c h = ground arith
charge_input-ok false i t c h = ground arith

pub charge_output-ok :
    (on_input : Bool) (swapped c before : ℕ) {out fee : ℕ}
    → charge_output on_input swapped c before ≡ ok (out, fee)
    → out + output_fees on_input fee ≡ swapped
unfolding charge_output checked_sub
charge_output-ok true swapped c before h = ground arith
charge_output-ok false swapped c before h = ground arith

pub gross_output-ok :
    (on_input : Bool) (d c : ℕ) {actual fee : ℕ}
    → gross_output on_input d c ≡ ok (actual, fee)
    → d + output_fees on_input fee ≡ actual
unfolding gross_output sub
gross_output-ok true d c h = ground arith
gross_output-ok false d c h = ground arith

pub gross_input-ok :
    (on_input : Bool) (swapped t c before : ℕ) {charged : Charged}
    → gross_input on_input swapped t c before ≡ ok charged
    → (swapped + input_fees on_input charged.trade_fee charged.creator_fee ≡ charged.amount)
      × (calculate_pre_fee_amount swapped (input_rate on_input t c) ≡ ok charged.amount)
unfolding gross_input add sub
gross_input-ok true swapped t c before h = ground arith
gross_input-ok false swapped t c before h = ground arith

-- The protocol's and the fund's parts of a trade fee are together at most that fee, if their rates
-- are together at most one.
pub protocol_and_fund-le :
    (trade p f : ℕ) {a b : ℕ}
    → protocol_fee trade p ≡ ok a
    → fund_fee trade f ≡ ok b
    → p + f ≤ fee_rate_denominator_value
    → a + b ≤ trade
unfolding protocol_fee fund_fee
protocol_and_fund-le trade p f {a} {b} h k le =
    let (_, low_p, _) = floor_div-ok trade p fee_rate_denominator_value h in
    let (_, low_f, _) = floor_div-ok trade f fee_rate_denominator_value k in
    let all : trade * (p + f) ≤ trade * fee_rate_denominator_value =
      mul_mono trade (p + f) trade fee_rate_denominator_value (omega arith) le in
    omega arith
