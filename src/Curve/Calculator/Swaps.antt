-- ===== src/Curve/Calculator/Swaps.antt =====
-- The swaps of calculator.rs: where every unit of a trade goes, the product of the reserves, and
-- the two swaps against each other.
use raydium_cp_swap.Base.{ℕ, ◌+◌, ◌*◌, ◌≤◌, ◌<◌, ◌≡◌, ◌↔◌, Bool, true, false, arith, ok, take_apart}
use raydium_cp_swap.Base.Words.{sub, checked_sub, checked_sub-ok}
use raydium_cp_swap.Curve.Fees.{
  fee_rate_denominator_value, trading_fee, creator_fee, calculate_pre_fee_amount,
}
use raydium_cp_swap.Curve.Fees.Bounds.{ceil_div-ok, pre_fee_adjoint}
use raydium_cp_swap.Curve.ConstantProduct.Quotes.{
  input_swap_keeps_product, output_swap_keeps_product, quotes_are_adjoint,
}
use raydium_cp_swap.Curve.Calculator.{
  Charged, SwapResult, charge_output, gross_output, gross_input, swap_base_input, swap_base_output,
}
use raydium_cp_swap.Curve.Calculator.Steps.{input_steps, output_steps}
use raydium_cp_swap.Curve.Calculator.Charges.{
  input_rate, input_fees, output_fees, charge_input-ok, charge_output-ok, gross_output-ok,
  gross_input-ok, protocol_and_fund-le,
}

-- With the creator fee on the input, it is the one that the first branch took.
creator_kept :
    (swapped c before : ℕ) {out fee : ℕ}
    → charge_output true swapped c before ≡ ok (out, fee)
    → fee ≡ before
unfolding charge_output
creator_kept swapped c before h = cc

-- With the creator fee on the output, the second branch of `swap_base_output` passes it on.
creator_passed :
    (swapped t c before : ℕ) {charged : Charged}
    → gross_input false swapped t c before ≡ ok charged
    → charged.creator_fee ≡ before
unfolding gross_input sub
creator_passed swapped t c before h = ground arith

-- Where every unit of a trade goes. `input` is what came in, `output` what goes out.
pub record IsBalanced (x y input output : ℕ) (on_input : Bool) (r : SwapResult) : Type 0 where
  pub input_side :
      r.new_input_vault_amount + input_fees on_input r.trade_fee r.creator_fee ≡ x + input
  pub output_side : r.new_output_vault_amount + output + output_fees on_input r.creator_fee ≡ y
  pub amounts : (r.input_amount ≡ input) × (r.output_amount ≡ output)
  pub product : x * y ≤ r.new_input_vault_amount * r.new_output_vault_amount

-- When `swap_base_input` returns a result, the input less the fees on the input is what the input
-- reserve gains, the output reserve loses the user's output and the creator fee if that is taken
-- from the output, and the product of the reserves does not fall.
pub swap_base_input-IsBalanced :
    (i x y t c p f : ℕ) (on_input : Bool) {r : SwapResult}
    → swap_base_input i x y t c p f on_input ≡ ok r
    → IsBalanced x y i r.output_amount on_input r
swap_base_input-IsBalanced i x y t c p f true {r} h =
    let s = input_steps i x y t c p f true h in
    let (sum, _) = charge_input-ok true i t c s.charge in
    let out = charge_output-ok true s.swapped c s.charged.creator_fee s.output in
    let same = creator_kept s.swapped c s.charged.creator_fee s.output in
    let (fits, prod) = input_swap_keeps_product s.charged.amount x y s.swap in ground arith
swap_base_input-IsBalanced i x y t c p f false {r} h =
    let s = input_steps i x y t c p f false h in
    let (sum, _) = charge_input-ok false i t c s.charge in
    let out = charge_output-ok false s.swapped c s.charged.creator_fee s.output in
    let (fits, prod) = input_swap_keeps_product s.charged.amount x y s.swap in ground arith

-- When `swap_base_output` returns a result, the input that it asks for less the fees on the input is
-- what the input reserve gains, the output reserve loses the requested output and the creator fee if
-- that is taken from the output, and the product of the reserves does not fall.
pub swap_base_output-IsBalanced :
    (d x y t c p f : ℕ) (on_input : Bool) {r : SwapResult}
    → swap_base_output d x y t c p f on_input ≡ ok r
    → IsBalanced x y r.input_amount d on_input r
swap_base_output-IsBalanced d x y t c p f true {r} h =
    let s = output_steps d x y t c p f true h in
    let out = gross_output-ok true d c s.gross in
    let (sum, _) = gross_input-ok true s.swapped t c s.creator_part s.charge in
    let (fits, prod) = output_swap_keeps_product s.actual x y s.swap in ground arith
swap_base_output-IsBalanced d x y t c p f false {r} h =
    let s = output_steps d x y t c p f false h in
    let out = gross_output-ok false d c s.gross in
    let (sum, _) = gross_input-ok false s.swapped t c s.creator_part s.charge in
    let same = creator_passed s.swapped t c s.creator_part s.charge in
    let (fits, prod) = output_swap_keeps_product s.actual x y s.swap in ground arith

-- When `swap_base_input` returns a result, the fees on the input are the input at the rate taken
-- from it, rounded up, and the protocol's and the fund's parts are within the trade fee if their
-- rates are together at most one.
pub swap_base_input_fees :
    (i x y t c p f : ℕ) (on_input : Bool) {r : SwapResult}
    → swap_base_input i x y t c p f on_input ≡ ok r
    → p + f ≤ fee_rate_denominator_value
    → (i * input_rate on_input t c
        ≤ input_fees on_input r.trade_fee r.creator_fee * fee_rate_denominator_value)
      × (input_fees on_input r.trade_fee r.creator_fee * fee_rate_denominator_value
          < i * input_rate on_input t c + fee_rate_denominator_value)
      × (r.protocol_fee + r.fund_fee ≤ r.trade_fee)
unfolding trading_fee
swap_base_input_fees i x y t c p f true {r} h le =
    let s = input_steps i x y t c p f true h in
    let (sum, charge) = charge_input-ok true i t c s.charge in
    let same = creator_kept s.swapped c s.charged.creator_fee s.output in
    let bounds = ceil_div-ok i (t + c) fee_rate_denominator_value charge in
    let parts = protocol_and_fund-le s.charged.trade_fee p f s.protocol s.fund le in ground arith
swap_base_input_fees i x y t c p f false {r} h le =
    let s = input_steps i x y t c p f false h in
    let (sum, charge) = charge_input-ok false i t c s.charge in
    let bounds = ceil_div-ok i t fee_rate_denominator_value charge in
    let parts = protocol_and_fund-le s.charged.trade_fee p f s.protocol s.fund le in ground arith

-- The protocol's and the fund's parts are within the trade fee here too.
pub swap_base_output_parts :
    (d x y t c p f : ℕ) (on_input : Bool) {r : SwapResult}
    → swap_base_output d x y t c p f on_input ≡ ok r
    → p + f ≤ fee_rate_denominator_value
    → r.protocol_fee + r.fund_fee ≤ r.trade_fee
swap_base_output_parts d x y t c p f on_input {r} h le =
    let s = output_steps d x y t c p f on_input h in
    let parts = protocol_and_fund-le s.charged.trade_fee p f s.protocol s.fund le in
    rw s.trade parts

-- The net output reaches `d` exactly when the gross output reaches the gross of `d`.
output_adjoint :
    (on_input : Bool) (d c swapped before : ℕ) {actual part out fee : ℕ}
    → gross_output on_input d c ≡ ok (actual, part)
    → charge_output on_input swapped c before ≡ ok (out, fee)
    → (d ≤ out) ↔ (actual ≤ swapped)
unfolding gross_output charge_output trading_fee creator_fee
output_adjoint true d c swapped before {actual} {out = out} h k =
    let same : actual ≡ d = cc in let kept : out ≡ swapped = cc in rw (same, kept) (λ e. e, λ e. e)
output_adjoint false d c swapped before {actual} {out = out} h k =
    take_apart (calculate_pre_fee_amount d c) h λ gross e1 h1.
      take_apart (creator_fee swapped c) k λ part e2 h2.
        take_apart (checked_sub swapped part) h2 λ net e3 h3.
          take_apart (sub gross d) h1 λ added e4 h4.
            let (difference, covered) = checked_sub-ok swapped part e3 in
            let same : actual ≡ gross = cc in
            let kept : out ≡ net = cc in
            let (up, down) = pre_fee_adjoint d c swapped e1 e2 in
            (λ e. rw same (up (omega arith)), λ e. omega (arith, down (rw (← same) e)))

-- The two swaps are adjoint at the same reserves and rates: if `swap_base_output` asks for an input
-- to pay out `d`, and `swap_base_input` returns a result for an input `j`, then that result pays out
-- `d` or more exactly when `j` is at least what was asked. So an exact output swap asks for the
-- least input that buys its output.
pub swaps_are_adjoint :
    (d x y t c p f j : ℕ) (on_input : Bool) {r q : SwapResult}
    → swap_base_output d x y t c p f on_input ≡ ok r
    → swap_base_input j x y t c p f on_input ≡ ok q
    → (d ≤ q.output_amount) ↔ (r.input_amount ≤ j)
swaps_are_adjoint d x y t c p f j on_input {r} {q} h k =
    let s = output_steps d x y t c p f on_input h in
    let u = input_steps j x y t c p f on_input k in
    let (gained, lost) =
      output_adjoint on_input d c u.swapped u.charged.creator_fee s.gross u.output in
    let (bought, paid) = quotes_are_adjoint s.actual x y u.charged.amount s.swap u.swap in
    let (sum, charge) = charge_input-ok on_input j t c u.charge in
    let (_, gross) = gross_input-ok on_input s.swapped t c s.creator_part s.charge in
    let (up, down) = pre_fee_adjoint s.swapped (input_rate on_input t c) j gross charge in
    (
      λ e. rw s.input (up (omega (arith, bought (gained e)))),
      λ e. lost (paid (omega (arith, down (rw s.input at e)))),
    )
