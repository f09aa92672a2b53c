-- ===== src/Curve/Calculator/Steps.antt =====
-- What a run of `CurveCalculator::swap_base_input` or `swap_base_output` that returned a result
-- computed on the way.
use raydium_cp_swap.Base.{ℕ, ◌+◌, ◌-◌, ◌≤◌, ◌≡◌, Bool, arith, ok, Nothing, take_apart}
use raydium_cp_swap.Base.Words.{u128_max, checked_add, checked_sub, checked_add-ok, checked_sub-ok}
use raydium_cp_swap.Curve.Fees.{protocol_fee, fund_fee}
use raydium_cp_swap.Curve.ConstantProduct.{
  swap_base_input_without_fees, swap_base_output_without_fees,
}
use raydium_cp_swap.Curve.Calculator.{
  Charged, SwapResult, charge_input, charge_output, gross_output, gross_input, swap_base_input,
  swap_base_output,
}

pub record InputSteps (i x y t c p f : ℕ) (on_input : Bool) (r : SwapResult) : Type 0 where
  pub charged : Charged
  pub swapped : ℕ
  pub charge : charge_input on_input i t c ≡ ok charged
  pub protocol : protocol_fee charged.trade_fee p ≡ ok r.protocol_fee
  pub fund : fund_fee charged.trade_fee f ≡ ok r.fund_fee
  pub swap : swap_base_input_without_fees {E = Nothing} charged.amount x y ≡ ok swapped
  pub output :
      charge_output on_input swapped c charged.creator_fee ≡ ok (r.output_amount, r.creator_fee)
  pub new_input : r.new_input_vault_amount ≡ x + charged.amount
  pub new_output : r.new_output_vault_amount ≡ y - swapped
  pub covered : swapped ≤ y
  pub input : r.input_amount ≡ i
  pub trade : r.trade_fee ≡ charged.trade_fee

pub input_steps :
    (i x y t c p f : ℕ) (on_input : Bool) {r : SwapResult}
    → swap_base_input i x y t c p f on_input ≡ ok r
    → InputSteps i x y t c p f on_input r
unfolding swap_base_input
input_steps i x y t c p f on_input {r} h =
    take_apart (charge_input on_input i t c) h λ charged e1 h1.
      take_apart (protocol_fee charged.trade_fee p) h1 λ protocol_part e2 h2.
        take_apart (fund_fee charged.trade_fee f) h2 λ fund_part e3 h3.
          take_apart (swap_base_input_without_fees charged.amount x y) h3 λ swapped e4 h4.
            take_apart (charge_output on_input swapped c charged.creator_fee) h4 λ out e5 h5.
              take_apart (checked_add u128_max x charged.amount) h5 λ new_in e6 h6.
                take_apart (checked_sub y swapped) h6 λ new_out e7 h7. record {
                  charged = charged;
                  swapped = swapped;
                  charge = e1;
                  protocol = cc;
                  fund = cc;
                  swap = e4;
                  output = cc;
                  new_input = ground (arith, checked_add-ok u128_max x charged.amount e6);
                  new_output = ground (arith, checked_sub-ok y swapped e7);
                  covered = ground (arith, checked_sub-ok y swapped e7);
                  input = cc;
                  trade = cc;
                }

pub record OutputSteps (d x y t c p f : ℕ) (on_input : Bool) (r : SwapResult) : Type 0 where
  pub actual : ℕ
  pub creator_part : ℕ
  pub swapped : ℕ
  pub charged : Charged
  pub gross : gross_output on_input d c ≡ ok (actual, creator_part)
  pub swap : swap_base_output_without_fees {E = Nothing} actual x y ≡ ok swapped
  pub charge : gross_input on_input swapped t c creator_part ≡ ok charged
  pub protocol : protocol_fee charged.trade_fee p ≡ ok r.protocol_fee
  pub fund : fund_fee charged.trade_fee f ≡ ok r.fund_fee
  pub new_input : r.new_input_vault_amount ≡ x + swapped
  pub new_output : r.new_output_vault_amount ≡ y - actual
  pub covered : actual ≤ y
  pub input : r.input_amount ≡ charged.amount
  pub output : r.output_amount ≡ d
  pub trade : r.trade_fee ≡ charged.trade_fee
  pub creator : r.creator_fee ≡ charged.creator_fee

pub output_steps :
    (d x y t c p f : ℕ) (on_input : Bool) {r : SwapResult}
    → swap_base_output d x y t c p f on_input ≡ ok r
    → OutputSteps d x y t c p f on_input r
unfolding swap_base_output
output_steps d x y t c p f on_input {r} h = take_apart (gross_output on_input d c) h λ out e1 h1.
    take_apart (swap_base_output_without_fees out.0 x y) h1 λ swapped e2 h2.
      take_apart (gross_input on_input swapped t c out.1) h2 λ charged e3 h3.
        take_apart (protocol_fee charged.trade_fee p) h3 λ protocol_part e4 h4.
          take_apart (fund_fee charged.trade_fee f) h4 λ fund_part e5 h5.
            take_apart (checked_add u128_max x swapped) h5 λ new_in e6 h6.
              take_apart (checked_sub y out.0) h6 λ new_out e7 h7. record {
                actual = out.0;
                creator_part = out.1;
                swapped = swapped;
                charged = charged;
                gross = e1;
                swap = e2;
                charge = e3;
                protocol = cc;
                fund = cc;
                new_input = ground (arith, checked_add-ok u128_max x swapped e6);
                new_output = ground (arith, checked_sub-ok y out.0 e7);
                covered = ground (arith, checked_sub-ok y out.0 e7);
                input = cc;
                output = cc;
                trade = cc;
                creator = cc;
              }
