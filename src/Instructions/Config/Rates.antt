-- ===== src/Instructions/Config/Rates.antt =====
-- The fee rates of every config that the admin instructions write, and who may write them.
use raydium_cp_swap.Base.{
  ℕ, ◌+◌, ◌≤◌, ◌<◌, ◌≡◌, sym, List, ok, take_apart, require, assert, require-ok, assert-ok, refl,
  ok_injective, zero, suc, ◌>>=◌, arith, ltb, leb, ◌==◌, not,
}
use raydium_cp_swap.Base.Words.{u64_max, add, add-ok}
use raydium_cp_swap.Curve.Fees.{fee_rate_denominator_value}
use raydium_cp_swap.States.Config.{AmmConfig}
use raydium_cp_swap.Instructions.Context.{Chain}
use raydium_cp_swap.Instructions.Config.{
  create_amm_config, fill_amm_config, update_protocol_fee_rate, update_trade_fee_rate,
  update_fund_fee_rate, update_creator_fee_rate, set_new_protocol_owner, set_new_fund_owner,
  first_account, dispatch_update, update_amm_config,
}

-- The fees on a swap stay under the amount that is swapped, and the protocol and the fund take no
-- more than the trading fee.
pub record IsConfig (c : AmmConfig) : Type 0 where
  pub charged : c.trade_fee_rate + c.creator_fee_rate < fee_rate_denominator_value
  pub shared : c.protocol_fee_rate + c.fund_fee_rate ≤ fee_rate_denominator_value

-- A new config has fee rates under these bounds, and only the admin makes one.
pub create_amm_config-IsConfig :
    (chain : Chain) (owner bump index trade protocol fund pool_fee creator : ℕ) {c : AmmConfig}
    → create_amm_config chain owner bump index trade protocol fund pool_fee creator ≡ ok c
    → IsConfig c × (owner ≡ chain.admin)
unfolding create_amm_config fill_amm_config
create_amm_config-IsConfig chain owner bump index trade protocol fund pool_fee creator {c} h =
    take_apart (require (owner == chain.admin) _) h λ _ e1 h1.
      take_apart (add u64_max trade creator) h1 λ tc e2 h2.
        take_apart (assert (ltb tc fee_rate_denominator_value)) h2 λ _ e3 h3.
          take_apart (assert (leb protocol fee_rate_denominator_value)) h3 λ _ e4 h4.
            take_apart (assert (leb fund fee_rate_denominator_value)) h4 λ _ e5 h5.
              take_apart (add u64_max fund protocol) h5 λ fp e6 h6.
                take_apart (assert (leb fp fee_rate_denominator_value)) h6 λ _ e7 h7.
                  let signed = require-ok (owner == chain.admin) _ e1 in
                  let (sum_1, _) = add-ok u64_max trade creator e2 in
                  let below = assert-ok (ltb tc fee_rate_denominator_value) e3 in
                  let (sum_2, _) = add-ok u64_max fund protocol e6 in
                  let most = assert-ok (leb fp fee_rate_denominator_value) e7 in
                  (
                    simp (sym (ok_injective h7))
                        (record { charged = ground arith; shared = ground arith }),
                    ground arith,
                  )

-- One update keeps the bounds, the index and the bump.
abbrev KeepsConfig : AmmConfig → AmmConfig → Type 0
KeepsConfig c d = IsConfig d × (d.index ≡ c.index) × (d.bump ≡ c.bump)

trade_rate-KeepsConfig :
    (c : AmmConfig) (value : ℕ) {d : AmmConfig}
    → IsConfig c
    → update_trade_fee_rate c value ≡ ok d
    → KeepsConfig c d
unfolding update_trade_fee_rate
trade_rate-KeepsConfig c value {d} i h =
    take_apart (add u64_max value c.creator_fee_rate) h λ sum e1 h1.
      take_apart (assert (ltb sum fee_rate_denominator_value)) h1 λ _ e2 h2.
        let (total, _) = add-ok u64_max value c.creator_fee_rate e1 in
        let below = assert-ok (ltb sum fee_rate_denominator_value) e2 in
        let kept = i.shared in
        simp (sym (ok_injective h2)) (record { charged = ground arith; shared = kept }, refl, refl)

creator_rate-KeepsConfig :
    (c : AmmConfig) (value : ℕ) {d : AmmConfig}
    → IsConfig c
    → update_creator_fee_rate c value ≡ ok d
    → KeepsConfig c d
unfolding update_creator_fee_rate
creator_rate-KeepsConfig c value {d} i h =
    take_apart (add u64_max value c.trade_fee_rate) h λ sum e1 h1.
      take_apart (assert (ltb sum fee_rate_denominator_value)) h1 λ _ e2 h2.
        let (total, _) = add-ok u64_max value c.trade_fee_rate e1 in
        let below = assert-ok (ltb sum fee_rate_denominator_value) e2 in
        let kept = i.shared in
        simp (sym (ok_injective h2)) (record { charged = ground arith; shared = kept }, refl, refl)

protocol_rate-KeepsConfig :
    (c : AmmConfig) (value : ℕ) {d : AmmConfig}
    → IsConfig c
    → update_protocol_fee_rate c value ≡ ok d
    → KeepsConfig c d
unfolding update_protocol_fee_rate
protocol_rate-KeepsConfig c value {d} i h =
    take_apart (assert (leb value fee_rate_denominator_value)) h λ _ e0 h0.
      take_apart (add u64_max value c.fund_fee_rate) h0 λ sum e1 h1.
        take_apart (assert (leb sum fee_rate_denominator_value)) h1 λ _ e2 h2.
          let (total, _) = add-ok u64_max value c.fund_fee_rate e1 in
          let most = assert-ok (leb sum fee_rate_denominator_value) e2 in
          let kept = i.charged in
          simp (sym (ok_injective h2))
            (record { charged = kept; shared = ground arith }, refl, refl)

fund_rate-KeepsConfig :
    (c : AmmConfig) (value : ℕ) {d : AmmConfig}
    → IsConfig c
    → update_fund_fee_rate c value ≡ ok d
    → KeepsConfig c d
unfolding update_fund_fee_rate
fund_rate-KeepsConfig c value {d} i h =
    take_apart (assert (leb value fee_rate_denominator_value)) h λ _ e0 h0.
      take_apart (add u64_max value c.protocol_fee_rate) h0 λ sum e1 h1.
        take_apart (assert (leb sum fee_rate_denominator_value)) h1 λ _ e2 h2.
          let (total, _) = add-ok u64_max value c.protocol_fee_rate e1 in
          let most = assert-ok (leb sum fee_rate_denominator_value) e2 in
          let kept = i.charged in
          simp (sym (ok_injective h2))
            (record { charged = kept; shared = ground arith }, refl, refl)

-- A config with the same rates.
same_rates :
    (c d : AmmConfig)
    → IsConfig c
    → d.trade_fee_rate ≡ c.trade_fee_rate
    → d.creator_fee_rate ≡ c.creator_fee_rate
    → d.protocol_fee_rate ≡ c.protocol_fee_rate
    → d.fund_fee_rate ≡ c.fund_fee_rate
    → IsConfig d
same_rates c d i e1 e2 e3 e4 = record {
  charged = rw (e1, e2) i.charged;
  shared = rw (e3, e4) i.shared;
}

protocol_owner-KeepsConfig :
    (c : AmmConfig) (remaining_accounts : List ℕ) {d : AmmConfig}
    → IsConfig c
    → (first_account remaining_accounts >>= set_new_protocol_owner c) ≡ ok d
    → KeepsConfig c d
unfolding set_new_protocol_owner
protocol_owner-KeepsConfig c keys {d} i h = take_apart (first_account keys) h λ key e1 h1.
    take_apart (require (not (key == 0)) _) h1
      λ _ e2 h2. simp (sym (ok_injective h2)) (same_rates c _ i refl refl refl refl, refl, refl)

fund_owner-KeepsConfig :
    (c : AmmConfig) (remaining_accounts : List ℕ) {d : AmmConfig}
    → IsConfig c
    → (first_account remaining_accounts >>= set_new_fund_owner c) ≡ ok d
    → KeepsConfig c d
unfolding set_new_fund_owner
fund_owner-KeepsConfig c keys {d} i h = take_apart (first_account keys) h λ key e1 h1.
    take_apart (require (not (key == 0)) _) h1
      λ _ e2 h2. simp (sym (ok_injective h2)) (same_rates c _ i refl refl refl refl, refl, refl)

dispatch-KeepsConfig :
    (c : AmmConfig) (param value : ℕ) (remaining_accounts : List ℕ) {d : AmmConfig}
    → IsConfig c
    → dispatch_update c param value remaining_accounts ≡ ok d
    → KeepsConfig c d
unfolding dispatch_update
dispatch-KeepsConfig c zero value keys i h = trade_rate-KeepsConfig c value i h
dispatch-KeepsConfig c (suc zero) value keys i h = protocol_rate-KeepsConfig c value i h
dispatch-KeepsConfig c (suc (suc zero)) value keys i h = fund_rate-KeepsConfig c value i h
dispatch-KeepsConfig c (suc (suc (suc zero))) value keys i h = protocol_owner-KeepsConfig c keys i h
dispatch-KeepsConfig c (suc (suc (suc (suc zero)))) value keys i h =
    fund_owner-KeepsConfig c keys i h
dispatch-KeepsConfig c (suc (suc (suc (suc (suc zero))))) value keys i h =
    simp (sym (ok_injective h)) (same_rates c _ i refl refl refl refl, refl, refl)
dispatch-KeepsConfig c (suc (suc (suc (suc (suc (suc zero)))))) value keys i h =
    simp (sym (ok_injective h)) (same_rates c _ i refl refl refl refl, refl, refl)
dispatch-KeepsConfig c (suc (suc (suc (suc (suc (suc (suc zero))))))) value keys i h =
    creator_rate-KeepsConfig c value i h
dispatch-KeepsConfig c (suc (suc (suc (suc (suc (suc (suc (suc n)))))))) value keys i h =
    absurd (ground arith)

-- Every update of a config within the bounds leaves it within them, with its index and its bump, and
-- only the admin makes one.
pub update_amm_config-IsConfig :
    (chain : Chain) (owner : ℕ) (c : AmmConfig) (param value : ℕ) (remaining_accounts : List ℕ)
    {d : AmmConfig}
    → IsConfig c
    → update_amm_config chain owner c param value remaining_accounts ≡ ok d
    → (IsConfig d × (d.index ≡ c.index) × (d.bump ≡ c.bump)) × (owner ≡ chain.admin)
unfolding update_amm_config
update_amm_config-IsConfig chain owner c param value keys i h =
    take_apart (require (owner == chain.admin) _) h λ _ e1 h1.
      let signed = require-ok (owner == chain.admin) _ e1 in
      (dispatch-KeepsConfig c param value keys i h1, ground arith)
