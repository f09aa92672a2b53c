-- ===== src/States/Pool/Fees.antt =====
-- The fee counters of pool.rs: what the vaults hold beside them, and where a swap books its fees.
use raydium_cp_swap.Base.{ℕ, ◌+◌, ◌≤◌, ◌≡◌, ◌↔◌, ◌⊎◌, Bool, true, false, arith, ok, if◌then◌else◌}
use raydium_cp_swap.Base.Words.{u64_max, checked_add, checked_sub}
use raydium_cp_swap.Curve.Calculator.{TradeDirection}
use raydium_cp_swap.States.Pool.{
  PoolState, vault_amount_without_fee, is_creator_fee_on_input, book_fees, update_fees,
}

-- The fees of each token that are owed.
abbrev pub fees_0 : PoolState → ℕ
fees_0 p = p.protocol_fees_token_0 + p.fund_fees_token_0 + p.creator_fees_token_0

abbrev pub fees_1 : PoolState → ℕ
fees_1 p = p.protocol_fees_token_1 + p.fund_fees_token_1 + p.creator_fees_token_1

-- What the vaults hold covers the fees that are owed.
abbrev pub IsSolvent : PoolState → ℕ → ℕ → Type 0
IsSolvent p vault_0 vault_1 = (fees_0 p ≤ vault_0) × (fees_1 p ≤ vault_1)

pub vault_amount-ok :
    (p : PoolState) (vault_0 vault_1 : ℕ) {a b : ℕ}
    → vault_amount_without_fee p vault_0 vault_1 ≡ ok (a, b)
    → (a + fees_0 p ≡ vault_0) × (b + fees_1 p ≡ vault_1)
unfolding vault_amount_without_fee checked_add checked_sub
vault_amount-ok p vault_0 vault_1 h = ground arith

pub vault_amount-eq :
    (p : PoolState) (vault_0 vault_1 a b : ℕ)
    → vault_0 ≤ u64_max
    → vault_1 ≤ u64_max
    → a + fees_0 p ≡ vault_0
    → b + fees_1 p ≡ vault_1
    → vault_amount_without_fee p vault_0 vault_1 ≡ ok (a, b)
unfolding vault_amount_without_fee checked_add checked_sub
vault_amount-eq p vault_0 vault_1 a b h k e f = ground arith

-- For vaults that hold `u64` amounts, `vault_amount_without_fee` returns `a` and `b` exactly when
-- these, with the fees owed of each token, make up the vaults.
pub vault_amount_iff :
    (p : PoolState) (vault_0 vault_1 a b : ℕ)
    → vault_0 ≤ u64_max
    → vault_1 ≤ u64_max
    → (vault_amount_without_fee p vault_0 vault_1 ≡ ok (a, b))
      ↔ ((a + fees_0 p ≡ vault_0) × (b + fees_1 p ≡ vault_1))
vault_amount_iff p vault_0 vault_1 a b h k = (
  λ e. vault_amount-ok p vault_0 vault_1 e,
  λ e. vault_amount-eq p vault_0 vault_1 a b h k e.0 e.1,
)

abbrev pub fees_in : TradeDirection → PoolState → ℕ
fees_in TradeDirection.zero_for_one p = fees_0 p
fees_in TradeDirection.one_for_zero p = fees_1 p

abbrev pub fees_out : TradeDirection → PoolState → ℕ
fees_out TradeDirection.zero_for_one p = fees_1 p
fees_out TradeDirection.one_for_zero p = fees_0 p

-- The fields that a booking of fees leaves alone, but for the counters.
pub record KeepsPool (p q : PoolState) : Type 0 where
  pub same_0 : q.token_0_vault ≡ p.token_0_vault
  pub same_1 : q.token_1_vault ≡ p.token_1_vault
  pub same_mint : q.lp_mint ≡ p.lp_mint
  pub same_supply : q.lp_supply ≡ p.lp_supply
  pub same_fee_on : q.creator_fee_on ≡ p.creator_fee_on
  pub same_status : q.status ≡ p.status

-- The six counters by the side of the token in a trade.
abbrev pub protocol_in : TradeDirection → PoolState → ℕ
protocol_in TradeDirection.zero_for_one p = p.protocol_fees_token_0
protocol_in TradeDirection.one_for_zero p = p.protocol_fees_token_1

abbrev pub protocol_out : TradeDirection → PoolState → ℕ
protocol_out TradeDirection.zero_for_one p = p.protocol_fees_token_1
protocol_out TradeDirection.one_for_zero p = p.protocol_fees_token_0

abbrev pub fund_in : TradeDirection → PoolState → ℕ
fund_in TradeDirection.zero_for_one p = p.fund_fees_token_0
fund_in TradeDirection.one_for_zero p = p.fund_fees_token_1

abbrev pub fund_out : TradeDirection → PoolState → ℕ
fund_out TradeDirection.zero_for_one p = p.fund_fees_token_1
fund_out TradeDirection.one_for_zero p = p.fund_fees_token_0

abbrev pub creator_in : TradeDirection → PoolState → ℕ
creator_in TradeDirection.zero_for_one p = p.creator_fees_token_0
creator_in TradeDirection.one_for_zero p = p.creator_fees_token_1

abbrev pub creator_out : TradeDirection → PoolState → ℕ
creator_out TradeDirection.zero_for_one p = p.creator_fees_token_1
creator_out TradeDirection.one_for_zero p = p.creator_fees_token_0

-- Each of the six counters of `q` is that of `p` and what is booked to it.
pub record IsBooked (d : TradeDirection) (p : PoolState) (protocol fund creator : ℕ)
    (on_input : Bool) (q : PoolState) : Type 0 where
  pub to_protocol : protocol_in d q ≡ protocol_in d p + protocol
  pub to_fund : fund_in d q ≡ fund_in d p + fund
  pub to_creator_in : creator_in d q ≡ creator_in d p + (if on_input then creator else 0)
  pub to_creator_out : creator_out d q ≡ creator_out d p + (if on_input then 0 else creator)
  pub same_protocol : protocol_out d q ≡ protocol_out d p
  pub same_fund : fund_out d q ≡ fund_out d p
  pub kept : KeepsPool p q

book_fees-IsBooked :
    (p : PoolState) (protocol fund creator : ℕ) (on_input : Bool) (direction : TradeDirection)
    {q : PoolState}
    → book_fees p protocol fund creator on_input direction ≡ ok q
    → IsBooked direction p protocol fund creator on_input q
unfolding book_fees checked_add
book_fees-IsBooked p protocol fund creator true TradeDirection.zero_for_one h = ground arith
book_fees-IsBooked p protocol fund creator true TradeDirection.one_for_zero h = ground arith
book_fees-IsBooked p protocol fund creator false TradeDirection.zero_for_one h = ground arith
book_fees-IsBooked p protocol fund creator false TradeDirection.one_for_zero h = ground arith

-- When `update_fees` succeeds, the protocol's and the fund's counters of the input token grow by
-- their parts, and those of the output token stay; the creator fee is added to the creator's counter
-- of the token that `is_creator_fee_on_input` names, and the creator's counter of the other stays; it
-- is zero unless creator fees are enabled; and the vaults' addresses, the supply, the fee model and
-- the status stay.
pub update_fees_lem :
    (p : PoolState) (protocol fund creator : ℕ) (direction : TradeDirection) {q : PoolState}
    (on_input : Bool)
    → update_fees p protocol fund creator direction ≡ ok q
    → is_creator_fee_on_input p direction ≡ ok on_input
    → IsBooked direction p protocol fund creator on_input q
      × ((p.enable_creator_fee ≡ true) ⊎ (creator ≡ 0))
unfolding update_fees
update_fees_lem p protocol fund creator direction {q} on_input h k =
    ground (arith, book_fees-IsBooked p protocol fund creator on_input direction {q = q})

-- What the six counters owe in sum.
pub IsBooked-owed :
    (p : PoolState) (protocol fund creator : ℕ) (direction : TradeDirection) {q : PoolState}
    (on_input : Bool)
    → IsBooked direction p protocol fund creator on_input q
    → (fees_in direction q
        ≡ fees_in direction p + protocol + fund + (if on_input then creator else 0))
      × (fees_out direction q ≡ fees_out direction p + (if on_input then 0 else creator))
IsBooked-owed p protocol fund creator TradeDirection.zero_for_one on_input b = ground arith
IsBooked-owed p protocol fund creator TradeDirection.one_for_zero on_input b = ground arith
