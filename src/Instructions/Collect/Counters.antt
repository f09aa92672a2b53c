-- ===== src/Instructions/Collect/Counters.antt =====
-- The counters of the fees owed to the protocol, the fund and the creator, of each token, that the
-- three collect handlers lower.
use raydium_cp_swap.Base.{ℕ, ◌+◌, ◌≡◌, ◌≢◌, refl}
use raydium_cp_swap.States.Pool.{PoolState}

-- Whose fees.
pub data Holder : Type 0 where
  protocol fund creator : Holder

-- What is owed to a holder, of each token.
abbrev pub owed_to : Holder → PoolState → ℕ × ℕ
owed_to Holder.protocol p = (p.protocol_fees_token_0, p.protocol_fees_token_1)
owed_to Holder.fund p = (p.fund_fees_token_0, p.fund_fees_token_1)
owed_to Holder.creator p = (p.creator_fees_token_0, p.creator_fees_token_1)

-- The holder's two counters lose what is paid, and those of the other two holders stay.
pub record LowersOnly (holder : Holder) (p : PoolState) (paid_0 paid_1 : ℕ) (q : PoolState)
    : Type 0 where
  pub lowered_0 : (owed_to holder q).0 + paid_0 ≡ (owed_to holder p).0
  pub lowered_1 : (owed_to holder q).1 + paid_1 ≡ (owed_to holder p).1
  pub others : (other : Holder) → other ≢ holder → owed_to other q ≡ owed_to other p

pub protocol-LowersOnly :
    (p q : PoolState) (paid_0 paid_1 : ℕ)
    → q.protocol_fees_token_0 + paid_0 ≡ p.protocol_fees_token_0
    → q.protocol_fees_token_1 + paid_1 ≡ p.protocol_fees_token_1
    → owed_to Holder.fund q ≡ owed_to Holder.fund p
    → owed_to Holder.creator q ≡ owed_to Holder.creator p
    → LowersOnly Holder.protocol p paid_0 paid_1 q
protocol-LowersOnly p q paid_0 paid_1 h k same_fund same_creator = record {
  lowered_0 = h;
  lowered_1 = k;
  others = others;
}
  where
    others : (other : Holder) → other ≢ Holder.protocol → owed_to other q ≡ owed_to other p
    others Holder.protocol ne = absurd (ne refl)
    others Holder.fund ne = same_fund
    others Holder.creator ne = same_creator

pub fund-LowersOnly :
    (p q : PoolState) (paid_0 paid_1 : ℕ)
    → q.fund_fees_token_0 + paid_0 ≡ p.fund_fees_token_0
    → q.fund_fees_token_1 + paid_1 ≡ p.fund_fees_token_1
    → owed_to Holder.protocol q ≡ owed_to Holder.protocol p
    → owed_to Holder.creator q ≡ owed_to Holder.creator p
    → LowersOnly Holder.fund p paid_0 paid_1 q
fund-LowersOnly p q paid_0 paid_1 h k same_protocol same_creator = record {
  lowered_0 = h;
  lowered_1 = k;
  others = others;
}
  where
    others : (other : Holder) → other ≢ Holder.fund → owed_to other q ≡ owed_to other p
    others Holder.protocol ne = same_protocol
    others Holder.fund ne = absurd (ne refl)
    others Holder.creator ne = same_creator

pub creator-LowersOnly :
    (p q : PoolState) (paid_0 paid_1 : ℕ)
    → q.creator_fees_token_0 + paid_0 ≡ p.creator_fees_token_0
    → q.creator_fees_token_1 + paid_1 ≡ p.creator_fees_token_1
    → owed_to Holder.protocol q ≡ owed_to Holder.protocol p
    → owed_to Holder.fund q ≡ owed_to Holder.fund p
    → LowersOnly Holder.creator p paid_0 paid_1 q
creator-LowersOnly p q paid_0 paid_1 h k same_protocol same_fund = record {
  lowered_0 = h;
  lowered_1 = k;
  others = others;
}
  where
    others : (other : Holder) → other ≢ Holder.creator → owed_to other q ≡ owed_to other p
    others Holder.protocol ne = same_protocol
    others Holder.fund ne = same_fund
    others Holder.creator ne = absurd (ne refl)
