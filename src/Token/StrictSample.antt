-- ===== src/Token/StrictSample.antt =====
-- The sample token program with a frozen account and with the tests of the token programs: a transfer
-- or a burning fails for that account, when the source does not cover it, and when the recipient's
-- balance would leave 64 bits.
use raydium_cp_swap.Base.{
  ℕ, ◌+◌, ◌≡◌, ◌≢◌, Bool, true, false, Option, Result, ok, err, if◌then◌else◌, ◌==◌, leb, leb-true,
  refl, ==_false,
}
use raydium_cp_swap.Base.Words.{u64_max}
use raydium_cp_swap.Error.{Error}
use raydium_cp_swap.Token.{get_transfer_fee, fee_of}
use raydium_cp_swap.Token.Interface.{Spl, Transfer, TransferFee, Burn}
use raydium_cp_swap.Token.Live.{IsLive}
use raydium_cp_swap.Token.Sample.{Bank, sample, move, destroy, sample-IsTokenProgram}
use raydium_cp_swap.Token.Transfers.{IsTokenProgram}

abbrev frozen : ℕ
frozen = 99

abbrev unless : Bool → Result Error Bank → Result Error Bank
unless test r = if test then err (Error.external 2) else r

abbrev when : Bool → Result Error Bank → Result Error Bank
when test r = if test then r else err (Error.external 3)

abbrev strict_move : Transfer (Option TransferFee) → Bank → Result Error Bank
strict_move tr b =
    unless (tr.from == frozen)
      (unless (tr.to == frozen) (when (leb (b.balances tr.to + tr.amount) u64_max) (move tr b)))

abbrev strict_destroy : Burn → Bank → Result Error Bank
strict_destroy request b =
    unless (request.from == frozen)
      (when (leb request.amount (b.balances request.from)) (destroy request b))

abbrev pub strict : Spl
strict = record sample { transfer_checked = λ e tr b. strict_move tr b; burn = strict_destroy }

unless-ok : (test : Bool) (r : Result Error Bank) {b : Bank} → unless test r ≡ ok b → r ≡ ok b
unless-ok true r h = absurd (cc)
unless-ok false r h = h

when-ok : (test : Bool) (r : Result Error Bank) {b : Bank} → when test r ≡ ok b → r ≡ ok b
when-ok true r h = h
when-ok false r h = absurd (cc)

moves :
    (tr : Transfer (Option TransferFee)) (b b' : Bank)
    → strict_move tr b ≡ ok b'
    → move tr b ≡ ok b'
moves tr b b' h =
    when-ok (leb (b.balances tr.to + tr.amount) u64_max) (move tr b)
      (unless-ok (tr.to == frozen) _ (unless-ok (tr.from == frozen) _ h))

destroys :
    (request : Burn) (b b' : Bank) → strict_destroy request b ≡ ok b' → destroy request b ≡ ok b'
destroys request b b' h =
    when-ok (leb request.amount (b.balances request.from)) (destroy request b)
      (unless-ok (request.from == frozen) _ h)

pub strict-IsTokenProgram : (epoch : ℕ) → IsTokenProgram strict epoch
unfolding get_transfer_fee fee_of
strict-IsTokenProgram epoch =
    let laws = sample-IsTokenProgram epoch in
    record {
      debit = λ tr b b' h. laws.debit tr b b' (moves tr b b' h);
      credit = λ tr b b' fee h. laws.credit tr b b' fee (moves tr b b' h);
      others = λ tr b b' k h. laws.others tr b b' k (moves tr b b' h);
      same_supply = λ tr b b' m h. laws.same_supply tr b b' m (moves tr b b' h);
      mint_others = laws.mint_others;
      mint_supply = laws.mint_supply;
      burn_others = λ request b b' k h. laws.burn_others request b b' k (destroys request b b' h);
      burn_supply = λ request b b' h. laws.burn_supply request b b' (destroys request b b' h);
      full_fee = laws.full_fee;
    }

-- Neither account of a transfer is frozen, nor the one that is burned from.
abbrev pub Usable : Transfer (Option TransferFee) → Bank → Type 0
Usable tr b = (tr.from ≢ frozen) × (tr.to ≢ frozen)

abbrev pub Burnable : Burn → Bank → Type 0
Burnable request b = request.from ≢ frozen

-- A test that holds lets the call through.
let_through :
    (test : Bool) (after : Bank) (e : Error)
    → test ≡ true
    → (b : Bank) × ((if test then ok after else err e) ≡ ok b)
let_through true after e h = (after, refl)
let_through false after e h = absurd (cc)

pub strict-IsLive : (epoch : ℕ) → IsLive strict epoch Usable Burnable
strict-IsLive epoch = record {
  transfers = λ tr b h covered room.
      rw
        (
          ==_false tr.from frozen h.0,
          ==_false tr.to frozen h.1,
          leb-true (b.balances tr.to + tr.amount) u64_max room,
        )
        (let_through (leb tr.amount (b.balances tr.from)) _ _
          (leb-true tr.amount (b.balances tr.from) covered));
  burns = λ request b h held minted.
      rw (==_false request.from frozen h, leb-true request.amount (b.balances request.from) held)
        (let_through (leb request.amount (b.supplies request.mint)) _ _
          (leb-true request.amount (b.supplies request.mint) minted));
  usable_after_burn = λ tr request b b' e p q h. h;
  usable_after_transfer = λ tr done b b' e p q h. h;
}
