-- ===== src/Token/Sample.antt =====
-- A token program to run the program with: balances and supplies as functions, and a transfer fee in
-- basis points, up to a maximum, for mints that carry one.
use raydium_cp_swap.Base.{
  ℕ, ◌+◌, ◌-◌, ◌*◌, ◌/◌, ◌≤◌, ◌≡◌, ◌≢◌, refl, min, Option, some, none, Result, ok, err, arith,
  if◌then◌else◌, ◌==◌, leb, Bool-cases, inl, inr, false, sym, ap, ==_false, ok_injective,
}
use raydium_cp_swap.Error.{Error}
use raydium_cp_swap.Token.{get_transfer_fee, fee_of}
use raydium_cp_swap.Token.Interface.{Spl, Mint, Transfer, TransferFee, MintTo, Burn}
use raydium_cp_swap.Token.Transfers.{IsTokenProgram}

pub record Bank : Type 0 where
  pub balances : ℕ → ℕ
  pub supplies : ℕ → ℕ

abbrev pub set : (ℕ → ℕ) → ℕ → ℕ → ℕ → ℕ
set f k v j = if j == k then v else f j

abbrev pub token_id : ℕ
token_id = 1

abbrev pub epoch_fee : TransferFee → ℕ → ℕ
epoch_fee config amount =
    min amount
      (min ((amount * config.transfer_fee_basis_points + 9_999) / 10_000) config.maximum_fee)

-- What has to be added for `post` to arrive.
abbrev pub inverse_fee : TransferFee → ℕ → ℕ
inverse_fee config post =
    min
      ((post * 10_000 + (9_999 - config.transfer_fee_basis_points))
          / (10_000 - config.transfer_fee_basis_points)
        - post)
      config.maximum_fee

abbrev pub fee_in : Option TransferFee → ℕ → ℕ
fee_in (some config) amount = epoch_fee config amount
fee_in none amount = 0

abbrev pub charge : Mint (Option TransferFee) → ℕ → ℕ
charge mint amount = if mint.owner == token_id then 0 else fee_in mint.content amount

abbrev pub move : Transfer (Option TransferFee) → Bank → Result Error Bank
move tr bank =
    if leb tr.amount (bank.balances tr.from)
    then ok (record bank {
      balances = set (set bank.balances tr.from (bank.balances tr.from - tr.amount)) tr.to (
          set bank.balances tr.from (bank.balances tr.from - tr.amount) tr.to
          + (tr.amount - charge tr.mint tr.amount));
    })
    else err (Error.external 1)

abbrev pub print : MintTo → Bank → Result Error Bank
print request bank = ok (record {
  balances = set bank.balances request.to (bank.balances request.to + request.amount);
  supplies = set bank.supplies request.mint (bank.supplies request.mint + request.amount);
})

abbrev pub destroy : Burn → Bank → Result Error Bank
destroy request bank =
    if leb request.amount (bank.supplies request.mint)
    then ok (record {
      balances = set bank.balances request.from (bank.balances request.from - request.amount);
      supplies = set bank.supplies request.mint (bank.supplies request.mint - request.amount);
    })
    else err (Error.external 1)

abbrev pub sample : Spl
sample = record {
  MintData = Option TransferFee;
  FeeConfig = TransferFee;
  Bank = Bank;
  balance = λ b k. b.balances k;
  supply = λ b m. b.supplies m;
  token_id = token_id;
  max_fee_basis_points = 10_000;
  fee_config = λ m. ok m;
  get_epoch_fee = λ c e. c;
  calculate_epoch_fee = λ c e amount. ok (epoch_fee c amount);
  calculate_inverse_epoch_fee = λ c e post. ok (inverse_fee c post);
  transfer_checked = λ e tr b. move tr b;
  mint_to = print;
  burn = destroy;
}

charge-ok :
    (epoch : ℕ) (mint : Mint (Option TransferFee)) (amount : ℕ) {fee : ℕ}
    → get_transfer_fee sample epoch mint amount ≡ ok fee
    → (fee ≡ charge mint amount) × (fee ≤ amount)
unfolding get_transfer_fee fee_of
charge-ok epoch mint amount {fee} h = elim (Bool-cases (mint.owner == token_id)) [
  | inl old ↦ ground arith
  | inr new ↦ by_content mint.content (rw new at h) new
]
  where
    by_content :
        (content : Option TransferFee)
        → fee_of sample epoch content amount ≡ ok fee
        → (mint.owner == token_id) ≡ false
        → (fee ≡ (if mint.owner == token_id then 0 else fee_in content amount)) × (fee ≤ amount)
    by_content none e new = rw new (ground arith)
    by_content (some config) e new = rw new (ground arith)

pub set_at : (f : ℕ → ℕ) (k v : ℕ) → set f k v k ≡ v
set_at f k v = ground arith

set_off : (f : ℕ → ℕ) (k v j : ℕ) → j ≢ k → set f k v j ≡ f j
set_off f k v j ne = rw (==_false j k ne) refl

-- The balances after a transfer between two accounts.
moved :
    (tr : Transfer (Option TransferFee)) (b b' : Bank)
    → move tr b ≡ ok b'
    → (tr.amount ≤ b.balances tr.from)
      × (b' ≡ record b {
        balances = set (set b.balances tr.from (b.balances tr.from - tr.amount)) tr.to (
            set b.balances tr.from (b.balances tr.from - tr.amount) tr.to
            + (tr.amount - charge tr.mint tr.amount));
      })
moved tr b b' h = elim (Bool-cases (leb tr.amount (b.balances tr.from))) [
  | inl enough ↦ let h' = rw enough at h in (ground arith, sym (ok_injective h'))
  | inr short ↦ let h' = rw short at h in absurd (cc)
]

full_fee_lem :
    (config : TransferFee) (amount : ℕ)
    → config.transfer_fee_basis_points ≡ 10_000
    → epoch_fee config amount ≡ min amount config.maximum_fee
full_fee_lem config amount h = rw h (omega arith)

pub sample-IsTokenProgram : (epoch : ℕ) → IsTokenProgram sample epoch
sample-IsTokenProgram epoch = record {
  debit = λ tr b b' h ne.
      let (enough, same) = moved tr b b' h in
      rw
        (
          same,
          set_off _ tr.to _ tr.from ne,
          set_at b.balances tr.from (b.balances tr.from - tr.amount),
        )
        (omega arith);
  credit = λ tr b b' fee h ne e.
      let (enough, same) = moved tr b b' h in
      let (f, most) = charge-ok epoch tr.mint tr.amount e in
      rw
        (
          same,
          set_at (set b.balances tr.from (b.balances tr.from - tr.amount)) tr.to,
          set_off b.balances tr.from (b.balances tr.from - tr.amount) tr.to (λ q. ne (sym q)),
          ← f,
        )
        (omega arith);
  others = λ tr b b' k h p q.
      let (enough, same) = moved tr b b' h in
      rw (same, set_off _ tr.to _ k q, set_off b.balances tr.from _ k p) refl;
  same_supply = λ tr b b' m h. let (enough, same) = moved tr b b' h in rw same refl;
  mint_others = λ request b b' k h p. rw (← ok_injective h) (set_off b.balances request.to _ k p);
  mint_supply = λ request b b' h. rw (← ok_injective h) (set_at b.supplies request.mint _);
  burn_others = λ request b b' k h p.
      rw (← ok_injective (burnt request b b' h).1) (set_off b.balances request.from _ k p);
  burn_supply = λ request b b' h.
      let (enough, same) = burnt request b b' h in
      rw (← ok_injective same, set_at b.supplies request.mint _) (omega arith);
  full_fee = λ config amount h. ap ok (full_fee_lem config amount h);
}
  where
    burnt :
        (request : Burn) (b b' : Bank)
        → destroy request b ≡ ok b'
        → (request.amount ≤ b.supplies request.mint)
          × (◌≡◌ {A = Result Error Bank}
              (ok (record {
                balances = set b.balances request.from (b.balances request.from - request.amount);
                supplies = set b.supplies request.mint (b.supplies request.mint - request.amount);
              }))
              (ok b'))
    burnt request b b' h = elim (Bool-cases (leb request.amount (b.supplies request.mint))) [
      | inl enough ↦ (ground arith, rw enough at h)
      | inr short ↦ let h' = rw short at h in absurd (cc)
    ]
