-- ===== src/Token/Transfers.antt =====
-- What the program relies on of the token programs, and what its own transfer helpers do then.
use Prim.Native.Nat.{min}
use raydium_cp_swap.Base.{
  ℕ, unwrap, require, not, ◌∙◌, ap, ◌+◌, ◌<◌, ◌≡◌, ◌≢◌, Option, some, none, ok, take_apart,
  require-ok, unwrap-ok, arith, ◌==◌, Bool-cases, inl, inr,
}
use raydium_cp_swap.Base.Words.{u64_max, checked_add, checked_add-ok}
use raydium_cp_swap.Token.{
  transfer_from_user_to_pool_vault, transfer_from_pool_vault_to_user, get_transfer_fee,
  get_transfer_inverse_fee, inverse_fee_of, fee_of, checked_inverse_fee,
}
use raydium_cp_swap.Token.Interface.{Spl, Mint, Transfer, MintTo, Burn}

module _ (spl : Spl) (epoch : ℕ) where
  open spl use {
    MintData, FeeConfig, Bank, balance, supply, transfer_checked, mint_to, burn, get_epoch_fee,
    calculate_epoch_fee,
  }

  -- The documented behaviour of the token programs in an epoch: a transfer between two accounts takes
  -- its amount from the one, gives it to the other less the transfer fee of the mint, and leaves all
  -- other accounts and every supply alone; minting adds to a supply and burning takes from it; at 10 000 basis points the fee is the whole amount up to
  -- the maximum.
  pub record IsTokenProgram : Type 0 where
    pub debit :
        (tr : Transfer MintData) (b b' : Bank)
        → transfer_checked epoch tr b ≡ ok b'
        → tr.from ≢ tr.to
        → balance b' tr.from + tr.amount ≡ balance b tr.from
    pub credit :
        (tr : Transfer MintData) (b b' : Bank) (fee : ℕ)
        → transfer_checked epoch tr b ≡ ok b'
        → tr.from ≢ tr.to
        → get_transfer_fee spl epoch tr.mint tr.amount ≡ ok fee
        → balance b' tr.to + fee ≡ balance b tr.to + tr.amount
    pub others :
        (tr : Transfer MintData) (b b' : Bank) (k : ℕ)
        → transfer_checked epoch tr b ≡ ok b'
        → k ≢ tr.from
        → k ≢ tr.to
        → balance b' k ≡ balance b k
    pub same_supply :
        (tr : Transfer MintData) (b b' : Bank) (m : ℕ)
        → transfer_checked epoch tr b ≡ ok b'
        → supply b' m ≡ supply b m
    -- minting and burning change one account and one supply
    pub mint_others :
        (request : MintTo) (b b' : Bank) (k : ℕ)
        → mint_to request b ≡ ok b'
        → k ≢ request.to
        → balance b' k ≡ balance b k
    pub mint_supply :
        (request : MintTo) (b b' : Bank)
        → mint_to request b ≡ ok b'
        → supply b' request.mint ≡ supply b request.mint + request.amount
    pub burn_others :
        (request : Burn) (b b' : Bank) (k : ℕ)
        → burn request b ≡ ok b'
        → k ≢ request.from
        → balance b' k ≡ balance b k
    pub burn_supply :
        (request : Burn) (b b' : Bank)
        → burn request b ≡ ok b'
        → supply b' request.mint + request.amount ≡ supply b request.mint
    pub full_fee :
        (config : FeeConfig) (amount : ℕ)
        → (get_epoch_fee config epoch).transfer_fee_basis_points ≡ spl.max_fee_basis_points
        → calculate_epoch_fee config epoch amount
          ≡ ok (min amount (get_epoch_fee config epoch).maximum_fee)

module _ (spl : Spl) (epoch : ℕ) (laws : IsTokenProgram spl epoch) where
  open spl use {MintData, FeeConfig, Bank, balance, supply}

  -- A transfer into a vault that is not empty.
  pub user_to_vault-ok :
      (tr : Transfer MintData) (b b' : Bank) (fee k : ℕ)
      → transfer_from_user_to_pool_vault spl epoch tr b ≡ ok b'
      → tr.from ≢ tr.to
      → 0 < tr.amount
      → get_transfer_fee spl epoch tr.mint tr.amount ≡ ok fee
      → (balance b' tr.to + fee ≡ balance b tr.to + tr.amount)
        × (k ≢ tr.from → k ≢ tr.to → balance b' k ≡ balance b k)
  unfolding transfer_from_user_to_pool_vault
  user_to_vault-ok tr b b' fee k h ne some_amount e = elim (Bool-cases (tr.amount == 0)) [
    | inl z ↦ absurd (ground arith)
    | inr z ↦ let h' = rw z at h in (laws.credit tr b b' fee h' ne e, laws.others tr b b' k h')
  ]

  -- A transfer out of a vault, of nothing too.
  pub vault_to_user-ok :
      (tr : Transfer MintData) (b b' : Bank) (k : ℕ)
      → transfer_from_pool_vault_to_user spl epoch tr b ≡ ok b'
      → tr.from ≢ tr.to
      → (balance b' tr.from + tr.amount ≡ balance b tr.from)
        × (k ≢ tr.from → k ≢ tr.to → balance b' k ≡ balance b k)
  unfolding transfer_from_pool_vault_to_user
  vault_to_user-ok tr b b' k h ne = elim (Bool-cases (tr.amount == 0)) [
    | inl z ↦ let h' = rw z at h in ground arith
    | inr z ↦ let h' = rw z at h in (laws.debit tr b b' h' ne, laws.others tr b b' k h')
  ]

  inverse_fee_of-ok :
      (config : Option FeeConfig) (post : ℕ) {fee : ℕ}
      → 0 < post
      → inverse_fee_of spl epoch config post ≡ ok fee
      → fee_of spl epoch config (post + fee) ≡ ok fee
  unfolding inverse_fee_of fee_of checked_inverse_fee
  inverse_fee_of-ok none post p h = h
  inverse_fee_of-ok (some config) post {fee} p h =
      elim (Bool-cases (bps == spl.max_fee_basis_points)) [
        | inl full ↦
            let same : fee ≡ top = ground arith in
            rw (laws.full_fee config (post + fee) (ground arith)) (ap ok (omega arith))
        | inr part ↦
            take_apart (unwrap (spl.calculate_inverse_epoch_fee config epoch post)) (rw part at h)
              λ f e1 h1. take_apart (unwrap (checked_add u64_max post f)) h1 λ whole e2 h2.
                take_apart (unwrap (spl.calculate_epoch_fee config epoch whole)) h2 λ g e3 h3.
                  take_apart (require (f == g) _) h3 λ _ e4 h4.
                    let equal = require-ok (f == g) _ e4 in
                    let same : f ≡ fee = cc in
                    let (added, _) = checked_add-ok u64_max post f (unwrap-ok _ e2) in
                    let sum : whole ≡ post + fee = omega arith in
                    rw (← sum) (e3 ∙ ap ok (ground arith))
      ]
    where
      bps : ℕ
      bps = (spl.get_epoch_fee config epoch).transfer_fee_basis_points

      top : ℕ
      top = (spl.get_epoch_fee config epoch).maximum_fee

  -- What `get_transfer_inverse_fee` returns for an amount is the transfer fee of the amount with it.
  pub inverse_fee-ok :
      (mint : Mint MintData) (post : ℕ) {fee : ℕ}
      → 0 < post
      → get_transfer_inverse_fee spl epoch mint post ≡ ok fee
      → get_transfer_fee spl epoch mint (post + fee) ≡ ok fee
  unfolding get_transfer_inverse_fee get_transfer_fee
  inverse_fee-ok mint post {fee} p h = elim (Bool-cases (mint.owner == spl.token_id)) [
    | inl old ↦ ground arith
    | inr new ↦ take_apart (require (not (post == 0)) _) (rw new at h) λ _ e1 h1.
        take_apart (spl.fee_config mint.content) h1
          λ config e2 h2. rw (new, e2) (inverse_fee_of-ok config post p h2)
  ]

  -- The other end of each transfer.
  pub user_to_vault-debit :
      (tr : Transfer MintData) (b b' : Bank)
      → transfer_from_user_to_pool_vault spl epoch tr b ≡ ok b'
      → tr.from ≢ tr.to
      → balance b' tr.from + tr.amount ≡ balance b tr.from
  unfolding transfer_from_user_to_pool_vault
  user_to_vault-debit tr b b' h ne = elim (Bool-cases (tr.amount == 0)) [
    | inl z ↦ let h' = rw z at h in ground arith
    | inr z ↦ laws.debit tr b b' (rw z at h) ne
  ]

  pub vault_to_user-credit :
      (tr : Transfer MintData) (b b' : Bank) (fee : ℕ)
      → transfer_from_pool_vault_to_user spl epoch tr b ≡ ok b'
      → tr.from ≢ tr.to
      → 0 < tr.amount
      → get_transfer_fee spl epoch tr.mint tr.amount ≡ ok fee
      → balance b' tr.to + fee ≡ balance b tr.to + tr.amount
  unfolding transfer_from_pool_vault_to_user
  vault_to_user-credit tr b b' fee h ne some_amount e = elim (Bool-cases (tr.amount == 0)) [
    | inl z ↦ absurd (ground arith)
    | inr z ↦ laws.credit tr b b' fee (rw z at h) ne e
  ]

  -- Neither transfer changes a supply.
  pub user_to_vault-supply :
      (tr : Transfer MintData) (b b' : Bank) (m : ℕ)
      → transfer_from_user_to_pool_vault spl epoch tr b ≡ ok b'
      → supply b' m ≡ supply b m
  unfolding transfer_from_user_to_pool_vault
  user_to_vault-supply tr b b' m h = elim (Bool-cases (tr.amount == 0)) [
    | inl z ↦ let h' = rw z at h in ground arith
    | inr z ↦ laws.same_supply tr b b' m (rw z at h)
  ]

  pub vault_to_user-supply :
      (tr : Transfer MintData) (b b' : Bank) (m : ℕ)
      → transfer_from_pool_vault_to_user spl epoch tr b ≡ ok b'
      → supply b' m ≡ supply b m
  unfolding transfer_from_pool_vault_to_user
  vault_to_user-supply tr b b' m h = elim (Bool-cases (tr.amount == 0)) [
    | inl z ↦ let h' = rw z at h in ground arith
    | inr z ↦ laws.same_supply tr b b' m (rw z at h)
  ]

  pub user_to_vault-others :
      (tr : Transfer MintData) (b b' : Bank) (k : ℕ)
      → transfer_from_user_to_pool_vault spl epoch tr b ≡ ok b'
      → k ≢ tr.from
      → k ≢ tr.to
      → balance b' k ≡ balance b k
  unfolding transfer_from_user_to_pool_vault
  user_to_vault-others tr b b' k h p q = elim (Bool-cases (tr.amount == 0)) [
    | inl z ↦ let h' = rw z at h in ground arith
    | inr z ↦ laws.others tr b b' k (rw z at h) p q
  ]
