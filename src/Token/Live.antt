-- ===== src/Token/Live.antt =====
-- When the token programs let a transfer or a burning through.
use raydium_cp_swap.Base.{ℕ, ◌+◌, ◌≤◌, ◌≡◌, ◌≢◌, ok}
use raydium_cp_swap.Base.Words.{u64_max}
use raydium_cp_swap.Token.Interface.{Spl, Transfer, Burn}

module _ (spl : Spl) (epoch : ℕ) where
  open spl use {MintData, Bank, balance, supply, transfer_checked, burn}

  -- The documented behaviour of the token programs for accounts in order. `Usable tr b` stands for all
  -- that a transfer asks but for amounts: both accounts are there, of the mint and not frozen, the
  -- decimals are the mint's and the authority may sign; `Burnable r b` for the same of a burning.
  -- Such a transfer goes through when the source covers it and the recipient has room for it, such a
  -- burning when the account and the supply cover it, and neither call spoils a transfer between
  -- accounts that it does not touch.
  pub record IsLive (Usable : Transfer MintData → Bank → Type 0) (Burnable : Burn → Bank → Type 0)
      : Type 0 where
    pub transfers :
        (tr : Transfer MintData) (b : Bank)
        → Usable tr b
        → tr.amount ≤ balance b tr.from
        → balance b tr.to + tr.amount ≤ u64_max
        → (b' : Bank) × (transfer_checked epoch tr b ≡ ok b')
    pub burns :
        (request : Burn) (b : Bank)
        → Burnable request b
        → request.amount ≤ balance b request.from
        → request.amount ≤ supply b request.mint
        → (b' : Bank) × (burn request b ≡ ok b')
    pub usable_after_burn :
        (tr : Transfer MintData) (request : Burn) (b b' : Bank)
        → burn request b ≡ ok b'
        → tr.from ≢ request.from
        → tr.to ≢ request.from
        → Usable tr b
        → Usable tr b'
    pub usable_after_transfer :
        (tr done : Transfer MintData) (b b' : Bank)
        → transfer_checked epoch done b ≡ ok b'
        → (tr.from ≢ done.from) × (tr.from ≢ done.to)
        → (tr.to ≢ done.from) × (tr.to ≢ done.to)
        → Usable tr b
        → Usable tr b'
