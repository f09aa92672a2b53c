-- ===== src/Instructions/Support.antt =====
-- programs/cp-swap/src/instructions/admin: create_permission_pda.rs, close_permission_pda.rs,
-- create_support_mint_associated.rs and close_support_mint_associated.rs. The accounts of one type that
-- the program has are a function from addresses. The error of a call that breaks two constraints may be
-- that of the other one, since Anchor has an order of its own for them.
pub mod Records
mod Tests
use raydium_cp_swap.Base.{
  ℕ, Bool, Option, some, none, [], ◌∷◌, List, Result, ok, err, require, ◌>>=◌, ◌>>◌, ◌==◌, ◌||◌,
  if◌then◌else◌,
}
use raydium_cp_swap.Error.{Error, ErrorCode}
use raydium_cp_swap.States.Support.{Permission, SupportMintAssociated, Seed}
use raydium_cp_swap.Token.Interface.{Mint}
use raydium_cp_swap.Instructions.Context.{Chain}

abbrev pub Store : Type 0 → Type 0
Store A = ℕ → Option A

abbrev pub put : {A : Type 0} → Store A → ℕ → Option A → Store A
put store k v j = if j == k then v else store j

-- `init`: the system program makes no account where there is one.
unfoldable pub init : {A : Type 0} → Option A → Result Error (Unit {0})
init none = ok tt
init (some a) = err Error.account_already_in_use

-- `Account<T>`: an account of the type that is there.
unfoldable pub present : {A : Type 0} → Option A → Result Error A
present none = err Error.account_not_initialized
present (some a) = ok a

-- The parameters beside the chain: `Pubkey::find_program_address`, `Token2022::id()` and
-- `create_support_mint_associated_owner::ID`.
module _ (find_program_address : List Seed → ℕ × ℕ) (token_2022_id support_owner : ℕ)
    (chain : Chain) where
  unfoldable pub permission_seeds : ℕ → List Seed
  permission_seeds permission_authority = Seed.permission_seed ∷ Seed.key permission_authority ∷ []

  unfoldable pub create_permission_pda :
      ℕ → ℕ → ℕ → Store Permission → Result Error (Store Permission)
  create_permission_pda owner permission_authority permission store = do
    require (owner == chain.admin) (Error.code ErrorCode.invalid_owner)
    require (permission == (find_program_address (permission_seeds permission_authority)).0)
        Error.constraint_seeds
    init (store permission)
    ok (put store permission (some (record { authority = permission_authority })))

  unfoldable pub close_permission_pda :
      ℕ → ℕ → ℕ → Store Permission → Result Error (Store Permission)
  close_permission_pda owner permission_authority permission store = do
    require (owner == chain.admin) (Error.code ErrorCode.invalid_owner)
    held ← present (store permission)
    require (permission == (find_program_address (permission_seeds permission_authority)).0)
        Error.constraint_seeds
    ok (put store permission none)

  unfoldable pub support_seeds : {MintData : Type 0} → Mint MintData → List Seed
  support_seeds token_mint = Seed.support_mint_seed ∷ Seed.key token_mint.key ∷ []

  -- The constraints on the signer and the mint that both structs have.
  unfoldable pub check_support : {MintData : Type 0} → ℕ → Mint MintData → Result Error (Unit {0})
  check_support owner token_mint = do
    require (owner == chain.admin || owner == support_owner) (Error.code ErrorCode.not_approved)
    require (token_mint.owner == token_2022_id) (Error.code ErrorCode.not_approved)

  unfoldable pub create_support_mint_associated :
      {MintData : Type 0}
      → ℕ
      → Mint MintData
      → ℕ
      → Store SupportMintAssociated
      → Result Error (Store SupportMintAssociated)
  create_support_mint_associated owner token_mint associated store = do
    check_support owner token_mint
    require (associated == (find_program_address (support_seeds token_mint)).0)
        Error.constraint_seeds
    init (store associated)
    ok (
        put store associated (
          some (record {
            bump = (find_program_address (support_seeds token_mint)).1;
            mint = token_mint.key;
          })))

  unfoldable pub close_support_mint_associated :
      {MintData : Type 0}
      → ℕ
      → Mint MintData
      → ℕ
      → Store SupportMintAssociated
      → Result Error (Store SupportMintAssociated)
  close_support_mint_associated owner token_mint associated store = do
    check_support owner token_mint
    held ← present (store associated)
    require (associated == (find_program_address (support_seeds token_mint)).0)
        Error.constraint_seeds
    ok (put store associated none)
