-- ===== src/Token/Runtime.antt =====
-- What the creation of accounts uses of Solana's runtime and system program, of Anchor, and of the
-- token programs and the uint crate beside what `Spl` names. None of it stands in this repository.
-- An amount of lamports and a size are numbers; a `Bank` is the state of all accounts.
use raydium_cp_swap.Base.{ℕ, List, Result}
use raydium_cp_swap.Error.{Error}
use raydium_cp_swap.Accounts.{AccountInfo, ZeroCopy}
use raydium_cp_swap.States.Pool.{PoolState}
use raydium_cp_swap.States.Oracle.{ObservationState}
use raydium_cp_swap.States.Support.{Seed, SupportMintAssociated}
use raydium_cp_swap.Token.Interface.{Spl}

-- The types of extension that the program names, as the numbers that spl_token_2022 gives them.
pub record ExtensionType : Type 0 where
  pub transfer_fee_config : ℕ
  pub metadata_pointer : ℕ
  pub token_metadata : ℕ
  pub interest_bearing_config : ℕ
  pub scaled_ui_amount : ℕ

pub record Runtime (spl : Spl) : Type 0 where
  -- `crate::id()`, `system_program::ID`, `Token2022::id()`, `TokenAccount::LEN`
  pub program_id : ℕ
  pub system_id : ℕ
  pub token_2022_id : ℕ
  pub token_account_len : ℕ
  pub extension_type : ExtensionType
  -- `Pubkey::find_program_address` for the program: the address and its bump
  pub find_program_address : List Seed → ℕ × ℕ
  -- an account as a handler has it that may write to it, and its lamports
  pub account : spl.Bank → ℕ → AccountInfo
  pub lamports : spl.Bank → ℕ → ℕ
  -- `Rent::get()?.minimum_balance(space)`
  pub minimum_balance : ℕ → ℕ
  -- the calls of the system program: from, to, lamports, (space, owner, seeds)
  pub create_account : ℕ → ℕ → ℕ → ℕ → ℕ → List Seed → spl.Bank → Result Error spl.Bank
  pub transfer : ℕ → ℕ → ℕ → spl.Bank → Result Error spl.Bank
  pub allocate : ℕ → ℕ → List Seed → spl.Bank → Result Error spl.Bank
  pub assign : ℕ → ℕ → List Seed → spl.Bank → Result Error spl.Bank
  -- the calls of the token programs: program, account, (mint, authority)
  pub initialize_account3 : ℕ → ℕ → ℕ → ℕ → spl.Bank → Result Error spl.Bank
  pub sync_native : ℕ → ℕ → spl.Bank → Result Error spl.Bank
  -- `StateWithExtensions::<Account>::unpack(…)?.base.amount`
  pub unpack_amount : spl.Bank → ℕ → Result Error ℕ
  -- `StateWithExtensions::<Mint>::unpack` with `get_extension_types`, and the size of an account of
  -- such a mint
  pub get_extension_types : spl.MintData → Result Error (List ℕ)
  pub get_required_init_account_extensions : List ℕ → List ℕ
  pub try_calculate_account_len : List ℕ → Result Error ℕ
  -- Anchor's `init` of a mint (address, decimals, authority, payer), of an associated token account
  -- (address, mint, owner), and of an account of the program (address, payer)
  pub init_mint : ℕ → ℕ → ℕ → ℕ → spl.Bank → Result Error spl.Bank
  pub init_associated_token : ℕ → ℕ → ℕ → spl.Bank → Result Error spl.Bank
  pub init_account : ℕ → ℕ → spl.Bank → Result Error spl.Bank
  -- Anchor's `AccountLoader::load_init` of the observations, and `try_deserialize`
  pub load_init_observation : spl.Bank → ℕ → Result Error ObservationState
  pub deserialize_support : List ℕ → Result Error SupportMintAssociated
  -- how the pool state lies in its account
  pub pool_layout : ZeroCopy PoolState
  -- `U128::integer_sqrt`
  pub integer_sqrt : ℕ → ℕ
