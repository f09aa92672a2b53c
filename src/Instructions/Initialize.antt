-- ===== src/Instructions/Initialize.antt =====
-- programs/cp-swap/src/instructions/initialize.rs and initialize_with_permission.rs.
use raydium_cp_swap.Base.{
  ℕ, Bool, true, false, not, ◌||◌, List, [], ◌∷◌, Option, some, none, Result, ok, err, ok_or,
  unwrap, unwrap_result, require, ◌>>=◌, ◌>>◌, ◌==◌, ltb, leb, if◌then◌else◌,
}
use raydium_cp_swap.Base.Words.{u64_max, u128_max, add, checked_mul, checked_sub, narrow}
use raydium_cp_swap.Error.{Error, ErrorCode}
use raydium_cp_swap.Curve.Calculator.{validate_supply}
use raydium_cp_swap.Accounts.{AccountInfo, try_from_unchecked, load_init}
use raydium_cp_swap.States.Config.{AmmConfig}
use raydium_cp_swap.States.Pool.{PoolState, CreatorFeeOn}
use raydium_cp_swap.States.Pool.Start
use raydium_cp_swap.States.Oracle.{ObservationState}
use raydium_cp_swap.States.Support.{Permission, Seed}
use raydium_cp_swap.Token.{transfer_from_user_to_pool_vault, token_mint_to}
use raydium_cp_swap.Token.Interface.{Spl, Mint, TokenAccount, Transfer}
use raydium_cp_swap.Token.Runtime.{Runtime}
use raydium_cp_swap.Token.Create.{
  support_mint_associated_is_initialized, is_supported_mint, create_token_account,
  create_or_allocate_account,
}
use raydium_cp_swap.Instructions.Context.{Chain}

-- `struct Initialize`, where the payer is the creator, and `struct InitializeWithPermission`, of which
-- `permission` is what lies at the account of that name.
pub record InitializeAccounts (MintData : Type 0) : Type 0 where
  pub payer : ℕ
  pub creator : ℕ
  pub amm_config_key : ℕ
  pub amm_config : AmmConfig
  pub authority : ℕ
  pub pool_key : ℕ
  pub pool_is_signer : Bool
  pub token_0_mint : Mint MintData
  pub token_1_mint : Mint MintData
  pub lp_mint : ℕ
  pub payer_token_0 : TokenAccount
  pub payer_token_1 : TokenAccount
  pub payer_lp_token : ℕ
  pub token_0_vault : ℕ
  pub token_1_vault : ℕ
  pub create_pool_fee : ℕ
  pub observation_key : ℕ
  pub permission_key : ℕ
  pub permission : Option Permission
  pub token_program : ℕ
  pub token_0_program : ℕ
  pub token_1_program : ℕ
  pub remaining_accounts : List AccountInfo

pub record InitializeOutcome (Bank : Type 0) : Type 0 where
  pub pool_state : PoolState
  pub observation_state : ObservationState
  pub bank : Bank

-- `create_pool_fee_reveiver::ID`
pub record FeeReceiver : Type 0 where
  pub id : ℕ

-- `mint::decimals = 9` of the pool token, and `lock_lp_amount`
abbrev pub lp_decimals : ℕ
lp_decimals = 9

abbrev pub lock_lp_amount : ℕ
lock_lp_amount = 100

-- `PoolState::LEN`
abbrev pub pool_len : ℕ
pool_len = 637

-- `Box<Account<'info, Permission>>`: an account that is there.
unfoldable pub check_permission : Option Permission → Result Error Permission
check_permission (some p) = ok p
check_permission none = err Error.account_not_initialized

-- A time that is not in the future becomes the next second.
unfoldable pub next_open_time : Chain → ℕ → Result Error ℕ
next_open_time chain open_time =
    if leb open_time chain.unix_timestamp then add u64_max chain.unix_timestamp 1 else ok open_time

module _ (spl : Spl) (rt : Runtime spl) where
  open spl use {MintData, Bank}

  abbrev pub vault_seeds : InitializeAccounts MintData → Mint MintData → List Seed
  vault_seeds a mint = Seed.pool_vault_seed ∷ Seed.key a.pool_key ∷ Seed.key mint.key ∷ []

  abbrev pub pool_seeds : InitializeAccounts MintData → List Seed
  pool_seeds a =
      Seed.pool_seed
      ∷ Seed.key a.amm_config_key
      ∷ Seed.key a.token_0_mint.key
      ∷ Seed.key a.token_1_mint.key
      ∷ []

  unfoldable pub check_address : ℕ → List Seed → Result Error (Unit {0})
  check_address k seeds = require (k == (rt.find_program_address seeds).0) Error.constraint_seeds

  -- The constraints that both structs have, but `init`.
  unfoldable pub check_accounts :
      Chain → FeeReceiver → InitializeAccounts MintData → Result Error (Unit {0})
  unfolding check_address
  check_accounts chain receiver a = do
    require (a.authority == chain.authority) Error.constraint_seeds
    require (ltb a.token_0_mint.key a.token_1_mint.key) Error.constraint_raw
    require (a.token_0_mint.owner == a.token_0_program) Error.constraint_mint_token_program
    require (a.token_1_mint.owner == a.token_1_program) Error.constraint_mint_token_program
    check_address a.lp_mint (Seed.pool_lp_mint_seed ∷ Seed.key a.pool_key ∷ [])
    require (a.payer_token_0.mint == a.token_0_mint.key) Error.constraint_token_mint
    require (a.payer_token_0.owner == a.payer) Error.constraint_token_owner
    require (a.payer_token_1.mint == a.token_1_mint.key) Error.constraint_token_mint
    require (a.payer_token_1.owner == a.payer) Error.constraint_token_owner
    check_address a.token_0_vault (vault_seeds a a.token_0_mint)
    check_address a.token_1_vault (vault_seeds a a.token_1_mint)
    require (a.create_pool_fee == receiver.id) Error.constraint_address
    check_address a.observation_key (Seed.observation_seed ∷ Seed.key a.pool_key ∷ [])

  -- The `init` constraints, in the order of the fields.
  unfoldable pub init_accounts : InitializeAccounts MintData → Bank → Result Error Bank
  init_accounts a bank = do
    with_mint ← rt.init_mint a.lp_mint lp_decimals a.authority a.payer bank
    with_token ← rt.init_associated_token a.payer_lp_token a.lp_mint a.payer with_mint
    rt.init_account a.observation_key a.payer with_token

  -- The first test of the handlers; `&&` asks for the second mint only after the first one.
  unfoldable pub check_mints : InitializeAccounts MintData → Result Error (Unit {0})
  check_mints a = do
    associated_0 ← support_mint_associated_is_initialized spl rt a.remaining_accounts a.token_0_mint
    associated_1 ← support_mint_associated_is_initialized spl rt a.remaining_accounts a.token_1_mint
    supported_0 ← unwrap_result (is_supported_mint spl rt a.token_0_mint associated_0)
    supported ←
        if supported_0
        then unwrap_result (is_supported_mint spl rt a.token_1_mint associated_1)
        else ok false
    require supported (Error.code ErrorCode.not_support_mint)

  unfoldable pub create_vaults : InitializeAccounts MintData → Bank → Result Error Bank
  create_vaults a bank = do
    bank_0 ←
        create_token_account spl rt a.authority a.payer a.token_0_vault a.token_0_mint
          a.token_0_program (vault_seeds a a.token_0_mint) bank
    create_token_account spl rt a.authority a.payer a.token_1_vault a.token_1_mint a.token_1_program
        (vault_seeds a a.token_1_mint) bank_0

  -- The account, allocated for the program.
  unfoldable pub create_pool :
      InitializeAccounts MintData → Bank → Result Error (AccountInfo × Bank)
  create_pool a bank = do
    require ((rt.account bank a.pool_key).owner == rt.system_id) (Error.code ErrorCode.not_approved)
    require (a.pool_key == (rt.find_program_address (pool_seeds a)).0 || a.pool_is_signer)
        Error.require_eq_violated
    created ←
        create_or_allocate_account spl rt rt.program_id a.payer a.pool_key (pool_seeds a) pool_len
          bank
    info ← try_from_unchecked rt.pool_layout (rt.account created a.pool_key)
    ok (info, created)

  abbrev pub funding_0 : InitializeAccounts MintData → ℕ → Transfer MintData
  funding_0 a amount = record {
    program = a.token_0_program;
    from = a.payer_token_0.key;
    to = a.token_0_vault;
    authority = a.payer;
    mint = a.token_0_mint;
    amount = amount;
    decimals = a.token_0_mint.decimals;
    signer = none;
  }

  abbrev pub funding_1 : InitializeAccounts MintData → ℕ → Transfer MintData
  funding_1 a amount = record {
    program = a.token_1_program;
    from = a.payer_token_1.key;
    to = a.token_1_vault;
    authority = a.payer;
    mint = a.token_1_mint;
    amount = amount;
    decimals = a.token_1_mint.decimals;
    signer = none;
  }

  unfoldable pub fund_vaults :
      Chain → InitializeAccounts MintData → ℕ → ℕ → Bank → Result Error Bank
  fund_vaults chain a init_amount_0 init_amount_1 bank = do
    funded ← transfer_from_user_to_pool_vault spl chain.epoch (funding_0 a init_amount_0) bank
    transfer_from_user_to_pool_vault spl chain.epoch (funding_1 a init_amount_1) funded

  -- The pool tokens that both vaults are worth, of which all but the locked ones are minted.
  unfoldable pub mint_liquidity : InitializeAccounts MintData → Bank → Result Error (ℕ × Bank)
  mint_liquidity a bank = do
    amount_0 ← rt.unpack_amount bank a.token_0_vault
    amount_1 ← rt.unpack_amount bank a.token_1_vault
    validate_supply amount_0 amount_1
    product ← unwrap (checked_mul u128_max amount_0 amount_1)
    liquidity ← narrow (rt.integer_sqrt product)
    minted ←
        ok_or (checked_sub liquidity lock_lp_amount) (Error.code ErrorCode.init_lp_amount_too_less)
    bank' ←
        token_mint_to spl
          (record {
            program = a.token_program;
            mint = a.lp_mint;
            to = a.payer_lp_token;
            authority = a.authority;
            amount = minted;
            signer = (rt.find_program_address (Seed.auth_seed ∷ [])).1;
          })
          bank
    ok (liquidity, bank')

  -- "Charge the fee to create a pool"
  unfoldable pub charge_creation : InitializeAccounts MintData → Bank → Result Error Bank
  charge_creation a bank =
      if not (a.amm_config.create_pool_fee == 0)
      then (do
        paid ← rt.transfer a.payer a.create_pool_fee a.amm_config.create_pool_fee bank
        rt.sync_native a.token_program a.create_pool_fee paid)
      else ok bank

  -- The body of both handlers, which stands in each of them.
  unfoldable pub open_pool :
      Chain
      → InitializeAccounts MintData
      → ℕ
      → ℕ
      → ℕ
      → ℕ
      → CreatorFeeOn
      → Bool
      → Bank
      → Result Error (InitializeOutcome Bank)
  open_pool chain a creator init_amount_0 init_amount_1 requested_time creator_fee_on
        enable_creator_fee bank =
      do
        check_mints a
        require (not a.amm_config.disable_create_pool) (Error.code ErrorCode.not_approved)
        open_time ← next_open_time chain requested_time
        with_vaults ← create_vaults a bank
        (info, with_pool) ← create_pool a with_vaults
        (loaded, pool) ← load_init rt.pool_layout info
        observation ← rt.load_init_observation with_pool a.observation_key
        funded ← fund_vaults chain a init_amount_0 init_amount_1 with_pool
        (liquidity, minted) ← mint_liquidity a funded
        charged ← charge_creation a minted
        ok (record {
          pool_state =
              Start.initialize chain.epoch pool (rt.find_program_address (Seed.auth_seed ∷ [])).1
                liquidity open_time creator a.amm_config_key a.token_0_vault a.token_1_vault
                a.token_0_mint a.token_1_mint a.lp_mint lp_decimals a.observation_key creator_fee_on
                enable_creator_fee;
          observation_state = record observation { pool_id = a.pool_key };
          bank = charged;
        })

  unfoldable pub initialize :
      Chain
      → FeeReceiver
      → InitializeAccounts MintData
      → ℕ
      → ℕ
      → ℕ
      → Bank
      → Result Error (InitializeOutcome Bank)
  initialize chain receiver a init_amount_0 init_amount_1 open_time bank = do
    check_accounts chain receiver a
    ready ← init_accounts a bank
    open_pool chain a a.payer init_amount_0 init_amount_1 open_time CreatorFeeOn.both_token false
        ready

  unfoldable pub initialize_with_permission :
      Chain
      → FeeReceiver
      → InitializeAccounts MintData
      → ℕ
      → ℕ
      → ℕ
      → CreatorFeeOn
      → Bank
      → Result Error (InitializeOutcome Bank)
  unfolding check_address
  initialize_with_permission chain receiver a init_amount_0 init_amount_1 open_time creator_fee_on
        bank =
      do
        check_accounts chain receiver a
        check_address a.permission_key (Seed.permission_seed ∷ Seed.key a.payer ∷ [])
        held ← check_permission a.permission
        ready ← init_accounts a bank
        open_pool chain a a.creator init_amount_0 init_amount_1 open_time creator_fee_on true ready
