-- ===== src/Token/Create.antt =====
-- programs/cp-swap/src/utils/token.rs: which mints are supported, and the creation of accounts.
use raydium_cp_swap.Base.{
  ℕ, ◌-◌, Bool, true, false, not, ◌||◌, List, [], ◌∷◌, Result, ok, ◌>>=◌, ◌==◌, ltb, if◌then◌else◌,
}
use raydium_cp_swap.Error.{Error}
use raydium_cp_swap.Accounts.{AccountInfo}
use raydium_cp_swap.States.Support.{Seed}
use raydium_cp_swap.Token.Interface.{Spl, Mint}
use raydium_cp_swap.Token.Runtime.{Runtime, ExtensionType}

-- The numbers that the base 58 addresses stand for.
abbrev pub mint_whitelist : List ℕ
mint_whitelist =
    110842478193909664720434420133918537430197765938808367401866277007643742762982
    ∷ 79693591751111759625750358307840071066761027937148678859304808898387199649551
    ∷ 99786458968252845795468590271952097523643721845940285320224363909310727210515
    ∷ 10661653716677159077918369665675841228777536474774053264960496851603866416286 ∷ []

-- `contains`
unfoldable pub contains : List ℕ → ℕ → Bool
contains [] k = false
contains (x ∷ xs) k = x == k || contains xs k

-- One test of the loop over the extensions.
abbrev pub is_allowed : ExtensionType → ℕ → Bool
is_allowed types e =
    e == types.transfer_fee_config
    || e == types.metadata_pointer
    || e == types.token_metadata
    || e == types.interest_bearing_config
    || e == types.scaled_ui_amount

-- The loop.
unfoldable pub all_allowed : ExtensionType → List ℕ → Bool
all_allowed types [] = true
all_allowed types (e ∷ extensions) =
    if not (is_allowed types e) then false else all_allowed types extensions

module _ (spl : Spl) (rt : Runtime spl) where
  open spl use {MintData, Bank}

  unfoldable pub is_supported_mint : Mint MintData → Bool → Result Error Bool
  is_supported_mint mint mint_associated_is_initialized =
      if mint.owner == spl.token_id
      then ok true
      else if contains mint_whitelist mint.key
      then ok true
      else if mint_associated_is_initialized
      then ok true
      else (do
        extensions ← rt.get_extension_types mint.content
        ok (all_allowed rt.extension_type extensions))

  -- The loop over the remaining accounts.
  unfoldable pub find_associated : ℕ → ℕ → List AccountInfo → Result Error Bool
  find_associated expected mint [] = ok false
  find_associated expected mint (info ∷ infos) =
      let rest = find_associated expected mint infos in
      if not (info.owner == rt.program_id) || not (info.key == expected) then rest else (do
        associated ← rt.deserialize_support info.bytes
        if associated.mint == mint then ok true else rest)

  unfoldable pub support_mint_associated_is_initialized :
      List AccountInfo → Mint MintData → Result Error Bool
  support_mint_associated_is_initialized [] mint = ok false
  support_mint_associated_is_initialized (info ∷ infos) mint =
      find_associated (rt.find_program_address (Seed.support_mint_seed ∷ Seed.key mint.key ∷ [])).0
        mint.key (info ∷ infos)

  -- For an account that holds lamports already: top up, allocate and assign.
  unfoldable pub allocate_account : ℕ → ℕ → ℕ → List Seed → ℕ → Bank → Result Error Bank
  allocate_account program_id payer target seeds space bank = do
    let least = if ltb (rt.minimum_balance space) 1 then 1 else rt.minimum_balance space
    let required = least - rt.lamports bank target
    funded ← if ltb 0 required then rt.transfer payer target required bank else ok bank
    allocated ← rt.allocate target space seeds funded
    rt.assign target program_id seeds allocated

  unfoldable pub create_or_allocate_account : ℕ → ℕ → ℕ → List Seed → ℕ → Bank → Result Error Bank
  create_or_allocate_account program_id payer target seeds space bank =
      if rt.lamports bank target == 0
      then rt.create_account payer target (rt.minimum_balance space) space program_id seeds bank
      else allocate_account program_id payer target seeds space bank

  -- `space`
  unfoldable pub token_account_space : Mint MintData → Result Error ℕ
  token_account_space mint =
      if mint.owner == rt.token_2022_id
      then (do
        mint_extensions ← rt.get_extension_types mint.content
        rt.try_calculate_account_len (rt.get_required_init_account_extensions mint_extensions))
      else ok rt.token_account_len

  unfoldable pub create_token_account :
      ℕ → ℕ → ℕ → Mint MintData → ℕ → List Seed → Bank → Result Error Bank
  create_token_account authority payer token_account mint token_program seeds bank = do
    space ← token_account_space mint
    created ← create_or_allocate_account token_program payer token_account seeds space bank
    rt.initialize_account3 token_program token_account mint.key authority created
