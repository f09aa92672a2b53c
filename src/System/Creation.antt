-- ===== src/System/Creation.antt =====
-- What `initialize` and `initialize_with_permission` leave behind: a sound world with a pool that is
-- not open yet.
pub mod Steps
pub mod Terms
use mathlib.Core.Path.{subst}
use raydium_cp_swap.Base.{
  ℕ, Bool, true, false, not, ◌||◌, [], ◌∷◌, ◌+◌, ◌-◌, ◌*◌, ◌≤◌, ◌<◌, ◌≡◌, ◌≢◌, ◌∙◌, refl, sym, ap,
  Result, ok, err, panic, ok_or, unwrap, unwrap_result, require, take_apart, require-ok, ok_or-ok,
  unwrap-ok, ok_injective, ltb, leb, ◌==◌, Option, some, none, if◌then◌else◌, Bool-cases, inl, inr,
  arith,
}
use raydium_cp_swap.Base.Words.{
  u64_max, u128_max, add, add-ok, checked_mul, checked_mul-ok, checked_sub, checked_sub-ok, narrow,
  narrow-ok,
}
use raydium_cp_swap.Base.Division.{mul_mono}
use raydium_cp_swap.Curve.Calculator.{validate_supply}
use raydium_cp_swap.Accounts.{AccountInfo, try_from_unchecked, load_init}
use raydium_cp_swap.States.Pool.{PoolState, CreatorFeeOn}
use raydium_cp_swap.States.Pool.Start
use raydium_cp_swap.States.Pool.Fees.{fees_0, fees_1}
use raydium_cp_swap.States.Oracle.{default_state}
use raydium_cp_swap.States.Oracle.{ObservationState}
use raydium_cp_swap.States.Oracle.Ring.{IsValid}
use raydium_cp_swap.States.Support.{Seed, Permission}
use raydium_cp_swap.Token.{transfer_from_user_to_pool_vault, token_mint_to}
use raydium_cp_swap.Token.Interface.{Spl, MintTo}
use raydium_cp_swap.Token.Transfers.{IsTokenProgram, user_to_vault-supply}
use raydium_cp_swap.Token.Runtime.{Runtime}
use raydium_cp_swap.Error.{Error}
use raydium_cp_swap.System.Creation.Terms.{HasTerms, open_pool-HasTerms}
use raydium_cp_swap.Token.Supported.{IsSupported, is_supported_mint-IsSupported}
use raydium_cp_swap.Token.Create.{
  create_token_account, create_or_allocate_account, is_supported_mint,
  support_mint_associated_is_initialized,
}
use raydium_cp_swap.Token.Creation.{
  KeepsSupplies, ChangesOnly, IsRuntime, create_token_account-KeepsSupplies,
  create_or_allocate_account-KeepsSupplies,
}
use raydium_cp_swap.Instructions.Context.{Chain}
use raydium_cp_swap.Instructions.Config.Rates.{IsConfig}
use raydium_cp_swap.Instructions.Initialize.{
  InitializeAccounts, InitializeOutcome, FeeReceiver, next_open_time, check_accounts, init_accounts,
  check_mints, create_vaults, create_pool, vault_seeds, pool_seeds, pool_len, funding_0, funding_1,
  fund_vaults, mint_liquidity, lock_lp_amount, lp_decimals, charge_creation, open_pool,
  check_address, check_permission, initialize, initialize_with_permission,
}
use raydium_cp_swap.System.{World}
use raydium_cp_swap.System.Sound.{IsSound}
use raydium_cp_swap.System.Creation.Steps.{
  check_permission-ok, unwrap_result-ok, less_nothing, next_open_time-later,
  check_mints-IsSupported, init_accounts-none, create_vaults-KeepsSupplies,
  create_pool-KeepsSupplies, fund_vaults-KeepsSupplies, charge_creation-ChangesOnly, IsMinted,
  mint_liquidity-IsMinted, check_accounts-ok,
}

module _ (spl : Spl) (rt : Runtime spl) where
  open spl use {MintData, Bank, balance, supply}

  abbrev pub new_world : InitializeAccounts MintData → InitializeOutcome Bank → World Bank
  new_world a o = record {
    pool = o.pool_state;
    config = a.amm_config;
    ring = o.observation_state;
    bank = o.bank;
  }

module _ (spl : Spl) (rt : Runtime spl) (chain : Chain) (laws : IsTokenProgram spl chain.epoch)
    (system : IsRuntime spl rt) where
  open spl use {MintData, Bank, balance, supply}

  -- What a new pool needs of the addresses: neither vault is the account that the pool tokens or the
  -- fee for the creation go to.
  abbrev pub IsFresh : InitializeAccounts MintData → Type 0
  IsFresh a =
      ((a.token_0_vault ≢ a.payer_lp_token) × (a.token_1_vault ≢ a.payer_lp_token))
      × ((a.token_0_vault ≢ a.create_pool_fee) × (a.token_1_vault ≢ a.create_pool_fee))

  pub record IsOpened (a : InitializeAccounts MintData) (o : InitializeOutcome Bank) : Type 0 where
    pub sound : IsSound spl (new_world spl rt a o)
    pub largest :
        balance o.bank a.token_0_vault * balance o.bank a.token_1_vault
        < (o.pool_state.lp_supply + 1) * (o.pool_state.lp_supply + 1)
    pub minted : supply o.bank a.lp_mint + lock_lp_amount ≡ o.pool_state.lp_supply
    pub not_open : chain.unix_timestamp < o.pool_state.open_time
    pub no_fees : (fees_0 o.pool_state ≡ 0) × (fees_1 o.pool_state ≡ 0)
    pub no_observations : o.observation_state ≡ record default_state { pool_id = a.pool_key }
    pub enabled : a.amm_config.disable_create_pool ≡ false
    pub supported_0 : IsSupported spl rt a.remaining_accounts a.token_0_mint
    pub supported_1 : IsSupported spl rt a.remaining_accounts a.token_1_mint

  open_pool-IsOpened :
      (a : InitializeAccounts MintData) (creator n_0 n_1 time : ℕ) (fee_on : CreatorFeeOn)
      (enable : Bool) (b : Bank) {o : InitializeOutcome Bank}
      → supply b a.lp_mint ≡ 0
      → a.token_0_vault ≢ a.token_1_vault
      → IsFresh a
      → IsConfig a.amm_config
      → open_pool spl rt chain a creator n_0 n_1 time fee_on enable b ≡ ok o
      → IsOpened a o
  unfolding open_pool Start.initialize
  open_pool-IsOpened a creator n_0 n_1 time fee_on enable b {o} empty two (off_lp, (off_0, off_1))
        rates h =
      take_apart (check_mints spl rt a) h λ _ e1 h1.
        take_apart (require (not a.amm_config.disable_create_pool) _) h1 λ _ e2 h2.
          take_apart (next_open_time chain time) h2 λ open_time e3 h3.
            take_apart (create_vaults spl rt a b) h3 λ b1 e4 h4.
              take_apart (create_pool spl rt a b1) h4 λ q e5 h5.
                take_apart (load_init rt.pool_layout q.0) h5 λ r e6 h6.
                  take_apart (rt.load_init_observation q.1 a.observation_key) h6 λ ring e7 h7.
                    take_apart (fund_vaults spl rt chain a n_0 n_1 q.1) h7 λ b2 e8 h8.
                      take_apart (mint_liquidity spl rt a b2) h8 λ l e9 h9.
                        take_apart (charge_creation spl rt a l.1) h9 λ b3 e10 h10.
                          let supported = check_mints-IsSupported spl rt chain laws system a e1 in
                          let is =
                            mint_liquidity-IsMinted spl rt chain laws system a b2 {liquidity = l.0}
                              {b' = l.1} off_lp e9 in
                          let (same, only) =
                            charge_creation-ChangesOnly spl rt chain laws system a l.1 e10 in
                          let s1 =
                            create_vaults-KeepsSupplies spl rt chain laws system a b e4 a.lp_mint in
                          let s2 =
                            create_pool-KeepsSupplies spl rt chain laws system a b1 {info = q.0}
                              {b' = q.1} e5 a.lp_mint in
                          let s3 =
                            fund_vaults-KeepsSupplies spl rt chain laws system a n_0 n_1 q.1 e8
                              a.lp_mint in
                          let s4 = same a.lp_mint in
                          let v0 = only a.token_0_vault off_0 in
                          let v1 = only a.token_1_vault off_1 in
                          let counted = is.counted in
                          let ready = require-ok (not a.amm_config.disable_create_pool) _ e2 in
                          let fresh = system.load_init_observation q.1 a.observation_key ring e7 in
                          let all_minted : supply b3 a.lp_mint + lock_lp_amount ≡ l.0 =
                            omega arith in
                          simp (sym (ok_injective h10)) (record {
                            sound = record {
                              solvent = (omega arith, omega arith);
                              counted = omega arith;
                              backed =
                                  rw
                                    (
                                      v0,
                                      v1,
                                      less_nothing (balance l.1 a.token_0_vault),
                                      less_nothing (balance l.1 a.token_1_vault),
                                    )
                                    is.backed;
                              rates = rates;
                              ring = rw fresh (record { slots = refl; in_range = omega arith });
                              two_vaults = two;
                            };
                            largest = rw (v0, v1) is.most;
                            minted = all_minted;
                            not_open = next_open_time-later chain time e3;
                            no_fees = (refl, refl);
                            no_observations = rw fresh refl;
                            enabled = ground arith;
                            supported_0 = supported.0;
                            supported_1 = supported.1;
                          })

  -- An `initialize` that succeeds, with the fee rates of the config within their bounds and vaults
  -- that receive neither the pool tokens nor the fee for the creation, leaves a sound world: no fees
  -- owed, two different vaults, an empty observation ring, and a counted supply that is the largest
  -- number whose square is at most the product of the vaults, of which all but 100 are minted. The
  -- pool opens later than now, the config allows creation, both mints are supported, and the first
  -- one has the smaller address.
  pub initialize-IsOpened :
      (receiver : FeeReceiver) (a : InitializeAccounts MintData) (n_0 n_1 time : ℕ) (b : Bank)
      {o : InitializeOutcome Bank}
      → IsFresh a
      → IsConfig a.amm_config
      → initialize spl rt chain receiver a n_0 n_1 time b ≡ ok o
      → IsOpened a o × (a.token_0_mint.key < a.token_1_mint.key)
  unfolding initialize
  initialize-IsOpened receiver a n_0 n_1 time b fresh rates h =
      take_apart (check_accounts spl rt chain receiver a) h λ _ e1 h1.
        take_apart (init_accounts spl rt a b) h1 λ b1 e2 h2.
          let (order, two) = check_accounts-ok spl rt chain laws system receiver a e1 in
          (
            open_pool-IsOpened a a.payer n_0 n_1 time CreatorFeeOn.both_token false b1
                (init_accounts-none spl rt chain laws system a b e2) two fresh rates h2,
            order,
          )

  -- An `initialize_with_permission` that succeeds, with the fee rates of the config within their
  -- bounds and vaults that receive neither the pool tokens nor the fee for the creation, leaves what
  -- `initialize` leaves, and the payer has a permission account: it is there, and at the address derived from the
  -- payer. The pool names the creator account, whoever pays, with the config, the vaults, the mints and
  -- the ring of the call; creator fees are enabled, so that swaps charge the config's rate, and in
  -- both directions in the token that the requested fee model names.
  pub initialize_with_permission-IsOpened :
      (receiver : FeeReceiver) (a : InitializeAccounts MintData) (n_0 n_1 time : ℕ)
      (fee_on : CreatorFeeOn) (b : Bank) {o : InitializeOutcome Bank}
      → IsFresh a
      → IsConfig a.amm_config
      → initialize_with_permission spl rt chain receiver a n_0 n_1 time fee_on b ≡ ok o
      → IsOpened a o
        × (a.token_0_mint.key < a.token_1_mint.key)
        × (a.permission_key
            ≡ (rt.find_program_address (Seed.permission_seed ∷ Seed.key a.payer ∷ [])).0)
        × ((p : Permission) × (a.permission ≡ some p))
        × HasTerms a a.creator fee_on true o.pool_state
  unfolding initialize_with_permission check_address check_permission
  initialize_with_permission-IsOpened receiver a n_0 n_1 time fee_on b fresh rates h =
      take_apart (check_accounts spl rt chain receiver a) h λ _ e1 h1.
        take_apart (require (a.permission_key == permitted) _) h1 λ _ e2 h2.
          take_apart (check_permission a.permission) h2 λ held e3 h3.
            take_apart (init_accounts spl rt a b) h3 λ b1 e4 h4.
              let (order, two) = check_accounts-ok spl rt chain laws system receiver a e1 in
              let at = require-ok (a.permission_key == permitted) _ e2 in
              (
                open_pool-IsOpened a a.creator n_0 n_1 time fee_on true b1
                    (init_accounts-none spl rt chain laws system a b e4) two fresh rates h4,
                order,
                ground arith,
                (held, check_permission-ok a.permission e3),
                open_pool-HasTerms spl rt chain a a.creator n_0 n_1 time fee_on true b1 h4,
              )
    where
      permitted : ℕ
      permitted = (rt.find_program_address (Seed.permission_seed ∷ Seed.key a.payer ∷ [])).0
