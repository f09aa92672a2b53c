-- ===== src/System/Creation/Steps.antt =====
-- The steps of the creation of a pool, in the handlers of initialize.rs and
-- initialize_with_permission.rs: what each leaves of the supplies and the vaults.
use mathlib.Core.Path.{subst}
use raydium_cp_swap.Base.{
  ℕ, Bool, true, false, not, ◌||◌, [], ◌∷◌, ◌+◌, ◌-◌, ◌*◌, ◌≤◌, ◌<◌, ◌≡◌, ◌≢◌, ◌∙◌, refl, sym, ap,
  Result, ok, err, panic, ok_or, unwrap, unwrap_result, require, take_apart, require-ok, ok_or-ok,
  unwrap-ok, ok_injective, ltb, leb, ◌==◌, Option, some, none, if◌then◌else◌, Bool-cases, inl, inr,
  arith,
}
use raydium_cp_swap.Base.Words.{
  u64_max, u128_max, add-ok, checked_mul, checked_mul-ok, checked_sub, checked_sub-ok, narrow,
  narrow-ok,
}
use raydium_cp_swap.Curve.Calculator.{validate_supply}
use raydium_cp_swap.Accounts.{AccountInfo, try_from_unchecked}
use raydium_cp_swap.States.Support.{Seed, Permission}
use raydium_cp_swap.Token.{transfer_from_user_to_pool_vault, token_mint_to}
use raydium_cp_swap.Token.Interface.{Spl, MintTo}
use raydium_cp_swap.Token.Transfers.{IsTokenProgram, user_to_vault-supply}
use raydium_cp_swap.Token.Runtime.{Runtime}
use raydium_cp_swap.Error.{Error}
use raydium_cp_swap.Token.Supported.{IsSupported, is_supported_mint-IsSupported}
use raydium_cp_swap.Token.Create.{
  create_token_account, create_or_allocate_account, is_supported_mint,
  support_mint_associated_is_initialized,
}
use raydium_cp_swap.Token.Creation.{
  KeepsSupplies, ChangesOnly, IsRuntime, create_token_account-KeepsSupplies,
  create_or_allocate_account-KeepsSupplies,
}
use raydium_cp_swap.Instructions.Context.{Chain}
use raydium_cp_swap.Instructions.Initialize.{
  InitializeAccounts, FeeReceiver, next_open_time, check_accounts, init_accounts, check_mints,
  create_vaults, create_pool, vault_seeds, pool_seeds, pool_len, funding_0, funding_1, fund_vaults,
  mint_liquidity, lock_lp_amount, lp_decimals, charge_creation, check_address, check_permission,
}

pub check_permission-ok :
    (o : Option Permission) {p : Permission} → check_permission o ≡ ok p → o ≡ some p
unfolding check_permission
check_permission-ok (some q) h = cc
check_permission-ok none h = absurd (cc)

pub unwrap_result-ok :
    (r : Result Error Bool) {b : Bool} → unwrap_result {E = Error} r ≡ ok b → r ≡ ok b
unwrap_result-ok (ok a) h = cc
unwrap_result-ok (err e) h = absurd (cc)
unwrap_result-ok panic h = absurd (cc)

pub less_nothing : (n : ℕ) → n - 0 ≡ n
less_nothing n = omega arith

pub next_open_time-later :
    (chain : Chain) (t : ℕ) {u : ℕ} → next_open_time chain t ≡ ok u → chain.unix_timestamp < u
unfolding next_open_time
next_open_time-later chain t {u} h = elim (Bool-cases (leb t chain.unix_timestamp)) [
  | inl past ↦ let (sum, _) = add-ok u64_max chain.unix_timestamp 1 (rw past at h) in omega arith
  | inr future ↦ let h' = rw future at h in ground arith
]

module _ (spl : Spl) (rt : Runtime spl) (chain : Chain) (laws : IsTokenProgram spl chain.epoch)
    (system : IsRuntime spl rt) where
  open spl use {MintData, Bank, balance, supply}

  pub check_mints-IsSupported :
      (a : InitializeAccounts MintData) {u : Unit {0}}
      → check_mints spl rt a ≡ ok u
      → IsSupported spl rt a.remaining_accounts a.token_0_mint
        × IsSupported spl rt a.remaining_accounts a.token_1_mint
  unfolding check_mints
  check_mints-IsSupported a h =
      let infos = a.remaining_accounts in
      take_apart (support_mint_associated_is_initialized spl rt infos a.token_0_mint) h λ x e1 h1.
        take_apart (support_mint_associated_is_initialized spl rt infos a.token_1_mint) h1
          λ y e2 h2.
            take_apart (unwrap_result (is_supported_mint spl rt a.token_0_mint x)) h2 λ s e3 h3.
              take_apart
                (if s then unwrap_result (is_supported_mint spl rt a.token_1_mint y) else ok false)
                h3
                λ t e4 h4.
                  let (f1, f2) = both s _ t e4 (require-ok t _ h4) in
                  (
                    is_supported_mint-IsSupported spl rt infos a.token_0_mint x e1
                        (unwrap_result-ok _ e3 ∙ ap ok f1),
                    is_supported_mint-IsSupported spl rt infos a.token_1_mint y e2 f2,
                  )
    where
      both :
          (s : Bool) (r : Result Error Bool) (t : Bool)
          → (if s then unwrap_result {E = Error} r else ok false) ≡ ok t
          → t ≡ true
          → (s ≡ true) × (r ≡ ok true)
      both true r t e q = (refl, unwrap_result-ok r e ∙ ap ok q)
      both false r t e q = absurd (cc)

  pub init_accounts-none :
      (a : InitializeAccounts MintData) (b : Bank) {b' : Bank}
      → init_accounts spl rt a b ≡ ok b'
      → supply b' a.lp_mint ≡ 0
  unfolding init_accounts
  init_accounts-none a b {b'} h =
      take_apart (rt.init_mint a.lp_mint lp_decimals a.authority a.payer b) h λ b1 e1 h1.
        take_apart (rt.init_associated_token a.payer_lp_token a.lp_mint a.payer b1) h1 λ b2 e2 h2.
          system.init_account a.observation_key a.payer b2 b' h2 a.lp_mint
          ∙ (system.init_associated_token a.payer_lp_token a.lp_mint a.payer b1 b2 e2 a.lp_mint
              ∙ system.init_mint a.lp_mint lp_decimals a.authority a.payer b b1 e1)

  pub create_vaults-KeepsSupplies :
      (a : InitializeAccounts MintData) (b : Bank) {b' : Bank}
      → create_vaults spl rt a b ≡ ok b'
      → KeepsSupplies spl b b'
  unfolding create_vaults
  create_vaults-KeepsSupplies a b {b'} h m =
      take_apart
        (create_token_account spl rt a.authority a.payer a.token_0_vault a.token_0_mint
          a.token_0_program (vault_seeds spl rt a a.token_0_mint) b)
        h
        λ b1 e1 h1.
          create_token_account-KeepsSupplies spl rt system a.authority a.payer a.token_1_vault
            a.token_1_mint a.token_1_program (vault_seeds spl rt a a.token_1_mint) b1 h1 m
          ∙ create_token_account-KeepsSupplies spl rt system a.authority a.payer a.token_0_vault
              a.token_0_mint a.token_0_program (vault_seeds spl rt a a.token_0_mint) b e1 m

  pub create_pool-KeepsSupplies :
      (a : InitializeAccounts MintData) (b : Bank) {info : AccountInfo} {b' : Bank}
      → create_pool spl rt a b ≡ ok (info, b')
      → KeepsSupplies spl b b'
  unfolding create_pool
  create_pool-KeepsSupplies a b {info} {b'} h m =
      take_apart (require ((rt.account b a.pool_key).owner == rt.system_id) _) h λ _ e1 h1.
        take_apart
          (require
            (a.pool_key == (rt.find_program_address (pool_seeds spl rt a)).0 || a.pool_is_signer) _)
          h1
          λ _ e2 h2.
            take_apart
              (create_or_allocate_account spl rt rt.program_id a.payer a.pool_key
                (pool_seeds spl rt a) pool_len b)
              h2
              λ b1 e3 h3.
                take_apart (try_from_unchecked rt.pool_layout (rt.account b1 a.pool_key)) h3
                  λ i e4 h4.
                    ap (λ q. supply q.1 m) (sym (ok_injective h4))
                    ∙ create_or_allocate_account-KeepsSupplies spl rt system rt.program_id a.payer
                        a.pool_key (pool_seeds spl rt a) pool_len b e3 m

  pub fund_vaults-KeepsSupplies :
      (a : InitializeAccounts MintData) (n_0 n_1 : ℕ) (b : Bank) {b' : Bank}
      → fund_vaults spl rt chain a n_0 n_1 b ≡ ok b'
      → KeepsSupplies spl b b'
  unfolding fund_vaults
  fund_vaults-KeepsSupplies a n_0 n_1 b {b'} h m =
      take_apart (transfer_from_user_to_pool_vault spl chain.epoch (funding_0 spl rt a n_0) b) h
        λ b1 e1 h1.
          user_to_vault-supply spl chain.epoch laws (funding_1 spl rt a n_1) b1 b' m h1
          ∙ user_to_vault-supply spl chain.epoch laws (funding_0 spl rt a n_0) b b1 m e1

  pub charge_creation-ChangesOnly :
      (a : InitializeAccounts MintData) (b : Bank) {b' : Bank}
      → charge_creation spl rt a b ≡ ok b'
      → KeepsSupplies spl b b' × ChangesOnly spl a.create_pool_fee b b'
  unfolding charge_creation
  charge_creation-ChangesOnly a b {b'} h =
      elim (Bool-cases (not (a.amm_config.create_pool_fee == 0))) [
        | inl fee ↦
            take_apart (rt.transfer a.payer a.create_pool_fee a.amm_config.create_pool_fee b)
              (rw fee at h)
              λ b1 e1 h1.
                let (same_1, more_1) =
                  system.transfer a.payer a.create_pool_fee a.amm_config.create_pool_fee b b1 e1 in
                let (same_2, more_2) =
                  system.sync_native a.token_program a.create_pool_fee b1 b' h1 in
                (λ m. same_2 m ∙ same_1 m, λ k off. more_2 k off ∙ more_1 k)
        | inr free ↦
            let h' = rw free at h in
            let e = ok_injective h' in
            (λ m. ap (λ x. supply x m) (sym e), λ k off. ap (λ x. balance x k) (sym e))
      ]

  -- The pool tokens of a new pool.
  pub record IsMinted (a : InitializeAccounts MintData) (b : Bank) (liquidity : ℕ) (b' : Bank)
      : Type 0 where
    pub counted : supply b' a.lp_mint + lock_lp_amount ≡ supply b a.lp_mint + liquidity
    pub backed : liquidity * liquidity ≤ balance b' a.token_0_vault * balance b' a.token_1_vault
    pub most :
        balance b' a.token_0_vault * balance b' a.token_1_vault < (liquidity + 1) * (liquidity + 1)

  pub mint_liquidity-IsMinted :
      (a : InitializeAccounts MintData) (b : Bank) {liquidity : ℕ} {b' : Bank}
      → (a.token_0_vault ≢ a.payer_lp_token) × (a.token_1_vault ≢ a.payer_lp_token)
      → mint_liquidity spl rt a b ≡ ok (liquidity, b')
      → IsMinted a b liquidity b'
  unfolding mint_liquidity token_mint_to
  mint_liquidity-IsMinted a b {liquidity} {b'} (off_0, off_1) h =
      take_apart (rt.unpack_amount b a.token_0_vault) h λ n_0 e1 h1.
        take_apart (rt.unpack_amount b a.token_1_vault) h1 λ n_1 e2 h2.
          take_apart (validate_supply n_0 n_1) h2 λ _ e3 h3.
            take_apart (unwrap (checked_mul u128_max n_0 n_1)) h3 λ product e4 h4.
              take_apart (narrow (rt.integer_sqrt product)) h4 λ l e5 h5.
                take_apart (ok_or (checked_sub l lock_lp_amount) _) h5 λ minted e6 h6.
                  let request : MintTo = record {
                    program = a.token_program;
                    mint = a.lp_mint;
                    to = a.payer_lp_token;
                    authority = a.authority;
                    amount = minted;
                    signer = (rt.find_program_address (Seed.auth_seed ∷ [])).1;
                  } in
                  take_apart (spl.mint_to request b) h6 λ b1 e7 h7.
                    let done = ok_injective h7 in
                    let same_l : l ≡ liquidity = ap (λ q. q.0) done in
                    let same_b : b1 ≡ b' = ap (λ q. q.1) done in
                    let u_0 = system.unpack_amount b a.token_0_vault n_0 e1 in
                    let u_1 = system.unpack_amount b a.token_1_vault n_1 e2 in
                    let (times, fits) = checked_mul-ok u128_max n_0 n_1 (unwrap-ok _ e4) in
                    let (root, _) = narrow-ok (rt.integer_sqrt product) e5 in
                    let (square, next) = system.integer_sqrt product fits in
                    let (left, enough) = checked_sub-ok l lock_lp_amount (ok_or-ok _ _ e6) in
                    let made = laws.mint_supply request b b1 e7 in
                    let kept_0 = laws.mint_others request b b1 a.token_0_vault e7 off_0 in
                    let kept_1 = laws.mint_others request b b1 a.token_1_vault e7 off_1 in
                    let vaults : balance b1 a.token_0_vault * balance b1 a.token_1_vault ≡ product =
                      rw (kept_0, kept_1, u_0, u_1) (sym times) in
                    let is_root : rt.integer_sqrt product ≡ l = sym root in
                    subst (λ x. IsMinted a b liquidity x) same_b
                      (subst (λ x. IsMinted a b x b1) same_l
                        (record {
                          counted = omega arith;
                          backed = rw (vaults, ← is_root) square;
                          most = rw (vaults, ← is_root) next;
                        }))

  pub check_accounts-ok :
      (receiver : FeeReceiver) (a : InitializeAccounts MintData) {u : Unit {0}}
      → check_accounts spl rt chain receiver a ≡ ok u
      → (a.token_0_mint.key < a.token_1_mint.key) × (a.token_0_vault ≢ a.token_1_vault)
  unfolding check_accounts check_address
  check_accounts-ok receiver a h =
      take_apart (require (a.authority == chain.authority) _) h λ _ e1 h1.
        take_apart (require (ltb a.token_0_mint.key a.token_1_mint.key) _) h1 λ _ e2 h2.
          take_apart (require (a.token_0_mint.owner == a.token_0_program) _) h2 λ _ e3 h3.
            take_apart (require (a.token_1_mint.owner == a.token_1_program) _) h3 λ _ e4 h4.
              take_apart (require (a.lp_mint == _) _) h4 λ _ e5 h5.
                take_apart (require (a.payer_token_0.mint == a.token_0_mint.key) _) h5 λ _ e6 h6.
                  take_apart (require (a.payer_token_0.owner == a.payer) _) h6 λ _ e7 h7.
                    take_apart (require (a.payer_token_1.mint == a.token_1_mint.key) _) h7
                      λ _ e8 h8.
                        take_apart (require (a.payer_token_1.owner == a.payer) _) h8 λ _ e9 h9.
                          take_apart (require (a.token_0_vault == vault_0) _) h9 λ _ e10 h10.
                            take_apart (require (a.token_1_vault == vault_1) _) h10 λ _ e11 h11.
                              let less =
                                require-ok (ltb a.token_0_mint.key a.token_1_mint.key) _ e2 in
                              let at_0 = require-ok (a.token_0_vault == vault_0) _ e10 in
                              let at_1 = require-ok (a.token_1_vault == vault_1) _ e11 in
                              let order : a.token_0_mint.key < a.token_1_mint.key = ground arith in
                              let is_0 : a.token_0_vault ≡ vault_0 = ground arith in
                              let is_1 : a.token_1_vault ≡ vault_1 = ground arith in
                              (
                                order,
                                λ q.
                                    system.find_program_address a.pool_key a.token_0_mint.key
                                      a.token_1_mint.key (λ r. omega arith) (sym is_0 ∙ (q ∙ is_1)),
                              )
    where
      vault_0 : ℕ
      vault_0 = (rt.find_program_address (vault_seeds spl rt a a.token_0_mint)).0

      vault_1 : ℕ
      vault_1 = (rt.find_program_address (vault_seeds spl rt a a.token_1_mint)).0
