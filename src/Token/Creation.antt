-- ===== src/Token/Creation.antt =====
-- What the program relies on of the runtime when it makes accounts, and what its own helpers do then.
use raydium_cp_swap.Base.{
  ℕ, ◌+◌, ◌-◌, ◌*◌, ◌≤◌, ◌<◌, ◌≡◌, ◌≢◌, ◌∙◌, sym, ap, [], ◌∷◌, List, ok, take_apart, ltb, ◌==◌,
  Bool-cases, inl, inr, if◌then◌else◌, ok_injective, Result,
}
use raydium_cp_swap.Base.Words.{u128_max}
use raydium_cp_swap.Error.{Error}
use raydium_cp_swap.States.Oracle.{ObservationState, default_state}
use raydium_cp_swap.States.Support.{Seed}
use raydium_cp_swap.Token.Interface.{Spl, Mint}
use raydium_cp_swap.Token.Runtime.{Runtime}
use raydium_cp_swap.Token.Create.{
  allocate_account, create_or_allocate_account, token_account_space, create_token_account,
}

module _ (spl : Spl) where
  open spl use {Bank, balance, supply}

  -- A call that makes and burns no tokens.
  abbrev pub KeepsSupplies : Bank → Bank → Type 0
  KeepsSupplies b b' = (m : ℕ) → supply b' m ≡ supply b m

  -- A call that changes no token account but one.
  abbrev pub ChangesOnly : ℕ → Bank → Bank → Type 0
  ChangesOnly at b b' = (k : ℕ) → k ≢ at → balance b' k ≡ balance b k

module _ (spl : Spl) (rt : Runtime spl) where
  open spl use {MintData, Bank, balance, supply}

  -- The system program moves no tokens; an account that is set up brings none, and a mint that is set
  -- up has made none; `sync_native` changes the wrapped account alone; the amount that unpacks
  -- is the balance; the root is the largest number whose square fits; an account of observations that
  -- is new holds the default; the addresses for two different last seeds differ.
  pub record IsRuntime : Type 0 where
    pub create_account :
        (from to lamports space owner : ℕ) (seeds : List Seed) (b b' : Bank)
        → rt.create_account from to lamports space owner seeds b ≡ ok b'
        → KeepsSupplies spl b b'
    pub transfer :
        (from to lamports : ℕ) (b b' : Bank)
        → rt.transfer from to lamports b ≡ ok b'
        → KeepsSupplies spl b b' × ((k : ℕ) → balance b' k ≡ balance b k)
    pub allocate :
        (k space : ℕ) (seeds : List Seed) (b b' : Bank)
        → rt.allocate k space seeds b ≡ ok b'
        → KeepsSupplies spl b b'
    pub assign :
        (k owner : ℕ) (seeds : List Seed) (b b' : Bank)
        → rt.assign k owner seeds b ≡ ok b'
        → KeepsSupplies spl b b'
    pub initialize_account3 :
        (program k mint authority : ℕ) (b b' : Bank)
        → rt.initialize_account3 program k mint authority b ≡ ok b'
        → KeepsSupplies spl b b'
    pub sync_native :
        (program k : ℕ) (b b' : Bank)
        → rt.sync_native program k b ≡ ok b'
        → KeepsSupplies spl b b' × ChangesOnly spl k b b'
    pub unpack_amount : (b : Bank) (k n : ℕ) → rt.unpack_amount b k ≡ ok n → balance b k ≡ n
    pub init_mint :
        (m decimals authority payer : ℕ) (b b' : Bank)
        → rt.init_mint m decimals authority payer b ≡ ok b'
        → supply b' m ≡ 0
    pub init_associated_token :
        (k mint owner : ℕ) (b b' : Bank)
        → rt.init_associated_token k mint owner b ≡ ok b'
        → KeepsSupplies spl b b'
    pub init_account :
        (k payer : ℕ) (b b' : Bank) → rt.init_account k payer b ≡ ok b' → KeepsSupplies spl b b'
    pub load_init_observation :
        (b : Bank) (k : ℕ) (s : ObservationState)
        → rt.load_init_observation b k ≡ ok s
        → s ≡ default_state
    pub integer_sqrt :
        (n : ℕ)
        → n ≤ u128_max
        → (rt.integer_sqrt n * rt.integer_sqrt n ≤ n)
          × (n < (rt.integer_sqrt n + 1) * (rt.integer_sqrt n + 1))
    pub find_program_address :
        (pool a b : ℕ)
        → a ≢ b
        → (rt.find_program_address (Seed.pool_vault_seed ∷ Seed.key pool ∷ Seed.key a ∷ [])).0
          ≢ (rt.find_program_address (Seed.pool_vault_seed ∷ Seed.key pool ∷ Seed.key b ∷ [])).0

module _ (spl : Spl) (rt : Runtime spl) (laws : IsRuntime spl rt) where
  open spl use {MintData, Bank, supply}

  topped_up :
      (payer target required : ℕ) (b : Bank) {b' : Bank}
      → (if ltb 0 required then rt.transfer payer target required b else ok b) ≡ ok b'
      → KeepsSupplies spl b b'
  topped_up payer target required b {b'} h m = elim (Bool-cases (ltb 0 required)) [
    | inl more ↦ (laws.transfer payer target required b b' (rw more at h)).0 m
    | inr none_needed ↦
        let h' : ◌≡◌ {A = Result Error Bank} (ok b) (ok b') = rw none_needed at h in
        ap (λ x. supply x m) (sym (ok_injective h'))
  ]

  allocate_account-KeepsSupplies :
      (owner payer target : ℕ) (seeds : List Seed) (space : ℕ) (b : Bank) {b' : Bank}
      → allocate_account spl rt owner payer target seeds space b ≡ ok b'
      → KeepsSupplies spl b b'
  unfolding allocate_account
  allocate_account-KeepsSupplies owner payer target seeds space b {b'} h m =
      let least = if ltb (rt.minimum_balance space) 1 then 1 else rt.minimum_balance space in
      let required = least - rt.lamports b target in
      take_apart (if ltb 0 required then rt.transfer payer target required b else ok b) h
        λ b1 e1 h1. take_apart (rt.allocate target space seeds b1) h1 λ b2 e2 h2.
          laws.assign target owner seeds b2 b' h2 m
          ∙ (laws.allocate target space seeds b1 b2 e2 m ∙ topped_up payer target required b e1 m)

  pub create_or_allocate_account-KeepsSupplies :
      (owner payer target : ℕ) (seeds : List Seed) (space : ℕ) (b : Bank) {b' : Bank}
      → create_or_allocate_account spl rt owner payer target seeds space b ≡ ok b'
      → KeepsSupplies spl b b'
  unfolding create_or_allocate_account
  create_or_allocate_account-KeepsSupplies owner payer target seeds space b {b'} h =
      elim (Bool-cases (rt.lamports b target == 0)) [
        | inl empty ↦
            laws.create_account payer target (rt.minimum_balance space) space owner seeds b b'
              (rw empty at h)
        | inr funded ↦
            allocate_account-KeepsSupplies owner payer target seeds space b (rw funded at h)
      ]

  pub create_token_account-KeepsSupplies :
      (authority payer k : ℕ) (mint : Mint MintData) (program : ℕ) (seeds : List Seed) (b : Bank)
      {b' : Bank}
      → create_token_account spl rt authority payer k mint program seeds b ≡ ok b'
      → KeepsSupplies spl b b'
  unfolding create_token_account
  create_token_account-KeepsSupplies authority payer k mint program seeds b {b'} h m =
      take_apart (token_account_space spl rt mint) h λ space e1 h1.
        take_apart (create_or_allocate_account spl rt program payer k seeds space b) h1 λ b1 e2 h2.
          laws.initialize_account3 program k mint.key authority b1 b' h2 m
          ∙ create_or_allocate_account-KeepsSupplies program payer k seeds space b e2 m
