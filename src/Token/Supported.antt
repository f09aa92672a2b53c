-- ===== src/Token/Supported.antt =====
-- Which mints utils/token.rs lets a pool have.
use mathlib.Core.List.Memᴰ
use mathlib.Core.List.{Memᴰ}
use raydium_cp_swap.Base.{
  ℕ, Bool, true, not, ◌||◌, List, [], ◌∷◌, ok, ◌≡◌, inl, inr, refl, take_apart, ok_injective, ◌==◌,
  Bool-cases, arith,
}
use raydium_cp_swap.Accounts.{AccountInfo}
use raydium_cp_swap.States.Support.{Seed, SupportMintAssociated}
use raydium_cp_swap.Token.Interface.{Spl, Mint}
use raydium_cp_swap.Token.Runtime.{Runtime, ExtensionType}
use raydium_cp_swap.Token.Create.{
  mint_whitelist, contains, is_allowed, all_allowed, is_supported_mint, find_associated,
  support_mint_associated_is_initialized,
}

contains-Mem : (xs : List ℕ) (k : ℕ) → contains xs k ≡ true → Memᴰ k xs
unfolding contains
contains-Mem [] k h = absurd (cc)
contains-Mem (x ∷ xs) k h = elim (Bool-cases (x == k)) [
  | inl e ↦ Memᴰ.head (ground arith)
  | inr e ↦ Memᴰ.tail (contains-Mem xs k (rw e at h))
]

all_allowed-Mem :
    (types : ExtensionType) (xs : List ℕ)
    → all_allowed types xs ≡ true
    → (e : ℕ) → Memᴰ e xs
    → is_allowed types e ≡ true
unfolding all_allowed
all_allowed-Mem types [] h e m = absurd (Memᴰ.not-nil m)
all_allowed-Mem types (x ∷ xs) h e m = elim (Bool-cases (is_allowed types x)) [
  | inl given ↦
      let below : Memᴰ e xs → is_allowed types e ≡ true =
        λ n. all_allowed-Mem types xs (rw given at h) e n in
      elim (Memᴰ.cases_cons m) [ inl same ↦ rw same given | inr later ↦ below later ]
  | inr missing ↦ let h' = rw missing at h in absurd (cc)
]

module _ (spl : Spl) (rt : Runtime spl) where
  open spl use {MintData}

  -- A mint of the classic token program, one of the whitelist, one for which the program has a support
  -- account among the accounts given, or one all of whose extensions are allowed.
  pub data IsSupported (infos : List AccountInfo) (mint : Mint MintData) : Type 0 where
    classic : mint.owner ≡ spl.token_id → IsSupported infos mint
    listed : Memᴰ mint.key mint_whitelist → IsSupported infos mint
    approved :
        (info : AccountInfo) (associated : SupportMintAssociated)
        → Memᴰ info infos
        → info.owner ≡ rt.program_id
        → info.key ≡ (rt.find_program_address (Seed.support_mint_seed ∷ Seed.key mint.key ∷ [])).0
        → rt.deserialize_support info.bytes ≡ ok associated
        → associated.mint ≡ mint.key
        → IsSupported infos mint
    plain :
        (extensions : List ℕ)
        → rt.get_extension_types mint.content ≡ ok extensions
        → ((e : ℕ) → Memᴰ e extensions → is_allowed rt.extension_type e ≡ true)
        → IsSupported infos mint

  -- An account of the program at an address, for a mint.
  abbrev Approves : ℕ → ℕ → List AccountInfo → Type 0
  Approves expected mint infos =
      (info : AccountInfo) × (associated : SupportMintAssociated) × Memᴰ info infos
      × (info.owner ≡ rt.program_id)
      × (info.key ≡ expected)
      × (rt.deserialize_support info.bytes ≡ ok associated)
      × (associated.mint ≡ mint)

  later :
      (expected mint : ℕ) (info : AccountInfo) (infos : List AccountInfo)
      → Approves expected mint infos
      → Approves expected mint (info ∷ infos)
  later expected mint info infos (i, a, m, own, at, read, same) =
      (i, a, Memᴰ.tail m, own, at, read, same)

  find_associated-Approves :
      (expected mint : ℕ) (infos : List AccountInfo)
      → find_associated spl rt expected mint infos ≡ ok true
      → Approves expected mint infos
  unfolding find_associated
  find_associated-Approves expected mint [] h = absurd (cc)
  find_associated-Approves expected mint (info ∷ infos) h =
      let below = find_associated-Approves expected mint infos in
      elim (Bool-cases (not (info.owner == rt.program_id) || not (info.key == expected))) [
        | inl skipped ↦ later expected mint info infos (below (rw skipped at h))
        | inr ours ↦ take_apart (rt.deserialize_support info.bytes) (rw ours at h) λ a e1 h1.
            elim (Bool-cases (a.mint == mint)) [
              | inl same ↦ (info, a, Memᴰ.head refl, ground arith, ground arith, e1, ground arith)
              | inr other ↦ later expected mint info infos (below (rw other at h1))
            ]
      ]

  associated-Approves :
      (infos : List AccountInfo) (mint : Mint MintData)
      → support_mint_associated_is_initialized spl rt infos mint ≡ ok true
      → Approves
          (rt.find_program_address (Seed.support_mint_seed ∷ Seed.key mint.key ∷ [])).0
          mint.key
          infos
  unfolding support_mint_associated_is_initialized
  associated-Approves [] mint h = absurd (cc)
  associated-Approves (info ∷ infos) mint h = find_associated-Approves _ mint.key (info ∷ infos) h

  pub is_supported_mint-IsSupported :
      (infos : List AccountInfo) (mint : Mint MintData) (associated : Bool)
      → support_mint_associated_is_initialized spl rt infos mint ≡ ok associated
      → is_supported_mint spl rt mint associated ≡ ok true
      → IsSupported infos mint
  unfolding is_supported_mint
  is_supported_mint-IsSupported infos mint associated h s =
      elim (Bool-cases (mint.owner == spl.token_id)) [
        | inl old ↦ classic (ground arith)
        | inr new ↦
            let s1 = rw new at s in
            elim (Bool-cases (contains mint_whitelist mint.key)) [
              | inl on ↦ listed (contains-Mem mint_whitelist mint.key on)
              | inr off ↦
                  let s2 = rw off at s1 in
                  elim (Bool-cases associated) [
                    | inl given ↦
                        let (i, a, m, own, at, read, same) =
                          associated-Approves infos mint (rw given at h) in
                        approved i a m own at read same
                    | inr missing ↦
                        take_apart (rt.get_extension_types mint.content) (rw missing at s2)
                          λ extensions e1 h1.
                            plain extensions e1
                              (all_allowed-Mem rt.extension_type extensions (ok_injective h1))
                  ]
            ]
      ]
