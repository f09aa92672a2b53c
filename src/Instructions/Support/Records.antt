-- ===== src/Instructions/Support/Records.antt =====
-- Who may create and close the permission and support accounts, and that closing undoes creating.
use raydium_cp_swap.Base.{
  ℕ, true, false, Option, some, none, List, ok, err, ◌≡◌, ◌≢◌, ◌⊎◌, inl, inr, refl, sym, ap, ◌∙◌,
  require, require-ok, take_apart, ok_injective, ◌==◌, ◌||◌, ==_true, ==_false, Bool-cases,
}
use raydium_cp_swap.Base.{arith}
use mathlib.Core.Path.{subst}
use raydium_cp_swap.Error.{Error}
use raydium_cp_swap.States.Support.{Permission, SupportMintAssociated, Seed}
use raydium_cp_swap.Token.Interface.{Mint}
use raydium_cp_swap.Instructions.Context.{Chain}
use raydium_cp_swap.Instructions.Support.{
  Store, put, init, present, permission_seeds, create_permission_pda, close_permission_pda,
  support_seeds, check_support, create_support_mint_associated, close_support_mint_associated,
}

init-ok : {A : Type 0} (o : Option A) {u : Unit {0}} → init o ≡ ok u → o ≡ none
unfolding init
init-ok none h = refl
init-ok (some a) h = absurd (cc)

put_at : {A : Type 0} (s : Store A) (k : ℕ) (v : Option A) → put s k v k ≡ v
put_at s k v = rw (==_true k k refl) refl

put_off : {A : Type 0} (s : Store A) (k j : ℕ) (v : Option A) → j ≢ k → put s k v j ≡ s j
put_off s k j v ne = rw (==_false j k ne) refl

-- A new entry at an address that had none: it is there, the other addresses are as they were, a second
-- creation there fails, and without it the store is the old one.
pub record Adds {A : Type 0} (s s' : Store A) (k : ℕ) (v : A) : Type 0 where
  pub was_free : s k ≡ none
  pub is_there : s' k ≡ some v
  pub others : (j : ℕ) → j ≢ k → s' j ≡ s j

put-Adds : {A : Type 0} (s : Store A) (k : ℕ) (v : A) → s k ≡ none → Adds s (put s k (some v)) k v
put-Adds s k v free = record {
  was_free = free;
  is_there = put_at s k (some v);
  others = λ j ne. put_off s k j (some v) ne;
}

removed :
    {A : Type 0} (s s' : Store A) (k : ℕ) (v : A) → Adds s s' k v → (j : ℕ) → put s' k none j ≡ s j
removed s s' k v a j = elim (Bool-cases (j == k)) [
  | inl same ↦ let at : j ≡ k = ground arith in rw same (sym a.was_free ∙ ap s (sym at))
  | inr other ↦ rw other (a.others j (λ q. ground arith))
]

module _ (find : List Seed → ℕ × ℕ) (token_2022_id support_owner : ℕ) (chain : Chain) where
  -- A `create_permission_pda` that succeeds is signed by the admin, at the address derived for the
  -- authority, which had no account, and records the authority there alone; a second one there fails,
  -- and a `close_permission_pda` by the admin succeeds and gives the old accounts back.
  pub close_permission-create_permission :
      (owner authority k : ℕ) (s : Store Permission) {s' : Store Permission}
      → create_permission_pda find token_2022_id support_owner chain owner authority k s ≡ ok s'
      → (owner ≡ chain.admin)
        × (k ≡ (find (permission_seeds find token_2022_id support_owner chain authority)).0)
        × Adds s s' k (record { authority = authority })
        × (create_permission_pda find token_2022_id support_owner chain owner authority k s'
            ≡ err Error.account_already_in_use)
        × ((s'' : Store Permission) × (close_permission_pda find token_2022_id support_owner chain
                owner authority k s'
              ≡ ok s'')
            × ((j : ℕ) → s'' j ≡ s j))
  unfolding create_permission_pda close_permission_pda init present
  close_permission-create_permission owner authority k s {s'} h =
      take_apart (require (owner == chain.admin) _) h λ _ e1 h1.
        take_apart (require (k == derived) _) h1 λ _ e2 h2. take_apart (init (s k)) h2 λ _ e3 h3.
          let signed = require-ok (owner == chain.admin) _ e1 in
          let placed = require-ok (k == derived) _ e2 in
          let adds : Adds s s' k entry =
            subst (λ x. Adds s x k entry) (ok_injective h3)
              (put-Adds s k entry (init-ok (s k) e3)) in
          (
            ground arith,
            ground arith,
            adds,
            rw (signed, placed, adds.is_there) refl,
            (put s' k none, rw (signed, adds.is_there, placed) refl, removed s s' k entry adds),
          )
    where
      derived : ℕ
      derived = (find (permission_seeds find token_2022_id support_owner chain authority)).0

      entry : Permission
      entry = record { authority = authority }

  module _ {MintData : Type 0} where
    -- A `create_support_mint_associated` that succeeds is signed by the admin or the owner of the support
    -- accounts, for a mint of Token-2022, at the address derived for the mint, which had no account, and
    -- records the mint there alone; a second one there fails, and a `close_support_mint_associated`
    -- by the same signer succeeds and gives the old accounts back.
    pub close_support-create_support :
        (owner : ℕ) (mint : Mint MintData) (k : ℕ) (s : Store SupportMintAssociated)
        {s' : Store SupportMintAssociated}
        → create_support_mint_associated find token_2022_id support_owner chain owner mint k s
          ≡ ok s'
        → ((owner ≡ chain.admin) ⊎ (owner ≡ support_owner))
          × (mint.owner ≡ token_2022_id)
          × (k ≡ (find (support_seeds find token_2022_id support_owner chain mint)).0)
          × ((bump : ℕ) × Adds s s' k (record { bump = bump; mint = mint.key }))
          × (create_support_mint_associated find token_2022_id support_owner chain owner mint k s'
              ≡ err Error.account_already_in_use)
          × ((s'' : Store SupportMintAssociated) × (close_support_mint_associated find token_2022_id
                  support_owner chain owner mint k s'
                ≡ ok s'')
              × ((j : ℕ) → s'' j ≡ s j))
    unfolding create_support_mint_associated close_support_mint_associated init present
        check_support
    close_support-create_support owner mint k s {s'} h =
        take_apart (check_support find token_2022_id support_owner chain owner mint) h λ _ e1 h1.
          take_apart (require (k == derived) _) h1 λ _ e2 h2. take_apart (init (s k)) h2 λ _ e3 h3.
            take_apart (require (owner == chain.admin || owner == support_owner) _) e1 λ _ f1 g1.
              let signed = require-ok (owner == chain.admin || owner == support_owner) _ f1 in
              let of_2022 = require-ok (mint.owner == token_2022_id) _ g1 in
              let placed = require-ok (k == derived) _ e2 in
              let adds : Adds s s' k entry =
                subst (λ x. Adds s x k entry) (ok_injective h3)
                  (put-Adds s k entry (init-ok (s k) e3)) in
              (
                signer (Bool-cases (owner == chain.admin)) signed,
                ground arith,
                ground arith,
                (entry.bump, adds),
                rw (signed, of_2022, placed, adds.is_there) refl,
                (
                  put s' k none,
                  rw (signed, of_2022, adds.is_there, placed) refl,
                  removed s s' k entry adds,
                ),
              )
      where
        derived : ℕ
        derived = (find (support_seeds find token_2022_id support_owner chain mint)).0

        entry : SupportMintAssociated
        entry = record {
          bump = (find (support_seeds find token_2022_id support_owner chain mint)).1;
          mint = mint.key;
        }

        signer :
            (((owner == chain.admin) ≡ true) ⊎ ((owner == chain.admin) ≡ false))
            → (owner == chain.admin || owner == support_owner) ≡ true
            → (owner ≡ chain.admin) ⊎ (owner ≡ support_owner)
        signer (inl e) h = inl (ground arith)
        signer (inr e) h = let h' = rw e at h in inr (ground arith)
