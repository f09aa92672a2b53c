-- ===== src/Instructions/Support/Tests.antt =====
-- A permission and a support account on an empty store, and an example of each theorem on them.
use raydium_cp_swap.Base.{ℕ, ◌≡◌, ◌⊎◌, refl, some, none, List, ok, err}
use raydium_cp_swap.Error.{Error}
use raydium_cp_swap.States.Support.{Permission, SupportMintAssociated, Seed}
use raydium_cp_swap.Token.SampleRuntime.{derive}
use raydium_cp_swap.Instructions.Sample.{chain, mint_1}
use raydium_cp_swap.Instructions.Support.{
  Store, put, init, permission_seeds, create_permission_pda, close_permission_pda, support_seeds,
  check_support, create_support_mint_associated, close_support_mint_associated,
}
use raydium_cp_swap.Instructions.Support.Records.{
  Adds, close_permission-create_permission, close_support-create_support,
}

abbrev find : List Seed → ℕ × ℕ
find seeds = (derive seeds, 255)

abbrev no_permissions : Store Permission
no_permissions k = none

abbrev permissions : Store Permission
permissions = put no_permissions 2_080 (some (record { authority = 80 }))

permission_created :
    create_permission_pda find 2 92 chain 91 80 2_080 no_permissions ≡ ok permissions
unfolding create_permission_pda permission_seeds init
permission_created = refl

close_permission-create_permission_example :
    (91 ≡ chain.admin)
    × (2_080 ≡ (find (permission_seeds find 2 92 chain 80)).0)
    × Adds no_permissions permissions 2_080 (record { authority = 80 })
    × (create_permission_pda find 2 92 chain 91 80 2_080 permissions
        ≡ err Error.account_already_in_use)
    × ((after : Store Permission) × (close_permission_pda find 2 92 chain 91 80 2_080 permissions
          ≡ ok after)
        × ((j : ℕ) → after j ≡ no_permissions j))
close_permission-create_permission_example =
    close_permission-create_permission find 2 92 chain 91 80 2_080 no_permissions permission_created

abbrev no_support : Store SupportMintAssociated
no_support k = none

abbrev supports : Store SupportMintAssociated
supports = put no_support 3_022 (some (record { bump = 255; mint = 22 }))

support_created :
    create_support_mint_associated find 2 92 chain 92 mint_1 3_022 no_support ≡ ok supports
unfolding create_support_mint_associated check_support support_seeds init
support_created = refl

close_support-create_support_example :
    ((92 ≡ chain.admin) ⊎ ◌≡◌ {A = ℕ} 92 92)
    × (mint_1.owner ≡ 2)
    × (3_022 ≡ (find (support_seeds find 2 92 chain mint_1)).0)
    × ((bump : ℕ) × Adds no_support supports 3_022 (record { bump = bump; mint = 22 }))
    × (create_support_mint_associated find 2 92 chain 92 mint_1 3_022 supports
        ≡ err Error.account_already_in_use)
    × ((after : Store SupportMintAssociated) × (close_support_mint_associated find 2 92 chain 92
            mint_1 3_022 supports
          ≡ ok after)
        × ((j : ℕ) → after j ≡ no_support j))
close_support-create_support_example =
    close_support-create_support find 2 92 chain 92 mint_1 3_022 no_support support_created
