-- ===== src/States/Support.antt =====
-- programs/cp-swap/src/states/permission.rs and states/support_mint_associated.rs (less their
-- padding), and the seeds that the addresses of the program's accounts are derived from.
use raydium_cp_swap.Base.{ℕ}

pub record Permission : Type 0 where
  pub authority : ℕ

pub record SupportMintAssociated : Type 0 where
  pub bump : ℕ
  pub mint : ℕ

-- The `…_SEED` constants, and the bytes of an address.
pub data Seed : Type 0 where
  auth_seed pool_seed pool_lp_mint_seed pool_vault_seed observation_seed : Seed
  permission_seed support_mint_seed : Seed
  key : ℕ → Seed
