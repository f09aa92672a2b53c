-- ===== src/Instructions/Context.antt =====
-- What the handlers read of the chain.
use raydium_cp_swap.Base.{ℕ}

-- The clock sysvar (the Unix time as the program casts it to `u64`), the address that the seed
-- `AUTH_SEED` derives, and `admin::ID`.
pub record Chain : Type 0 where
  pub unix_timestamp : ℕ
  pub epoch : ℕ
  pub authority : ℕ
  pub admin : ℕ
