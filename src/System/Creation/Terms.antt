-- ===== src/System/Creation/Terms.antt =====
-- What the pool account of a new pool names, and how swaps on it charge the creator fee:
-- programs/cp-swap/src/instructions/initialize.rs and initialize_with_permission.rs.
use raydium_cp_swap.Base.{
  ℕ, Bool, not, ◌≡◌, refl, sym, ok, require, take_apart, ok_injective, if◌then◌else◌,
}
use raydium_cp_swap.Accounts.{load_init}
use raydium_cp_swap.Curve.Calculator.{TradeDirection}
use raydium_cp_swap.States.Pool.{
  PoolState, CreatorFeeOn, to_u8, is_creator_fee_on_input, adjust_creator_fee_rate,
}
use raydium_cp_swap.States.Pool.Start
use raydium_cp_swap.States.Pool.Direction.{creator_fee_token, fee_is_token_0, charged_token_0}
use raydium_cp_swap.Token.Interface.{Spl}
use raydium_cp_swap.Token.Runtime.{Runtime}
use raydium_cp_swap.Instructions.Context.{Chain}
use raydium_cp_swap.Instructions.Initialize.{
  InitializeAccounts, InitializeOutcome, next_open_time, check_mints, create_vaults, create_pool,
  fund_vaults, mint_liquidity, charge_creation, open_pool,
}

-- How a pool charges the creator fee: at the config's rate or not at all, and always in the token
-- that the model names.
pub record Charges (p : PoolState) (fee_on : CreatorFeeOn) (enable : Bool) : Type 0 where
  pub rate : (r : ℕ) → adjust_creator_fee_rate p r ≡ (if enable then r else 0)
  pub token :
      (d : TradeDirection)
      → (b : Bool) × (is_creator_fee_on_input p d ≡ ok b)
        × (fee_is_token_0 d b ≡ charged_token_0 fee_on d)

-- The pool names the creator, and the accounts of the instruction.
pub record HasTerms {MintData : Type 0} (a : InitializeAccounts MintData) (creator : ℕ)
    (fee_on : CreatorFeeOn) (enable : Bool) (p : PoolState) : Type 0 where
  pub creator_named : p.pool_creator ≡ creator
  pub config_named : p.amm_config ≡ a.amm_config_key
  pub vaults_named : (p.token_0_vault ≡ a.token_0_vault) × (p.token_1_vault ≡ a.token_1_vault)
  pub mints_named : (p.token_0_mint ≡ a.token_0_mint.key) × (p.token_1_mint ≡ a.token_1_mint.key)
  pub programs_named :
      (p.token_0_program ≡ a.token_0_mint.owner) × (p.token_1_program ≡ a.token_1_mint.owner)
  pub lp_mint_named : p.lp_mint ≡ a.lp_mint
  pub ring_named : p.observation_key ≡ a.observation_key
  pub charges : Charges p fee_on enable

to_u8-Charges :
    (p : PoolState) (fee_on : CreatorFeeOn)
    → p.creator_fee_on ≡ to_u8 fee_on
    → Charges p fee_on p.enable_creator_fee
unfolding adjust_creator_fee_rate
to_u8-Charges p fee_on h = record { rate = λ r. refl; token = λ d. creator_fee_token p fee_on d h }

module _ (spl : Spl) (rt : Runtime spl) (chain : Chain) where
  open spl use {MintData, Bank}

  pub open_pool-HasTerms :
      (a : InitializeAccounts MintData) (creator n_0 n_1 time : ℕ) (fee_on : CreatorFeeOn)
      (enable : Bool) (b : Bank) {o : InitializeOutcome Bank}
      → open_pool spl rt chain a creator n_0 n_1 time fee_on enable b ≡ ok o
      → HasTerms a creator fee_on enable o.pool_state
  unfolding open_pool Start.initialize
  open_pool-HasTerms a creator n_0 n_1 time fee_on enable b {o} h =
      take_apart (check_mints spl rt a) h λ _ e1 h1.
        take_apart (require (not a.amm_config.disable_create_pool) _) h1 λ _ e2 h2.
          take_apart (next_open_time chain time) h2 λ open_time e3 h3.
            take_apart (create_vaults spl rt a b) h3 λ b1 e4 h4.
              take_apart (create_pool spl rt a b1) h4 λ q e5 h5.
                take_apart (load_init rt.pool_layout q.0) h5 λ r e6 h6.
                  take_apart (rt.load_init_observation q.1 a.observation_key) h6 λ ring e7 h7.
                    take_apart (fund_vaults spl rt chain a n_0 n_1 q.1) h7 λ b2 e8 h8.
                      take_apart (mint_liquidity spl rt a b2) h8 λ l e9 h9.
                        take_apart (charge_creation spl rt a l.1) h9 λ b3 e10 h10.
                          simp (sym (ok_injective h10)) (record {
                            creator_named = refl;
                            config_named = refl;
                            vaults_named = (refl, refl);
                            mints_named = (refl, refl);
                            programs_named = (refl, refl);
                            lp_mint_named = refl;
                            ring_named = refl;
                            charges = to_u8-Charges _ fee_on refl;
                          })
