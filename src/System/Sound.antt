-- ===== src/System/Sound.antt =====
-- When a world is sound, which calls name accounts as they should, and how a world looks from outside.
use raydium_cp_swap.Base.{ℕ, ◌+◌, ◌-◌, ◌≤◌, ◌≢◌}
use raydium_cp_swap.States.Pool.Fees.{fees_0, fees_1, IsSolvent}
use raydium_cp_swap.States.Oracle.Ring.{IsValid}
use raydium_cp_swap.Token.Interface.{Spl}
use raydium_cp_swap.Instructions.Config.Rates.{IsConfig}
use raydium_cp_swap.Instructions.Initialize.{lock_lp_amount}
use raydium_cp_swap.System.{World, Instruction}
use raydium_cp_swap.System.Amm.{Amm, IsBacked}

module _ (spl : Spl) where
  open spl use {MintData, Bank, balance, supply}

  abbrev pub vault_0 : World Bank → ℕ
  vault_0 w = balance w.bank w.pool.token_0_vault

  abbrev pub vault_1 : World Bank → ℕ
  vault_1 w = balance w.bank w.pool.token_1_vault

  -- The reserves are the vaults less the fees owed.
  abbrev pub view : World Bank → Amm
  view w = record {
    reserve_0 = vault_0 w - fees_0 w.pool;
    reserve_1 = vault_1 w - fees_1 w.pool;
    shares = w.pool.lp_supply;
  }

  pub record IsSound (w : World Bank) : Type 0 where
    pub solvent : IsSolvent w.pool (vault_0 w) (vault_1 w)
    -- the locked pool tokens are counted and never minted
    pub counted : supply w.bank w.pool.lp_mint + lock_lp_amount ≤ w.pool.lp_supply
    pub backed : IsBacked (view w)
    pub rates : IsConfig w.config
    pub ring : IsValid w.ring
    pub two_vaults : w.pool.token_0_vault ≢ w.pool.token_1_vault

  -- No account that a user names for tokens of their own is a vault of the pool.
  abbrev pub IsOutside : World Bank → ℕ → Type 0
  IsOutside w k = (w.pool.token_0_vault ≢ k) × (w.pool.token_1_vault ≢ k)

  abbrev pub IsApart : World Bank → Instruction MintData → Type 0
  IsApart w (Instruction.update_amm_config owner param value keys) = Unit
  IsApart w (Instruction.update_pool_status authority status) = Unit
  IsApart w (Instruction.collect_protocol_fee a requested_0 requested_1) =
      IsOutside w a.recipient_token_0_account × IsOutside w a.recipient_token_1_account
  IsApart w (Instruction.collect_fund_fee a requested_0 requested_1) =
      IsOutside w a.recipient_token_0_account × IsOutside w a.recipient_token_1_account
  IsApart w (Instruction.collect_creator_fee a) =
      IsOutside w a.recipient_token_0_account × IsOutside w a.recipient_token_1_account
  IsApart w (Instruction.deposit a lp maximum_0 maximum_1) =
      IsOutside w a.token_0_account.key
      × IsOutside w a.token_1_account.key
      × IsOutside w a.owner_lp_token.key
  IsApart w (Instruction.withdraw a lp minimum_0 minimum_1) =
      IsOutside w a.token_0_account.key
      × IsOutside w a.token_1_account.key
      × IsOutside w a.owner_lp_token.key
  IsApart w (Instruction.swap_base_input a amount_in minimum) =
      IsOutside w a.input_token_account.key × IsOutside w a.output_token_account.key
  IsApart w (Instruction.swap_base_output a maximum amount_out) =
      IsOutside w a.input_token_account.key × IsOutside w a.output_token_account.key
