-- ===== src/System/Refine.antt =====
-- Every call of the program is a move of the abstract pool, and keeps a sound world sound: what that
-- means, and what a call has to show.
pub mod Trades
pub mod Liquidity
pub mod Fees
use raydium_cp_swap.Base.{
  ℕ, ◌+◌, ◌-◌, ◌*◌, ◌≤◌, ◌<◌, ◌≡◌, ◌≢◌, refl, sym, ap, ◌∙◌, min, ok, take_apart, require, leb, ltb,
  ◌==◌, arith, ok_injective,
}
use raydium_cp_swap.Base.Division.{mul_mono}
use raydium_cp_swap.Curve.Calculator.{TradeDirection}
use raydium_cp_swap.States.Config.{AmmConfig}
use raydium_cp_swap.States.Pool.{PoolState, set_status}
use raydium_cp_swap.States.Pool.Fees.{fees_0, fees_1, IsSolvent, KeepsPool}
use raydium_cp_swap.States.Pool.Direction.{vault_in, vault_out}
use raydium_cp_swap.States.Oracle.{ObservationState}
use raydium_cp_swap.States.Oracle.Ring.{IsValid}
use raydium_cp_swap.Token.Interface.{Spl}
use raydium_cp_swap.Token.Transfers.{IsTokenProgram}
use raydium_cp_swap.Instructions.Context.{Chain}
use raydium_cp_swap.Instructions.Config.Rates.{IsConfig}
use raydium_cp_swap.Instructions.Initialize.{lock_lp_amount}
use raydium_cp_swap.System.{World}
use raydium_cp_swap.System.Amm.{Amm, Move, Move-KeepsWorth, KeepsWorth-IsBacked}
use raydium_cp_swap.System.Sound.{IsSound, view, vault_0, vault_1}

module _ (spl : Spl) where
  open spl use {MintData, Bank, balance, supply}

  pub record Refines (w u : World Bank) : Type 0 where
    pub move : Move (view spl w) (view spl u)
    pub sound : IsSound spl u

  pub IsSound-shares : (w : World Bank) → IsSound spl w → 0 < w.pool.lp_supply
  IsSound-shares w s = omega (arith, s.counted)

  -- What a call has to show: in terms of the addresses that the pool had before.
  pub refines :
      (w u : World Bank)
      → IsSound spl w
      → (u.pool.token_0_vault ≡ w.pool.token_0_vault)
        × (u.pool.token_1_vault ≡ w.pool.token_1_vault)
        × (u.pool.lp_mint ≡ w.pool.lp_mint)
      → IsSolvent u.pool (balance u.bank w.pool.token_0_vault) (balance u.bank w.pool.token_1_vault)
      → supply u.bank w.pool.lp_mint + lock_lp_amount ≤ u.pool.lp_supply
      → IsConfig u.config
      → IsValid u.ring
      → Move (view spl w) (record {
        reserve_0 = balance u.bank w.pool.token_0_vault - fees_0 u.pool;
        reserve_1 = balance u.bank w.pool.token_1_vault - fees_1 u.pool;
        shares = u.pool.lp_supply;
      })
      → Refines w u
  refines w u s (key_0, key_1, mint) solvent counted rates ring move =
      let moved : Move (view spl w) (view spl u) = rw (key_0, key_1) move in
      record {
        move = moved;
        sound = record {
          solvent = rw (key_0, key_1) solvent;
          counted = rw mint counted;
          backed =
              KeepsWorth-IsBacked (view spl w) (view spl u) (IsSound-shares w s)
                (Move-KeepsWorth moved) s.backed;
          rates = rates;
          ring = ring;
          two_vaults = rw (key_0, key_1) s.two_vaults;
        };
      }
