-- ===== src/System/Execute.antt =====
-- A successful call of the program is a move of the abstract pool, from a sound world to a sound one.
use raydium_cp_swap.Base.{◌≡◌, sym, ok, take_apart, ok_injective}
use raydium_cp_swap.Token.Interface.{Spl}
use raydium_cp_swap.Token.Transfers.{IsTokenProgram}
use raydium_cp_swap.Instructions.Context.{Chain}
use raydium_cp_swap.Instructions.Swap
use raydium_cp_swap.Instructions.Deposit
use raydium_cp_swap.Instructions.Withdraw
use raydium_cp_swap.Instructions.Collect
use raydium_cp_swap.Instructions.Config
use raydium_cp_swap.System.{World, Instruction, load_swap, load_liquidity, load_collect, execute}
use raydium_cp_swap.System.Sound.{IsSound, IsApart}
use raydium_cp_swap.System.Refine.{Refines}
use raydium_cp_swap.System.Refine.Trades.{swap_base_input-Refines, swap_base_output-Refines}
use raydium_cp_swap.System.Refine.Liquidity.{deposit-Refines, withdraw-Refines}
use raydium_cp_swap.System.Refine.Fees.{
  collect_protocol_fee-Refines, collect_fund_fee-Refines, collect_creator_fee-Refines,
  update_amm_config-Refines, update_pool_status-Refines,
}

module _ (spl : Spl) (chain : Chain) (laws : IsTokenProgram spl chain.epoch) where
  open spl use {MintData, Bank}

  -- A call of one of the nine instructions on a pool that succeeds, from a sound world and with the
  -- user's accounts apart from the vaults, is a move of the abstract pool: it keeps the number of
  -- shares and does not lower the product of the reserves, or it changes the number of shares and
  -- lowers no reserve's part of a share. The world that it leaves is sound.
  pub execute-Refines :
      (i : Instruction MintData) (w : World Bank) {u : World Bank}
      → IsSound spl w
      → IsApart spl w i
      → execute spl chain i w ≡ ok u
      → Refines spl w u
  unfolding execute
  execute-Refines (Instruction.update_amm_config owner param value keys) w s _ h =
      take_apart (Config.update_amm_config chain owner w.config param value keys) h λ c e1 h1.
        simp (sym (ok_injective h1))
          (update_amm_config-Refines spl chain w owner param value keys s e1)
  execute-Refines (Instruction.update_pool_status authority status) w s _ h =
      take_apart (Config.update_pool_status chain authority w.pool status) h λ p e1 h1.
        simp (sym (ok_injective h1)) (update_pool_status-Refines spl chain w authority status s e1)
  execute-Refines (Instruction.collect_protocol_fee a requested_0 requested_1) w s apart h =
      take_apart
        (Collect.collect_protocol_fee spl chain (load_collect spl w a) requested_0 requested_1
          w.bank)
        h
        λ o e1 h1.
          simp (sym (ok_injective h1))
            (collect_protocol_fee-Refines spl chain laws w a requested_0 requested_1 s apart e1)
  execute-Refines (Instruction.collect_fund_fee a requested_0 requested_1) w s apart h =
      take_apart
        (Collect.collect_fund_fee spl chain (load_collect spl w a) requested_0 requested_1 w.bank) h
        λ o e1 h1.
          simp (sym (ok_injective h1))
            (collect_fund_fee-Refines spl chain laws w a requested_0 requested_1 s apart e1)
  execute-Refines (Instruction.collect_creator_fee a) w s apart h =
      take_apart (Collect.collect_creator_fee spl chain (load_collect spl w a) w.bank) h λ o e1 h1.
        simp (sym (ok_injective h1)) (collect_creator_fee-Refines spl chain laws w a s apart e1)
  execute-Refines (Instruction.deposit a lp maximum_0 maximum_1) w s apart h =
      take_apart (Deposit.deposit spl chain (load_liquidity spl w a) lp maximum_0 maximum_1 w.bank)
        h
        λ o e1 h1.
          simp (sym (ok_injective h1))
            (deposit-Refines spl chain laws w a lp maximum_0 maximum_1 s apart e1)
  execute-Refines (Instruction.withdraw a lp minimum_0 minimum_1) w s apart h =
      take_apart
        (Withdraw.withdraw spl chain (load_liquidity spl w a) lp minimum_0 minimum_1 w.bank) h
        λ o e1 h1.
          simp (sym (ok_injective h1))
            (withdraw-Refines spl chain laws w a lp minimum_0 minimum_1 s apart e1)
  execute-Refines (Instruction.swap_base_input a amount_in minimum) w s apart h =
      take_apart (Swap.swap_base_input spl chain (load_swap spl w a) amount_in minimum w.bank) h
        λ o e1 h1.
          simp (sym (ok_injective h1))
            (swap_base_input-Refines spl chain laws w a amount_in minimum s apart e1)
  execute-Refines (Instruction.swap_base_output a maximum amount_out) w s apart h =
      take_apart (Swap.swap_base_output spl chain (load_swap spl w a) maximum amount_out w.bank) h
        λ o e1 h1.
          simp (sym (ok_injective h1))
            (swap_base_output-Refines spl chain laws w a maximum amount_out s apart e1)
