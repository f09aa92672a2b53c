-- ===== src/System/Tests.antt =====
-- A swap and a transfer from outside on the sample pool, and an example of each theorem on worlds.
use raydium_cp_swap.Base.{◌≡◌, refl, ap, ok, ◌>>=◌, arith}
use raydium_cp_swap.States.Sample.{pool, config, ring}
use raydium_cp_swap.Token.Sample
use raydium_cp_swap.Token.Sample.{Bank, sample, sample-IsTokenProgram}
use raydium_cp_swap.Instructions.Sample.{chain, bank, swap_accounts}
use raydium_cp_swap.Instructions.Swap.{SwapOutcome}
use raydium_cp_swap.Instructions.Tests.{swapped, input_swapped}
use raydium_cp_swap.System.{World, Instruction, after_swap, execute}
use raydium_cp_swap.System.Amm.{KeepsWorth}
use raydium_cp_swap.System.Sound.{IsSound, IsOutside, view}
use raydium_cp_swap.System.Refine.{Refines}
use raydium_cp_swap.System.Execute.{execute-Refines}
use raydium_cp_swap.System.History.{IsOutsideStep, Step, Reach, Reach-IsSound, Reach-KeepsWorth}

abbrev world : World Bank
world = record { pool = pool; config = config; ring = ring; bank = bank }

world-IsSound : IsSound sample world
world-IsSound = record {
  solvent = (omega arith, omega arith);
  counted = omega arith;
  backed = omega arith;
  rates = record { charged = omega arith; shared = omega arith };
  ring = record { slots = refl; in_range = omega arith };
  two_vaults = λ q. omega arith;
}

users-IsOutside : IsOutside sample world 31 × IsOutside sample world 32
users-IsOutside = ((λ q. omega arith, λ q. omega arith), (λ q. omega arith, λ q. omega arith))

abbrev traded : World Bank
traded = after_swap sample world swapped

swap_executed :
    execute sample chain (Instruction.swap_base_input swap_accounts 100_000 89_000) world
    ≡ ok traded
unfolding execute
swap_executed =
    ap (λ m. m >>= (λ (o : SwapOutcome Bank). ok (after_swap sample world o))) input_swapped

execute-Refines_example : Refines sample world traded
execute-Refines_example =
    execute-Refines sample chain (sample-IsTokenProgram 4)
      (Instruction.swap_base_input swap_accounts 100_000 89_000) world world-IsSound users-IsOutside
      swap_executed

-- Then somebody sends 10 tokens to the first vault.
abbrev gift : Bank
gift = record traded.bank { balances = Sample.set traded.bank.balances 11 1_100_100 }

abbrev gifted : World Bank
gifted = record traded { bank = gift }

gift-IsOutsideStep : IsOutsideStep sample traded gift
gift-IsOutsideStep = record { kept_0 = omega arith; kept_1 = omega arith; none_made = omega arith }

world-Reach : Reach sample world gifted
world-Reach =
    Reach.later
      (Reach.later Reach.start (
        Step.call chain (Instruction.swap_base_input swap_accounts 100_000 89_000) users-IsOutside
          swap_executed))
      (Step.outside gift gift-IsOutsideStep refl)

Reach-IsSound_example : IsSound sample gifted
Reach-IsSound_example = Reach-IsSound sample sample-IsTokenProgram world-IsSound world-Reach

Reach-KeepsWorth_example : KeepsWorth (view sample world) (view sample gifted)
Reach-KeepsWorth_example = Reach-KeepsWorth sample sample-IsTokenProgram world-IsSound world-Reach
