-- ===== src/System/History.antt =====
-- Everything that can happen to a pool: a successful call of the program, by anyone and in any order,
-- or what others do with the token program in between (transfers into the vaults, burning of pool
-- tokens). The vaults are owned by the program's authority and it alone mints pool tokens, so that
-- outside of a call no vault loses tokens and no pool tokens are made.
use raydium_cp_swap.Base.{ℕ, ◌≤◌, ◌≡◌, refl, ok, arith}
use raydium_cp_swap.Base.Division.{mul_mono}
use raydium_cp_swap.Token.Interface.{Spl}
use raydium_cp_swap.Token.Transfers.{IsTokenProgram}
use raydium_cp_swap.Instructions.Context.{Chain}
use raydium_cp_swap.System.{World, Instruction, execute}
use raydium_cp_swap.System.Amm.{Move, KeepsWorth, KeepsWorth-trans, Move-KeepsWorth}
use raydium_cp_swap.System.Sound.{IsSound, IsApart, view}
use raydium_cp_swap.System.Refine.{Refines, IsSound-shares, refines}
use raydium_cp_swap.System.Execute.{execute-Refines}

module _ (spl : Spl) where
  open spl use {MintData, Bank, balance, supply}

  pub record IsOutsideStep (w : World Bank) (bank : Bank) : Type 0 where
    pub kept_0 : balance w.bank w.pool.token_0_vault ≤ balance bank w.pool.token_0_vault
    pub kept_1 : balance w.bank w.pool.token_1_vault ≤ balance bank w.pool.token_1_vault
    pub none_made : supply bank w.pool.lp_mint ≤ supply w.bank w.pool.lp_mint

  pub data Step (w u : World Bank) : Type 0 where
    call :
        (chain : Chain) (i : Instruction MintData)
        → IsApart spl w i
        → execute spl chain i w ≡ ok u
        → Step w u
    outside : (bank : Bank) → IsOutsideStep w bank → u ≡ record w { bank = bank } → Step w u

  pub data Reach (w : World Bank) : World Bank → Type 0 where
    start : Reach w w
    later : {m u : World Bank} → Reach w m → Step m u → Reach w u

module _ (spl : Spl) (laws : (epoch : ℕ) → IsTokenProgram spl epoch) where
  open spl use {MintData, Bank, balance}

  outside-Refines :
      (w : World Bank) (bank : Bank)
      → IsSound spl w
      → IsOutsideStep spl w bank
      → Refines spl w (record w { bank = bank })
  outside-Refines w bank s step =
      let k0 = step.kept_0 in
      let k1 = step.kept_1 in
      let made = step.none_made in
      let solvent = s.solvent in
      refines spl w (record w { bank = bank }) s (refl, refl, refl) (omega arith, omega arith)
        (omega (arith, s.counted)) s.rates s.ring
        (Move.trade refl (mul_mono _ _ _ _ (omega arith) (omega arith)))

  Step-Refines : {w u : World Bank} → IsSound spl w → Step spl w u → Refines spl w u
  Step-Refines {w} s (call chain i apart h) =
      execute-Refines spl chain (laws chain.epoch) i w s apart h
  Step-Refines {w} s (outside bank step e) = rw e (outside-Refines w bank s step)

  -- Whatever sequence of successful calls (by anyone, the user's accounts apart from the vaults),
  -- transfers into the vaults and burning of pool tokens follows on a sound world, the world that
  -- it ends in is sound: the vaults cover all fees owed, the pool tokens minted and the 100 locked ones are
  -- counted in the supply of the pool, the square of that supply is at most the product of the
  -- reserves, the fee rates are within their bounds, and the observation ring is valid.
  pub Reach-IsSound : {w u : World Bank} → IsSound spl w → Reach spl w u → IsSound spl u
  Reach-IsSound s start = s
  Reach-IsSound s (later run step) = (Step-Refines (Reach-IsSound s run) step).sound

  -- Whatever sequence of successful calls (by anyone, the user's accounts apart from the vaults),
  -- transfers into the vaults and burning of pool tokens follows on a sound world, what a pool token
  -- is worth, the geometric mean of both reserves per token of the counted supply, does not fall: the
  -- product of the reserves over the square of the supply is at the end at least what it was at the
  -- beginning.
  pub Reach-KeepsWorth :
      {w u : World Bank} → IsSound spl w → Reach spl w u → KeepsWorth (view spl w) (view spl u)
  Reach-KeepsWorth s start = omega arith
  Reach-KeepsWorth {w} {u} s (later {m} run step) =
      let between = Reach-IsSound s run in
      KeepsWorth-trans (view spl w) (view spl m) (view spl u) (IsSound-shares spl m between)
        (Reach-KeepsWorth s run) (Move-KeepsWorth (Step-Refines between step).move)
