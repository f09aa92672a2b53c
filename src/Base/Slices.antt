-- ===== src/Base/Slices.antt =====
-- Slices of byte lists, and the little-endian number that a list of bytes is.
use raydium_cp_swap.Base.Tests.{◌==◌, if◌then◌else◌}
use raydium_cp_swap.Base.Lists.{length}
use Prim.Native.Nat.{ℕ, zero, suc, ◌+◌, ◌-◌, ◌*◌}
use mathlib.Core.Path.{◌≡◌, refl, ap}
use mathlib.Core.Bool.{Bool, true, false}
use mathlib.Core.List.{List, [], ◌∷◌, ◌++◌}
use native.Mathlib.Omega.{arith}

-- `xs[..n]` and `xs[n..]` of a list that is long enough
unfoldable pub take {ℓ} : {A : Type ℓ} → ℕ → List A → List A
take zero xs = []
take (suc n) [] = []
take (suc n) (x ∷ xs) = x ∷ take n xs

unfoldable pub drop {ℓ} : {A : Type ℓ} → ℕ → List A → List A
drop zero xs = xs
drop (suc n) [] = []
drop (suc n) (x ∷ xs) = drop n xs

-- `a == b` on byte slices
unfoldable pub same_bytes : List ℕ → List ℕ → Bool
same_bytes [] [] = true
same_bytes [] (y ∷ ys) = false
same_bytes (x ∷ xs) [] = false
same_bytes (x ∷ xs) (y ∷ ys) = if x == y then same_bytes xs ys else false

-- `u64::from_le_bytes`
unfoldable pub from_le_bytes : List ℕ → ℕ
from_le_bytes [] = 0
from_le_bytes (b ∷ bs) = b + 256 * from_le_bytes bs

pub take-++ {ℓ} : {A : Type ℓ} (n : ℕ) (xs ys : List A) → length xs ≡ n → take n (xs ++ ys) ≡ xs
unfolding take
take-++ zero [] ys h = refl
take-++ (suc n) [] ys h = absurd (omega (arith, h))
take-++ zero (x ∷ xs) ys h = absurd (omega (arith, h))
take-++ (suc n) (x ∷ xs) ys h = ap (λ zs. x ∷ zs) (take-++ n xs ys (omega (arith, h)))

pub drop-++ {ℓ} : {A : Type ℓ} (n : ℕ) (xs ys : List A) → length xs ≡ n → drop n (xs ++ ys) ≡ ys
unfolding drop
drop-++ zero [] ys h = refl
drop-++ (suc n) [] ys h = absurd (omega (arith, h))
drop-++ zero (x ∷ xs) ys h = absurd (omega (arith, h))
drop-++ (suc n) (x ∷ xs) ys h = drop-++ n xs ys (omega (arith, h))

pub length-++ {ℓ} : {A : Type ℓ} (xs ys : List A) → length (xs ++ ys) ≡ length xs + length ys
length-++ [] ys = omega arith
length-++ (x ∷ xs) ys = let rest = length-++ xs ys in omega arith

pub length-drop {ℓ} : {A : Type ℓ} (n : ℕ) (xs : List A) → length (drop n xs) ≡ length xs - n
unfolding drop
length-drop zero xs = omega arith
length-drop (suc n) [] = omega arith
length-drop (suc n) (x ∷ xs) = let rest = length-drop n xs in omega arith

pub same_bytes_self : (xs : List ℕ) → same_bytes xs xs ≡ true
unfolding same_bytes
same_bytes_self [] = refl
same_bytes_self (x ∷ xs) = let rest = same_bytes_self xs in ground arith
