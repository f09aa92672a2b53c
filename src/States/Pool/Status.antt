-- ===== src/States/Pool/Status.antt =====
-- The status bits of pool.rs.
use Prim.Native.Nat.{bit_and, bit_or, bit_xor}
use raydium_cp_swap.Base.{
  ℕ, zero, suc, ◌<◌, ◌≡◌, refl, Bool, true, false, ◌&&◌, arith, ltb, ◌==◌, if◌then◌else◌,
}
use raydium_cp_swap.States.Pool.{
  PoolState, PoolStatusBitIndex, PoolStatusBitFlag, status_bit, set_status_by_bit,
  get_status_by_bit,
}

abbrev bool_eq : Bool → Bool → Bool
bool_eq true b = b
bool_eq false true = false
bool_eq false false = true

bool_eq→≡ : (a b : Bool) → bool_eq a b ≡ true → a ≡ b
bool_eq→≡ true b h = ground arith
bool_eq→≡ false true h = cc
bool_eq→≡ false false h = refl

both_true : (a b : Bool) → (a && b) ≡ true → (a ≡ true) × (b ≡ true)
both_true true b h = ground arith
both_true false b h = ground arith

ltb→lt : (a b : ℕ) → ltb a b ≡ true → a < b
ltb→lt a b h = ground arith

-- A test that every number under a bound passes, run number by number.
passes : (ℕ → Bool) → ℕ → Bool
passes test zero = true
passes test (suc bound) = if test bound then passes test bound else false

passes_at :
    (test : ℕ → Bool) (bound : ℕ) {s : ℕ} → s < bound → passes test bound ≡ true → test s ≡ true
unfolding passes
passes_at test zero {s} lt e = absurd (omega arith)
passes_at test (suc bound) {s} lt e = ground (arith, passes_at test bound {s = s})

abbrev pub same_bit : PoolStatusBitIndex → PoolStatusBitIndex → Bool
same_bit a b = status_bit a == status_bit b

abbrev pub is_enable : PoolStatusBitFlag → Bool
is_enable PoolStatusBitFlag.enable = true
is_enable PoolStatusBitFlag.disable = false

-- The two methods on the byte alone.
set_byte : ℕ → PoolStatusBitIndex → PoolStatusBitFlag → ℕ
set_byte s bit PoolStatusBitFlag.disable = bit_or s (status_bit bit)
set_byte s bit PoolStatusBitFlag.enable = bit_and s (bit_xor 255 (status_bit bit))

get_byte : ℕ → PoolStatusBitIndex → Bool
get_byte s bit = bit_and s (status_bit bit) == 0

check : PoolStatusBitIndex → PoolStatusBitFlag → PoolStatusBitIndex → ℕ → Bool
check b f c s =
    ltb (set_byte s b f) 256
    && bool_eq (get_byte (set_byte s b f) c) (if same_bit b c then is_enable f else get_byte s c)

check_table :
    (b : PoolStatusBitIndex) (f : PoolStatusBitFlag) (c : PoolStatusBitIndex)
    → passes (check b f c) 256 ≡ true
unfolding passes check set_byte get_byte
check_table PoolStatusBitIndex.deposit PoolStatusBitFlag.enable PoolStatusBitIndex.deposit = refl
check_table PoolStatusBitIndex.deposit PoolStatusBitFlag.enable PoolStatusBitIndex.withdraw = refl
check_table PoolStatusBitIndex.deposit PoolStatusBitFlag.enable PoolStatusBitIndex.swap = refl
check_table PoolStatusBitIndex.deposit PoolStatusBitFlag.disable PoolStatusBitIndex.deposit = refl
check_table PoolStatusBitIndex.deposit PoolStatusBitFlag.disable PoolStatusBitIndex.withdraw = refl
check_table PoolStatusBitIndex.deposit PoolStatusBitFlag.disable PoolStatusBitIndex.swap = refl
check_table PoolStatusBitIndex.withdraw PoolStatusBitFlag.enable PoolStatusBitIndex.deposit = refl
check_table PoolStatusBitIndex.withdraw PoolStatusBitFlag.enable PoolStatusBitIndex.withdraw = refl
check_table PoolStatusBitIndex.withdraw PoolStatusBitFlag.enable PoolStatusBitIndex.swap = refl
check_table PoolStatusBitIndex.withdraw PoolStatusBitFlag.disable PoolStatusBitIndex.deposit = refl
check_table PoolStatusBitIndex.withdraw PoolStatusBitFlag.disable PoolStatusBitIndex.withdraw = refl
check_table PoolStatusBitIndex.withdraw PoolStatusBitFlag.disable PoolStatusBitIndex.swap = refl
check_table PoolStatusBitIndex.swap PoolStatusBitFlag.enable PoolStatusBitIndex.deposit = refl
check_table PoolStatusBitIndex.swap PoolStatusBitFlag.enable PoolStatusBitIndex.withdraw = refl
check_table PoolStatusBitIndex.swap PoolStatusBitFlag.enable PoolStatusBitIndex.swap = refl
check_table PoolStatusBitIndex.swap PoolStatusBitFlag.disable PoolStatusBitIndex.deposit = refl
check_table PoolStatusBitIndex.swap PoolStatusBitFlag.disable PoolStatusBitIndex.withdraw = refl
check_table PoolStatusBitIndex.swap PoolStatusBitFlag.disable PoolStatusBitIndex.swap = refl

byte_lem :
    (b : PoolStatusBitIndex) (f : PoolStatusBitFlag) (c : PoolStatusBitIndex) (s : ℕ)
    → s < 256
    → (set_byte s b f < 256)
      × (get_byte (set_byte s b f) c ≡ (if same_bit b c then is_enable f else get_byte s c))
unfolding check
byte_lem b f c s h =
    let checked = passes_at (check b f c) 256 h (check_table b f c) in
    let (left, right) = both_true _ _ checked in
    (ltb→lt (set_byte s b f) 256 left, bool_eq→≡ _ _ right)

-- Setting one status bit of a byte gives a byte in which that bit reads as it was set (enabled is
-- `true`), and each other bit reads as before.
pub get-set_status_by_bit :
    (p : PoolState) (b : PoolStatusBitIndex) (f : PoolStatusBitFlag) (c : PoolStatusBitIndex)
    → p.status < 256
    → ((set_status_by_bit p b f).status < 256)
      × (get_status_by_bit (set_status_by_bit p b f) c
          ≡ (if same_bit b c then is_enable f else get_status_by_bit p c))
unfolding set_status_by_bit get_status_by_bit set_byte get_byte
get-set_status_by_bit p b PoolStatusBitFlag.enable c h =
    byte_lem b PoolStatusBitFlag.enable c p.status h
get-set_status_by_bit p b PoolStatusBitFlag.disable c h =
    byte_lem b PoolStatusBitFlag.disable c p.status h
