-- ===== src/Accounts/Tests.antt =====
-- An account of a type that takes one byte, and an example of the theorem on loading.
use raydium_cp_swap.Base.{ℕ, ◌≡◌, ◌==◌, refl, Bool, true, false, List, [], ◌∷◌, ok, err, arith}
use raydium_cp_swap.Base.Lists.{length}
use raydium_cp_swap.Base.Slices.{take, drop, same_bytes, from_le_bytes}
use raydium_cp_swap.Error.{Error}
use raydium_cp_swap.Accounts.{
  AccountInfo, ZeroCopy, view_bytes, check_discriminator, check_owner, try_from, try_from_unchecked,
  load_init, load, load_mut, load_data_mut, write_state,
}
use raydium_cp_swap.Accounts.Loading.{IsZeroCopy, load-load_init}

abbrev read_flag : List ℕ → Bool
read_flag (b ∷ bytes) = b == 1
read_flag [] = false

abbrev flag_bytes : Bool → List ℕ
flag_bytes true = 1 ∷ []
flag_bytes false = 0 ∷ []

abbrev flag : ZeroCopy Bool
flag = record {
  owner = 9;
  discriminator = 247 ∷ 237 ∷ 227 ∷ 245 ∷ 215 ∷ 195 ∷ 222 ∷ 70 ∷ [];
  size_of = 1;
  from_bytes = read_flag;
  to_bytes = flag_bytes;
}

flag-IsZeroCopy : IsZeroCopy flag
unfolding from_le_bytes
flag-IsZeroCopy = record { eight = refl; not_zero = λ q. omega arith; size = size; same = same }
  where
    size : (b : Bool) → length (flag_bytes b) ≡ 1
    size true = refl
    size false = refl

    same : (b : Bool) → read_flag (flag_bytes b) ≡ b
    same true = refl
    same false = refl

abbrev fresh : AccountInfo
fresh = record {
  key = 4;
  owner = 9;
  is_writable = true;
  bytes = 0 ∷ 0 ∷ 0 ∷ 0 ∷ 0 ∷ 0 ∷ 0 ∷ 0 ∷ 0 ∷ 7 ∷ [];
}

abbrev begun : AccountInfo
begun = record fresh { bytes = 247 ∷ 237 ∷ 227 ∷ 245 ∷ 215 ∷ 195 ∷ 222 ∷ 70 ∷ 0 ∷ 7 ∷ [] }

setting_up : load_init flag fresh ≡ ok (begun, false)
unfolding load_init view_bytes take drop from_le_bytes
setting_up = refl

wrong_owner :
    try_from_unchecked flag (record fresh { owner = 8 }) ≡ err Error.account_owned_by_wrong_program
unfolding try_from_unchecked check_owner
wrong_owner = refl

not_begun : load flag fresh ≡ err Error.account_discriminator_mismatch
unfolding load check_discriminator take same_bytes
not_begun = refl

load-load_init_example :
    (try_from flag (write_state flag begun true) ≡ ok (write_state flag begun true))
    × (load flag (write_state flag begun true) ≡ ok true)
    × (load_mut flag (write_state flag begun true) ≡ ok true)
    × (load_data_mut flag (write_state flag begun true) ≡ ok true)
    × (load_init flag (write_state flag begun true) ≡ err Error.account_discriminator_already_set)
load-load_init_example = load-load_init flag flag-IsZeroCopy fresh true refl setting_up
