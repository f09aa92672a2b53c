-- ===== src/Accounts.antt =====
-- programs/cp-swap/src/utils/account_load.rs: accounts whose bytes are read as a zero-copy struct.
-- No other borrow of the data is open, so that `try_borrow_data` succeeds.
pub mod Loading
mod Tests
use raydium_cp_swap.Base.{
  ℕ, ◌+◌, ◌-◌, Bool, List, ◌++◌, Result, ok, err, panic, require, assert, ◌>>=◌, ◌>>◌, ◌==◌, leb,
  not,
}
use raydium_cp_swap.Base.Lists.{length}
use raydium_cp_swap.Base.Slices.{take, drop, same_bytes, from_le_bytes}
use raydium_cp_swap.Error.{Error}

-- What is used of `AccountInfo`
pub record AccountInfo : Type 0 where
  pub key : ℕ
  pub owner : ℕ
  pub is_writable : Bool
  -- its data
  pub bytes : List ℕ

-- What is used of a type `T: ZeroCopy + Owner`: `T::owner()`, `T::DISCRIMINATOR`, `mem::size_of`, and
-- how bytemuck reads bytes as a `T`. A write through `&mut T` changes the bytes to those of the value.
pub record ZeroCopy (T : Type 0) : Type 0 where
  pub owner : ℕ
  pub discriminator : List ℕ
  pub size_of : ℕ
  pub from_bytes : List ℕ → T
  pub to_bytes : T → List ℕ

module _ {T : Type 0} (zc : ZeroCopy T) where
  -- `&data[8..mem::size_of::<T>() + 8]`
  unfoldable pub view_bytes : List ℕ → Result Error T
  view_bytes bytes = do
    assert (leb (zc.size_of + 8) (length bytes))
    ok (zc.from_bytes (take zc.size_of (drop 8 bytes)))

  -- The test of the discriminator that all but `load_init` make; `array_ref![data, 0, 8]` panics on
  -- fewer than 8 bytes.
  unfoldable pub check_discriminator : List ℕ → Result Error (Unit {0})
  check_discriminator bytes = do
    require (leb (length zc.discriminator) (length bytes)) Error.account_discriminator_not_found
    assert (leb 8 (length bytes))
    require (same_bytes (take 8 bytes) zc.discriminator) Error.account_discriminator_mismatch

  unfoldable pub check_owner : AccountInfo → Result Error (Unit {0})
  check_owner acc_info = require (acc_info.owner == zc.owner) Error.account_owned_by_wrong_program

  unfoldable pub try_from : AccountInfo → Result Error AccountInfo
  unfolding check_owner
  try_from acc_info = do check_owner acc_info; check_discriminator acc_info.bytes; ok acc_info

  unfoldable pub try_from_unchecked : AccountInfo → Result Error AccountInfo
  unfolding check_owner
  try_from_unchecked acc_info = do check_owner acc_info; ok acc_info

  -- The account with its discriminator, and what its bytes are read as.
  unfoldable pub load_init : AccountInfo → Result Error (AccountInfo × T)
  load_init acc_info = do
    require acc_info.is_writable Error.account_not_mutable
    assert (leb 8 (length acc_info.bytes))
    require (from_le_bytes (take 8 acc_info.bytes) == 0) Error.account_discriminator_already_set
    let written = zc.discriminator ++ drop 8 acc_info.bytes
    state ← view_bytes written
    ok (record acc_info { bytes = written }, state)

  unfoldable pub load : AccountInfo → Result Error T
  load acc_info = do check_discriminator acc_info.bytes; view_bytes acc_info.bytes

  unfoldable pub load_mut : AccountInfo → Result Error T
  load_mut acc_info = do
    require acc_info.is_writable Error.account_not_mutable
    check_discriminator acc_info.bytes
    view_bytes acc_info.bytes

  unfoldable pub load_data_mut : AccountInfo → Result Error T
  unfolding check_owner
  load_data_mut acc_info = do
    check_owner acc_info
    require acc_info.is_writable Error.account_not_mutable
    check_discriminator acc_info.bytes
    view_bytes acc_info.bytes

  -- `*r = state` for the `RefMut` that a load has returned.
  unfoldable pub write_state : AccountInfo → T → AccountInfo
  write_state acc_info state = record acc_info {
    bytes = take 8 acc_info.bytes ++ (zc.to_bytes state ++ drop (zc.size_of + 8) acc_info.bytes);
  }
