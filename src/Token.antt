-- ===== src/Token.antt =====
-- programs/cp-swap/src/utils/token.rs: transfers, minting and burning through the token programs,
-- and the transfer fees of Token-2022 mints.
pub mod Live
pub mod StrictSample
pub mod Interface
pub mod Transfers
pub mod Sample
pub mod SampleRuntime
pub mod Runtime
pub mod Create
pub mod Creation
pub mod Supported
use raydium_cp_swap.Base.{
  ℕ, Bool, true, false, not, Option, some, none, Result, ok, err, unwrap, require, ◌>>=◌, ◌>>◌,
  ◌==◌, if◌then◌else◌,
}
use raydium_cp_swap.Base.Words.{u64_max, checked_add}
use raydium_cp_swap.Error.{Error, ErrorCode}
use Interface.{Spl, Mint, Transfer, MintTo, Burn, TransferFee}

module _ (spl : Spl) where
  open spl use {
    MintData, FeeConfig, Bank, token_id, fee_config, get_epoch_fee, calculate_epoch_fee,
    calculate_inverse_epoch_fee, transfer_checked, mint_to, burn,
  }

  unfoldable pub transfer_from_user_to_pool_vault : ℕ → Transfer MintData → Bank → Result Error Bank
  transfer_from_user_to_pool_vault epoch transfer bank =
      if transfer.amount == 0 then ok bank else transfer_checked epoch transfer bank

  unfoldable pub transfer_from_pool_vault_to_user : ℕ → Transfer MintData → Bank → Result Error Bank
  transfer_from_pool_vault_to_user epoch transfer bank =
      if transfer.amount == 0 then ok bank else transfer_checked epoch transfer bank

  unfoldable pub token_mint_to : MintTo → Bank → Result Error Bank
  token_mint_to request bank = mint_to request bank

  unfoldable pub token_burn : Burn → Bank → Result Error Bank
  token_burn request bank = burn request bank

  -- The fee that is neither 0 nor the maximum, checked against the fee on the whole amount.
  unfoldable pub checked_inverse_fee : ℕ → FeeConfig → ℕ → Result Error ℕ
  checked_inverse_fee epoch config post_fee_amount = do
    transfer_fee ← unwrap (calculate_inverse_epoch_fee config epoch post_fee_amount)
    whole ← unwrap (checked_add u64_max post_fee_amount transfer_fee)
    transfer_fee_for_check ← unwrap (calculate_epoch_fee config epoch whole)
    require (transfer_fee == transfer_fee_for_check)
        (Error.code ErrorCode.transfer_fee_calculate_not_match)
    ok transfer_fee

  -- `if let Ok(transfer_fee_config) = mint.get_extension::<TransferFeeConfig>()`
  unfoldable pub inverse_fee_of : ℕ → Option FeeConfig → ℕ → Result Error ℕ
  inverse_fee_of epoch (some config) post_fee_amount =
      if (get_epoch_fee config epoch).transfer_fee_basis_points == spl.max_fee_basis_points
      then ok (get_epoch_fee config epoch).maximum_fee
      else checked_inverse_fee epoch config post_fee_amount
  inverse_fee_of epoch none post_fee_amount = ok 0

  unfoldable pub get_transfer_inverse_fee : ℕ → Mint MintData → ℕ → Result Error ℕ
  get_transfer_inverse_fee epoch mint post_fee_amount = if mint.owner == token_id then ok 0 else (do
    require (not (post_fee_amount == 0)) (Error.code ErrorCode.invalid_input)
    config ← fee_config mint.content
    inverse_fee_of epoch config post_fee_amount)

  unfoldable pub fee_of : ℕ → Option FeeConfig → ℕ → Result Error ℕ
  fee_of epoch (some config) pre_fee_amount =
      unwrap (calculate_epoch_fee config epoch pre_fee_amount)
  fee_of epoch none pre_fee_amount = ok 0

  unfoldable pub get_transfer_fee : ℕ → Mint MintData → ℕ → Result Error ℕ
  get_transfer_fee epoch mint pre_fee_amount =
      if mint.owner == token_id
      then ok 0
      else (do config ← fee_config mint.content; fee_of epoch config pre_fee_amount)
