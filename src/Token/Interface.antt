-- ===== src/Token/Interface.antt =====
-- What the program uses of the token programs (spl_token, spl_token_2022): the accounts they keep,
-- the calls, and the transfer fee of a mint. None of it stands in this repository.
use raydium_cp_swap.Base.{ℕ, Option, Result, Maybe}
use raydium_cp_swap.Error.{Error}

-- A mint account: its address, the program that owns it, its decimals, and its packed data.
pub record Mint (MintData : Type 0) : Type 0 where
  pub key : ℕ
  pub owner : ℕ
  pub decimals : ℕ
  pub content : MintData

-- `TokenAccount` as it was loaded when the instruction began.
pub record TokenAccount : Type 0 where
  pub key : ℕ
  pub mint : ℕ
  pub owner : ℕ
  pub amount : ℕ

-- `TransferFee` of spl_token_2022
pub record TransferFee : Type 0 where
  pub transfer_fee_basis_points : ℕ
  pub maximum_fee : ℕ

-- The arguments of `transfer_checked`; `signer` is the bump of the pool authority where it signs.
pub record Transfer (MintData : Type 0) : Type 0 where
  pub program : ℕ
  pub from : ℕ
  pub to : ℕ
  pub authority : ℕ
  pub mint : Mint MintData
  pub amount : ℕ
  pub decimals : ℕ
  pub signer : Option ℕ

pub record MintTo : Type 0 where
  pub program : ℕ
  pub mint : ℕ
  pub to : ℕ
  pub authority : ℕ
  pub amount : ℕ
  pub signer : ℕ

pub record Burn : Type 0 where
  pub program : ℕ
  pub mint : ℕ
  pub from : ℕ
  pub authority : ℕ
  pub amount : ℕ
  pub signer : ℕ

pub record Spl : Type 1 where
  -- a mint's packed data, and its transfer fee extension
  pub MintData : Type 0
  pub FeeConfig : Type 0
  -- the token accounts and the mints of the chain
  pub Bank : Type 0
  pub balance : Bank → ℕ → ℕ
  pub supply : Bank → ℕ → ℕ
  -- `Token::id()`
  pub token_id : ℕ
  -- `MAX_FEE_BASIS_POINTS`
  pub max_fee_basis_points : ℕ
  -- `StateWithExtensions::<Mint>::unpack`, and then `get_extension::<TransferFeeConfig>().ok()`
  pub fee_config : MintData → Result Error (Option FeeConfig)
  pub get_epoch_fee : FeeConfig → ℕ → TransferFee
  pub calculate_epoch_fee : FeeConfig → ℕ → ℕ → Maybe ℕ
  pub calculate_inverse_epoch_fee : FeeConfig → ℕ → ℕ → Maybe ℕ
  -- the calls, the first one in an epoch
  pub transfer_checked : ℕ → Transfer MintData → Bank → Result Error Bank
  pub mint_to : MintTo → Bank → Result Error Bank
  pub burn : Burn → Bank → Result Error Bank
