-- ===== src/Token/SampleRuntime.antt =====
-- A runtime over the sample token program: a mint that is set up has no supply, every account is made
-- without lamports, and an account that was made for a program is marked under an address of its own.
use raydium_cp_swap.Base.{
  ℕ, zero, suc, ◌+◌, ◌*◌, ◌/◌, ◌≤◌, ◌<◌, sym, ap, true, List, [], ◌∷◌, ok, leb, ◌==◌, if◌then◌else◌,
  Bool-cases, inl, inr, ok_injective, arith,
}
use raydium_cp_swap.Base.Lists.{replicate}
use raydium_cp_swap.Accounts.{AccountInfo}
use raydium_cp_swap.States.Sample.{pool}
use raydium_cp_swap.States.Oracle.{default_state}
use raydium_cp_swap.States.Support.{Seed}
use raydium_cp_swap.Token.Sample.{Bank, sample, set, set_at}
use raydium_cp_swap.Token.Runtime.{Runtime}
use raydium_cp_swap.Token.Creation.{IsRuntime}

-- The square root of a number below a power of four, digit by digit.
abbrev digits_root : ℕ → ℕ → ℕ
digits_root zero n = 0
digits_root (suc k) n =
    let r = 2 * digits_root k (n / 4) in if leb ((r + 1) * (r + 1)) n then r + 1 else r

abbrev power_of_4 : ℕ → ℕ
power_of_4 zero = 1
power_of_4 (suc k) = 4 * power_of_4 k

digits_root_lem :
    (k n : ℕ)
    → n < power_of_4 k
    → (digits_root k n * digits_root k n ≤ n) × (n < (digits_root k n + 1) * (digits_root k n + 1))
digits_root_lem zero n h = (omega arith, omega arith)
digits_root_lem (suc k) n h =
    let s = digits_root k (n / 4) in
    let (low, high) = digits_root_lem k (n / 4) (omega arith) in
    elim (Bool-cases (leb ((2 * s + 1) * (2 * s + 1)) n)) [
      | inl more ↦ rw more (ground arith, omega arith)
      | inr less ↦ rw less (omega arith, ground arith)
    ]

-- One address for each kind, and for each mint that a vault is of.
abbrev pub derive : List Seed → ℕ
derive (Seed.auth_seed ∷ []) = 90
derive (Seed.pool_vault_seed ∷ Seed.key p ∷ Seed.key m ∷ []) = 1_000 + m
derive (Seed.pool_lp_mint_seed ∷ Seed.key p ∷ []) = 13
derive (Seed.observation_seed ∷ Seed.key p ∷ []) = 6
derive (Seed.permission_seed ∷ Seed.key p ∷ []) = 2_000 + p
derive (Seed.support_mint_seed ∷ Seed.key m ∷ []) = 3_000 + m
derive _ = 4

abbrev pub mark : ℕ → ℕ
mark k = 10_000 + k

abbrev pub account_of : Bank → ℕ → AccountInfo
account_of bank k = record {
  key = k;
  owner = if bank.balances (mark k) == 0 then 8 else 9;
  is_writable = true;
  bytes = replicate 637 0;
}

abbrev pub runtime : Runtime sample
runtime = record {
  program_id = 9;
  system_id = 8;
  token_2022_id = 2;
  token_account_len = 165;
  extension_type = record {
    transfer_fee_config = 1;
    metadata_pointer = 18;
    token_metadata = 19;
    interest_bearing_config = 10;
    scaled_ui_amount = 25;
  };
  find_program_address = λ seeds. (derive seeds, 254);
  account = account_of;
  lamports = λ b k. 0;
  minimum_balance = λ space. 890_880 + 6_960 * space;
  create_account = λ from to lamports space owner seeds b.
      ok (record b { balances = set b.balances (mark to) 1 });
  transfer = λ from to lamports b. ok b;
  allocate = λ k space seeds b. ok b;
  assign = λ k owner seeds b. ok b;
  initialize_account3 = λ program k mint authority b. ok b;
  sync_native = λ program k b. ok b;
  unpack_amount = λ b k. ok (b.balances k);
  get_extension_types = λ m. ok (1 ∷ []);
  get_required_init_account_extensions = λ types. types;
  try_calculate_account_len = λ types. ok 182;
  init_mint = λ m decimals authority payer b. ok (record b { supplies = set b.supplies m 0 });
  init_associated_token = λ k mint owner b. ok b;
  init_account = λ k payer b. ok b;
  load_init_observation = λ b k. ok default_state;
  deserialize_support = λ bytes. ok (record { bump = 255; mint = 0 });
  pool_layout = record {
    owner = 9;
    discriminator = 247 ∷ 237 ∷ 227 ∷ 245 ∷ 215 ∷ 195 ∷ 222 ∷ 70 ∷ [];
    size_of = 629;
    from_bytes = λ bytes. pool;
    to_bytes = λ state. replicate 629 0;
  };
  integer_sqrt = digits_root 64;
}

pub runtime-IsRuntime : IsRuntime sample runtime
runtime-IsRuntime = record {
  create_account =
      λ from to lamports space owner seeds b b' h m. ap (λ x. x.supplies m) (sym (ok_injective h));
  transfer = λ from to lamports b b' h. (
    λ m. ap (λ x. x.supplies m) (sym (ok_injective h)),
    λ k. ap (λ x. x.balances k) (sym (ok_injective h)),
  );
  allocate = λ k space seeds b b' h m. ap (λ x. x.supplies m) (sym (ok_injective h));
  assign = λ k owner seeds b b' h m. ap (λ x. x.supplies m) (sym (ok_injective h));
  initialize_account3 =
      λ program k mint authority b b' h m. ap (λ x. x.supplies m) (sym (ok_injective h));
  sync_native = λ program at b b' h. (
    λ m. ap (λ x. x.supplies m) (sym (ok_injective h)),
    λ k off. ap (λ x. x.balances k) (sym (ok_injective h)),
  );
  unpack_amount = λ b k n h. ok_injective h;
  init_mint = λ m decimals authority payer b b' h. rw (← ok_injective h) (set_at b.supplies m 0);
  init_associated_token = λ k mint owner b b' h m. ap (λ x. x.supplies m) (sym (ok_injective h));
  init_account = λ k payer b b' h m. ap (λ x. x.supplies m) (sym (ok_injective h));
  load_init_observation = λ b k s h. sym (ok_injective h);
  integer_sqrt = λ n h. digits_root_lem 64 n (omega arith);
  find_program_address = λ p a b ne q. ne (omega arith);
}
