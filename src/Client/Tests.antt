-- ===== src/Client/Tests.antt =====
-- The client's quotes for the sample swaps, and an example of each theorem on them.
use raydium_cp_swap.Base.{◌+◌, ◌-◌, ◌≡◌, refl, Option, some, none, ok, arith}
use raydium_cp_swap.Curve.Calculator.{TradeDirection}
use raydium_cp_swap.Token.Interface.{TransferFee}
use raydium_cp_swap.Token.Sample.{sample}
use raydium_cp_swap.Instructions.Sample.{chain, bank, swap_accounts}
use raydium_cp_swap.Instructions.Tests.{input_swapped, output_swapped}
use raydium_cp_swap.Client.{quote_swap_base_in, quote_swap_base_out}
use raydium_cp_swap.Client.Agree.{
  seen, IsSeen, quote_swap_base_in-agrees, quote_swap_base_out-agrees,
}

abbrev one_percent : Option TransferFee
one_percent = some (record { transfer_fee_basis_points = 100; maximum_fee = 5_000 })

swap-IsSeen : IsSeen sample chain TradeDirection.zero_for_one swap_accounts none one_percent
swap-IsSeen = record {
  two_vaults = λ q. omega arith;
  key_in = refl;
  key_out = refl;
  mint_in = refl;
  two_mints = λ q. omega arith;
  readable_in = record { reads = refl; classic = λ q. refl };
  readable_out = record { reads = refl; classic = λ q. absurd (omega arith) };
}

quote_swap_base_in-agrees_example :
    quote_swap_base_in sample
      (seen sample chain TradeDirection.zero_for_one swap_accounts)
      4
      100_000
    ≡ ok (90_661 - 907)
quote_swap_base_in-agrees_example =
    quote_swap_base_in-agrees sample chain TradeDirection.zero_for_one swap_accounts none
      one_percent 100_000 89_000 bank swap-IsSeen input_swapped

quote_swap_base_out-agrees_example :
    quote_swap_base_out sample
      (seen sample chain TradeDirection.zero_for_one swap_accounts)
      4
      89_754
    ≡ ok (100_000 + 0)
quote_swap_base_out-agrees_example =
    quote_swap_base_out-agrees sample chain TradeDirection.zero_for_one swap_accounts none
      one_percent 100_000 89_754 bank swap-IsSeen output_swapped
