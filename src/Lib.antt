-- ===== src/Lib.antt =====
-- A model of the constant product swap program of this repository (programs/cp-swap), with proofs
-- that its arithmetic and its handlers keep the pools sound.
--
-- The program and the files that model it:
--
-- - Error: error.rs, and the errors of Anchor and of the runtime that a handler can end with.
-- - Curve: curve/fees.rs (Curve/Fees), curve/constant_product.rs (Curve/ConstantProduct),
--   curve/calculator.rs (Curve/Calculator) and the numeric helpers of utils/math.rs (Curve/Math). A
--   swap is quoted by the calculator, which charges the fees and asks the curve.
-- - States: states/pool.rs (States/Pool), states/oracle.rs (States/Oracle) and states/config.rs
--   (States/Config). The pool counts the fees that lie in its vaults; the vaults less these fees are
--   its reserves. A method on `&mut self` returns the new state.
-- - Accounts: utils/account_load.rs. What a type has to bring along (its discriminator, its size,
--   how bytes are read as a value) is the record `ZeroCopy`.
-- - Token: utils/token.rs. The token programs are a parameter, the record `Spl` of
--   Token/Interface; what is relied on of them is the record `IsTokenProgram` of Token/Transfers: a
--   transfer debits and credits two accounts and withholds the transfer fee of the mint, minting and
--   burning change one account and one supply, and at 100 % the transfer fee is the whole amount up
--   to its maximum. Token/Sample is one such program to run the handlers with. Where it matters that
--   a call goes through, the record `IsLive` of Token/Live says for which accounts it does, and
--   Token/StrictSample is a program with a frozen account that is so. Token/Create has the
--   tests of a mint and the creation of accounts; the system program, the `init` constraints of
--   Anchor, the rent, the derivation of addresses and the square root of the uint crate are the
--   record `Runtime` of Token/Runtime, what is relied on of them is `IsRuntime` of Token/Creation,
--   and Token/SampleRuntime is one to run them with.
-- - Instructions: the handlers of instructions/ with the constraints of their accounts: both swaps
--   (Swap), deposit (Deposit), withdraw (Withdraw), the three collections of fees (Collect), the
--   config and the pool status (Config), the creation of a pool by initialize.rs and
--   initialize_with_permission.rs (Initialize), and the permission and support accounts (Support). A
--   handler takes the accounts as they were loaded and the token accounts of the chain (`Bank`), and
--   returns what it writes.
-- - System: lib.rs, the program as a whole for one pool. A `World` is the pool, its config, its
--   observations and the token accounts; `execute` runs one of the nine instructions on an existing
--   pool on it. System/Amm is the abstract pool, two reserves and a number of shares, whose moves
--   are trades and changes of the number of shares; System/Refine relates the instructions to its
--   moves; System/History is the step relation of calls, by anyone and in any order, and of what
--   others do with the token program in between (no vault loses tokens and no pool tokens are made
--   outside of a call, since the authority of the program owns both); System/Creation is about the
--   world that a new pool starts in.
-- - Client: what the command line client in client/ quotes for the two swaps, from the accounts
--   that it has loaded (client/src/main.rs) and with transfer fees of its own
--   (client/src/instructions/utils.rs).
-- - Base: names and lemmas that all files share. Base/Outcome has the results of Rust calls (a
--   value, an error, or a panic), Base/Words the checked, plain and wrapping operations of u64 and
--   u128 (Cargo.toml turns overflow checks on, so that plain arithmetic panics), Base/Division facts
--   on quotients, Base/Lists lists indexed by native numbers.
--
-- Numbers are natural numbers; an operation of a machine type takes the largest value of the type.
-- An address is a number, since the program only compares, orders and derives addresses.
-- The loops, over the extensions of a mint and over the remaining accounts, are recursion on
-- lists, and there is no fuel.
--
-- Not modelled: the order of the checks that Anchor makes before a handler runs, where two of them
-- would fail; borrows of account data, padding, logs and lamports (but where an account is
-- funded); several pools that share a config; the rest of the client, which talks to a node, reads
-- key files, builds transactions and prints, and its slippage in floating point; and the
-- TypeScript tests.
pub mod Accounts
pub mod Base
pub mod Client
pub mod Error
pub mod Curve
pub mod States
pub mod Token
pub mod Instructions
pub mod System
