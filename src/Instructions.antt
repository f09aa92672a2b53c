-- ===== src/Instructions.antt =====
-- The instruction handlers: programs/cp-swap/src/instructions.
pub mod Context
pub mod Swap
pub mod Liquidity
pub mod Deposit
pub mod Withdraw
pub mod Collect
pub mod Config
pub mod Initialize
pub mod Support
pub mod Sample
pub mod Tests
mod LiquidityTests
mod AdminTests
