-- ===== src/States.antt =====
-- The accounts of the program: programs/cp-swap/src/states.
pub mod Config
pub mod Pool
pub mod Oracle
pub mod Support
pub mod Sample
mod Tests
