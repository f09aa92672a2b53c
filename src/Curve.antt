-- ===== src/Curve.antt =====
-- The swap curve: programs/cp-swap/src/curve, and the numeric helpers of utils/math.rs.
pub mod Math
pub mod Fees
pub mod ConstantProduct
pub mod Calculator
mod Tests
