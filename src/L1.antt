-- ===== src/L1.antt =====
-- The contract on L1 (l1-verifier/src/Fusion.sol).
pub mod Reply
pub mod Fusion
pub mod Steps
