-- ===== src/Rollup.antt =====
-- The two layers together: the sequencer's state and the contract.
pub mod Inputs
pub mod System
pub mod Backing
pub mod Payouts
pub mod Following
pub mod Published
pub mod Sizes
pub mod Turning
pub mod Settlement
