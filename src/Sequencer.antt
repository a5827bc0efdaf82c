-- ===== src/Sequencer.antt =====
-- The sequencer (fusion-sequencer/src/sequencer.rs): transactions, and the loop over them.
pub mod Transactions
pub mod Effects
pub mod Validity
pub mod Transfers
pub mod Supply
pub mod Replay
pub mod Loop
pub mod Malleable
pub mod Observer
pub mod Server
pub mod Scenario
pub mod Turns
pub mod Chain
pub mod Run
pub mod Batches
