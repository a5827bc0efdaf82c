-- ===== src/EndToEnd.antt =====
-- The end-to-end tests of the sequencer (fusion-sequencer/src/sequencer.rs), and the wallet's test.
pub mod Anvil
pub mod Follow
pub mod Followed
pub mod Signing
pub mod Signatures
pub mod Tests
