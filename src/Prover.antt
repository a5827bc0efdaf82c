-- ===== src/Prover.antt =====
-- The prover crate (fusion-prover/src): its hasher, the state of the rollup, the circuit's input, and
-- `Prover::prove`.
pub mod Poseidon
pub mod State
pub mod CircuitInput
pub mod L1Proof
pub mod Prove
pub mod Stages
pub mod L1Laws
pub mod Laws
pub mod Roots
pub mod Confusion
pub mod StateTests
pub mod TreeTests
pub mod TreeLaws
pub mod ProofLaws
pub mod KeyLaws
