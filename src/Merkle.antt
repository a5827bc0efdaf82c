-- ===== src/Merkle.antt =====
-- The sparse Merkle tree of fusion-prover/src/merkle_tree.rs.
pub mod BranchKey
pub mod Paths
pub mod Tree
pub mod Sparse
pub mod Refresh
pub mod Update
pub mod Operations
pub mod Delete
pub mod Roots
pub mod Focus
pub mod Confusion
pub mod Stored
pub mod Single
pub mod Neighbours
pub mod Proofs
pub mod Verify
pub mod Binding
pub mod History
