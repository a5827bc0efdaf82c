-- ===== src/Circuits.antt =====
-- The circuits (circuits/*.zok): of the state, of a signature, and the one that combines them.
pub mod MerkleTree
pub mod Paths
pub mod Elements
pub mod Steps
pub mod Signature
pub mod Scalar
pub mod Fusion
pub mod Whole
pub mod Checks
pub mod Given
pub mod Accepts
pub mod Gaps
