-- ===== src/Types.antt =====
-- The keys, points and conversions of fusion-types/src/lib.rs.
pub mod External
pub mod Field
pub mod PublicKey
pub mod PrivateKey
pub mod Signature
pub mod Tests
