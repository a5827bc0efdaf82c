-- ===== src/Wallet.antt =====
-- The wallet's library (fusion-wallet/src/lib.rs). The outer `none` is a panic.
pub mod Cli
pub mod Sending
pub mod Commands
pub mod Printing
use Prim.Native.String.{String}
use fusion_zksnark_circle.Base.{
  ℕ, ◌^◌, ◌<◌, ◌≡◌, true, Option, some, if◌then◌else◌, ◌>>=◌, Result, ok, err,
}
use fusion_zksnark_circle.Base.Bytes.{
  from_little_endian, from_little_endian-lt, to_big_endian, AreBytes,
}
use fusion_zksnark_circle.Types.External.{External, BjjSignature}
use fusion_zksnark_circle.Types.Field.{to_big_int}
use fusion_zksnark_circle.Types.PublicKey.{
  PublicKey, from_babyjubjub_point, u256_to_babyjubjub_point,
}
use fusion_zksnark_circle.Types.PrivateKey
use fusion_zksnark_circle.Types.PrivateKey.{PrivateKey}
use fusion_zksnark_circle.Types.Signature.{
  to_babyjubjub_signature, to_babyjubjub_signature-compress,
}
use fusion_zksnark_circle.Api.{Tx, SignedTx, hash_tx}

module _ (X : External) where
  open X use {
    Fr, Key, public, sign_message, verify_signature, compress_signature, decompress_signature,
    u512_to_string, u512_from_dec_str, decompress_point,
  }

  unfoldable pub sign : Tx → String → Option (Result ℕ)
  sign tx private_key = do
    wallet ← PrivateKey.from_string X private_key
    hash ← hash_tx X tx
    elim (sign_message wallet.key (to_big_int hash)) [
      | ok sig ↦ some (ok (from_little_endian (compress_signature sig)))
      | err e ↦ some (err e)
    ]

  unfoldable pub verify_tx_signature : SignedTx → Option (Result (Unit {0}))
  verify_tx_signature tx = do
    pk ← u256_to_babyjubjub_point X tx.tx.sender
    sig ← to_babyjubjub_signature X tx.signature
    hash ← hash_tx X tx.tx
    some (if verify_signature pk sig (to_big_int hash) then ok tt else err "Invalid signature.")

  -- The key that `babyjubjub_rs::new_key` drew.
  unfoldable pub new_private_key : Key → PrivateKey Key
  new_private_key drawn = record { key = drawn }

  unfoldable pub new_public_key : PrivateKey Key → Option PublicKey
  new_public_key sk = from_babyjubjub_point X (public sk.key)

  unfoldable pub new_key_pair : Key → Option (PrivateKey Key × PublicKey)
  unfolding new_private_key new_public_key
  new_key_pair drawn = do let sk = new_private_key drawn; pk ← new_public_key sk; some (sk, pk)

  -- If the text of a private key is read, a transaction has a hash, the curve's crate signs the
  -- hash, and the sender's word is decompressed to the key's public point, then `sign` returns a
  -- number whose text makes `verify_tx_signature` succeed. Assumed of the crate: the signature is
  -- verified under the public point and survives its compressed form of 64 bytes; of the numbers:
  -- decimal texts are read back.
  pub verify_tx_signature-sign :
      (tx : Tx) (private_key : String) (sk : PrivateKey Key) (hash : ℕ) (sig : BjjSignature Fr)
      → PrivateKey.from_string X private_key ≡ some sk
      → hash_tx X tx ≡ some hash
      → decompress_point (to_big_endian 32 tx.sender) ≡ some (public sk.key)
      → sign_message sk.key (to_big_int hash) ≡ ok sig
      → verify_signature (public sk.key) sig (to_big_int hash) ≡ true
      → AreBytes 64 (compress_signature sig)
      → decompress_signature (compress_signature sig) ≡ some sig
      → ((n : ℕ) → n < 2 ^ 512 → u512_from_dec_str (u512_to_string n) ≡ some n)
      → (s : ℕ) × (sign tx private_key ≡ some (ok s))
        × (verify_tx_signature (record { tx = tx; signature = u512_to_string s }) ≡ some (ok tt))
  unfolding sign verify_tx_signature u256_to_babyjubjub_point
  verify_tx_signature-sign tx private_key sk hash sig read hashed sender signed verified bytes back
        decimal =
      (
        from_little_endian (compress_signature sig),
        rw (read, hashed, signed),
        rw (
          sender,
          to_babyjubjub_signature-compress X sig bytes back
              (decimal _ (from_little_endian-lt 64 (compress_signature sig) bytes)),
          hashed,
          verified,
        ),
      )
