-- ===== src/Types/Signature.antt =====
-- The trait `ToBabyJubjubSignature` (fusion-types/src/lib.rs).
use Prim.Native.String.{String}
use fusion_zksnark_circle.Base.{ℕ, ◌≡◌, some, Option, ◌>>=◌, unwrap}
use fusion_zksnark_circle.Base.Bytes.{
  to_little_endian, from_little_endian, AreBytes, to_little_endian-from_little_endian,
}
use fusion_zksnark_circle.Types.External.{External, BjjSignature}

module _ (X : External) where
  open X use {Fr, u512_from_dec_str, u512_to_string, compress_signature, decompress_signature}

  -- `impl ToBabyJubjubSignature for U512`
  unfoldable pub u512_to_babyjubjub_signature : ℕ → Option (BjjSignature Fr)
  u512_to_babyjubjub_signature n = unwrap (decompress_signature (to_little_endian 64 n))

  -- `impl ToBabyJubjubSignature for String`
  unfoldable pub to_babyjubjub_signature : String → Option (BjjSignature Fr)
  to_babyjubjub_signature text = do
    n ← unwrap (u512_from_dec_str text)
    u512_to_babyjubjub_signature n

  -- If a signature is compressed into 64 bytes that are decompressed to it again, and the decimal
  -- text of their number is read back, then that text is read as the signature.
  pub to_babyjubjub_signature-compress :
      (sig : BjjSignature Fr)
      → AreBytes 64 (compress_signature sig)
      → decompress_signature (compress_signature sig) ≡ some sig
      → u512_from_dec_str (u512_to_string (from_little_endian (compress_signature sig)))
        ≡ some (from_little_endian (compress_signature sig))
      → to_babyjubjub_signature (u512_to_string (from_little_endian (compress_signature sig)))
        ≡ some sig
  unfolding to_babyjubjub_signature u512_to_babyjubjub_signature
  to_babyjubjub_signature-compress sig bytes back decimal =
      rw (decimal, to_little_endian-from_little_endian 64 (compress_signature sig) bytes) back
