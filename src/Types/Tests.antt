-- ===== src/Types/Tests.antt =====
-- The unit tests of fusion-types/src/lib.rs, with the numbers and texts that they use as arguments. A
-- test returns the values that it compares.
use Prim.Native.String.{String}
use fusion_zksnark_circle.Base.{ℕ, ◌<◌, ◌≡◌, refl, Option, some, ◌>>=◌, unwrap, u256_size}
use fusion_zksnark_circle.Base.Bytes.{to_big_endian, from_big_endian-to_big_endian}
use fusion_zksnark_circle.Types.External.{
  External, BigInt, pos, BjjPoint, BjjSignature, FieldText, DecimalText,
}
use fusion_zksnark_circle.Types.Field.{
  to_big_int, to_fr, fr_to_u256, to_fr-reduce, fr_to_u256-canonical,
}
use fusion_zksnark_circle.Types.PublicKey.{
  Point, from_point, from_babyjubjub_point, to_babyjubjub_point, u256_to_babyjubjub_point, to_u256,
  from_babyjubjub_point-canonical_key, to_babyjubjub_point-canonical_key,
}
use fusion_zksnark_circle.Types.PrivateKey.{
  from_string, from_u256, to_string, KeepsBytes, to_string-from_string,
}
use fusion_zksnark_circle.Types.Signature.{to_babyjubjub_signature, u512_to_babyjubjub_signature}

module _ (X : External) where
  unfoldable private_key_str_test : String → Option (String × String)
  private_key_str_test sk_str = do sk ← from_string X sk_str; some (sk_str, to_string X sk)

  unfoldable private_key_u256_test : String → Option (String × String)
  private_key_u256_test sk_str = do
    sk_u256 ← unwrap (X.from_dec_str sk_str)
    sk ← from_u256 X sk_u256
    some (X.to_string sk_u256, to_string X sk)

  unfoldable public_key_bjj_test : ℕ → ℕ → Option (Point × Point)
  public_key_bjj_test x y = do
    let pk = from_point x y
    p ← to_babyjubjub_point X pk
    key ← from_babyjubjub_point X p
    some (pk.point, key.point)

  unfoldable public_key_compress_decompress_test : String → Option (ℕ × ℕ)
  public_key_compress_decompress_test number = do
    pk ← unwrap (X.from_dec_str number)
    p ← u256_to_babyjubjub_point X pk
    key ← from_babyjubjub_point X p
    compressed ← to_u256 X key
    some (pk, compressed)

  unfoldable u256_fr_conversion_test : String → Option (ℕ × ℕ)
  u256_fr_conversion_test number = do
    x ← unwrap (X.from_dec_str number)
    f ← to_fr X x
    y ← fr_to_u256 X f
    some (x, y)

  unfoldable signature_compress_decompress_test : String → Option (BigInt × BigInt)
  signature_compress_decompress_test sig = do
    bjj_sig ← to_babyjubjub_signature X sig
    number ← unwrap (X.u512_from_dec_str sig)
    u512_sig ← u512_to_babyjubjub_signature X number
    some (bjj_sig.s, u512_sig.s)

  -- `BigInt::to_string` is a parameter.
  unfoldable u256_conversion_test : (BigInt → String) → String → Option (String × String)
  u256_conversion_test big_int_to_string number = do
    x ← unwrap (X.from_dec_str number)
    let y = to_big_int x
    some (X.to_string x, big_int_to_string y)

module _ (X : External) (decimal : DecimalText X) where
  -- A private key that is read from the text of a word, or made from the word, has that text.
  private_key_tests-pass :
      (n : ℕ)
      → n < u256_size
      → KeepsBytes X
      → (private_key_str_test X (X.to_string n) ≡ some (X.to_string n, X.to_string n))
        × (private_key_u256_test X (X.to_string n) ≡ some (X.to_string n, X.to_string n))
  unfolding private_key_str_test private_key_u256_test from_string
  private_key_tests-pass n small keeps =
      let (sk, read, back) = to_string-from_string X keeps decimal n small in
      let made : from_u256 X n ≡ some sk = rw (decimal n small) at read in
      (rw (decimal n small, made, back) refl, rw (decimal n small, made, back) refl)

  -- Two numbers that are the canonical numbers of field elements survive as a point of the curve's
  -- crate.
  public_key_bjj_test-passes :
      (text : FieldText X) (p : BjjPoint X.Fr)
      → public_key_bjj_test X (text.canonical p.x) (text.canonical p.y)
        ≡ some (
          record { x = text.canonical p.x; y = text.canonical p.y },
          record { x = text.canonical p.x; y = text.canonical p.y },
        )
  unfolding public_key_bjj_test from_point
  public_key_bjj_test-passes text p =
      rw (to_babyjubjub_point-canonical_key text p, from_babyjubjub_point-canonical_key text p) refl

  -- If the crate decompresses the bytes of a word to a point and compresses that to the same bytes,
  -- the word survives as a public key.
  public_key_compress_decompress_test-passes :
      (text : FieldText X) (n : ℕ) (p : BjjPoint X.Fr)
      → n < u256_size
      → X.decompress_point (to_big_endian 32 n) ≡ some p
      → X.compress_point p ≡ to_big_endian 32 n
      → public_key_compress_decompress_test X (X.to_string n) ≡ some (n, n)
  unfolding public_key_compress_decompress_test u256_to_babyjubjub_point to_u256
  public_key_compress_decompress_test-passes text n p small opened closed =
      rw
        (
          decimal n small,
          opened,
          from_babyjubjub_point-canonical_key text p,
          to_babyjubjub_point-canonical_key text p,
          closed,
          from_big_endian-to_big_endian 32 n small,
        )
        refl

  -- The canonical number of a field element survives as a field element.
  u256_fr_conversion_test-passes :
      (text : FieldText X) (f : X.Fr)
      → u256_fr_conversion_test X (X.to_string (text.canonical f))
        ≡ some (text.canonical f, text.canonical f)
  unfolding u256_fr_conversion_test
  u256_fr_conversion_test-passes text f =
      rw
        (
          decimal (text.canonical f) (text.canonical-lt f),
          to_fr-reduce text (text.canonical f),
          text.reduce-canonical f,
          fr_to_u256-canonical text f,
        )
        refl

  -- A word and the `BigInt` made from it have one text, if the texts of the two types are the same.
  u256_conversion_test-passes :
      (big_int_to_string : BigInt → String) (n : ℕ)
      → n < u256_size
      → big_int_to_string (pos n) ≡ X.to_string n
      → u256_conversion_test X big_int_to_string (X.to_string n)
        ≡ some (X.to_string n, X.to_string n)
  unfolding u256_conversion_test to_big_int
  u256_conversion_test-passes big_int_to_string n small same =
      rw (decimal n small, from_big_endian-to_big_endian 32 n small, same) refl

-- The text of a signature and its number are read as signatures with one scalar.
signature_compress_decompress_test-passes :
    (X : External) (text : String) (n : ℕ) (sig : BjjSignature X.Fr)
    → X.u512_from_dec_str text ≡ some n
    → u512_to_babyjubjub_signature X n ≡ some sig
    → signature_compress_decompress_test X text ≡ some (sig.s, sig.s)
unfolding signature_compress_decompress_test to_babyjubjub_signature
signature_compress_decompress_test-passes X text n sig read opened = rw (read, opened) refl
