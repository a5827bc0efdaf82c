-- ===== src/Types/Field.antt =====
-- The traits `ToFr`, `ToU256` and `ToBigInt` (fusion-types/src/lib.rs) at `U256`, `Fr` and `BigInt`.
use fusion_zksnark_circle.Base.{
  ℕ, ◌<◌, ◌≡◌, Option, none, some, true, ltb, if◌then◌else◌, unwrap, u256_size, arith,
}
use fusion_zksnark_circle.Base.Bytes.{to_big_endian, from_big_endian, from_big_endian-to_big_endian}
use fusion_zksnark_circle.Types.External.{External, BigInt, pos, negsuc, FieldText}

-- `impl ToBigInt for U256`, through 32 bytes in order.
unfoldable pub to_big_int : ℕ → BigInt
to_big_int n = pos (from_big_endian (to_big_endian 32 n))

-- `impl ToU256 for BigInt`, with its assertion on the sign and the conversion of at most 32 bytes.
unfoldable pub big_int_to_u256 : BigInt → Option ℕ
big_int_to_u256 (pos n) = if ltb n u256_size then some n else none
big_int_to_u256 (negsuc n) = none

-- A number of 256 bits survives the way through a `BigInt`.
pub big_int_to_u256-to_big_int : (n : ℕ) → n < u256_size → big_int_to_u256 (to_big_int n) ≡ some n
unfolding big_int_to_u256 to_big_int
big_int_to_u256-to_big_int n h =
    let fits : ltb n u256_size ≡ true = ground arith in
    rw (from_big_endian-to_big_endian 32 n h, fits)

module _ (X : External) where
  open X use {Fr, fr_from_str, to_hex, to_string, from_str_radix_16}

  -- `impl ToFr for U256`
  unfoldable pub to_fr : ℕ → Option Fr
  to_fr n = unwrap (fr_from_str (to_string n))

  -- `impl ToU256 for Fr`
  unfoldable pub fr_to_u256 : Fr → Option ℕ
  fr_to_u256 f = unwrap (from_str_radix_16 (to_hex f))

module _ {X : External} (text : FieldText X) where
  pub to_fr-reduce : (n : ℕ) → to_fr X n ≡ some (text.reduce n)
  unfolding to_fr
  to_fr-reduce n = text.read_decimal n

  pub fr_to_u256-canonical : (f : X.Fr) → fr_to_u256 X f ≡ some (text.canonical f)
  unfolding fr_to_u256
  fr_to_u256-canonical f = text.read_hex f
