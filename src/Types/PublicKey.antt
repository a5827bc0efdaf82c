-- ===== src/Types/PublicKey.antt =====
-- `Point` and `PublicKey` (fusion-types/src/lib.rs).
use fusion_zksnark_circle.Base.{ℕ, ◌≡◌, Option, some, ◌>>=◌, unwrap, [], ◌∷◌}
use mathlib.Core.List.{reverse}
use fusion_zksnark_circle.Base.Bytes.{
  to_big_endian, from_big_endian, AreBytes, to_big_endian-from_big_endian,
}
use fusion_zksnark_circle.Types.External.{External, BjjPoint, FieldText}
use fusion_zksnark_circle.Types.Field.{to_fr, fr_to_u256, fr_to_u256-canonical}

pub record Point : Type 0 where
  pub x : ℕ
  pub y : ℕ

pub record PublicKey : Type 0 where
  pub point : Point

unfoldable pub from_point : ℕ → ℕ → PublicKey
from_point x y = record { point = record { x = x; y = y } }

module _ (X : External) where
  open X use {Fr, fr_from_str, to_string, poseidon_hash, compress_point, decompress_point}

  -- `impl FromBabyJubjubPoint for Point`
  unfoldable pub point_from_babyjubjub_point : BjjPoint Fr → Option Point
  point_from_babyjubjub_point point = do
    x ← fr_to_u256 X point.x
    y ← fr_to_u256 X point.y
    some (record { x = x; y = y })

  -- `impl FromBabyJubjubPoint for PublicKey`
  unfoldable pub from_babyjubjub_point : BjjPoint Fr → Option PublicKey
  unfolding point_from_babyjubjub_point
  from_babyjubjub_point point = do
    p ← point_from_babyjubjub_point point
    some (record { point = p })

  -- `impl ToBabyJubjubPoint for PublicKey`
  unfoldable pub to_babyjubjub_point : PublicKey → Option (BjjPoint Fr)
  to_babyjubjub_point key = do
    x ← unwrap (fr_from_str (to_string key.point.x))
    y ← unwrap (fr_from_str (to_string key.point.y))
    some (record { x = x; y = y })

  -- `impl ToBabyJubjubPoint for U256`, which decompresses.
  unfoldable pub u256_to_babyjubjub_point : ℕ → Option (BjjPoint Fr)
  u256_to_babyjubjub_point n = unwrap (decompress_point (to_big_endian 32 n))

  -- `impl From<U256> for PublicKey`
  unfoldable pub from_u256 : ℕ → Option PublicKey
  from_u256 key = do p ← u256_to_babyjubjub_point key; from_babyjubjub_point p

  -- `impl ToU256 for PublicKey`, which compresses.
  unfoldable pub to_u256 : PublicKey → Option ℕ
  to_u256 key = do p ← to_babyjubjub_point key; some (from_big_endian (compress_point p))

  -- `impl ToFr for PublicKey`
  unfoldable pub public_key_to_fr : PublicKey → Option Fr
  public_key_to_fr key = do
    x ← to_fr X key.point.x
    y ← to_fr X key.point.y
    unwrap (poseidon_hash (x ∷ y ∷ []))

  -- `PublicKey::address`
  unfoldable pub address : PublicKey → Option ℕ
  address key = do f ← public_key_to_fr key; fr_to_u256 X f

module _ {X : External} (text : FieldText X) where
  open X use {Fr, compress_point, decompress_point}

  abbrev pub canonical_key : BjjPoint Fr → PublicKey
  canonical_key p = record { point = record { x = text.canonical p.x; y = text.canonical p.y } }

  pub from_babyjubjub_point-canonical_key :
      (p : BjjPoint Fr) → from_babyjubjub_point X p ≡ some (canonical_key p)
  unfolding from_babyjubjub_point
  from_babyjubjub_point-canonical_key p =
      rw (fr_to_u256-canonical text p.x, fr_to_u256-canonical text p.y)

  pub to_babyjubjub_point-canonical_key :
      (p : BjjPoint Fr) → to_babyjubjub_point X (canonical_key p) ≡ some p
  unfolding to_babyjubjub_point
  to_babyjubjub_point-canonical_key p = rw (
    text.read_decimal (text.canonical p.x),
    text.read_decimal (text.canonical p.y),
    text.reduce-canonical p.x,
    text.reduce-canonical p.y,
  )

  -- A point that the curve's crate compresses into 32 bytes and decompresses again survives as a
  -- public key: the key of the point gives the point back, and the key's word, which `to_u256`
  -- computes without a panic, is read back as the key.
  pub from_u256-to_u256 :
      (p : BjjPoint Fr)
      → AreBytes 32 (reverse (compress_point p))
      → decompress_point (compress_point p) ≡ some p
      → (pk : PublicKey) × (n : ℕ) × (from_babyjubjub_point X p ≡ some pk)
        × (to_babyjubjub_point X pk ≡ some p)
        × (to_u256 X pk ≡ some n)
        × (from_u256 X n ≡ some pk)
  unfolding to_u256 from_u256 u256_to_babyjubjub_point
  from_u256-to_u256 p bytes back = (
    canonical_key p,
    from_big_endian (compress_point p),
    from_babyjubjub_point-canonical_key p,
    to_babyjubjub_point-canonical_key p,
    rw (to_babyjubjub_point-canonical_key p),
    rw (to_big_endian-from_big_endian 32 (compress_point p) bytes, back)
        (from_babyjubjub_point-canonical_key p),
  )
