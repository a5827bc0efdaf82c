-- ===== src/Types/PrivateKey.antt =====
-- `PrivateKey` (fusion-types/src/lib.rs).
use Prim.Native.String.{String}
use fusion_zksnark_circle.Base.{
  ℕ, ◌<◌, ◌≡◌, ◌∙◌, refl, ap, Option, some, List, length, ◌>>=◌, unwrap, u256_size,
}
use fusion_zksnark_circle.Base.Bytes.{
  to_big_endian, from_big_endian, from_big_endian-to_big_endian, length-to_big_endian, AreBytes,
  to_big_endian-from_big_endian, from_little_endian-lt,
}
use mathlib.Core.List.{reverse}
use fusion_zksnark_circle.Types.External.{External, DecimalText}

pub record PrivateKey (K : Type 0) : Type 0 where
  pub key : K

module _ (X : External) where
  open X use {Key, import_key, key_bytes, to_string as u256_to_string, from_dec_str}

  -- `impl From<U256> for PrivateKey`
  unfoldable pub from_u256 : ℕ → Option (PrivateKey Key)
  from_u256 key = do k ← unwrap (import_key (to_big_endian 32 key)); some (record { key = k })

  -- `impl From<String> for PrivateKey`
  unfoldable pub from_string : String → Option (PrivateKey Key)
  from_string key = do n ← unwrap (from_dec_str key); from_u256 n

  -- `impl ToString for PrivateKey`
  unfoldable pub to_string : PrivateKey Key → String
  to_string sk = u256_to_string (from_big_endian (key_bytes sk.key))

-- `PrivateKey::import` takes any 32 bytes and keeps them.
abbrev pub KeepsBytes : External → Type 0
KeepsBytes X =
    (bytes : List ℕ)
    → length bytes ≡ 32
    → (k : X.Key) × (X.import_key bytes ≡ some k) × (X.key_bytes k ≡ bytes)

module _ (X : External) (keeps : KeepsBytes X) (decimal : DecimalText X) where
  -- The decimal text of a number of 256 bits is read as a private key whose text is the same, if
  -- such texts are read back, and the curve's crate imports any 32 bytes and keeps them.
  pub to_string-from_string :
      (n : ℕ)
      → n < u256_size
      → (sk : PrivateKey X.Key) × (from_string X (X.to_string n) ≡ some sk)
        × (to_string X sk ≡ X.to_string n)
  unfolding from_string from_u256 to_string
  to_string-from_string n h =
      let (k, imported, kept) = keeps (to_big_endian 32 n) (length-to_big_endian 32 n) in
      (
        record { key = k },
        rw (decimal n h, imported),
        ap X.to_string (ap from_big_endian kept ∙ from_big_endian-to_big_endian 32 n h),
      )

-- A key whose bytes are 32 and are imported as the key is read back from its text.
pub from_string-to_string :
    (X : External)
    → DecimalText X
    → (drawn : X.Key) → AreBytes 32 (reverse (X.key_bytes drawn))
    → X.import_key (X.key_bytes drawn) ≡ some drawn
    → from_string X (to_string X (record { key = drawn })) ≡ some (record { key = drawn })
unfolding from_string to_string from_u256 from_big_endian
from_string-to_string X decimal drawn key_bytes imported =
    let low = from_little_endian-lt 32 (reverse (X.key_bytes drawn)) key_bytes in
    rw
      (
        decimal (from_big_endian (X.key_bytes drawn)) low,
        to_big_endian-from_big_endian 32 (X.key_bytes drawn) key_bytes,
        imported,
      )
      refl
