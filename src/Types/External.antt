-- ===== src/Types/External.antt =====
-- What fusion-types and its users call of the crates poseidon_rs, ff, babyjubjub_rs, num_bigint and
-- ethers_core, none of which is in the repository. `none` is an error or a panic.
use Prim.Native.String.{String}
use fusion_zksnark_circle.Base.{
  ℕ, ◌<◌, ◌≡◌, Bool, Option, some, List, [], ◌∷◌, length, u256_size, Result,
}

-- A signed number of any size; `negsuc n` is -(n + 1).
pub data BigInt : Type 0 where
  pos : ℕ → BigInt
  negsuc : ℕ → BigInt

-- `babyjubjub_rs::Point`
pub record BjjPoint (F : Type 0) : Type 0 where
  pub x : F
  pub y : F

-- `babyjubjub_rs::Signature`
pub record BjjSignature (F : Type 0) : Type 0 where
  pub r_b8 : BjjPoint F
  pub s : BigInt

pub record External : Type 1 where
  -- the field, with `Fr::from_str`, `ff::to_hex` and `Poseidon::hash`
  pub Fr : Type 0
  pub fr_from_str : String → Option Fr
  pub to_hex : Fr → String
  pub poseidon_hash : List Fr → Option Fr
  -- the text of a `U256` and of a `U512`
  pub to_string : ℕ → String
  pub from_dec_str : String → Option ℕ
  pub from_str_radix_16 : String → Option ℕ
  pub u512_to_string : ℕ → String
  pub u512_from_dec_str : String → Option ℕ
  -- keys, and their bytes
  pub Key : Type 0
  pub import_key : List ℕ → Option Key
  pub key_bytes : Key → List ℕ
  pub public : Key → BjjPoint Fr
  pub sign_message : Key → BigInt → Result (BjjSignature Fr)
  pub verify_signature : BjjPoint Fr → BjjSignature Fr → BigInt → Bool
  -- compressed points of 32 bytes and signatures of 64
  pub compress_point : BjjPoint Fr → List ℕ
  pub decompress_point : List ℕ → Option (BjjPoint Fr)
  pub compress_signature : BjjSignature Fr → List ℕ
  pub decompress_signature : List ℕ → Option (BjjSignature Fr)

-- The documented behaviour of the field's text forms: `to_hex` writes the canonical number of a field
-- element, and `from_str` reads the decimal text of every number, modulo the field's size.
pub record FieldText (X : External) : Type 0 where
  pub canonical : X.Fr → ℕ
  pub reduce : ℕ → X.Fr
  pub canonical-lt : (f : X.Fr) → canonical f < u256_size
  pub reduce-canonical : (f : X.Fr) → reduce (canonical f) ≡ f
  pub read_hex : (f : X.Fr) → X.from_str_radix_16 (X.to_hex f) ≡ some (canonical f)
  pub read_decimal : (n : ℕ) → X.fr_from_str (X.to_string n) ≡ some (reduce n)

-- Poseidon takes two inputs without an error.
pub record PoseidonPairs (X : External) : Type 0 where
  pub pair_hash : X.Fr → X.Fr → X.Fr
  pub hash_pair : (a b : X.Fr) → X.poseidon_hash (a ∷ b ∷ []) ≡ some (pair_hash a b)

-- Poseidon takes up to six inputs without an error.
pub record PoseidonLists (X : External) : Type 0 where
  pub list_hash : List X.Fr → X.Fr
  pub hash_list :
      (f : X.Fr) (fs : List X.Fr)
      → length fs < 6
      → X.poseidon_hash (f ∷ fs) ≡ some (list_hash (f ∷ fs))

-- The decimal text of a word is read back.
abbrev pub DecimalText : External → Type 0
DecimalText X = (n : ℕ) → n < u256_size → X.from_dec_str (X.to_string n) ≡ some n
