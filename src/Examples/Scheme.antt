-- ===== src/Examples/Scheme.antt =====
-- A small signature scheme: a field of three elements, numbers written in ones, and points of two
-- bytes. It satisfies what the model assumes of the crates.
use Prim.Native.String.{String, ◌∷◌ as cons_text, count}
use Prim.Native.String.count
use fusion_zksnark_circle.Base.{
  ℕ, zero, suc, ◌%◌, ◌<◌, ◌≡◌, ◌≢◌, refl, ap, ◌∙◌, Bool, Option, none, some, List, [], ◌∷◌, ◌++◌,
  ◌==◌, if◌then◌else◌, replicate, u256_size, ok, arith,
}
use fusion_zksnark_circle.Base.Bytes.{from_big_endian}
use fusion_zksnark_circle.Types.External.{
  External, BigInt, pos, negsuc, BjjPoint, BjjSignature, FieldText, PoseidonPairs, DecimalText,
}
use fusion_zksnark_circle.Prover.Poseidon.{pair}

pub data Residue : Type 0 where
  r0 r1 r2 : Residue

unfoldable pub canonical : Residue → ℕ
canonical r0 = 0
canonical r1 = 1
canonical r2 = 2

unfoldable pub reduce : ℕ → Residue
reduce n = if n % 3 == 0 then r0 else if n % 3 == 1 then r1 else r2

-- Never zero, and different for different first elements 0 and 1.
unfoldable pub residue_hash : Residue → Residue → Residue
residue_hash r0 b = r1
residue_hash r1 b = r2
residue_hash r2 b = r2

unfoldable pub hash_all : List Residue → Option Residue
unfolding residue_hash
hash_all [] = none
hash_all (a ∷ []) = some a
hash_all (a ∷ b ∷ rest) = some (residue_hash a b)

unfoldable pub write : ℕ → String
write zero = ""
write (suc n) = cons_text "1" (write n)

pub count-write : (n : ℕ) → count (write n) ≡ n
unfolding write
count-write zero = count.nil
count-write (suc n) = count.cons "1" (write n) ∙ ap suc (count-write n)

unfoldable pub read : String → Option ℕ
read text = some (count text)

pub read-write : (n : ℕ) → read (write n) ≡ some n
unfolding read
read-write n = ap some (count-write n)

unfoldable pub compress_point : BjjPoint Residue → List ℕ
unfolding canonical
compress_point p = replicate 30 0 ++ canonical p.x ∷ canonical p.y ∷ []

unfoldable pub last_two : List ℕ → Option (BjjPoint Residue)
unfolding reduce
last_two [] = none
last_two (x ∷ []) = none
last_two (x ∷ y ∷ []) = some (record { x = reduce x; y = reduce y })
last_two (x ∷ y ∷ z ∷ rest) = last_two (y ∷ z ∷ rest)

unfoldable pub small_number : BigInt → ℕ
small_number (pos n) = n % 256
small_number (negsuc n) = 0

unfoldable pub compress_signature : BjjSignature Residue → List ℕ
unfolding canonical small_number
compress_signature sig =
    small_number sig.s ∷ canonical sig.r_b8.x ∷ canonical sig.r_b8.y ∷ replicate 61 0

unfoldable pub decompress_signature : List ℕ → Option (BjjSignature Residue)
unfolding reduce
decompress_signature [] = none
decompress_signature (s ∷ []) = none
decompress_signature (s ∷ x ∷ []) = none
decompress_signature (s ∷ x ∷ y ∷ rest) =
    some (record { r_b8 = record { x = reduce x; y = reduce y }; s = pos s })

unfoldable pub public_point : List ℕ → BjjPoint Residue
unfolding reduce
public_point bytes = record { x = reduce (from_big_endian bytes); y = r0 }

unfoldable pub is_signature : BjjPoint Residue → BjjSignature Residue → BigInt → Bool
unfolding small_number
is_signature p sig message = small_number sig.s == 7

abbrev pub scheme : External
scheme = record {
  Fr = Residue;
  fr_from_str = λ t. some (reduce (count t));
  to_hex = λ f. write (canonical f);
  poseidon_hash = hash_all;
  to_string = write;
  from_dec_str = read;
  from_str_radix_16 = read;
  u512_to_string = write;
  u512_from_dec_str = read;
  Key = List ℕ;
  import_key = some;
  key_bytes = λ bytes. bytes;
  public = public_point;
  sign_message = λ k m. ok (record { r_b8 = public_point k; s = pos 7 });
  verify_signature = is_signature;
  compress_point = compress_point;
  decompress_point = last_two;
  compress_signature = compress_signature;
  decompress_signature = decompress_signature;
}

pub canonical-lt : (f : Residue) → canonical f < u256_size
unfolding canonical
canonical-lt r0 = omega arith
canonical-lt r1 = omega arith
canonical-lt r2 = omega arith

pub reduce-canonical : (f : Residue) → reduce (canonical f) ≡ f
unfolding reduce canonical
reduce-canonical r0 = refl
reduce-canonical r1 = refl
reduce-canonical r2 = refl

canonical-residue_hash : (f g : Residue) → canonical (residue_hash f g) ≢ 0
unfolding canonical residue_hash
canonical-residue_hash r0 g e = omega (arith, e)
canonical-residue_hash r1 g e = omega (arith, e)
canonical-residue_hash r2 g e = omega (arith, e)

abbrev pub scheme_text : FieldText scheme
scheme_text = record {
  canonical = canonical;
  reduce = reduce;
  canonical-lt = canonical-lt;
  reduce-canonical = reduce-canonical;
  read_hex = λ f. read-write (canonical f);
  read_decimal = λ n. ap (λ m. some (reduce m)) (count-write n);
}

unfoldable pub scheme_pairs : PoseidonPairs scheme
unfolding hash_all
scheme_pairs = record { pair_hash = residue_hash; hash_pair = λ a b. refl }

pub scheme_decimal : DecimalText scheme
scheme_decimal n h = read-write n

pub pair_nonzero : (a b : ℕ) → pair scheme_text scheme_pairs a b ≢ 0
unfolding pair scheme_pairs
pair_nonzero a b = canonical-residue_hash (reduce a) (reduce b)
