-- ===== src/Prover/Poseidon.antt =====
-- The Poseidon hash over words (fusion-prover/src/poseidon_hasher.rs).
use fusion_zksnark_circle.Base.{ℕ, ◌≡◌, Option, some, List, [], ◌∷◌, ◌++◌, ◌>>=◌, unwrap}
use fusion_zksnark_circle.Types.External.{External, FieldText, PoseidonPairs}
use fusion_zksnark_circle.Types.Field.{to_fr, fr_to_u256, to_fr-reduce, fr_to_u256-canonical}
use fusion_zksnark_circle.Merkle.Tree.{Hasher, hash_words}

module _ (X : External) where
  open X use {Fr, poseidon_hash}

  unfoldable pub all_to_fr : List ℕ → Option (List Fr)
  all_to_fr [] = some []
  all_to_fr (a ∷ args) = do f ← to_fr X a; fs ← all_to_fr args; some (f ∷ fs)

  unfoldable pub poseidon : List ℕ → Option ℕ
  unfolding all_to_fr
  poseidon args = do fs ← all_to_fr args; hash ← unwrap (poseidon_hash fs); fr_to_u256 X hash

  -- `PoseidonHasher`, the list of what was written.
  unfoldable pub write_h256 : List Fr → ℕ → Option (List Fr)
  write_h256 fs w = do f ← to_fr X w; some (fs ++ f ∷ [])

  unfoldable pub finish : List Fr → Option ℕ
  finish fs = do hash ← unwrap (poseidon_hash fs); fr_to_u256 X hash

  unfoldable pub poseidon_hasher : Hasher (List Fr)
  unfolding write_h256 finish
  poseidon_hasher = record { default = []; write_h256 = write_h256; finish = finish }

module _ {X : External} (text : FieldText X) (pairs : PoseidonPairs X) where
  -- The hash of two words.
  unfoldable pub pair : ℕ → ℕ → ℕ
  pair a b = text.canonical (pairs.pair_hash (text.reduce a) (text.reduce b))

  pub poseidon-pair : (a b : ℕ) → poseidon X (a ∷ b ∷ []) ≡ some (pair a b)
  unfolding poseidon pair
  poseidon-pair a b =
      rw (to_fr-reduce text a, to_fr-reduce text b, pairs.hash_pair (text.reduce a) (text.reduce b))
        (fr_to_u256-canonical text _)

  -- Writing two words to the hasher is hashing the pair.
  pub hash_words-pair : (a b : ℕ) → hash_words (poseidon_hasher X) a b ≡ some (pair a b)
  unfolding hash_words poseidon_hasher pair
  hash_words-pair a b =
      rw (to_fr-reduce text a, to_fr-reduce text b, pairs.hash_pair (text.reduce a) (text.reduce b))
        (fr_to_u256-canonical text _)
