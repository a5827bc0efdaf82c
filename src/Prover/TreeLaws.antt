-- ===== src/Prover/TreeLaws.antt =====
-- The unit tests of the tree pass (fusion-prover/src/merkle_tree.rs).
use fusion_zksnark_circle.Base.{
  ℕ, ◌<◌, u256_size, ◌≡◌, ◌≢◌, refl, ap, ◌∙◌, true, false, ite, some, [], ◌∷◌, of_bits,
  of_bits_injective, replicate, ℕ_discrete, arith,
}
use fusion_zksnark_circle.Types.External.{External, FieldText, PoseidonPairs}
use fusion_zksnark_circle.Merkle.Tree.{MerkleTree, empty, update, root_hash}
use fusion_zksnark_circle.Merkle.Sparse.{Total, merge, stored, IsConsistent}
use fusion_zksnark_circle.Merkle.Operations.{root_hash-subtree, empty-IsConsistent, subtree-zero}
use fusion_zksnark_circle.Merkle.Confusion.{root_hash-one_leaf, root_hash-siblings}
use fusion_zksnark_circle.Merkle.Stored.{stored-empty, update-stored, delete-stored}
use fusion_zksnark_circle.Prover.Poseidon.{pair, poseidon_hasher, hash_words-pair}
use fusion_zksnark_circle.Prover.TreeTests.{u256_value, zero_and_nonexisting_is_same_test}

module _ {X : External} (text : FieldText X) (pairs : PoseidonPairs X) where
  abbrev pub words : Total (poseidon_hasher X) u256_value
  words = record {
    hash = pair text pairs;
    hash_words-hash = hash_words-pair text pairs;
    value = λ n. n;
    to_u256-value = λ n. refl;
  }

  root-nothing :
      (t : MerkleTree ℕ)
      → IsConsistent words t
      → ((k : ℕ) → stored words t k ≡ 0)
      → root_hash (poseidon_hasher X) t ≡ some 0
  root-nothing t c nothing =
      root_hash-subtree words t c
      ∙ ap some (
          subtree-zero (pair text pairs) (λ p. stored words t (of_bits p))
            (λ p. nothing (of_bits p)) 256 [])

  -- A zero is put into a tree that holds nothing.
  update-nothing :
      (t : MerkleTree ℕ) (k : ℕ)
      → k < u256_size
      → IsConsistent words t
      → ((j : ℕ) → stored words t j ≡ 0)
      → (t' : MerkleTree ℕ) × (update (poseidon_hasher X) u256_value t k 0 ≡ some t')
        × IsConsistent words t'
        × ((j : ℕ) → stored words t' j ≡ 0)
  update-nothing t k small c nothing =
      let (t', run, c', at) = update-stored words t k 0 small c in
      (t', run, c', λ j. ground (arith, at j, nothing j))

  -- One leaf, with nothing else.
  root-one :
      (t : MerkleTree ℕ) (k a : ℕ)
      → k < u256_size
      → IsConsistent words t
      → ((j : ℕ) → stored words t j ≡ ite (ℕ_discrete j k) a 0)
      → root_hash (poseidon_hasher X) t ≡ some a
  root-one t k a small c at =
      let own : stored words t k ≡ a = ground (arith, at k) in
      root_hash-one_leaf words t c k small (λ j l n. ground (arith, at j, n)) ∙ ap some own

  -- The leaves 0 and 1, with nothing else.
  root-pair :
      (t : MerkleTree ℕ) (a b : ℕ)
      → IsConsistent words t
      → ((k : ℕ) → stored words t k ≡ ite (ℕ_discrete k 1) b (ite (ℕ_discrete k 0) a 0))
      → a ≢ 0
      → b ≢ 0
      → root_hash (poseidon_hasher X) t ≡ some (pair text pairs a b)
  unfolding merge
  root-pair t a b c at ha hb =
      let q = replicate 255 false in
      let two = root_hash-siblings words t c q refl (λ p l n m.
        let n₀ : of_bits p ≢ 0 = λ e. n (of_bits_injective p (false ∷ q) l e) in
        let n₁ : of_bits p ≢ 1 = λ e. m (of_bits_injective p (true ∷ q) l e) in
        ground (arith, at (of_bits p), n₀, n₁)) in
      two ∙ ap some (ground (arith, at 0, at 1, ha, hb))

  module _ (nonzero : (x y : ℕ) → pair text pairs x y ≢ 0) where
    -- If the hash of two numbers is never zero: the roots of the test are 0 as long as the tree holds
    -- only zeros, and after both deletions again; with a 1 at the key 0 the root is that leaf's hash,
    -- with a 7 at the key 1 also it is the hash of the two leaves, and without the first it is the
    -- second leaf's hash.
    zero_and_nonexisting_is_same_test-passes :
        zero_and_nonexisting_is_same_test X
        ≡ some (
            0
            ∷ 0
            ∷ 0
            ∷ 0
            ∷ pair text pairs 0 1
            ∷ pair text pairs (pair text pairs 0 1) (pair text pairs 1 7)
            ∷ pair text pairs 1 7
            ∷ 0
            ∷ [])
    unfolding zero_and_nonexisting_is_same_test
    zero_and_nonexisting_is_same_test-passes =
        let h = pair text pairs in
        let c₀ = empty-IsConsistent words in
        let (t₁, r₁, c₁, s₁) = update-nothing empty 1 (omega arith) c₀ (stored-empty words) in
        let (t₂, r₂, c₂, s₂) = update-nothing t₁ 0 (omega arith) c₁ s₁ in
        let (t₃, r₃, c₃, s₃) = update-nothing t₂ 23 (omega arith) c₂ s₂ in
        let (t₄, r₄, c₄, at₄) = update-stored words t₃ 0 1 (omega arith) c₃ in
        let s₄ : (k : ℕ) → stored words t₄ k ≡ ite (ℕ_discrete k 0) (h 0 1) 0 =
          λ k. ground (arith, at₄ k, s₃ k) in
        let (t₅, r₅, c₅, at₅) = update-stored words t₄ 1 7 (omega arith) c₄ in
        let s₅ : (k : ℕ)
            → stored words t₅ k ≡ ite (ℕ_discrete k 1) (h 1 7) (ite (ℕ_discrete k 0) (h 0 1) 0) =
          λ k. ground (arith, at₅ k, s₄ k) in
        let (t₆, r₆, c₆, at₆) = delete-stored words t₅ 0 (omega arith) c₅ in
        let s₆ : (k : ℕ) → stored words t₆ k ≡ ite (ℕ_discrete k 1) (h 1 7) 0 =
          λ k. ground (arith, at₆ k, s₅ k) in
        let (t₇, r₇, c₇, at₇) = delete-stored words t₆ 1 (omega arith) c₆ in
        let s₇ : (k : ℕ) → stored words t₇ k ≡ 0 = λ k. ground (arith, at₇ k, s₆ k) in
        rw
          (
            root-nothing empty c₀ (stored-empty words),
            r₁,
            root-nothing t₁ c₁ s₁,
            r₂,
            root-nothing t₂ c₂ s₂,
            r₃,
            root-nothing t₃ c₃ s₃,
            r₄,
            root-one t₄ 0 (h 0 1) (omega arith) c₄ s₄,
            r₅,
            root-pair t₅ (h 0 1) (h 1 7) c₅ s₅ (nonzero 0 1) (nonzero 1 7),
            r₆,
            root-one t₆ 1 (h 1 7) (omega arith) c₆ s₆,
            r₇,
            root-nothing t₇ c₇ s₇,
          )
          refl
