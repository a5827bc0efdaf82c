-- ===== src/Merkle/Verify.antt =====
-- What `verify_proof` accepts.
use fusion_zksnark_circle.Base.{
  some_injective, cons_of_length, ℕ, zero, suc, ◌<◌, ◌≡◌, ◌⊎◌, refl, sym, ap, ◌∙◌, Bool, true, none,
  some, List, [], ◌∷◌, length, of_bits, if◌then◌else◌, replicate, u256_size, arith, ==_refl,
}
use fusion_zksnark_circle.Merkle.BranchKey.{to_bitmap}
use fusion_zksnark_circle.Merkle.Paths.{length-to_bitmap, of_bits-to_bitmap}
use fusion_zksnark_circle.Merkle.Tree.{
  Hasher, Value, MerkleTree, get, root_hash, proof, verify_proof,
}
use fusion_zksnark_circle.Merkle.Sparse.{Total, merge, subtree, subtree-leaf, stored, IsConsistent}
use fusion_zksnark_circle.Merkle.Operations.{root_hash-subtree, leaf_value}
use fusion_zksnark_circle.Merkle.Proofs.{
  fold_path, siblings, proof-siblings, length-siblings, verify_proof-fold_path, fold_path-siblings,
}

pub fold_path-zeros :
    (hash : ℕ → ℕ → ℕ) (r n : ℕ) (p : List Bool) → fold_path hash r p (replicate n 0) ≡ r
unfolding fold_path merge
fold_path-zeros hash r n [] = refl
fold_path-zeros hash r zero (b ∷ p) = refl
fold_path-zeros hash r (suc n) (b ∷ p) =
    let same : (if b then merge hash 0 r else merge hash r 0) ≡ r = ground arith in
    rw same (fold_path-zeros hash r n p)

fold_path-zero_leaf :
    (hash : ℕ → ℕ → ℕ) (r n : ℕ) (b : Bool) (p : List Bool)
    → fold_path hash 0 (b ∷ p) (r ∷ replicate n 0) ≡ r
unfolding fold_path merge
fold_path-zero_leaf hash r n b p =
    let same : (if b then merge hash r 0 else merge hash 0 r) ≡ r = ground arith in
    rw same (fold_path-zeros hash r n p)

module _ {S T : Type 0} {H : Hasher S} {V : Value T} (total : Total H V) where
  -- The value that a lookup stands for: an absent key counts as a value that is the word 0.
  abbrev pub Holds : MerkleTree T → ℕ → T → Type 0
  Holds t k v = (get t k ≡ some v) ⊎ ((get t k ≡ none) × (total.value v ≡ 0))

  leaf_value-stored :
      (t : MerkleTree T) (k : ℕ) (v : T) → Holds t k v → leaf_value total k v ≡ stored total t k
  unfolding stored
  leaf_value-stored t k v at = ground arith

  pub fold_path-root :
      (t : MerkleTree T) (k root : ℕ) (v : T)
      → k < u256_size
      → IsConsistent total t
      → root_hash H t ≡ some root
      → Holds t k v
      → fold_path total.hash (leaf_value total k v) (to_bitmap k) (siblings t 0 (to_bitmap k))
        ≡ root
  fold_path-root t k root v small c e at =
      let f = λ (p : List Bool). stored total t (of_bits p) in
      let start : leaf_value total k v ≡ subtree total.hash f 0 (to_bitmap k) =
        leaf_value-stored t k v at
        ∙ ap (stored total t) (sym (of_bits-to_bitmap k small))
        ∙ sym (subtree-leaf total.hash f (to_bitmap k)) in
      let top : subtree total.hash f 256 [] ≡ root =
        some_injective (sym (root_hash-subtree total t c) ∙ e) in
      rw start
        (fold_path-siblings total t 0 (to_bitmap k) c (omega (arith, length-to_bitmap k)) ∙ top)

  pub accepted :
      (root k : ℕ) (v : T) (items : List ℕ)
      → verify_proof H V root k v items ≡ some true
      → fold_path total.hash (leaf_value total k v) (to_bitmap k) items ≡ root
  accepted root k v items e =
      let said = sym (verify_proof-fold_path total root k v items) ∙ e in ground (arith, said)

  -- On a consistent tree `proof` does not panic; its 256 items are accepted by `verify_proof` against
  -- the tree's root, for the value that the tree holds at the key, and for a value that is the word 0
  -- where it holds none.
  pub verify_proof-proof :
      (t : MerkleTree T) (k root : ℕ) (v : T)
      → k < u256_size
      → IsConsistent total t
      → root_hash H t ≡ some root
      → Holds t k v
      → (items : List ℕ) × (proof t k ≡ some items)
        × (length items ≡ 256)
        × (verify_proof H V root k v items ≡ some true)
  verify_proof-proof t k root v small c e at =
      let items = siblings t 0 (to_bitmap k) in
      let long : length items ≡ 256 = length-siblings t 0 (to_bitmap k) ∙ length-to_bitmap k in
      (
        items,
        proof-siblings t k,
        long,
        rw (
          verify_proof-fold_path total root k v items,
          long,
          fold_path-root t k root v small c e at,
          ==_refl root,
        ),
      )

  verify_proof-zeros :
      (root k : ℕ) (v : T) (n : ℕ)
      → total.value v ≡ 0
      → suc (length {A = ℕ} (replicate n 0)) ≡ 256
      → verify_proof H V root k v (root ∷ replicate n 0) ≡ some true
  verify_proof-zeros root k v n z long =
      let (b, p, e) = cons_of_length 255 (to_bitmap k) (length-to_bitmap k) in
      rw (
        verify_proof-fold_path total root k v (root ∷ replicate n 0),
        long,
        z,
        e,
        fold_path-zero_leaf total.hash root n b p,
        ==_refl root,
      )

  -- Where hashing two words and reading a value as a word do not panic: whatever the key and the
  -- root, the proof that has the root beside the leaf and 0 above it is accepted for a value that
  -- is the word 0. Acceptance for such a value says nothing about the tree.
  pub verify_proof-zero :
      (root k : ℕ) (v : T)
      → total.value v ≡ 0
      → verify_proof H V root k v (root ∷ replicate 255 0) ≡ some true
  verify_proof-zero root k v z = verify_proof-zeros root k v 255 z refl
