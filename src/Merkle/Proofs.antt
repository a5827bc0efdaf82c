-- ===== src/Merkle/Proofs.antt =====
-- `proof` and `verify_proof`.
use fusion_zksnark_circle.Base.{
  ℕ, suc, ◌+◌, ◌≡◌, inl, inr, refl, ap, Bool, true, false, not, some, List, [], ◌∷◌, length,
  of_bits, ◌==◌, if◌then◌else◌, arith, Bool-cases,
}
use fusion_zksnark_circle.Merkle.BranchKey.{to_bitmap}
use fusion_zksnark_circle.Merkle.Paths.{
  key, keys, sibling-key, is_left_child-key, for_leaf-key, path_to_root-leaf,
}
use fusion_zksnark_circle.Merkle.Tree.{
  Hasher, Value, MerkleTree, branch_hash, climb, sibling_hashes, proof, verify_proof,
}
use fusion_zksnark_circle.Merkle.Sparse.{
  Total, merge, subtree, subtree-suc, stored, IsConsistent, merge_hashes-merge,
}
use fusion_zksnark_circle.Merkle.Operations.{leaf_value, leaf_hash-leaf_value}

-- The root that a leaf hash and the hashes beside its path give; a bit says that the node is a
-- right child.
unfoldable pub fold_path : (ℕ → ℕ → ℕ) → ℕ → List Bool → List ℕ → ℕ
fold_path hash node [] items = node
fold_path hash node (b ∷ p) [] = node
fold_path hash node (b ∷ p) (item ∷ items) =
    fold_path hash (if b then merge hash item node else merge hash node item) p items

-- The hashes beside the path.
unfoldable pub siblings : {T : Type 0} → MerkleTree T → ℕ → List Bool → List ℕ
siblings t h [] = []
siblings t h (b ∷ p) = branch_hash t (key h (not b ∷ p)) ∷ siblings t (suc h) p

sibling_hashes-keys :
    {T : Type 0} (t : MerkleTree T) (h : ℕ) (p : List Bool)
    → sibling_hashes t (keys h p) ≡ some (siblings t h p)
unfolding sibling_hashes siblings
sibling_hashes-keys t h [] = refl
sibling_hashes-keys t h (b ∷ p) = rw (sibling-key h b p, sibling_hashes-keys t (suc h) p)

pub length-siblings :
    {T : Type 0} (t : MerkleTree T) (h : ℕ) (p : List Bool) → length (siblings t h p) ≡ length p
unfolding siblings
length-siblings t h [] = refl
length-siblings t h (b ∷ p) = ap suc (length-siblings t (suc h) p)

pub proof-siblings :
    {T : Type 0} (t : MerkleTree T) (k : ℕ) → proof t k ≡ some (siblings t 0 (to_bitmap k))
unfolding proof
proof-siblings t k =
    rw (for_leaf-key k, path_to_root-leaf k) (sibling_hashes-keys t 0 (to_bitmap k))

module _ {S T : Type 0} {H : Hasher S} {V : Value T} (total : Total H V) where
  climb-keys :
      (node h : ℕ) (p : List Bool) (items : List ℕ)
      → climb H node items (keys h p) ≡ some (fold_path total.hash node p items)
  unfolding climb fold_path
  climb-keys node h [] [] = refl
  climb-keys node h [] (item ∷ items) = refl
  climb-keys node h (b ∷ p) [] = refl
  climb-keys node h (true ∷ p) (item ∷ items) = rw (
    is_left_child-key h true p,
    merge_hashes-merge total item node,
    climb-keys (merge total.hash item node) (suc h) p items,
  )
  climb-keys node h (false ∷ p) (item ∷ items) = rw (
    is_left_child-key h false p,
    merge_hashes-merge total node item,
    climb-keys (merge total.hash node item) (suc h) p items,
  )

  -- Where hashing two words and reading a value as a word do not panic: `verify_proof` does not
  -- panic. It says whether the proof has 256 items and folding it over the bits of the key, from
  -- the leaf's hash, gives the root.
  pub verify_proof-fold_path :
      (root k : ℕ) (v : T) (items : List ℕ)
      → verify_proof H V root k v items
        ≡ some (
            if length items == 256
            then fold_path total.hash (leaf_value total k v) (to_bitmap k) items == root
            else false)
  unfolding verify_proof
  verify_proof-fold_path root k v items = elim (Bool-cases (length items == 256)) [
    | inl e ↦ rw (
      e,
      leaf_hash-leaf_value total k v,
      for_leaf-key k,
      path_to_root-leaf k,
      climb-keys (leaf_value total k v) 0 (to_bitmap k) items,
    )
    | inr e ↦ rw e
  ]

  pub fold_path-siblings :
      (t : MerkleTree T) (h : ℕ) (p : List Bool)
      → IsConsistent total t
      → h + length p ≡ 256
      → fold_path total.hash
          (subtree total.hash (λ q. stored total t (of_bits q)) h p)
          p
          (siblings t h p)
        ≡ subtree total.hash (λ q. stored total t (of_bits q)) 256 []
  unfolding fold_path siblings
  fold_path-siblings t h [] c l =
      let top : h ≡ 256 = omega arith in
      ap (λ n. subtree total.hash (λ q. stored total t (of_bits q)) n []) top
  fold_path-siblings t h (true ∷ p) c l =
      let f = λ (q : List Bool). stored total t (of_bits q) in
      rw (c.represents h false p l, ← subtree-suc total.hash f h p)
        (fold_path-siblings t (suc h) p c (omega arith))
  fold_path-siblings t h (false ∷ p) c l =
      let f = λ (q : List Bool). stored total t (of_bits q) in
      rw (c.represents h true p l, ← subtree-suc total.hash f h p)
        (fold_path-siblings t (suc h) p c (omega arith))
