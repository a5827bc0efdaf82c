-- ===== src/Examples/Trees.antt =====
-- The theorems on the tree, at a tree of numbers.
use fusion_zksnark_circle.Base.{
  ℕ, ◌<◌, ◌≡◌, inl, inr, refl, ◌∙◌, true, false, ite, some, none, List, [], ◌∷◌, length, replicate,
  ℕ_discrete, u256_size, of_bits, arith,
}
use fusion_zksnark_circle.Base.BTreeMap
use fusion_zksnark_circle.Merkle.BranchKey.{path_to_root}
use fusion_zksnark_circle.Merkle.Tree.{
  MerkleTree, get, empty, update, proof, root_hash, verify_proof,
}
use fusion_zksnark_circle.Merkle.Sparse.{IsConsistent, subtree, stored}
use fusion_zksnark_circle.Merkle.Paths.{key, keys, path_to_root-key}
use fusion_zksnark_circle.Merkle.Operations.{
  update-IsConsistent, empty-IsConsistent, root_hash-subtree,
}
use fusion_zksnark_circle.Merkle.Verify.{Holds, verify_proof-proof, verify_proof-zero}
use fusion_zksnark_circle.Merkle.Binding.{verify_proof-binding}
use fusion_zksnark_circle.Merkle.History.{
  Change, AllSmall, put, clear, described, replay, replay-described, root_hash-described, word,
}
use fusion_zksnark_circle.Examples.Cantor.{
  cantor, cantor_hasher, u256_value, cantor_total, cantor-CollisionFree,
}

abbrev changes : List (Change ℕ)
changes = put 1 5 ∷ put 2 7 ∷ clear 1 ∷ put 3 0 ∷ []

abbrev fewer_changes : List (Change ℕ)
fewer_changes = put 2 7 ∷ []

changes-AllSmall : AllSmall changes
changes-AllSmall = (omega arith, (omega arith, (omega arith, (omega arith, tt))))

fewer_changes-AllSmall : AllSmall fewer_changes
fewer_changes-AllSmall = (omega arith, tt)

replay-described_example :
    (t' : MerkleTree ℕ) × (replay cantor_hasher u256_value changes empty ≡ some t')
    × IsConsistent cantor_total t'
    × ((k : ℕ) → get t' k ≡ described changes (get empty) k)
replay-described_example =
    replay-described cantor_total changes empty changes-AllSmall (empty-IsConsistent cantor_total)

-- The tree that holds 5 at key 1, and then 7 at key 2 also.
abbrev one_leaf :
    (t : MerkleTree ℕ) × (update cantor_hasher u256_value empty 1 5 ≡ some t)
    × IsConsistent cantor_total t
    × ((j : ℕ) → get t j ≡ ite (ℕ_discrete j 1) (some 5) (get empty j))
one_leaf =
    update-IsConsistent cantor_total empty 1 5 (omega arith) (empty-IsConsistent cantor_total)

abbrev two_leaves :
    (t : MerkleTree ℕ) × (update cantor_hasher u256_value one_leaf.0 2 7 ≡ some t)
    × IsConsistent cantor_total t
    × ((j : ℕ) → get t j ≡ ite (ℕ_discrete j 2) (some 7) (get one_leaf.0 j))
two_leaves = update-IsConsistent cantor_total one_leaf.0 2 7 (omega arith) one_leaf.2

update-IsConsistent_example :
    (t : MerkleTree ℕ) × (update cantor_hasher u256_value one_leaf.0 2 7 ≡ some t)
    × IsConsistent cantor_total t
    × ((j : ℕ) → get t j ≡ ite (ℕ_discrete j 2) (some 7) (get one_leaf.0 j))
update-IsConsistent_example =
    update-IsConsistent cantor_total one_leaf.0 2 7 (omega arith) one_leaf.2

abbrev root : ℕ
root = subtree cantor (λ p. stored cantor_total two_leaves.0 (of_bits p)) 256 []

root_hash-subtree_example : root_hash cantor_hasher two_leaves.0 ≡ some root
unfolding cantor_total
root_hash-subtree_example = root_hash-subtree cantor_total two_leaves.0 two_leaves.2

root-two_leaves : root_hash cantor_hasher two_leaves.0 ≡ some root
unfolding cantor_total
root-two_leaves = root_hash-subtree cantor_total two_leaves.0 two_leaves.2

seven_held : Holds cantor_total two_leaves.0 2 7
unfolding ℕ_discrete
seven_held = inl (two_leaves.3 2)

nothing_held : Holds cantor_total two_leaves.0 3 0
unfolding get cantor_total ℕ_discrete BTreeMap.get
nothing_held = inr (two_leaves.3 3 ∙ one_leaf.3 3, refl)

abbrev proof_of_seven :
    (items : List ℕ) × (proof two_leaves.0 2 ≡ some items)
    × (length items ≡ 256)
    × (verify_proof cantor_hasher u256_value root 2 7 items ≡ some true)
proof_of_seven =
    verify_proof-proof cantor_total two_leaves.0 2 root 7 (omega arith) two_leaves.2 root-two_leaves
      seven_held

verify_proof-proof_example :
    (items : List ℕ) × (proof two_leaves.0 3 ≡ some items)
    × (length items ≡ 256)
    × (verify_proof cantor_hasher u256_value root 3 0 items ≡ some true)
verify_proof-proof_example =
    verify_proof-proof cantor_total two_leaves.0 3 root 0 (omega arith) two_leaves.2 root-two_leaves
      nothing_held

-- The proof of the 7 is rejected for an 8.
verify_proof-binding_example :
    verify_proof cantor_hasher u256_value root 2 8 proof_of_seven.0 ≡ some false
unfolding cantor_total
verify_proof-binding_example =
    verify_proof-binding cantor_total root 2 7 8 proof_of_seven.0 (cantor-CollisionFree _ _)
      (omega arith) (omega arith) (λ e. omega (arith, e)) proof_of_seven.3

verify_proof-zero_example :
    verify_proof cantor_hasher u256_value 12345 9 0 (12345 ∷ replicate 255 0) ≡ some true
unfolding cantor_total
verify_proof-zero_example = verify_proof-zero cantor_total 12345 9 0 refl

same_words :
    (k : ℕ)
    → k < u256_size
    → word cantor_total (described changes (λ _. none) k)
      ≡ word cantor_total (described fewer_changes (λ _. none) k)
unfolding described word cantor_total
same_words k small = grind arith

root_hash-described_example :
    (t u : MerkleTree ℕ) × (replay cantor_hasher u256_value changes empty ≡ some t)
    × (replay cantor_hasher u256_value fewer_changes empty ≡ some u)
    × (root_hash cantor_hasher t ≡ root_hash cantor_hasher u)
root_hash-described_example =
    root_hash-described cantor_total changes fewer_changes changes-AllSmall fewer_changes-AllSmall
      same_words

path_to_root-key_example :
    path_to_root (key 254 (true ∷ false ∷ [])) ≡ some (keys 254 (true ∷ false ∷ []))
path_to_root-key_example = path_to_root-key 254 true (false ∷ []) refl
