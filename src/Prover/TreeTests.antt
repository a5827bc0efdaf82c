-- ===== src/Prover/TreeTests.antt =====
-- The unit tests of the tree with Poseidon and words (fusion-prover/src/merkle_tree.rs). A test returns
-- the values that it makes assertions of.
use fusion_zksnark_circle.Base.{ℕ, ◌-◌, Bool, Option, some, List, [], ◌∷◌, ◌>>=◌, length, u256_size}
use fusion_zksnark_circle.Types.External.{External}
use fusion_zksnark_circle.Merkle.BranchKey.{BranchKey, for_leaf, sibling, path_to_root}
use fusion_zksnark_circle.Merkle.Tree.{
  Value, MerkleTree, empty, update, delete, root_hash, proof, verify_proof,
}
use fusion_zksnark_circle.Prover.Poseidon.{poseidon_hasher}

-- `impl Value for U256`
abbrev pub u256_value : Value ℕ
u256_value = record { to_u256 = some; zero = 0 }

-- The pairs of keys that are compared.
unfoldable pub siblings_test : Option (List (BranchKey × BranchKey))
siblings_test = do
  zero ← for_leaf 0
  one ← for_leaf 1
  sib ← sibling zero
  six ← for_leaf 6
  seven ← for_leaf 7
  six_sib ← sibling six
  last ← for_leaf (u256_size - 1)
  second_last ← for_leaf (u256_size - 2)
  last_sib ← sibling last
  some ((one, sib) ∷ (seven, six_sib) ∷ (second_last, last_sib) ∷ [])

unfoldable pub iterator_length_test : Option ℕ
iterator_length_test = do leaf ← for_leaf 0; path ← path_to_root leaf; some (length path)

module _ (X : External) where
  -- The root after each change.
  unfoldable pub zero_and_nonexisting_is_same_test : Option (List ℕ)
  zero_and_nonexisting_is_same_test = do
    let H = poseidon_hasher X
    let tree_0 : MerkleTree ℕ = empty
    empty_root_hash ← root_hash H tree_0
    tree_1 ← update H u256_value tree_0 1 0
    root_1 ← root_hash H tree_1
    tree_2 ← update H u256_value tree_1 0 0
    root_2 ← root_hash H tree_2
    tree_3 ← update H u256_value tree_2 23 0
    root_3 ← root_hash H tree_3
    tree_4 ← update H u256_value tree_3 0 1
    something_at_zero ← root_hash H tree_4
    tree_5 ← update H u256_value tree_4 1 7
    something_at_one_and_zero ← root_hash H tree_5
    tree_6 ← delete H tree_5 0
    something_at_one ← root_hash H tree_6
    tree_7 ← delete H tree_6 1
    root_7 ← root_hash H tree_7
    some (
        empty_root_hash ∷ root_1 ∷ root_2 ∷ root_3 ∷ something_at_zero ∷ something_at_one_and_zero
        ∷ something_at_one ∷ root_7 ∷ [])

  -- The proof's length and the verdict.
  unfoldable pub empty_proof_test : Option (ℕ × Bool)
  empty_proof_test = do
    let H = poseidon_hasher X
    let tree : MerkleTree ℕ = empty
    items ← proof tree 1
    root ← root_hash H tree
    verdict ← verify_proof H u256_value root 1 0 items
    some (length items, verdict)

  -- The proof's length and the verdicts.
  unfoldable pub single_item_proof_test : Option (ℕ × List Bool)
  single_item_proof_test = do
    let H = poseidon_hasher X
    tree ← update H u256_value empty 1 7
    items ← proof tree 1
    root ← root_hash H tree
    verdict ← verify_proof H u256_value root 1 7 items
    wrong_value ← verify_proof H u256_value root 1 8 items
    wrong_key ← verify_proof H u256_value root 0 7 items
    some (length items, verdict ∷ wrong_value ∷ wrong_key ∷ [])

  -- The verdict on a value at a key, for the tree's own proof.
  unfoldable pub verdict_of : MerkleTree ℕ → ℕ → ℕ → ℕ → Option Bool
  verdict_of tree root key value = do
    items ← proof tree key
    verify_proof (poseidon_hasher X) u256_value root key value items

  unfoldable pub multiple_items_proof_test : Option (List Bool)
  unfolding verdict_of
  multiple_items_proof_test = do
    let H = poseidon_hasher X
    tree_1 ← update H u256_value empty 0 1
    tree_2 ← update H u256_value tree_1 1 2
    tree ← update H u256_value tree_2 12 3
    root ← root_hash H tree
    at_0 ← verdict_of tree root 0 1
    at_1 ← verdict_of tree root 1 2
    at_11 ← verdict_of tree root 11 0
    at_12 ← verdict_of tree root 12 3
    some (at_0 ∷ at_1 ∷ at_11 ∷ at_12 ∷ [])
