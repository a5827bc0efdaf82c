-- ===== src/Prover/ProofLaws.antt =====
-- The unit tests of proofs in the tree pass (fusion-prover/src/merkle_tree.rs).
use fusion_zksnark_circle.Base.{
  ℕ, ◌<◌, ◌≡◌, ◌≢◌, refl, ap, ◌∙◌, inl, inr, true, false, some, [], ◌∷◌, ◌==◌, ==_refl, ℕ_discrete,
  u256_size, arith,
}
use fusion_zksnark_circle.Base.BTreeMap
use fusion_zksnark_circle.Types.External.{External, FieldText, PoseidonPairs}
use fusion_zksnark_circle.Merkle.Tree.{MerkleTree, get, empty, root_hash}
use fusion_zksnark_circle.Merkle.Sparse.{stored, IsConsistent}
use fusion_zksnark_circle.Merkle.Operations.{
  root_hash-subtree, empty-IsConsistent, update-IsConsistent,
}
use fusion_zksnark_circle.Merkle.Confusion.{root_hash-one_leaf}
use fusion_zksnark_circle.Merkle.Stored.{stored-empty, update-stored}
use fusion_zksnark_circle.Merkle.Single.{verify_proof-single}
use fusion_zksnark_circle.Merkle.Verify.{Holds, verify_proof-proof}
use fusion_zksnark_circle.Prover.Poseidon.{pair, poseidon_hasher}
use fusion_zksnark_circle.Prover.TreeTests.{
  empty_proof_test, single_item_proof_test, verdict_of, multiple_items_proof_test,
}
use fusion_zksnark_circle.Prover.TreeLaws.{words}

module _ {X : External} (text : FieldText X) (pairs : PoseidonPairs X) where
  empty_proof_test-passes : empty_proof_test X ≡ some (256, true)
  unfolding empty_proof_test get BTreeMap.get
  empty_proof_test-passes =
      let w = words text pairs in
      let c = empty-IsConsistent w in
      let rooted = root_hash-subtree w empty c in
      let (items, shown, long, accepted) =
        verify_proof-proof w empty 1 _ 0 (omega arith) c rooted (inr (refl, refl)) in
      rw (shown, rooted, accepted, long) refl

  different : (a b : ℕ) → a ≢ b → (a == b) ≡ false
  different a b h = ground (arith, h)

  -- If Poseidon has different hashes for the pairs (1, 7), (1, 8) and (0, 7): the proof of the one
  -- item has 256 items, and is accepted for the item, but not for the wrong value or the wrong key.
  single_item_proof_test-passes :
      pair text pairs 1 8 ≢ pair text pairs 1 7
      → pair text pairs 0 7 ≢ pair text pairs 1 7
      → single_item_proof_test X ≡ some (256, true ∷ false ∷ false ∷ [])
  unfolding single_item_proof_test
  single_item_proof_test-passes other_value other_key =
      let w = words text pairs in
      let (t, run, c, at) = update-stored w empty 1 7 (omega arith) (empty-IsConsistent w) in
      let others : (j : ℕ) → j < u256_size → j ≢ 1 → stored w t j ≡ 0 =
        λ j m n. ground (arith, at j, n, stored-empty w j) in
      let own : stored w t 1 ≡ pair text pairs 1 7 = ground (arith, at 1) in
      let rooted = root_hash-one_leaf w t c 1 (omega arith) others ∙ ap some own in
      let (shown, verdicts) = verify_proof-single w t c 1 others (pair text pairs 1 7) in
      rw
        (
          run,
          shown,
          rooted,
          verdicts 1 7,
          verdicts 1 8,
          verdicts 0 7,
          ==_refl (pair text pairs 1 7),
          different (pair text pairs 1 8) (pair text pairs 1 7) other_value,
          different (pair text pairs 0 7) (pair text pairs 1 7) other_key,
        )
        refl

  verdict_of-Holds :
      (t : MerkleTree ℕ) (root k v : ℕ)
      → IsConsistent (words text pairs) t
      → root_hash (poseidon_hasher X) t ≡ some root
      → k < u256_size
      → Holds (words text pairs) t k v
      → verdict_of X t root k v ≡ some true
  unfolding verdict_of
  verdict_of-Holds t root k v c rooted small at =
      let (items, shown, long, accepted) =
        verify_proof-proof (words text pairs) t k root v small c rooted at in
      rw shown accepted

  -- Every proof of the test is accepted: for the three items of the tree, and for a zero at a key
  -- where it has none.
  multiple_items_proof_test-passes :
      multiple_items_proof_test X ≡ some (true ∷ true ∷ true ∷ true ∷ [])
  unfolding multiple_items_proof_test get BTreeMap.get ℕ_discrete
  multiple_items_proof_test-passes =
      let w = words text pairs in
      let (t₁, r₁, c₁, at₁) =
        update-IsConsistent w empty 0 1 (omega arith) (empty-IsConsistent w) in
      let (t₂, r₂, c₂, at₂) = update-IsConsistent w t₁ 1 2 (omega arith) c₁ in
      let (t, r, c, at) = update-IsConsistent w t₂ 12 3 (omega arith) c₂ in
      let rooted = root_hash-subtree w t c in
      let verdict = λ (k v : ℕ) (small : k < u256_size) (h : Holds w t k v).
        verdict_of-Holds t _ k v c rooted small h in
      rw
        (
          r₁,
          r₂,
          r,
          rooted,
          verdict 0 1 (omega arith) (inl (at 0 ∙ at₂ 0 ∙ at₁ 0)),
          verdict 1 2 (omega arith) (inl (at 1 ∙ at₂ 1)),
          verdict 11 0 (omega arith) (inr (at 11 ∙ at₂ 11 ∙ at₁ 11, refl)),
          verdict 12 3 (omega arith) (inl (at 12)),
        )
        refl
