-- ===== src/Prover/KeyLaws.antt =====
-- The unit tests of branch keys pass (fusion-prover/src/merkle_tree.rs).
use fusion_zksnark_circle.Base.{
  ℕ, suc, ◌≡◌, ◌^◌, ◌-◌, refl, ap, ◌∙◌, true, false, some, List, [], ◌∷◌, length, Bool, bits, arith,
}
use fusion_zksnark_circle.Merkle.BranchKey.{BranchKey, to_bitmap}
use fusion_zksnark_circle.Merkle.Paths.{
  key, keys, for_leaf-key, path_to_root-leaf, length-to_bitmap,
}
use fusion_zksnark_circle.Merkle.Neighbours.{sibling-for_leaf}
use fusion_zksnark_circle.Prover.TreeTests.{siblings_test, iterator_length_test}

-- Every pair that the test compares is a pair of equal keys.
siblings_test-passes :
    (one seven second_last : BranchKey) × (siblings_test
      ≡ some ((one, one) ∷ (seven, seven) ∷ (second_last, second_last) ∷ []))
unfolding siblings_test
siblings_test-passes =
    let (leaf_0, leaf_1, sib_0, back_0) = sibling-for_leaf 0 (omega arith) in
    let (leaf_6, leaf_7, sib_6, back_6) = sibling-for_leaf 3 (omega arith) in
    let (leaf_e, leaf_o, sib_e, back_o) = sibling-for_leaf (2 ^ 255 - 1) (omega arith) in
    (
      key 0 (true ∷ bits 255 0),
      key 0 (true ∷ bits 255 3),
      key 0 (false ∷ bits 255 (2 ^ 255 - 1)),
      rw (leaf_0, leaf_1, sib_0, leaf_6, leaf_7, sib_6, leaf_e, leaf_o, back_o) refl,
    )

length-keys : (h : ℕ) (p : List Bool) → length (keys h p) ≡ length p
length-keys h [] = refl
length-keys h (b ∷ p) = ap suc (length-keys (suc h) p)

iterator_length_test-passes : iterator_length_test ≡ some 256
unfolding iterator_length_test
iterator_length_test-passes =
    rw (for_leaf-key 0, path_to_root-leaf 0)
      (ap some (length-keys 0 (to_bitmap 0) ∙ length-to_bitmap 0))
