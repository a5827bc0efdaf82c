-- ===== src/Merkle/Single.antt =====
-- The proofs of a tree of one leaf.
use mathlib.Core.List.{reverse_aux}
use fusion_zksnark_circle.Base.{
  ℕ, ◌+◌, ◌<◌, ◌≡◌, ◌≢◌, refl, sym, ap, ◌∙◌, Bool, true, false, not, some, List, [], ◌∷◌, length,
  of_bits, of_bits-lt, replicate, ◌==◌, u256_size, arith,
}
use fusion_zksnark_circle.Merkle.BranchKey.{to_bitmap}
use fusion_zksnark_circle.Merkle.Paths.{key, length-to_bitmap, to_bitmap-of_bits}
use fusion_zksnark_circle.Merkle.Tree.{Hasher, Value, MerkleTree, branch_hash, proof, verify_proof}
use fusion_zksnark_circle.Merkle.Sparse.{Total, subtree, subtree-leaf, stored, IsConsistent}
use fusion_zksnark_circle.Merkle.Operations.{leaf_value}
use fusion_zksnark_circle.Merkle.Focus.{length-reverse_aux, reverse_aux_cancel, subtree-off}
use fusion_zksnark_circle.Merkle.Proofs.{siblings, proof-siblings, verify_proof-fold_path}
use fusion_zksnark_circle.Merkle.Verify.{fold_path-zeros}

not-ne : (b : Bool) → not b ≢ b
not-ne true e = cc
not-ne false e = cc

module _ {S T : Type 0} {H : Hasher S} {V : Value T} (total : Total H V) (t : MerkleTree T)
    (c : IsConsistent total t) (k : ℕ)
    (others : (j : ℕ) → j < u256_size → j ≢ k → stored total t j ≡ 0) where
  beside_zero :
      (r p : List Bool) (b : Bool)
      → reverse_aux r (b ∷ p) ≡ to_bitmap k
      → branch_hash t (key (length r) (not b ∷ p)) ≡ 0
  beside_zero r p b e =
      let f = λ (q : List Bool). stored total t (of_bits q) in
      let long : length r + length (b ∷ p) ≡ 256 =
        sym (length-reverse_aux r (b ∷ p)) ∙ ap length e ∙ length-to_bitmap k in
      let off = subtree-off total.hash f 0 (length r) (not b ∷ p) (λ s l.
        let node = reverse_aux s (not b ∷ p) in
        let wide : length node ≡ 256 = length-reverse_aux s (not b ∷ p) ∙ omega (arith, l, long) in
        subtree-leaf total.hash f node
        ∙ others (of_bits node) (rw wide at (of_bits-lt node)) (λ q.
          let same : node ≡ reverse_aux r (b ∷ p) =
            sym (to_bitmap-of_bits node wide) ∙ ap to_bitmap q ∙ sym e in
          let under : not b ∷ p ≡ b ∷ p = reverse_aux_cancel s r (not b ∷ p) (b ∷ p) l same in
          let tops : not b ≡ b = cc in not-ne b tops)) in
      let up : length r + 0 ≡ length r = omega arith in
      c.represents (length r) (not b) p (omega (arith, long))
      ∙ ap (λ n. subtree total.hash f n (not b ∷ p)) (sym up)
      ∙ off

  siblings_zero :
      (r p : List Bool)
      → reverse_aux r p ≡ to_bitmap k
      → siblings t (length r) p ≡ replicate (length p) 0
  unfolding siblings
  siblings_zero r [] e = refl
  siblings_zero r (b ∷ p) e = rw (beside_zero r p b e, siblings_zero (b ∷ r) p e) refl

  -- A tree of one leaf gives 256 zeros for that leaf's proof, and with them `verify_proof` accepts a
  -- value at any key exactly if its leaf hash is the root.
  pub verify_proof-single :
      (root : ℕ)
      → (proof t k ≡ some (replicate 256 0))
        × ((j : ℕ) (v : T)
            → verify_proof H V root j v (replicate 256 0) ≡ some (leaf_value total j v == root))
  verify_proof-single root =
      let zeros : siblings t 0 (to_bitmap k) ≡ replicate 256 0 =
        siblings_zero [] (to_bitmap k) refl ∙ ap (λ n. replicate n 0) (length-to_bitmap k) in
      (
        proof-siblings t k ∙ ap some zeros,
        λ j v.
            verify_proof-fold_path total root j v (replicate 256 0)
            ∙ ap (λ n. some (n == root))
                (fold_path-zeros total.hash (leaf_value total j v) 256 (to_bitmap j)),
      )
