-- ===== src/Merkle/Refresh.antt =====
-- `update` and `delete` keep the stored hashes in agreement with the stored leaves.
use fusion_zksnark_circle.Base.{
  ℕ, suc, ◌+◌, ◌≡◌, inl, inr, refl, ◌∙◌, Bool, true, false, if_pos, if_neg, some, List, [], ◌∷◌,
  length, arith,
}
use fusion_zksnark_circle.Merkle.BranchKey.{BranchKey, BranchKey-discrete}
use fusion_zksnark_circle.Merkle.Paths.{key, keys, left_child-key, right_child-key}
use fusion_zksnark_circle.Merkle.Tree.{
  Hasher, Value, MerkleTree, branch_hash, set_branch, merge_nodes, refresh,
}
use fusion_zksnark_circle.Merkle.Sparse.{
  Total, subtree, OnPath, le_of_OnPath, branch_hash-set_branch, key_injective, merge_hashes-merge,
}

leaves-set_branch :
    {T : Type 0} (t : MerkleTree T) (k : BranchKey) (v : ℕ) → (set_branch t k v).leaves ≡ t.leaves
unfolding set_branch
leaves-set_branch t k v = ground arith

below-OnPath : (g : ℕ) (p q : List Bool) → ¬ OnPath (suc g) p g q
below-OnPath g p q o = absurd (omega (arith, le_of_OnPath (suc g) p g q o))

module _ {S T : Type 0} {H : Hasher S} {V : Value T} (total : Total H V) where
  -- The nodes that are not on the path have the hash of the full tree over `f`.
  abbrev pub Agrees : (List Bool → ℕ) → ℕ → List Bool → MerkleTree T → Type 0
  Agrees f h p t =
      (g : ℕ) (b : Bool) (q : List Bool)
      → g + length (b ∷ q) ≡ 256
      → ¬ OnPath h p g (b ∷ q)
      → branch_hash t (key g (b ∷ q)) ≡ subtree total.hash f g (b ∷ q)

  pub merge_nodes-subtree :
      (f : List Bool → ℕ) (g : ℕ) (p : List Bool) (t : MerkleTree T)
      → suc g + length p ≡ 256
      → Agrees f (suc g) p t
      → merge_nodes H t (key g (false ∷ p)) (key g (true ∷ p))
        ≡ some (subtree total.hash f (suc g) p)
  unfolding merge_nodes subtree
  merge_nodes-subtree f g p t l a =
      rw
        (
          a g false p (omega arith) (below-OnPath g p (false ∷ p)),
          a g true p (omega arith) (below-OnPath g p (true ∷ p)),
        )
        (merge_hashes-merge total _ _)

  -- Once a node on the path is set, the nodes above it are left.
  step-Agrees :
      (f : List Bool → ℕ) (g : ℕ) (c : Bool) (p : List Bool) (t : MerkleTree T)
      → Agrees f (suc g) (c ∷ p) t
      → Agrees f
          (suc (suc g))
          p
          (set_branch t (key (suc g) (c ∷ p)) (subtree total.hash f (suc g) (c ∷ p)))
  step-Agrees f g c p t a j b q m off =
      let node = key (suc g) (c ∷ p) in
      rw (branch_hash-set_branch t node (key j (b ∷ q)) (subtree total.hash f (suc g) (c ∷ p)))
        (elim (BranchKey-discrete (key j (b ∷ q)) node) [
          | yes e ↦
              let (height, path) = key_injective j (suc g) (b ∷ q) (c ∷ p) e in
              rw (if_pos _ e, height, path)
          | no n ↦
              rw (if_neg _ n)
                (a j b q m (elim [ inl (height, path) ↦ n (rw (height, path)) | inr o ↦ off o ]))
        ])

  pub refresh-Agrees :
      (f : List Bool → ℕ) (g : ℕ) (p : List Bool) (t : MerkleTree T)
      → suc g + length p ≡ 256
      → Agrees f (suc g) p t
      → (t' : MerkleTree T) × (refresh H (keys (suc g) p) t ≡ some t')
        × (t'.leaves ≡ t.leaves)
        × Agrees f 0 [] t'
  unfolding refresh
  refresh-Agrees f g [] t l a = (t, refl, refl, a)
  refresh-Agrees f g (c ∷ p) t l a =
      let v = subtree total.hash f (suc g) (c ∷ p) in
      let node = key (suc g) (c ∷ p) in
      let (t', run, kept, all) =
        refresh-Agrees f (suc g) p (set_branch t node v) (omega arith) (step-Agrees f g c p t a) in
      (
        t',
        rw
            (
              left_child-key g (c ∷ p),
              right_child-key g (c ∷ p),
              merge_nodes-subtree f g (c ∷ p) t l a,
            )
            run,
        kept ∙ leaves-set_branch t node v,
        all,
      )
