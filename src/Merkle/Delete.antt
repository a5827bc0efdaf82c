-- ===== src/Merkle/Delete.antt =====
-- `MerkleTree::delete`.
use fusion_zksnark_circle.Base.{
  ℕ, ◌<◌, ◌≡◌, refl, sym, ◌∙◌, ite, if_pos, if_neg, none, some, ℕ_discrete, arith, u256_size,
}
use fusion_zksnark_circle.Base.BTreeMap
use fusion_zksnark_circle.Merkle.BranchKey.{BranchKey, BranchKey-discrete, to_bitmap}
use fusion_zksnark_circle.Merkle.Paths.{key, for_leaf-key}
use fusion_zksnark_circle.Merkle.Tree.{Hasher, Value, MerkleTree, get, branch_hash, delete}
use fusion_zksnark_circle.Merkle.Sparse.{Total, stored, IsConsistent}
use fusion_zksnark_circle.Merkle.Update.{update_parents-IsConsistent}
use fusion_zksnark_circle.Merkle.Operations.{get-leaves}

module _ {S T : Type 0} {H : Hasher S} {V : Value T} (total : Total H V) where
  module _ (t : MerkleTree T) (k : ℕ) where
    abbrev removed : MerkleTree T
    removed = record {
      leaves = BTreeMap.remove ℕ_discrete k t.leaves;
      branches = BTreeMap.remove BranchKey-discrete (key 0 (to_bitmap k)) t.branches;
    }

    get-removed : (j : ℕ) → get removed j ≡ ite (ℕ_discrete j k) none (get t j)
    unfolding get
    get-removed j = BTreeMap.get-remove ℕ_discrete k j t.leaves

    branch_hash-removed :
        (j : BranchKey)
        → branch_hash removed j
          ≡ ite (BranchKey-discrete j (key 0 (to_bitmap k))) 0 (branch_hash t j)
    unfolding branch_hash
    branch_hash-removed j =
        ground (arith, BTreeMap.get-remove BranchKey-discrete (key 0 (to_bitmap k)) j t.branches)

    stored-removed_self : stored total removed k ≡ 0
    unfolding stored
    stored-removed_self = ground (arith, get-removed k)

    stored-removed_ne : (j : ℕ) → ¬ (j ≡ k) → stored total removed j ≡ stored total t j
    unfolding stored
    stored-removed_ne j n = ground (arith, get-removed j)

    no_leaf : branch_hash removed (key 0 (to_bitmap k)) ≡ stored total removed k
    no_leaf =
        rw (branch_hash-removed (key 0 (to_bitmap k)), if_pos (BranchKey-discrete _ _) refl)
          (sym stored-removed_self)

  -- On a consistent tree and a key of 256 bits `delete` does not panic; the tree that it leaves is
  -- consistent, has nothing at the key, and is as before at every other key.
  pub delete-IsConsistent :
      (t : MerkleTree T) (k : ℕ)
      → k < u256_size
      → IsConsistent total t
      → (t' : MerkleTree T) × (delete H t k ≡ some t')
        × IsConsistent total t'
        × ((j : ℕ) → get t' j ≡ ite (ℕ_discrete j k) none (get t j))
  unfolding delete
  delete-IsConsistent t k small consistent =
      let u = removed t k in
      let (t', run, leaves, c) =
        update_parents-IsConsistent total t u consistent k small (no_leaf t k)
          (λ j n. rw (branch_hash-removed t k j, if_neg _ n)) (stored-removed_ne t k) in
      (t', rw (for_leaf-key k) run, c, λ j. get-leaves u t' leaves j ∙ get-removed t k j)
