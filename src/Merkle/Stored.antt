-- ===== src/Merkle/Stored.antt =====
-- The stored leaf hashes after each operation.
use fusion_zksnark_circle.Base.{ℕ, ◌<◌, ◌≡◌, refl, ite, some, ℕ_discrete, u256_size, arith}
use fusion_zksnark_circle.Base.BTreeMap
use fusion_zksnark_circle.Merkle.Tree.{Hasher, Value, MerkleTree, get, empty, update, delete}
use fusion_zksnark_circle.Merkle.Sparse.{Total, stored, IsConsistent}
use fusion_zksnark_circle.Merkle.Operations.{update-IsConsistent, leaf_value}
use fusion_zksnark_circle.Merkle.Delete.{delete-IsConsistent}

module _ {S T : Type 0} {H : Hasher S} {V : Value T} (total : Total H V) where
  pub stored-empty : (k : ℕ) → stored total (empty {T = T}) k ≡ 0
  unfolding stored get BTreeMap.get
  stored-empty k = refl

  pub update-stored :
      (t : MerkleTree T) (k : ℕ) (v : T)
      → k < u256_size
      → IsConsistent total t
      → (t' : MerkleTree T) × (update H V t k v ≡ some t')
        × IsConsistent total t'
        × ((j : ℕ)
            → stored total t' j ≡ ite (ℕ_discrete j k) (leaf_value total k v) (stored total t j))
  unfolding stored
  update-stored t k v small c =
      let (t', run, c', at) = update-IsConsistent total t k v small c in
      (t', run, c', λ j. ground (arith, at j))

  pub delete-stored :
      (t : MerkleTree T) (k : ℕ)
      → k < u256_size
      → IsConsistent total t
      → (t' : MerkleTree T) × (delete H t k ≡ some t')
        × IsConsistent total t'
        × ((j : ℕ) → stored total t' j ≡ ite (ℕ_discrete j k) 0 (stored total t j))
  unfolding stored
  delete-stored t k small c =
      let (t', run, c', at) = delete-IsConsistent total t k small c in
      (t', run, c', λ j. ground (arith, at j))
