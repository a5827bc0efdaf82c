-- ===== src/Merkle/Update.antt =====
-- `update` and `delete` keep the stored hashes in agreement with the stored leaves.
use fusion_zksnark_circle.Base.{
  cons_of_length, ℕ, ◌<◌, ◌≡◌, inl, inr, sym, ap, ◌∙◌, Bool, some, List, ◌∷◌, length, of_bits,
  arith, u256_size,
}
use mathlib.Core.Path.{fun_ext}
use fusion_zksnark_circle.Merkle.BranchKey.{BranchKey, BranchKey-discrete, to_bitmap}
use fusion_zksnark_circle.Merkle.Paths.{
  key, path_to_root-key, length-to_bitmap, of_bits-to_bitmap, to_bitmap-of_bits,
}
use fusion_zksnark_circle.Merkle.Tree.{Hasher, Value, MerkleTree, get, branch_hash, update_parents}
use fusion_zksnark_circle.Merkle.Sparse.{
  Total, subtree, OnPath, subtree-congr, key_injective, stored, IsConsistent,
}
use fusion_zksnark_circle.Merkle.Refresh.{Agrees, refresh-Agrees}

module _ {S T : Type 0} {H : Hasher S} {V : Value T} (total : Total H V) where
  pub stored-leaves :
      (t t' : MerkleTree T) → t'.leaves ≡ t.leaves → (k : ℕ) → stored total t' k ≡ stored total t k
  unfolding stored get
  stored-leaves t t' e k = cc

  -- A tree `u` that differs from a consistent one in the leaf of `k` alone.
  module _ (t u : MerkleTree T) (consistent : IsConsistent total t) (k : ℕ) (small : k < u256_size)
      (own : branch_hash u (key 0 (to_bitmap k)) ≡ stored total u k)
      (others : (j : BranchKey) → ¬ (j ≡ key 0 (to_bitmap k)) → branch_hash u j ≡ branch_hash t j)
      (kept : (j : ℕ) → ¬ (j ≡ k) → stored total u j ≡ stored total t j) where
    own_leaf :
        (p : List Bool)
        → p ≡ to_bitmap k
        → branch_hash u (key 0 p) ≡ subtree total.hash (λ q. stored total u (of_bits q)) 0 p
    unfolding subtree
    own_leaf p e = rw e (own ∙ ap (stored total u) (sym (of_bits-to_bitmap k small)))

    leaf_hashes-Agrees :
        (b : Bool) (q : List Bool)
        → to_bitmap k ≡ b ∷ q
        → Agrees total (λ p. stored total u (of_bits p)) 1 q u
    leaf_hashes-Agrees b q e g c r l off =
        elim (BranchKey-discrete (key g (c ∷ r)) (key 0 (to_bitmap k))) [
          | yes same ↦
              let (height, path) = key_injective g 0 (c ∷ r) (to_bitmap k) same in
              rw height (own_leaf (c ∷ r) path)
          | no n ↦
              others (key g (c ∷ r)) n
              ∙ consistent.represents g c r l
              ∙ sym (subtree-congr total.hash _ _ (to_bitmap k) same_leaf g c r l (above n))
        ]
      where
        same_leaf :
            (p : List Bool)
            → length p ≡ 256
            → ¬ (p ≡ to_bitmap k)
            → stored total u (of_bits p) ≡ stored total t (of_bits p)
        same_leaf p m n = kept (of_bits p) (λ e. n (sym (to_bitmap-of_bits p m) ∙ ap to_bitmap e))

        above : ¬ (key g (c ∷ r) ≡ key 0 (to_bitmap k)) → ¬ OnPath 0 (to_bitmap k) g (c ∷ r)
        above n = rw e (elim [ inl (height, path) ↦ n (rw (height, path, e)) | inr o ↦ off o ])

    pub update_parents-IsConsistent :
        (u' : MerkleTree T) × (update_parents H u (key 0 (to_bitmap k)) ≡ some u')
        × (u'.leaves ≡ u.leaves)
        × IsConsistent total u'
    unfolding update_parents
    update_parents-IsConsistent =
        let (b, q, e) = cons_of_length 255 (to_bitmap k) (length-to_bitmap k) in
        let (u', run, leaves, all) =
          refresh-Agrees total (λ p. stored total u (of_bits p)) 0 q u
            (omega (arith, length-to_bitmap k, ap length e)) (leaf_hashes-Agrees b q e) in
        (
          u',
          rw (ap (key 0) e, path_to_root-key 0 b q (omega (arith, length-to_bitmap k, ap length e)))
              run,
          leaves,
          record {
            represents = λ h c r l.
                rw (fun_ext (λ (p : List Bool). stored-leaves u u' leaves (of_bits p)))
                  (all h c r l (λ o. o));
          },
        )
