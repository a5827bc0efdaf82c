-- ===== src/Merkle/Operations.antt =====
-- What the operations of `MerkleTree` do: they do not panic on a consistent tree, they keep it
-- consistent, and they change the lookup at one key.
use fusion_zksnark_circle.Base.{
  ℕ, zero, suc, ◌<◌, ◌≡◌, refl, sym, ◌∙◌, Bool, true, false, ite, if_pos, if_neg, some, List, [],
  ◌∷◌, ◌==◌, ◌>>=◌, if◌then◌else◌, of_bits, ℕ_discrete, arith, u256_size, replicate,
}
use fusion_zksnark_circle.Base.BTreeMap
use fusion_zksnark_circle.Merkle.BranchKey.{
  Bitmap, new, sibling, BranchKey, BranchKey-discrete, to_bitmap,
}
use fusion_zksnark_circle.Merkle.Paths.{pad, key, new-pad, sibling-key, for_leaf-key}
use fusion_zksnark_circle.Merkle.Tree.{
  Hasher, Value, MerkleTree, get, empty, branch_hash, root_hash, merge_nodes, update, leaf_hash,
}
use fusion_zksnark_circle.Merkle.Sparse.{Total, merge, subtree, stored, IsConsistent}
use fusion_zksnark_circle.Merkle.Refresh.{merge_nodes-subtree}
use fusion_zksnark_circle.Merkle.Update.{update_parents-IsConsistent}

pub subtree-zero :
    (hash : ℕ → ℕ → ℕ) (f : List Bool → ℕ)
    → ((p : List Bool) → f p ≡ 0)
    → (h : ℕ) (p : List Bool) → subtree hash f h p ≡ 0
unfolding subtree merge
subtree-zero hash f e zero p = e p
subtree-zero hash f e (suc h) p =
    rw (subtree-zero hash f e h (false ∷ p), subtree-zero hash f e h (true ∷ p))

module _ {T : Type 0} where
  pub get-leaves : (t u : MerkleTree T) → u.leaves ≡ t.leaves → (k : ℕ) → get u k ≡ get t k
  unfolding get
  get-leaves t u e k = cc

module _ {S T : Type 0} {H : Hasher S} {V : Value T} (total : Total H V) where
  -- The hash of a leaf, as `stored` has it.
  abbrev pub leaf_value : ℕ → T → ℕ
  leaf_value k v = if total.value v == 0 then 0 else total.hash k (total.value v)

  pub leaf_hash-leaf_value : (k : ℕ) (v : T) → leaf_hash H V k v ≡ some (leaf_value k v)
  unfolding leaf_hash
  leaf_hash-leaf_value k v =
      ground (arith, total.to_u256-value v, total.hash_words-hash k (total.value v))

  module _ (t : MerkleTree T) (k : ℕ) (v : T) where
    abbrev inserted : MerkleTree T
    inserted = record {
      leaves = BTreeMap.insert ℕ_discrete k v t.leaves;
      branches =
          BTreeMap.insert BranchKey-discrete (key 0 (to_bitmap k)) (leaf_value k v) t.branches;
    }

    get-inserted : (j : ℕ) → get inserted j ≡ ite (ℕ_discrete j k) (some v) (get t j)
    unfolding get
    get-inserted j = BTreeMap.get-insert ℕ_discrete k j v t.leaves

    branch_hash-inserted :
        (j : BranchKey)
        → branch_hash inserted j
          ≡ ite (BranchKey-discrete j (key 0 (to_bitmap k))) (leaf_value k v) (branch_hash t j)
    unfolding branch_hash
    branch_hash-inserted j = ground (
      arith,
      BTreeMap.get-insert BranchKey-discrete (key 0 (to_bitmap k)) j (leaf_value k v) t.branches,
    )

    stored-inserted_self : stored total inserted k ≡ leaf_value k v
    unfolding stored
    stored-inserted_self = ground (arith, get-inserted k)

    stored-inserted_ne : (j : ℕ) → ¬ (j ≡ k) → stored total inserted j ≡ stored total t j
    unfolding stored
    stored-inserted_ne j n = ground (arith, get-inserted j)

    own_leaf : branch_hash inserted (key 0 (to_bitmap k)) ≡ stored total inserted k
    own_leaf =
        rw (branch_hash-inserted (key 0 (to_bitmap k)), if_pos (BranchKey-discrete _ _) refl)
          (sym stored-inserted_self)

  -- On a consistent tree and a key of 256 bits `update` does not panic; the tree that it leaves is
  -- consistent, has the value at the key, and is as before at every other key.
  pub update-IsConsistent :
      (t : MerkleTree T) (k : ℕ) (v : T)
      → k < u256_size
      → IsConsistent total t
      → (t' : MerkleTree T) × (update H V t k v ≡ some t')
        × IsConsistent total t'
        × ((j : ℕ) → get t' j ≡ ite (ℕ_discrete j k) (some v) (get t j))
  unfolding update
  update-IsConsistent t k v small consistent =
      let u = inserted t k v in
      let (t', run, leaves, c) =
        update_parents-IsConsistent total t u consistent k small (own_leaf t k v)
          (λ j n. rw (branch_hash-inserted t k v j, if_neg _ n)) (stored-inserted_ne t k v) in
      (
        t',
        rw (for_leaf-key k, leaf_hash-leaf_value k v) run,
        c,
        λ j. get-leaves u t' leaves j ∙ get-inserted t k v j,
      )

  -- The tree of `Default` is consistent.
  pub empty-IsConsistent : IsConsistent total (empty {T = T})
  unfolding branch_hash stored get BTreeMap.get
  empty-IsConsistent = record {
    represents = λ h b q l. sym (subtree-zero total.hash _ (λ p. refl) h (b ∷ q));
  }

  top_nodes :
      (t : MerkleTree T) (h : ℕ) (m : Bitmap)
      → m ≡ pad h (false ∷ [])
      → (do left ← new h m; right ← sibling left; merge_nodes H t left right)
        ≡ merge_nodes H t (key h (false ∷ [])) (key h (true ∷ []))
  top_nodes t h m e = rw (e, new-pad h (false ∷ []), sibling-key h false [])

  -- On a consistent tree `root_hash` does not panic, and is the hash of the full tree of 256 levels
  -- over the stored leaves.
  pub root_hash-subtree :
      (t : MerkleTree T)
      → IsConsistent total t
      → root_hash H t ≡ some (subtree total.hash (λ p. stored total t (of_bits p)) 256 [])
  unfolding root_hash
  root_hash-subtree t consistent =
      top_nodes t 255 (replicate 256 false) refl
      ∙ merge_nodes-subtree total _ 255 [] t refl (λ g b q l off. consistent.represents g b q l)
