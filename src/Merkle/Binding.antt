-- ===== src/Merkle/Binding.antt =====
-- A proof of the tree binds its value (fusion-prover/src/merkle_tree.rs).
use fusion_zksnark_circle.Base.{
  ℕ, ◌≡◌, ◌≢◌, ◌⊎◌, inl, inr, refl, sym, ap, ◌∙◌, Bool, true, false, Bool-cases, some, List, [],
  ◌∷◌, length, ◌==◌, if◌then◌else◌, arith,
}
use fusion_zksnark_circle.Merkle.BranchKey.{to_bitmap}
use fusion_zksnark_circle.Merkle.Tree.{Hasher, Value, verify_proof}
use fusion_zksnark_circle.Merkle.Sparse.{Total, merge}
use fusion_zksnark_circle.Merkle.Operations.{leaf_value}
use fusion_zksnark_circle.Merkle.Proofs.{fold_path, verify_proof-fold_path}
use fusion_zksnark_circle.Merkle.Verify.{accepted}

-- The pair is one of the list.
unfoldable pub Among : List (ℕ × ℕ) → ℕ → ℕ → Type 0
Among [] a b = ⊥
Among (x ∷ l) a b = ((a ≡ x.0) × (b ≡ x.1)) ⊎ Among l a b

-- The pairs that folding a path hashes, from the leaf on; beside an empty node nothing is hashed.
unfoldable pub hashed_pairs : (ℕ → ℕ → ℕ) → ℕ → List Bool → List ℕ → List (ℕ × ℕ)
hashed_pairs hash node [] items = []
hashed_pairs hash node (b ∷ p) [] = []
hashed_pairs hash node (b ∷ p) (item ∷ items) =
    let rest =
      hashed_pairs hash (if b then merge hash item node else merge hash node item) p items in
    if item == 0 then rest else (if b then (item, node) else (node, item)) ∷ rest

-- On the pairs of two lists the hash has no collision and is never zero.
pub record CollisionFree (hash : ℕ → ℕ → ℕ) (l m : List (ℕ × ℕ)) : Type 0 where
  pub injective :
      (a b c d : ℕ) → Among l a b → Among m c d → hash a b ≡ hash c d → (a ≡ c) × (b ≡ d)
  pub nonzero_left : (a b : ℕ) → Among l a b → hash a b ≢ 0
  pub nonzero_right : (a b : ℕ) → Among m a b → hash a b ≢ 0

merge_empty-left : (hash : ℕ → ℕ → ℕ) (a s : ℕ) → (s == 0) ≡ true → merge hash s a ≡ a
unfolding merge
merge_empty-left hash a s z = ground (arith, z)

merge_empty-right : (hash : ℕ → ℕ → ℕ) (a s : ℕ) → (s == 0) ≡ true → merge hash a s ≡ a
unfolding merge
merge_empty-right hash a s z = ground (arith, z)

merge_full-left :
    (hash : ℕ → ℕ → ℕ) (a s : ℕ) → (s == 0) ≡ false → a ≢ 0 → merge hash s a ≡ hash s a
unfolding merge
merge_full-left hash a s n h = ground (arith, n, h)

merge_full-right :
    (hash : ℕ → ℕ → ℕ) (a s : ℕ) → (s == 0) ≡ false → a ≢ 0 → merge hash a s ≡ hash a s
unfolding merge
merge_full-right hash a s n h = ground (arith, n, h)

module _ (hash : ℕ → ℕ → ℕ) (l m : List (ℕ × ℕ)) (free : CollisionFree hash l m) where
  binding :
      (a b : ℕ) (p : List Bool) (items : List ℕ)
      → ((c d : ℕ) → Among (hashed_pairs hash a p items) c d → Among l c d)
      → ((c d : ℕ) → Among (hashed_pairs hash b p items) c d → Among m c d)
      → a ≢ 0
      → b ≢ 0
      → fold_path hash a p items ≡ fold_path hash b p items
      → a ≡ b
  unfolding fold_path hashed_pairs Among
  binding a b [] items fl fm ha hb e = e
  binding a b (c ∷ p) [] fl fm ha hb e = e
  binding a b (true ∷ p) (s ∷ items) fl fm ha hb e = elim (Bool-cases (s == 0)) [
    | inl z ↦
        let ea : merge hash s a ≡ a = merge_empty-left hash a s z in
        let eb : merge hash s b ≡ b = merge_empty-left hash b s z in
        binding a b p items (rw (z, ea) at fl) (rw (z, eb) at fm) ha hb (rw (ea, eb) at e)
    | inr n ↦
        let ea : merge hash s a ≡ hash s a = merge_full-left hash a s n ha in
        let eb : merge hash s b ≡ hash s b = merge_full-left hash b s n hb in
        let fl' = rw (n, ea) at fl in
        let fm' = rw (n, eb) at fm in
        let own = fl' s a (inl (refl, refl)) in
        let own' = fm' s b (inl (refl, refl)) in
        let next =
          binding (hash s a) (hash s b) p items (λ c d q. fl' c d (inr q))
            (λ c d q. fm' c d (inr q)) (free.nonzero_left s a own) (free.nonzero_right s b own')
            (rw (ea, eb) at e) in
        (free.injective s a s b own own' next).1
  ]
  binding a b (false ∷ p) (s ∷ items) fl fm ha hb e = elim (Bool-cases (s == 0)) [
    | inl z ↦
        let ea : merge hash a s ≡ a = merge_empty-right hash a s z in
        let eb : merge hash b s ≡ b = merge_empty-right hash b s z in
        binding a b p items (rw (z, ea) at fl) (rw (z, eb) at fm) ha hb (rw (ea, eb) at e)
    | inr n ↦
        let ea : merge hash a s ≡ hash a s = merge_full-right hash a s n ha in
        let eb : merge hash b s ≡ hash b s = merge_full-right hash b s n hb in
        let fl' = rw (n, ea) at fl in
        let fm' = rw (n, eb) at fm in
        let own = fl' a s (inl (refl, refl)) in
        let own' = fm' b s (inl (refl, refl)) in
        let next =
          binding (hash a s) (hash b s) p items (λ c d q. fl' c d (inr q))
            (λ c d q. fm' c d (inr q)) (free.nonzero_left a s own) (free.nonzero_right b s own')
            (rw (ea, eb) at e) in
        (free.injective a s b s own own' next).0
  ]

module _ {S T : Type 0} {H : Hasher S} {V : Value T} (total : Total H V) where
  -- The pairs that `verify_proof` hashes for a value that is not the word 0.
  abbrev pub proof_pairs : ℕ → T → List ℕ → List (ℕ × ℕ)
  proof_pairs k v items =
      (k, total.value v)
      ∷ hashed_pairs total.hash (total.hash k (total.value v)) (to_bitmap k) items

  folded :
      (root k : ℕ) (v : T) (items : List ℕ)
      → total.value v ≢ 0
      → verify_proof H V root k v items ≡ some true
      → fold_path total.hash (total.hash k (total.value v)) (to_bitmap k) items ≡ root
  folded root k v items hv e =
      let leaf : leaf_value total k v ≡ total.hash k (total.value v) = ground (arith, hv) in
      ap (λ n. fold_path total.hash n (to_bitmap k) items) (sym leaf)
      ∙ accepted total root k v items e

  -- Where hashing two words and reading a value as a word do not panic: if among the pairs that are
  -- hashed for two values with one proof the hash has no collision between one value's pairs and the
  -- other's, and is never zero, then the proof that is accepted for the one value is rejected for the
  -- other, whatever the root. The values are different words other than 0.
  pub verify_proof-binding :
      (root k : ℕ) (v w : T) (items : List ℕ)
      → CollisionFree total.hash (proof_pairs k v items) (proof_pairs k w items)
      → total.value v ≢ 0
      → total.value w ≢ 0
      → total.value v ≢ total.value w
      → verify_proof H V root k v items ≡ some true
      → verify_proof H V root k w items ≡ some false
  unfolding Among
  verify_proof-binding root k v w items free hv hw ne ev =
      let word = verify_proof-fold_path total root k w items in
      elim (Bool-cases (
        if length items == 256
        then fold_path total.hash (leaf_value total k w) (to_bitmap k) items == root
        else false)) [
          | inr f ↦ word ∙ ap some f
          | inl t ↦
              let fv = folded root k v items hv ev in
              let fw = folded root k w items hw (word ∙ ap some t) in
              let own : Among (proof_pairs k v items) k (total.value v) = inl (refl, refl) in
              let own' : Among (proof_pairs k w items) k (total.value w) = inl (refl, refl) in
              let leaves =
                binding total.hash (proof_pairs k v items) (proof_pairs k w items) free
                  (total.hash k (total.value v)) (total.hash k (total.value w)) (to_bitmap k) items
                  (λ c d q. inr q) (λ c d q. inr q) (free.nonzero_left k (total.value v) own)
                  (free.nonzero_right k (total.value w) own') (fv ∙ sym fw) in
              absurd (ne (free.injective k (total.value v) k (total.value w) own own' leaves).1)
        ]
