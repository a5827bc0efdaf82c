-- ===== src/Merkle/Sparse.antt =====
-- The specification of the tree: the hash of a full tree of 256 levels over a function from paths
-- to leaf hashes, and when a stored tree agrees with it.
use fusion_zksnark_circle.Base.{
  ℕ, zero, suc, ◌+◌, ◌≤◌, ◌≡◌, ◌⊎◌, inl, inr, refl, ap, ◌∙◌, Bool, true, false, ite, none, some,
  List, [], ◌∷◌, ◌==◌, if◌then◌else◌, ◌&&◌, length, of_bits, arith,
}
use fusion_zksnark_circle.Base.BTreeMap
use fusion_zksnark_circle.Merkle.BranchKey.{BranchKey, BranchKey-discrete}
use fusion_zksnark_circle.Merkle.Paths.{key, pad_injective}
use fusion_zksnark_circle.Merkle.Tree.{
  Hasher, Value, MerkleTree, get, branch_hash, set_branch, hash_words, merge_hashes,
}

-- What the tree relies on: hashing two words and reading a value as a word do not panic.
pub record Total {S T : Type 0} (H : Hasher S) (V : Value T) : Type 0 where
  pub hash : ℕ → ℕ → ℕ
  pub hash_words-hash : (a b : ℕ) → hash_words H a b ≡ some (hash a b)
  pub value : T → ℕ
  pub to_u256-value : (v : T) → V.to_u256 v ≡ some (value v)

-- The rules of the README for merging two nodes.
unfoldable pub merge : (ℕ → ℕ → ℕ) → ℕ → ℕ → ℕ
merge hash a b =
    if a == 0 && b == 0 then 0 else if a == 0 then b else if b == 0 then a else hash a b

-- The hash of the node at height `h` and path `p` of the full tree over the leaf hashes `f`.
unfoldable pub subtree : (ℕ → ℕ → ℕ) → (List Bool → ℕ) → ℕ → List Bool → ℕ
subtree hash f zero p = f p
subtree hash f (suc h) p = merge hash (subtree hash f h (false ∷ p)) (subtree hash f h (true ∷ p))

pub subtree-leaf : (hash : ℕ → ℕ → ℕ) (f : List Bool → ℕ) (p : List Bool) → subtree hash f 0 p ≡ f p
unfolding subtree
subtree-leaf hash f p = refl

pub subtree-suc :
    (hash : ℕ → ℕ → ℕ) (f : List Bool → ℕ) (h : ℕ) (p : List Bool)
    → subtree hash f (suc h) p
      ≡ merge hash (subtree hash f h (false ∷ p)) (subtree hash f h (true ∷ p))
unfolding subtree
subtree-suc hash f h p = refl

-- The path `q` at height `g` is an ancestor of, or the same as, the path `p` at height `h`.
abbrev pub OnPath : ℕ → List Bool → ℕ → List Bool → Type 0
OnPath h [] g q = ⊥
OnPath h (b ∷ p) g q = ((g ≡ h) × (q ≡ b ∷ p)) ⊎ OnPath (suc h) p g q

pub OnPath-parent :
    (h : ℕ) (p : List Bool) (g : ℕ) (b c : Bool) (q : List Bool)
    → OnPath h p g (b ∷ c ∷ q)
    → OnPath h p (suc g) (c ∷ q)
OnPath-parent h [] g b c q o = o
OnPath-parent h (d ∷ []) g b c q (inl (e, l)) = cc
OnPath-parent h (d ∷ x ∷ p) g b c q (inl (e, l)) = inr (inl (ap suc e, cc))
OnPath-parent h (d ∷ p) g b c q (inr o) = inr (OnPath-parent (suc h) p g b c q o)

pub OnPath-self : (p : List Bool) (b : Bool) (q : List Bool) → b ∷ q ≡ p → OnPath 0 p 0 (b ∷ q)
OnPath-self [] b q e = cc
OnPath-self (c ∷ p) b q e = inl (refl, e)

pub le_of_OnPath : (h : ℕ) (p : List Bool) (g : ℕ) (q : List Bool) → OnPath h p g q → h ≤ g
le_of_OnPath h [] g q o = absurd o
le_of_OnPath h (b ∷ p) g q (inl (e, l)) = omega arith
le_of_OnPath h (b ∷ p) g q (inr o) = omega (arith, le_of_OnPath (suc h) p g q o)

-- Leaves that differ at one path change only the nodes on the way to the root.
pub subtree-congr :
    (hash : ℕ → ℕ → ℕ) (f f' : List Bool → ℕ) (p : List Bool)
    → ((q : List Bool) → length q ≡ 256 → ¬ (q ≡ p) → f' q ≡ f q)
    → (g : ℕ) (b : Bool) (q : List Bool) → g + length (b ∷ q) ≡ 256
    → ¬ OnPath 0 p g (b ∷ q)
    → subtree hash f' g (b ∷ q) ≡ subtree hash f g (b ∷ q)
unfolding subtree
subtree-congr hash f f' p same zero b q l off =
    same (b ∷ q) (omega arith) (λ e. off (OnPath-self p b q e))
subtree-congr hash f f' p same (suc g) b q l off = rw (
  subtree-congr hash f f' p same g false (b ∷ q) (omega arith)
      (λ o. off (OnPath-parent 0 p g false b q o)),
  subtree-congr hash f f' p same g true (b ∷ q) (omega arith)
      (λ o. off (OnPath-parent 0 p g true b q o)),
)

module _ {T : Type 0} (t : MerkleTree T) where
  pub branch_hash-set_branch :
      (k j : BranchKey) (v : ℕ)
      → branch_hash (set_branch t k v) j ≡ ite (BranchKey-discrete j k) v (branch_hash t j)
  unfolding branch_hash set_branch
  branch_hash-set_branch k j v = ground (
    arith,
    BTreeMap.get-insert BranchKey-discrete k j v t.branches,
    BTreeMap.get-remove BranchKey-discrete k j t.branches,
  )

pub key_injective : (h g : ℕ) (p q : List Bool) → key h p ≡ key g q → (h ≡ g) × (p ≡ q)
key_injective h g p q e =
    let same : h ≡ g = ap BranchKey.height e in
    (same, pad_injective h p q (ap BranchKey.bitmap e ∙ rw same))

module _ {S T : Type 0} {H : Hasher S} {V : Value T} (total : Total H V) where
  pub merge_hashes-merge : (a b : ℕ) → merge_hashes H a b ≡ some (merge total.hash a b)
  unfolding merge_hashes merge
  merge_hashes-merge a b = ground (arith, total.hash_words-hash a b)

  -- The hash that the leaf of a key has, if there is a value at the key.
  unfoldable pub stored : MerkleTree T → ℕ → ℕ
  stored t k = elim (get t k) [
    | none ↦ 0
    | some v ↦ if total.value v == 0 then 0 else total.hash k (total.value v)
  ]

  -- Every node below the root has the hash of the full tree over the stored leaves.
  pub record IsConsistent (t : MerkleTree T) : Type 0 where
    pub represents :
        (h : ℕ) (b : Bool) (q : List Bool)
        → h + length (b ∷ q) ≡ 256
        → branch_hash t (key h (b ∷ q)) ≡ subtree total.hash (λ p. stored t (of_bits p)) h (b ∷ q)
