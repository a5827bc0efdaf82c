-- ===== src/Merkle/Roots.antt =====
-- The root depends on the stored leaf hashes alone, not on how the tree came about.
use fusion_zksnark_circle.Base.{
  ℕ, zero, suc, ◌+◌, ◌<◌, ◌≡◌, refl, sym, ap, ◌∙◌, Bool, true, false, some, List, [], ◌∷◌, length,
  of_bits, of_bits-lt, u256_size, arith,
}
use fusion_zksnark_circle.Merkle.Tree.{Hasher, Value, MerkleTree, root_hash}
use fusion_zksnark_circle.Merkle.Sparse.{Total, subtree, stored, IsConsistent}
use fusion_zksnark_circle.Merkle.Operations.{root_hash-subtree}

-- Leaf hashes that agree on all paths of 256 bits give the same node hashes.
subtree-ext :
    (hash : ℕ → ℕ → ℕ) (f g : List Bool → ℕ)
    → ((p : List Bool) → length p ≡ 256 → f p ≡ g p)
    → (h : ℕ) (p : List Bool) → h + length p ≡ 256
    → subtree hash f h p ≡ subtree hash g h p
unfolding subtree
subtree-ext hash f g e zero p l = e p (omega arith)
subtree-ext hash f g e (suc h) p l = rw (
  subtree-ext hash f g e h (false ∷ p) (omega arith),
  subtree-ext hash f g e h (true ∷ p) (omega arith),
)

module _ {S T : Type 0} {H : Hasher S} {V : Value T} (total : Total H V) where
  -- Two consistent trees that store the same leaf hashes have the same root. A leaf whose value is
  -- the word 0 counts as absent.
  pub root_hash-ext :
      (t t' : MerkleTree T)
      → IsConsistent total t
      → IsConsistent total t'
      → ((k : ℕ) → k < u256_size → stored total t k ≡ stored total t' k)
      → root_hash H t ≡ root_hash H t'
  root_hash-ext t t' c c' same =
      root_hash-subtree total t c
      ∙ ap some (
          subtree-ext total.hash _ _ (λ p l. same (of_bits p) (rw l at (of_bits-lt p))) 256 [] refl)
      ∙ sym (root_hash-subtree total t' c')
