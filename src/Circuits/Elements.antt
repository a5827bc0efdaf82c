-- ===== src/Circuits/Elements.antt =====
-- The numbers of the prover's input that are field elements (circuits/merkle_tree.zok,
-- fusion-prover/src/lib.rs).
use fusion_zksnark_circle.Base.{
  ℕ, zero, suc, ◌+◌, ◌%◌, ◌<◌, ◌≡◌, refl, ap, Bool, false, true, not, List, [], ◌∷◌, length,
  of_bits, arith,
}
use fusion_zksnark_circle.Types.PublicKey.{Point}
use fusion_zksnark_circle.Merkle.Tree.{Hasher, Value, MerkleTree}
use fusion_zksnark_circle.Merkle.Sparse.{Total, merge, subtree, stored, IsConsistent}
use fusion_zksnark_circle.Merkle.Proofs.{siblings}
use fusion_zksnark_circle.Prover.State.{Account}
use fusion_zksnark_circle.Circuits.MerkleTree.{elements, field_account, field_point}

pub mod-small : (n p : ℕ) → n < p → n % p ≡ n
mod-small n p h = grind arith

pub field_account-small :
    (p : ℕ) (acc : Account)
    → acc.id < p
    → acc.balance < p
    → acc.nonce < p
    → field_account p acc ≡ acc
unfolding field_account
field_account-small p acc i b n =
    rw (mod-small acc.id p i, mod-small acc.balance p b, mod-small acc.nonce p n) refl

pub field_point-small : (p : ℕ) (pt : Point) → pt.x < p → pt.y < p → field_point p pt ≡ pt
unfolding field_point
field_point-small p pt x y = rw (mod-small pt.x p x, mod-small pt.y p y) refl

module _ {S T : Type 0} {H : Hasher S} {V : Value T} (total : Total H V) {p : ℕ}
    (hashed : (a b : ℕ) → total.hash a b < p) where
  merge-lt : (a b : ℕ) → a < p → b < p → merge total.hash a b < p
  unfolding merge
  merge-lt a b ha hb = ground (arith, hashed a b)

  pub stored-lt : (t : MerkleTree T) (k : ℕ) → stored total t k < p
  unfolding stored
  stored-lt t k = let some_p = hashed 0 0 in grind arith

  pub subtree-lt :
      (f : List Bool → ℕ)
      → ((q : List Bool) → f q < p)
      → (h : ℕ) (q : List Bool) → subtree total.hash f h q < p
  unfolding subtree
  subtree-lt f low zero q = low q
  subtree-lt f low (suc h) q =
      merge-lt _ _ (subtree-lt f low h (false ∷ q)) (subtree-lt f low h (true ∷ q))

  -- The hashes beside a path are field elements, if all hashes are.
  pub elements-siblings :
      (t : MerkleTree T) (h : ℕ) (q : List Bool)
      → IsConsistent total t
      → h + length q ≡ 256
      → elements p (siblings t h q) ≡ siblings t h q
  unfolding elements siblings
  elements-siblings t h [] c l = refl
  elements-siblings t h (b ∷ q) c l =
      let f = λ (r : List Bool). stored total t (of_bits r) in
      let low = subtree-lt f (λ r. stored-lt t (of_bits r)) h (not b ∷ q) in
      rw (c.represents h (not b) q l, mod-small _ p low)
        (ap (λ r. subtree total.hash f h (not b ∷ q) ∷ r)
          (elements-siblings t (suc h) q c (omega arith)))
