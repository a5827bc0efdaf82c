-- ===== src/Circuits/Paths.antt =====
-- The Merkle part of the state circuit does what `verify_proof` does, bit by bit.
use fusion_zksnark_circle.Base.{
  ℕ, zero, suc, ◌<◌, ◌≡◌, ◌≢◌, refl, sym, ap, ◌∙◌, some_injective, inl, inr, Bool, true, false,
  some, List, [], ◌∷◌, ==_refl, length, get_or, u256_size, arith, Option-cases,
}
use fusion_zksnark_circle.Types.External.{External, FieldText, PoseidonPairs}
use fusion_zksnark_circle.Merkle.BranchKey.{Bitmap, to_bitmap}
use fusion_zksnark_circle.Merkle.Paths.{length-to_bitmap}
use fusion_zksnark_circle.Merkle.Tree
use fusion_zksnark_circle.Merkle.Sparse
use fusion_zksnark_circle.Merkle.Operations.{leaf_value}
use fusion_zksnark_circle.Merkle.Proofs.{fold_path, siblings, proof-siblings}
use fusion_zksnark_circle.Merkle.Verify.{Holds, fold_path-root}
use fusion_zksnark_circle.Prover.Poseidon.{pair}
use fusion_zksnark_circle.Prover.State.{Account, State, get, root, proof}
use fusion_zksnark_circle.Prover.CircuitInput.{bits_from, to_vec_bool}
use fusion_zksnark_circle.Prover.Laws.{account_word, poseidon_total, IsSound}
use fusion_zksnark_circle.Circuits.MerkleTree.{hash_leaf, digest, verify_merkle_path}

-- The circuit folds a path as the rollup does.
pub digest-fold_path :
    (hash : ℕ → ℕ → ℕ) (leaf : ℕ) (directions : List Bool) (path : List ℕ)
    → digest hash leaf directions path ≡ fold_path hash leaf directions path
unfolding digest fold_path Sparse.merge
digest-fold_path hash leaf [] path = refl
digest-fold_path hash leaf (d ∷ directions) [] = refl
digest-fold_path hash leaf (true ∷ directions) (item ∷ path) =
    digest-fold_path hash (Sparse.merge hash item leaf) directions path
digest-fold_path hash leaf (false ∷ directions) (item ∷ path) =
    digest-fold_path hash (Sparse.merge hash leaf item) directions path

bits_from-cons : (x : Bool) (b : Bitmap) (i n : ℕ) → bits_from (x ∷ b) (suc i) n ≡ bits_from b i n
unfolding bits_from
bits_from-cons x b i zero = refl
bits_from-cons x b i (suc n) = ap (λ l. get_or b i false ∷ l) (bits_from-cons x b (suc i) n)

bits_from-all : (b : Bitmap) → bits_from b 0 (length b) ≡ b
unfolding bits_from
bits_from-all [] = refl
bits_from-all (x ∷ b) = ap (λ l. x ∷ l) (bits_from-cons x b 0 (length b) ∙ bits_from-all b)

pub to_vec_bool-to_bitmap : (k : ℕ) → to_vec_bool (to_bitmap k) ≡ to_bitmap k
unfolding to_vec_bool
to_vec_bool-to_bitmap k =
    ap (bits_from (to_bitmap k) 0) (sym (length-to_bitmap k)) ∙ bits_from-all (to_bitmap k)

module _ {X : External} (text : FieldText X) (pairs : PoseidonPairs X)
    (nonzero : (a b : ℕ) → pair text pairs a b ≢ 0) where
  -- The leaf of an account in the circuit is its leaf in the tree.
  pub hash_leaf-leaf_value :
      (acc : Account)
      → hash_leaf (pair text pairs) acc ≡ leaf_value (poseidon_total text pairs) acc.id acc
  unfolding hash_leaf poseidon_total account_word
  hash_leaf-leaf_value acc = ground (arith, nonzero acc.balance acc.nonce)

  get-Holds : (s : State) (k : ℕ) → Holds (poseidon_total text pairs) s.inner k (get s k)
  unfolding get poseidon_total account_word
  get-Holds s k = elim (Option-cases (Tree.get s.inner k)) [
    | inr (acc, e) ↦ inl (ground (arith, e))
    | inl e ↦ inr (e, ground (arith, e))
  ]

  fold_path-pair :
      (s : State) (k r leaf : ℕ)
      → k < u256_size
      → IsSound text pairs s
      → root X s ≡ some r
      → leaf ≡ leaf_value (poseidon_total text pairs) k (get s k)
      → fold_path (pair text pairs) leaf (to_bitmap k) (siblings s.inner 0 (to_bitmap k)) ≡ r
  unfolding root poseidon_total
  fold_path-pair s k r leaf small sound er e =
      ap (λ l. fold_path (pair text pairs) l (to_bitmap k) (siblings s.inner 0 (to_bitmap k))) e
      ∙ fold_path-root (poseidon_total text pairs) s.inner k r (get s k) small sound er
          (get-Holds s k)

  -- If the hash of two numbers is never zero: on a sound state, for a key of 256 bits whose account has
  -- the key as its id, the circuit's check of a path passes for the account's leaf, the key's bits, the
  -- state's proof of the key and the state's root.
  pub verify_merkle_path-proof :
      (s : State) (k : ℕ)
      → k < u256_size
      → IsSound text pairs s
      → (get s k).id ≡ k
      → (r : ℕ) (items : List ℕ) → root X s ≡ some r
      → proof s k ≡ some items
      → verify_merkle_path
          (pair text pairs)
          r
          (hash_leaf (pair text pairs) (get s k))
          (to_vec_bool (to_bitmap k))
          items
        ≡ true
  unfolding verify_merkle_path proof
  verify_merkle_path-proof s k small sound own r items er ei =
      let path : siblings s.inner 0 (to_bitmap k) ≡ items =
        some_injective (sym (proof-siblings s.inner k) ∙ ei) in
      let leaf =
        hash_leaf-leaf_value (get s k)
        ∙ ap (λ i. leaf_value (poseidon_total text pairs) i (get s k)) own in
      let top = fold_path-pair s k r (hash_leaf (pair text pairs) (get s k)) small sound er leaf in
      rw (to_vec_bool-to_bitmap k, ← path, digest-fold_path (pair text pairs), top) (==_refl r)
