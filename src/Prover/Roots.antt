-- ===== src/Prover/Roots.antt =====
-- The root of a state in which an account holds something is not zero (fusion-prover/src/state.rs).
use mathlib.Core.List.{reverse, reverse_aux, reverse-reverse}
use fusion_zksnark_circle.Base.{
  ◌==◌, if◌then◌else◌, ℕ, ◌<◌, ◌≡◌, ◌≢◌, refl, sym, ap, ◌∙◌, inl, inr, some_injective, Bool, true,
  false, some, List, [], ◌∷◌, length, of_bits, u256_size, Option-cases, arith,
}
use fusion_zksnark_circle.Types.External.{External, FieldText, PoseidonPairs}
use fusion_zksnark_circle.Merkle.BranchKey.{to_bitmap}
use fusion_zksnark_circle.Merkle.Paths.{length-to_bitmap, of_bits-to_bitmap}
use fusion_zksnark_circle.Merkle.Tree
use fusion_zksnark_circle.Merkle.Sparse.{merge, subtree, stored}
use fusion_zksnark_circle.Merkle.Operations.{root_hash-subtree}
use fusion_zksnark_circle.Merkle.Focus.{length-reverse_aux}
use fusion_zksnark_circle.Prover.Poseidon.{pair}
use fusion_zksnark_circle.Prover.State.{Account, State, get, root}
use fusion_zksnark_circle.Prover.Laws.{account_word, poseidon_total, IsSound}

merge-zero :
    (hash : ℕ → ℕ → ℕ)
    → ((a b : ℕ) → hash a b ≢ 0)
    → (a b : ℕ) → merge hash a b ≡ 0
    → (a ≡ 0) × (b ≡ 0)
unfolding merge
merge-zero hash nonzero a b e = ground (arith, nonzero a b)

-- Below a node of hash zero all leaf hashes are zero.
subtree-below :
    (hash : ℕ → ℕ → ℕ) (f : List Bool → ℕ)
    → ((a b : ℕ) → hash a b ≢ 0)
    → (r p : List Bool) → subtree hash f (length r) p ≡ 0
    → f (reverse_aux r p) ≡ 0
unfolding subtree
subtree-below hash f nonzero [] p e = e
subtree-below hash f nonzero (false ∷ r) p e =
    subtree-below hash f nonzero r (false ∷ p) (merge-zero hash nonzero _ _ e).0
subtree-below hash f nonzero (true ∷ r) p e =
    subtree-below hash f nonzero r (true ∷ p) (merge-zero hash nonzero _ _ e).1

module _ {X : External} (text : FieldText X) (pairs : PoseidonPairs X)
    (nonzero : (x y : ℕ) → pair text pairs x y ≢ 0) (s : State) where
  word_zero :
      (acc : Account) (k : ℕ)
      → (if account_word text pairs acc == 0
          then 0
          else pair text pairs k (account_word text pairs acc))
        ≡ 0
      → acc.balance ≡ 0
  unfolding account_word
  word_zero acc k e =
      ground
        (arith, nonzero acc.balance acc.nonce, nonzero k (pair text pairs acc.balance acc.nonce))

  stored_zero : (k : ℕ) → stored (poseidon_total text pairs) s.inner k ≡ 0 → (get s k).balance ≡ 0
  unfolding stored get poseidon_total account_word
  stored_zero k e = elim (Option-cases (Tree.get s.inner k)) [
    | inl n ↦ rw (n, get) refl
    | inr (acc, g) ↦ rw (g, get) (word_zero acc k (rw (g, stored) at e))
  ]

  -- In a sound state where some account has a balance, the root is not zero, if the hash of two
  -- numbers never is.
  pub root-nonzero :
      (k r : ℕ)
      → IsSound text pairs s
      → k < u256_size
      → (get s k).balance ≢ 0
      → root X s ≡ some r
      → r ≢ 0
  unfolding root poseidon_total
  root-nonzero k r sound small funded e zero_root =
      let top =
        some_injective (sym (root_hash-subtree (poseidon_total text pairs) s.inner sound) ∙ e) in
      let path = reverse (to_bitmap k) in
      let long : length path ≡ 256 =
        length-reverse_aux (to_bitmap k) [] ∙ omega (arith, length-to_bitmap k) in
      let below =
        subtree-below (pair text pairs)
          (λ p. stored (poseidon_total text pairs) s.inner (of_bits p)) nonzero path []
          (rw long (top ∙ zero_root)) in
      let same : of_bits (reverse path) ≡ k =
        ap of_bits (reverse-reverse (to_bitmap k)) ∙ of_bits-to_bitmap k small in
      funded (stored_zero k (rw same at below))
