-- ===== src/Prover/StateTests.antt =====
-- The unit tests of the state (fusion-prover/src/state.rs). A test returns the values that it makes
-- assertions of.
use fusion_zksnark_circle.Base.{ℕ, ◌≡◌, ◌≢◌, refl, ap, ◌∙◌, Option, some, [], length, ◌>>=◌, arith}
use fusion_zksnark_circle.Types.External.{External, FieldText, PoseidonPairs}
use fusion_zksnark_circle.Merkle.Operations.{root_hash-subtree, subtree-zero}
use fusion_zksnark_circle.Merkle.Proofs.{length-siblings, proof-siblings}
use fusion_zksnark_circle.Merkle.BranchKey.{to_bitmap}
use fusion_zksnark_circle.Merkle.Paths.{length-to_bitmap}
use fusion_zksnark_circle.Merkle.Stored.{stored-empty}
use fusion_zksnark_circle.Prover.Confusion.{one_stored}
use fusion_zksnark_circle.Prover.Poseidon.{pair}
use fusion_zksnark_circle.Prover.State.{
  Account, new_account, default_state, get, root, update, proof,
}
use fusion_zksnark_circle.Prover.Laws.{
  account_word, poseidon_total, default_state-IsSound, update-get,
}

module _ (X : External) where
  unfoldable empty_tree_test : Option ℕ
  empty_tree_test = root X default_state

  -- The account and the root.
  unfoldable add_account_test : Option (Account × ℕ)
  add_account_test = do
    s ← update X default_state 0 (record { id = 0; balance = 42; nonce = 1 })
    let acc = get s 0
    r ← root X s
    some (acc, r)

  -- The proof's length and the root.
  unfoldable merkle_proof_test : Option (ℕ × ℕ)
  merkle_proof_test = do
    s_0 ← update X default_state 0 (record { id = 0; balance = 42; nonce = 1 })
    s_1 ← update X s_0 1 (record { id = 1; balance = 43; nonce = 2 })
    s ← update X s_1 2 (record { id = 2; balance = 44; nonce = 3 })
    items ← proof s 0
    r ← root X s
    some (length items, r)

module _ {X : External} (text : FieldText X) (pairs : PoseidonPairs X) where
  empty_tree_test-passes : empty_tree_test X ≡ some 0
  unfolding empty_tree_test root poseidon_total
  empty_tree_test-passes =
      root_hash-subtree (poseidon_total text pairs) default_state.inner
        (default_state-IsSound text pairs)
      ∙ ap some (
          subtree-zero (pair text pairs) _ (λ p. stored-empty (poseidon_total text pairs) _) 256 [])

  -- If the account's hash is not zero: the account is found, and the root is the hash of its leaf.
  add_account_test-passes :
      pair text pairs 42 1 ≢ 0
      → add_account_test X ≡ some (new_account 0 42 1, pair text pairs 0 (pair text pairs 42 1))
  unfolding add_account_test update get root poseidon_total account_word
  add_account_test-passes nonzero =
      let (t, run, c, at, rooted) =
        one_stored (poseidon_total text pairs) 0 (new_account 0 42 1) (omega arith) nonzero in
      let found : get (record { inner = t }) 0 ≡ new_account 0 42 1 = ground (arith, at 0) in
      rw (run, rooted, found) refl

  -- The proof has 256 items.
  merkle_proof_test-passes : (r : ℕ) × (merkle_proof_test X ≡ some (256, r))
  unfolding merkle_proof_test root proof poseidon_total
  merkle_proof_test-passes =
      let (s_0, run_0, sound_0, at_0) =
        update-get text pairs default_state 0 (new_account 0 42 1) (omega arith)
          (default_state-IsSound text pairs) in
      let (s_1, run_1, sound_1, at_1) =
        update-get text pairs s_0 1 (new_account 1 43 2) (omega arith) sound_0 in
      let (s, run, sound, at) =
        update-get text pairs s_1 2 (new_account 2 44 3) (omega arith) sound_1 in
      let (r, rooted) : (r : ℕ) × (root X s ≡ some r) =
        (_, root_hash-subtree (poseidon_total text pairs) s.inner sound) in
      (
        r,
        rw
            (
              run_0,
              run_1,
              run,
              proof-siblings s.inner 0,
              length-siblings s.inner 0 (to_bitmap 0) ∙ length-to_bitmap 0,
              rooted,
            )
            refl,
      )
