-- ===== src/Circuits/Gaps.antt =====
-- What the state circuit does not check (circuits/merkle_tree.zok): nothing ties the path of an account
-- under the new root to its path under the old one.
use fusion_zksnark_circle.Base.{
  ℕ, ◌<◌, ◌≡◌, ◌≢◌, refl, sym, ◌∙◌, some_injective, true, some, List, ok,
}
use fusion_zksnark_circle.Types.External.{External, FieldText, PoseidonPairs}
use fusion_zksnark_circle.Api.{transfer, SignedTx, kind_to_u256}
use fusion_zksnark_circle.Prover.Poseidon.{pair}
use fusion_zksnark_circle.Prover.State.{State, get, root}
use fusion_zksnark_circle.Prover.CircuitInput.{
  CircuitTx, CircuitTxSignature, CircuitInput, signature_of, to_circuit_tx, pre_account_to,
  new_input,
}
use fusion_zksnark_circle.Sequencer.Transactions.{address_of, validate_tx, apply_tx}
use fusion_zksnark_circle.Sequencer.Validity.{IsWellFormed}
use fusion_zksnark_circle.Sequencer.Replay.{validate_tx-IsAdmissible}
use fusion_zksnark_circle.Circuits.MerkleTree.{main}
use fusion_zksnark_circle.Circuits.Given.{IsElementary, main-input_of}
use fusion_zksnark_circle.Circuits.Checks.{
  address_of-parts, root_of, proof_of, after, input_of, pre_account_to-get,
}

module _ {X : External} (text : FieldText X) (pairs : PoseidonPairs X) {p : ℕ} where
  -- The state circuit does not bind the accounts that a transaction does not name: under the
  -- conditions for it to accept the step from `s` to `s'`, it also accepts the input whose new root
  -- and paths are those of any well-formed state `u` that has the sender's account of `s'`, and for
  -- a transfer the receiver's, whatever the other accounts of `u` are. The nonce, the sender's
  -- balance, a balance that is credited and the nonce of a transfer's receiver are below the field's
  -- size, and the hash of two numbers is assumed never to be zero.
  pub main-other_accounts :
      (small : (f : X.Fr) → text.canonical f < p) (nonzero : (x y : ℕ) → pair text pairs x y ≢ 0)
      (two : 2 < p) (s s' u : State) (tx : SignedTx) (a b : ℕ) (sig : CircuitTxSignature)
      → IsWellFormed text pairs s
      → IsWellFormed text pairs u
      → address_of X tx.tx.sender ≡ some a
      → address_of X tx.tx.to ≡ some b
      → a ≢ b
      → validate_tx X s tx ≡ some (ok tt)
      → apply_tx X s tx.tx ≡ some s'
      → signature_of X tx ≡ some sig
      → get u a ≡ get s' a
      → (tx.tx.kind ≡ transfer → get u b ≡ get s' b)
      → IsElementary p s tx a b
      → (honest : CircuitInput) × (r : ℕ) × (path : List ℕ × List ℕ) × (new_input X tx s s'
          ≡ some honest)
        × (root X u ≡ some r)
        × (main (pair text pairs) p (record honest { post_root = r; post_path = path }) ≡ true)
  unfolding new_input to_circuit_tx
  main-other_accounts small nonzero two s s' u tx a b sig w v sender to ne valid run signed same_a
        same_b small_tx =
      let (a', checked, sender', ok_tx) = (validate_tx-IsAdmissible X s tx).0 valid in
      let same : a' ≡ a = some_injective (sym sender' ∙ sender) in
      let (key, fs, own, ha) = address_of-parts text pairs tx.tx.sender sender in
      let (key', ft, own', hb) = address_of-parts text pairs tx.tx.to to in
      let (r, er) = root_of text pairs s w.sound in
      let (r', er') =
        root_of text pairs s' (after text pairs nonzero p s s' tx a b w sender to ne run).sound in
      let (q, eq) = root_of text pairs u v.sound in
      let (pa, epa) = proof_of text pairs s a in
      let (pb, epb) = proof_of text pairs s b in
      let (qa, eqa) = proof_of text pairs s' a in
      let (qb, eqb) = proof_of text pairs s' b in
      let (ua, eua) = proof_of text pairs u a in
      let (ub, eub) = proof_of text pairs u b in
      let c : CircuitTx = record {
        kind = kind_to_u256 tx.tx.kind;
        sender = key.point;
        to = key'.point;
        nonce = tx.tx.nonce;
        value = tx.tx.value;
        sig = sig;
      } in
      (
        input_of text pairs nonzero p s s' tx a b w sender to ne run c (pre_account_to tx s b) r r'
            (pa, pb) (qa, qb),
        q,
        (ua, ub),
        rw (fs, ft, signed, own, own', er, er', epa, epb, eqa, eqb),
        eq,
        main-input_of text pairs small nonzero two s s' tx a b w sender to ne run small_tx u v
            same_a same_b c (pre_account_to tx s b) r q pa pb ua ub
            (record { kind = refl; nonce = refl; value = refl })
            (pre_account_to-get text pairs nonzero p s s' tx a b w sender to ne run)
            (rw same at ok_tx) fs ft ha hb (er, epa, epb) (eq, eua, eub),
      )
