-- ===== src/Circuits/Accepts.antt =====
-- The state circuit (circuits/merkle_tree.zok) accepts what the sequencer does.
use fusion_zksnark_circle.Base.{ℕ, ◌<◌, ◌≡◌, ◌≢◌, refl, sym, ◌∙◌, some_injective, true, some, ok}
use fusion_zksnark_circle.Types.External.{External, FieldText, PoseidonPairs}
use fusion_zksnark_circle.Api.{SignedTx, kind_to_u256}
use fusion_zksnark_circle.Prover.Poseidon.{pair}
use fusion_zksnark_circle.Prover.State.{State, get}
use fusion_zksnark_circle.Prover.CircuitInput.{
  CircuitTx, CircuitTxSignature, CircuitInput, signature_of, to_circuit_tx, pre_account_to,
  new_input,
}
use fusion_zksnark_circle.Sequencer.Transactions.{address_of, validate_tx, apply_tx}
use fusion_zksnark_circle.Sequencer.Validity.{IsWellFormed}
use fusion_zksnark_circle.Sequencer.Replay.{IsAdmissible, validate_tx-IsAdmissible}
use fusion_zksnark_circle.Circuits.MerkleTree.{main}
use fusion_zksnark_circle.Circuits.Given.{IsElementary, main-input_of}
use fusion_zksnark_circle.Circuits.Checks.{
  address_of-parts, root_of, proof_of, after, input_of, pre_account_to-get,
}

module _ {X : External} (text : FieldText X) (pairs : PoseidonPairs X) {p : ℕ} where
  module _ (small : (f : X.Fr) → text.canonical f < p)
      (nonzero : (x y : ℕ) → pair text pairs x y ≢ 0) (two : 2 < p) (s s' : State) (tx : SignedTx)
      (a b : ℕ) (w : IsWellFormed text pairs s) (sender : address_of X tx.tx.sender ≡ some a)
      (to : address_of X tx.tx.to ≡ some b) (ne : a ≢ b) (run : apply_tx X s tx.tx ≡ some s') where
    -- What `new_input` builds is what the circuit accepts.
    new_input-input_of :
        (sig : CircuitTxSignature)
        → IsAdmissible (get s a) tx.tx
        → signature_of X tx ≡ some sig
        → IsElementary p s tx a b
        → (input : CircuitInput) × (new_input X tx s s' ≡ some input)
          × (main (pair text pairs) p input ≡ true)
    unfolding new_input to_circuit_tx
    new_input-input_of sig ok_tx signed small_tx =
        let (key, fs, own, ha) = address_of-parts text pairs tx.tx.sender sender in
        let (key', ft, own', hb) = address_of-parts text pairs tx.tx.to to in
        let (r, er) = root_of text pairs s w.sound in
        let (r', er') =
          root_of text pairs s' (after text pairs nonzero p s s' tx a b w sender to ne run).sound in
        let (pa, epa) = proof_of text pairs s a in
        let (pb, epb) = proof_of text pairs s b in
        let (qa, eqa) = proof_of text pairs s' a in
        let (qb, eqb) = proof_of text pairs s' b in
        let c : CircuitTx = record {
          kind = kind_to_u256 tx.tx.kind;
          sender = key.point;
          to = key'.point;
          nonce = tx.tx.nonce;
          value = tx.tx.value;
          sig = sig;
        } in
        (
          input_of text pairs nonzero p s s' tx a b w sender to ne run c (pre_account_to tx s b) r
              r' (pa, pb) (qa, qb),
          rw (fs, ft, signed, own, own', er, er', epa, epb, eqa, eqb),
          main-input_of text pairs small nonzero two s s' tx a b w sender to ne run small_tx s'
              (after text pairs nonzero p s s' tx a b w sender to ne run) refl (λ t. refl) c
              (pre_account_to tx s b) r r' pa pb qa qb
              (record { kind = refl; nonce = refl; value = refl })
              (pre_account_to-get text pairs nonzero p s s' tx a b w sender to ne run) ok_tx fs ft
              ha hb (er, epa, epb) (er', eqa, eqb),
        )

  -- For a state that is well formed, a transaction between two different addresses that `validate_tx`
  -- accepts, and the state that `apply_tx` makes of it: if the signature reads as the circuit's, and
  -- neither the nonce, the sender's balance, a balance that is credited nor the nonce of a transfer's
  -- receiver reaches the field's size `p`, then `CircuitInput::new` builds an input, and the state
  -- circuit accepts it. The hash of two numbers is assumed never to be zero.
  pub main-new_input :
      (small : (f : X.Fr) → text.canonical f < p) (nonzero : (x y : ℕ) → pair text pairs x y ≢ 0)
      (two : 2 < p) (s s' : State) (tx : SignedTx) (a b : ℕ) (sig : CircuitTxSignature)
      → IsWellFormed text pairs s
      → address_of X tx.tx.sender ≡ some a
      → address_of X tx.tx.to ≡ some b
      → a ≢ b
      → validate_tx X s tx ≡ some (ok tt)
      → apply_tx X s tx.tx ≡ some s'
      → signature_of X tx ≡ some sig
      → IsElementary p s tx a b
      → (input : CircuitInput) × (new_input X tx s s' ≡ some input)
        × (main (pair text pairs) p input ≡ true)
  main-new_input small nonzero two s s' tx a b sig w sender to ne valid run signed small_tx =
      let (a', v, sender', ok_tx) = (validate_tx-IsAdmissible X s tx).0 valid in
      let same : a' ≡ a = some_injective (sym sender' ∙ sender) in
      new_input-input_of small nonzero two s s' tx a b w sender to ne run sig (rw same at ok_tx)
        signed small_tx
