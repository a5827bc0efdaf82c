-- ===== src/Rollup/Inputs.antt =====
-- What the public inputs of a proof say of the transaction (fusion-prover/src/lib.rs).
use fusion_zksnark_circle.Base.{
  ℕ, ◌≡◌, refl, sym, ap, subst, inl, inr, Option-cases, ◌∙◌, some_injective, >>=-some, some,
}
use fusion_zksnark_circle.Types.External.{External}
use fusion_zksnark_circle.Types.PublicKey.{from_point, from_u256, address}
use fusion_zksnark_circle.Api.{SignedTx, kind_to_u256}
use fusion_zksnark_circle.Prover.State.{State, get, root, proof}
use fusion_zksnark_circle.Prover.CircuitInput.{
  CircuitTx, CircuitInput, signature_of, to_circuit_tx, pre_account_to, new_input,
}
use fusion_zksnark_circle.Sequencer.Transactions.{address_of}

pub record Describes (X : External) (tx : SignedTx) (s s' : State) (a b : ℕ) (i : CircuitInput)
    : Type 0 where
  pub pre_root : root X s ≡ some i.pre_root
  pub post_root : root X s' ≡ some i.post_root
  pub kind : i.tx.kind ≡ kind_to_u256 tx.tx.kind
  pub nonce : i.tx.nonce ≡ tx.tx.nonce
  pub value : i.tx.value ≡ tx.tx.value
  pub sender_key : from_u256 X tx.tx.sender ≡ some (record { point = i.tx.sender })
  pub to_key : from_u256 X tx.tx.to ≡ some (record { point = i.tx.to })
  pub sig : signature_of X tx ≡ some i.tx.sig
  pub sender : i.pre_accounts.0 ≡ get s a
  pub to : i.pre_accounts.1 ≡ pre_account_to tx s b

module _ (X : External) (tx : SignedTx) where
  pub to_circuit_tx-parts :
      (c : CircuitTx)
      → to_circuit_tx X tx ≡ some c
      → (from_u256 X tx.tx.sender ≡ some (record { point = c.sender }))
        × (from_u256 X tx.tx.to ≡ some (record { point = c.to }))
        × (c.kind ≡ kind_to_u256 tx.tx.kind)
        × (c.nonce ≡ tx.tx.nonce)
        × (c.value ≡ tx.tx.value)
        × (signature_of X tx ≡ some c.sig)
  unfolding to_circuit_tx from_point
  to_circuit_tx-parts c e =
      let (k, fk, e₁) = >>=-some (from_u256 X tx.tx.sender) _ e in
      let (k', fk', e₂) = >>=-some (from_u256 X tx.tx.to) _ e₁ in
      let (sig, es, e₃) = >>=-some (signature_of X tx) _ e₂ in
      let same = some_injective e₃ in
      (
        fk ∙ ap (λ (d : CircuitTx). some (from_point d.sender.x d.sender.y)) same,
        fk' ∙ ap (λ (d : CircuitTx). some (from_point d.to.x d.to.y)) same,
        sym (ap CircuitTx.kind same),
        sym (ap CircuitTx.nonce same),
        sym (ap CircuitTx.value same),
        es ∙ ap (λ (d : CircuitTx). some d.sig) same,
      )

  module _ (s s' : State) (i : CircuitInput) where
    pub new_input-Describes :
        (a b : ℕ)
        → address_of X tx.tx.sender ≡ some a
        → address_of X tx.tx.to ≡ some b
        → new_input X tx s s' ≡ some i
        → Describes X tx s s' a b i
    unfolding new_input address_of
    new_input-Describes a b ea eb e = elim (Option-cases (to_circuit_tx X tx)) [
      | inl n ↦ absurd (cc (rw n at e))
      | inr (c, ec) ↦
          let (fk, fk', kind, nonce, value, sig) = to_circuit_tx-parts c ec in
          let own : address X (record { point = c.sender }) ≡ some a = rw fk at ea in
          let own' : address X (record { point = c.to }) ≡ some b = rw fk' at eb in
          let (r, er, e₁) = >>=-some (root X s) _ (rw (ec, own, own') at e) in
          let (r', er', e₂) = >>=-some (root X s') _ e₁ in
          let (pa, epa, e₃) = >>=-some (proof s a) _ e₂ in
          let (pb, epb, e₄) = >>=-some (proof s b) _ e₃ in
          let (qa, eqa, e₅) = >>=-some (proof s' a) _ e₄ in
          let (qb, eqb, e₆) = >>=-some (proof s' b) _ e₅ in
          let same = some_injective e₆ in
          subst (Describes X tx s s' a b) same (record {
            pre_root = er;
            post_root = er';
            kind = kind;
            nonce = nonce;
            value = value;
            sig = sig;
            sender_key = fk;
            to_key = fk';
            sender = refl;
            to = refl;
          })
    ]
