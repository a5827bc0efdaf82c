-- ===== src/Circuits/Fusion.antt =====
-- The circuit that is proved (circuits/fusion.zok), which combines the state circuit and the
-- signature circuit.
use fusion_zksnark_circle.Base.{
  ℕ, Bool, not, Option, none, some, List, [], ◌∷◌, if◌then◌else◌, ◌>>=◌,
}
use fusion_zksnark_circle.Types.PublicKey.{Point}
use fusion_zksnark_circle.Circuits.MerkleTree
use fusion_zksnark_circle.Circuits.MerkleTree.{elements_of}
use fusion_zksnark_circle.Circuits.Signature.{verify_signature}
use fusion_zksnark_circle.Prover.CircuitInput.{CircuitTx, CircuitInput}

-- The numbers that are given for the public parameters of `main`, in order, as the contract lists them:
-- all but the paths. A proof has them modulo the field's size.
unfoldable pub public_inputs : CircuitInput → List ℕ
public_inputs i =
    i.pre_root ∷ i.post_root ∷ i.tx.kind ∷ i.tx.sender.x ∷ i.tx.sender.y ∷ i.tx.to.x ∷ i.tx.to.y
    ∷ i.tx.nonce ∷ i.tx.value ∷ i.tx.sig.r.x ∷ i.tx.sig.r.y ∷ i.tx.sig.s ∷ i.pre_accounts.0.id
    ∷ i.pre_accounts.0.balance ∷ i.pre_accounts.0.nonce ∷ i.pre_accounts.1.id
    ∷ i.pre_accounts.1.balance ∷ i.pre_accounts.1.nonce ∷ []

-- `tx_hash`, with Poseidon as a parameter.
unfoldable pub tx_hash : (List ℕ → ℕ) → CircuitTx → ℕ
tx_hash poseidon tx = poseidon (
    tx.kind
    ∷ poseidon (tx.sender.x ∷ tx.sender.y ∷ [])
    ∷ poseidon (tx.to.x ∷ tx.to.y ∷ [])
    ∷ tx.nonce
    ∷ tx.value
    ∷ [])

-- `main`, with the bits that the prover chose; a failed assertion is `none`.
unfoldable pub main :
    ℕ
    → (Point → Point → Point)
    → (Point → Bool)
    → (Point → Bool)
    → (List ℕ → ℕ)
    → (ℕ → List Bool → Bool)
    → List Bool
    → List Bool
    → CircuitInput
    → Option (Unit {0})
unfolding tx_hash
main p add on_curve order_check poseidon unpacks hm_bits s_bits given =
    let input = elements_of p given in
    if not (MerkleTree.main (λ a b. poseidon (a ∷ b ∷ [])) p given) then none else do
      let hash = tx_hash poseidon input.tx
      verdict ←
          verify_signature add on_curve order_check poseidon unpacks hm_bits s_bits input.tx.sender
            hash input.tx.sig
      if verdict then some tt else none
