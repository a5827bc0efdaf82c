-- ===== src/Circuits/Signature.antt =====
-- The signature circuit (circuits/babyjubjub_signature.zok). The curve's sum and tests, Poseidon and
-- `nonStrictUnpack256` are ZoKrates' and are parameters. An element has more than one unpacking, so the
-- bits, highest first, are the prover's choice, and `unpacks` is the test that the circuit makes of
-- them. A failed assertion is `none`.
use mathlib.Core.List.{reverse, tail}
use fusion_zksnark_circle.Base.{
  ℕ, Bool, false, not, Option, none, some, List, [], ◌∷◌, ◌++◌, ◌==◌, ◌&&◌, if◌then◌else◌, ◌>>=◌,
}
use fusion_zksnark_circle.Types.PublicKey.{Point}
use fusion_zksnark_circle.Prover.CircuitInput.{CircuitTxSignature}

abbrev pub infinity : Point
infinity = record { x = 0; y = 1 }

-- The base point `Gu`, `Gv`.
abbrev pub base : Point
base = record {
  x = 5299619240641551281634865583518297030282874472190772894086521144482721001553;
  y = 16950150798460657717958625567821834550301663161624707787222815936182638968203;
}

module _ (add : Point → Point → Point) where
  -- The loop of `scalarMult`, over the bits of the exponent from the last to the first.
  unfoldable pub scalar_loop : List Bool → Point → Point → Point
  scalar_loop [] doubled accumulated = accumulated
  scalar_loop (bit ∷ bits) doubled accumulated =
      let candidate = add accumulated doubled in
      scalar_loop bits (add doubled doubled) (if bit then candidate else accumulated)

module _ (add : Point → Point → Point) (on_curve : Point → Bool) where
  unfoldable pub scalar_mult : List Bool → Point → Option Point
  scalar_mult exponent pt =
      let accumulated = scalar_loop add (reverse exponent) pt infinity in
      if on_curve accumulated then some accumulated else none

  module _ (order_check : Point → Bool) (poseidon : List ℕ → ℕ)
      (unpacks : ℕ → List Bool → Bool) where
    -- `main`, with the bits that the prover chose for the hash and for the signature's number.
    unfoldable pub verify_signature :
        List Bool → List Bool → Point → ℕ → CircuitTxSignature → Option Bool
    verify_signature hm_bits s_bits sender msg sig =
        let hm = poseidon (sig.r.x ∷ sig.r.y ∷ sender.x ∷ sender.y ∷ msg ∷ []) in
        if not (on_curve sig.r && order_check sig.r)
        then none
        else if not (unpacks hm hm_bits && unpacks sig.s s_bits)
        then none
        else do
          let hm8 = tail (tail hm_bits) ++ false ∷ false ∷ false ∷ []
          lhs ← scalar_mult s_bits base
          a_hm8 ← scalar_mult hm8 sender
          let rhs = add sig.r a_hm8
          some (lhs.x == rhs.x && lhs.y == rhs.y)
