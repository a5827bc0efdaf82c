-- ===== src/Prover/L1Laws.antt =====
-- What the contract gets of a proof (fusion-prover/src/lib.rs).
use Prim.Native.String.{String}
use fusion_zksnark_circle.Base.{
  ◌≡◌, refl, Option, some, none, List, [], ◌∷◌, ◌==◌, if◌then◌else◌, length, map, arith,
}
use fusion_zksnark_circle.Types.External.{External, FieldText}
use fusion_zksnark_circle.Prover.L1Proof.{ZokratesProof, parse_hex, parse_all, to_fusion_l1_input}

module _ {X : External} (text : FieldText X) (skip_prefix : String → Option String)
    (prefixed : String → String) (skipped : (t : String) → skip_prefix (prefixed t) ≡ some t) where
  abbrev hex_of : List X.Fr → List String
  hex_of fs = map (λ f. prefixed (X.to_hex f)) fs

  length-hex_of : (fs : List X.Fr) → length (hex_of fs) ≡ length fs
  length-hex_of [] = refl
  length-hex_of (f ∷ fs) = omega (arith, length-hex_of fs)

  parse_all-hex_of :
      (fs : List X.Fr) → parse_all X skip_prefix (hex_of fs) ≡ some (map text.canonical fs)
  unfolding parse_all parse_hex
  parse_all-hex_of [] = refl
  parse_all-hex_of (f ∷ fs) = rw (skipped (X.to_hex f), text.read_hex f, parse_all-hex_of fs)

  -- Where the inputs of a proof are the prefixed hexadecimal texts of field elements, and cutting a
  -- prefix off gives the text behind it: exactly 18 inputs are converted, to the canonical numbers of
  -- the elements in order, and any other number of inputs panics.
  pub to_fusion_l1_input-hex :
      (p : ZokratesProof) (fs : List X.Fr)
      → p.inputs ≡ map (λ f. prefixed (X.to_hex f)) fs
      → to_fusion_l1_input X skip_prefix p
        ≡ (if length fs == 18 then some (map text.canonical fs) else none)
  unfolding to_fusion_l1_input
  to_fusion_l1_input-hex p fs e = rw (e, length-hex_of fs, parse_all-hex_of fs)
