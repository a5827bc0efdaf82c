-- ===== src/Examples/Proofs.antt =====
-- The theorem on a proof's inputs, in the small scheme.
use Prim.Native.String.{String, [] as empty_text, ◌∷◌ as cons_text}
use fusion_zksnark_circle.Base.{◌≡◌, refl, Option, some, none, List, ◌∷◌, map, replicate}
use fusion_zksnark_circle.Prover.L1Proof.{ZokratesProof, fq2}
use fusion_zksnark_circle.Examples.Scheme.{Residue, r1, r2, canonical, write}

unfoldable pub skip_two : String → Option String
skip_two empty_text = none
skip_two (cons_text c empty_text) = none
skip_two (cons_text c (cons_text d t)) = some t

abbrev pub prefixed : String → String
prefixed t = cons_text "0" (cons_text "x" t)

pub skipped : (t : String) → skip_two (prefixed t) ≡ some t
unfolding skip_two
skipped t = refl

abbrev elements : List Residue
elements = r1 ∷ replicate 17 r2

abbrev proof : ZokratesProof
proof = record {
  a = ("0x1", "0x2");
  b = fq2 ("0x1", "0x2") ("0x3", "0x4");
  c = ("0x1", "0x2");
  inputs = map (λ f. prefixed (write (canonical f))) elements;
}
