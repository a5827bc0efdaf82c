-- ===== src/Rollup/Published.antt =====
-- What `Prover::prove` (fusion-prover/src/lib.rs) hands to the contract are the public inputs of the
-- circuit (circuits/fusion.zok).
use Prim.Native.String.{String}
use fusion_zksnark_circle.Base.{
  ℕ, ◌≡◌, refl, sym, ap, ◌∙◌, some_injective, >>=-some, Option, some, List, [], ◌∷◌, map, ok,
}
use fusion_zksnark_circle.Types.External.{External, FieldText}
use fusion_zksnark_circle.Config.{Config}
use fusion_zksnark_circle.Api.{SignedTx}
use fusion_zksnark_circle.Prover.State.{State}
use fusion_zksnark_circle.Prover.CircuitInput.{CircuitInput, new_input}
use fusion_zksnark_circle.Prover.L1Proof.{
  TxProof, ZokratesProof, to_fusion_l1_proof, to_fusion_l1_input, to_fusion_l1_tx,
}
use fusion_zksnark_circle.Prover.L1Laws.{to_fusion_l1_input-hex}
use fusion_zksnark_circle.Prover.Prove.{Zokrates, prove}
use fusion_zksnark_circle.Prover.Stages.{Loaded, prove-Proved}
use fusion_zksnark_circle.Circuits.Fusion.{public_inputs}

module _ {X : External} (text : FieldText X) (Z : Zokrates) (prefixed : String → String) where
  -- A proof of a run of the compiled circuit lists the circuit's public parameters, as prefixed
  -- hexadecimal texts.
  pub record IsCompiled (prog : Z.Program) : Type 0 where
    pub lists_inputs :
        (i : CircuitInput) (json : String) (abi : Z.Abi) (values : Z.Values) (witness : Z.Witness)
        (file : Z.File) (entropy : Z.Entropy) (proof : ZokratesProof)
        → Z.to_json i ≡ some json
        → Z.parse_strict json (Z.signature abi) ≡ ok values
        → Z.execute (Z.encode values) prog ≡ ok witness
        → Z.generate_proof prog witness file entropy ≡ some proof
        → proof.inputs ≡ map (λ f. prefixed (X.to_hex f)) (map text.reduce (public_inputs i))

  map-map :
      (ns : List ℕ)
      → map text.canonical (map text.reduce ns) ≡ map (λ n. text.canonical (text.reduce n)) ns
  map-map [] = refl
  map-map (n ∷ ns) = ap (λ l. text.canonical (text.reduce n) ∷ l) (map-map ns)

  module _ (skip_prefix : String → Option String)
      (skipped : (t : String) → skip_prefix (prefixed t) ≡ some t) where
    converted :
        (p : ZokratesProof) (i : CircuitInput) (t : TxProof)
        → p.inputs ≡ map (λ f. prefixed (X.to_hex f)) (map text.reduce (public_inputs i))
        → to_fusion_l1_tx X skip_prefix p ≡ some t
        → t.input ≡ map (λ n. text.canonical (text.reduce n)) (public_inputs i)
    unfolding to_fusion_l1_tx public_inputs
    converted p i t e h =
        let (q, eq, h₁) = >>=-some (to_fusion_l1_proof X skip_prefix p) _ h in
        let (input, ei, h₂) = >>=-some (to_fusion_l1_input X skip_prefix p) _ h₁ in
        let hex =
          to_fusion_l1_input-hex text skip_prefix prefixed skipped p
            (map text.reduce (public_inputs i)) e in
        let same : t.input ≡ input = sym (ap TxProof.input (some_injective h₂)) in
        same ∙ some_injective (sym ei ∙ hex)

    -- If the program in the circuit's file, when proved, lists the public parameters of the circuit
    -- as prefixed hexadecimal texts, and cutting a prefix off gives the text behind it, a proof
    -- that `Prover::prove` returns has the inputs that `CircuitInput::new` computes, reduced modulo
    -- the field's size, in the order in which the contract reads them.
    pub prove-public_inputs :
        (config : Config) (tx : SignedTx) (s s' : State) (entropy : Z.Entropy) (t : TxProof)
        → ((prog : Z.Program) → Loaded X Z config tx s s' prog → IsCompiled prog)
        → prove X Z config tx s s' skip_prefix entropy ≡ some (ok t)
        → (i : CircuitInput) × (new_input X tx s s' ≡ some i)
          × (t.input ≡ map (λ n. text.canonical (text.reduce n)) (public_inputs i))
    prove-public_inputs config tx s s' entropy t compiled e =
        let p = (prove-Proved X Z config tx s s' skip_prefix entropy t).0 e in
        let a = p.witnessed.arguments in
        let inputs =
          (compiled p.prog p.loaded).lists_inputs p.witnessed.i a.json a.abi p.witnessed.values
            p.witness p.pk_file entropy p.proof a.written a.parsed p.witnessed.executed
            p.generated in
        (p.witnessed.i, a.input, converted p.proof p.witnessed.i t inputs p.converted)
