-- ===== src/Prover/Stages.antt =====
-- The stages of `Prover::prove` (fusion-prover/src/lib.rs) when it returns a proof.
use Prim.Native.String.{String}
use fusion_zksnark_circle.Base.{◌≡◌, ◌↔◌, refl, ap, ◌∙◌, some_injective, Option, some, ok}
use fusion_zksnark_circle.Base.Attempt.{>>=-ok, unwrapped-ok, explained-ok}
use fusion_zksnark_circle.Types.External.{External}
use fusion_zksnark_circle.Config.{Config}
use fusion_zksnark_circle.Api.{SignedTx}
use fusion_zksnark_circle.Prover.State.{State}
use fusion_zksnark_circle.Prover.CircuitInput.{CircuitInput, new_input}
use fusion_zksnark_circle.Prover.L1Proof.{TxProof, ZokratesProof, to_fusion_l1_tx}
use fusion_zksnark_circle.Prover.Prove.{
  Zokrates, ProgEnum, other_program, bn128, bn128_program, open_at, compute_witness, prove,
}

pub bn128-some : {L : Type 0} (e : ProgEnum L) {l : L} → bn128 e ≡ some l → e ≡ bn128_program l
unfolding bn128
bn128-some (bn128_program p) h = cc
bn128-some other_program h = cc

module _ (X : External) (Z : Zokrates) (config : Config) (tx : SignedTx)
    (pre_state post_state : State) where
  -- The program in the circuit's file.
  pub record Loaded (prog : Z.Program) : Type 0 where
    pub file : Z.File
    pub lazy : Z.Lazy
    pub opened : Z.open_file config.circuit_path ≡ ok file
    pub read : Z.deserialize file ≡ some (bn128_program lazy)
    pub collected : Z.collect lazy ≡ some prog

  -- The arguments of the program, from the circuit's input and its ABI.
  pub record Parsed (i : CircuitInput) (values : Z.Values) : Type 0 where
    pub file : Z.File
    pub abi : Z.Abi
    pub json : String
    pub opened : Z.open_file config.circuit_abi_path ≡ ok file
    pub read : Z.from_reader file ≡ ok abi
    pub input : new_input X tx pre_state post_state ≡ some i
    pub written : Z.to_json i ≡ some json
    pub parsed : Z.parse_strict json (Z.signature abi) ≡ ok values

  pub record Witnessed (prog : Z.Program) (witness : Z.Witness) : Type 0 where
    pub i : CircuitInput
    pub values : Z.Values
    pub arguments : Parsed i values
    pub executed : Z.execute (Z.encode values) prog ≡ ok witness

  pub compute_witness-Witnessed :
      (prog : Z.Program) (witness : Z.Witness)
      → (compute_witness X Z config tx pre_state post_state prog ≡ some (ok witness))
        ↔ Witnessed prog witness
  unfolding compute_witness open_at
  compute_witness-Witnessed prog witness = (
    λ e.
        let (file, o, e₁) = >>=-ok (open_at Z config.circuit_abi_path) _ e in
        let (abi, r, e₂) = >>=-ok _ _ e₁ in
        let (i, m, e₃) = >>=-ok _ _ e₂ in
        let (json, w, e₄) = >>=-ok _ _ e₃ in
        let (values, q, x) = >>=-ok _ _ e₄ in
        record {
          i = i;
          values = values;
          arguments = record {
            file = file;
            abi = abi;
            json = json;
            opened = explained-ok _ _ o;
            read = some_injective r;
            input = unwrapped-ok _ m;
            written = unwrapped-ok _ w;
            parsed = explained-ok _ _ q;
          };
          executed = explained-ok _ _ x;
        },
    λ w.
        rw
          (
            w.arguments.opened, w.arguments.read, w.arguments.input, w.arguments.written,
            w.arguments.parsed, w.executed,
          )
          refl,
  )

  module _ (skip_prefix : String → Option String) where
    pub record Proved (entropy : Z.Entropy) (t : TxProof) : Type 0 where
      pub prog : Z.Program
      pub loaded : Loaded prog
      pub witness : Z.Witness
      pub witnessed : Witnessed prog witness
      pub pk_file : Z.File
      pub pk_opened : Z.open_file config.proving_key_path ≡ ok pk_file
      pub proof : ZokratesProof
      pub generated : Z.generate_proof prog witness pk_file entropy ≡ some proof
      pub converted : to_fusion_l1_tx X skip_prefix proof ≡ some t

    -- `Prover::prove` returns a proof exactly if the circuit's file, its ABI's file and the proving
    -- key's file are opened and read, `CircuitInput::new` builds an input that is written as JSON
    -- and parsed, the program runs on it, and the proof that is generated from the witness and the
    -- key converts to the one returned.
    pub prove-Proved :
        (entropy : Z.Entropy) (t : TxProof)
        → (prove X Z config tx pre_state post_state skip_prefix entropy ≡ some (ok t))
          ↔ Proved entropy t
    unfolding prove open_at
    prove-Proved entropy t = (
      λ e.
          let (file, o, e₁) = >>=-ok (open_at Z config.circuit_path) _ e in
          let (prog_enum, d, e₂) = >>=-ok _ _ e₁ in
          let (lazy, b, e₃) = >>=-ok _ _ e₂ in
          let (prog, c, e₄) = >>=-ok _ _ e₃ in
          let (witness, w, e₅) = >>=-ok _ _ e₄ in
          let (pk_file, k, e₆) = >>=-ok (open_at Z config.proving_key_path) _ e₅ in
          let (proof, g, e₇) = >>=-ok _ _ e₆ in
          record {
            prog = prog;
            loaded = record {
              file = file;
              lazy = lazy;
              opened = explained-ok _ _ o;
              read = unwrapped-ok _ d ∙ ap some (bn128-some prog_enum (unwrapped-ok _ b));
              collected = unwrapped-ok _ c;
            };
            witness = witness;
            witnessed = (compute_witness-Witnessed prog witness).0 w;
            pk_file = pk_file;
            pk_opened = explained-ok _ _ k;
            proof = proof;
            generated = unwrapped-ok _ g;
            converted = unwrapped-ok _ e₇;
          },
      λ p.
          rw
            (
              p.loaded.opened,
              p.loaded.read,
              p.loaded.collected,
              (compute_witness-Witnessed p.prog p.witness).1 p.witnessed,
              p.pk_opened,
              p.generated,
              p.converted,
            )
            refl,
    )
