-- ===== src/Prover/Prove.antt =====
-- `Prover::prove` (fusion-prover/src/lib.rs). The file system, ZoKrates and the JSON writer are
-- parameters.
use Prim.Native.String.{String, ◌++◌}
use fusion_zksnark_circle.Base.{Option, none, List, Result}
use fusion_zksnark_circle.Base.Attempt.{Attempt, ◌>>=◌, unwrapped, explained}
use fusion_zksnark_circle.Types.External.{External}
use fusion_zksnark_circle.Config.{Config}
use fusion_zksnark_circle.Api.{SignedTx}
use fusion_zksnark_circle.Prover.State.{State}
use fusion_zksnark_circle.Prover.CircuitInput.{CircuitInput, new_input}
use fusion_zksnark_circle.Prover.L1Proof.{TxProof, ZokratesProof, to_fusion_l1_tx}

-- `zokrates_ast::ir::ProgEnum`: a program over the curve Bn128, or over another.
pub data ProgEnum (P : Type 0) : Type 0 where
  bn128_program : P → ProgEnum P
  other_program : ProgEnum P

-- What the prover calls. A message is the error's text; `none` is a panic.
pub record Zokrates : Type 1 where
  pub File : Type 0
  pub open_file : String → Result File
  pub Lazy : Type 0
  pub Program : Type 0
  pub deserialize : File → Option (ProgEnum Lazy)
  pub collect : Lazy → Option Program
  pub Abi : Type 0
  pub from_reader : File → Result Abi
  pub Signature : Type 0
  pub signature : Abi → Signature
  pub to_json : CircuitInput → Option String
  pub Values : Type 0
  pub parse_strict : String → Signature → Result Values
  pub Field : Type 0
  pub encode : Values → List Field
  pub Witness : Type 0
  pub execute : List Field → Program → Result Witness
  pub Entropy : Type 0
  pub generate_proof : Program → Witness → File → Entropy → Option ZokratesProof

unfoldable pub bn128 : {P : Type 0} → ProgEnum P → Option P
bn128 (bn128_program p) = Option.some p
bn128 other_program = none

unfoldable pub open_at : (Z : Zokrates) → String → Attempt Z.File
open_at Z path = explained ("Could not open " ++ path ++ ": ") (Z.open_file path)

module _ (X : External) (Z : Zokrates) (config : Config) (tx : SignedTx)
    (pre_state post_state : State) where
  unfoldable pub compute_witness : Z.Program → Attempt Z.Witness
  unfolding open_at
  compute_witness prog = do
    file ← open_at Z config.circuit_abi_path
    abi ← Option.some (Z.from_reader file)
    inputs ← unwrapped (new_input X tx pre_state post_state)
    json ← unwrapped (Z.to_json inputs)
    values ← explained "Could not parse argument: " (Z.parse_strict json (Z.signature abi))
    explained "Execution failed: " (Z.execute (Z.encode values) prog)

  -- The entropy is that of the random generator.
  unfoldable pub prove : (String → Option String) → Z.Entropy → Attempt TxProof
  unfolding compute_witness bn128
  prove skip_prefix entropy = do
    file ← open_at Z config.circuit_path
    prog_enum ← unwrapped (Z.deserialize file)
    lazy ← unwrapped (bn128 prog_enum)
    prog ← unwrapped (Z.collect lazy)
    witness ← compute_witness prog
    pk_file ← open_at Z config.proving_key_path
    proof ← unwrapped (Z.generate_proof prog witness pk_file entropy)
    unwrapped (to_fusion_l1_tx X skip_prefix proof)
