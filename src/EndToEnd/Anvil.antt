-- ===== src/EndToEnd/Anvil.antt =====
-- The L1 chain of the sequencer's end-to-end tests (fusion-sequencer/src/sequencer.rs): the contract,
-- and the blocks mined since its deployment, one for each transaction.
use Prim.Native.String.{String}
use mathlib.Core.Option
use fusion_zksnark_circle.Base.{ℕ, Bool, Option, some, List, [], ◌∷◌, ◌++◌, Result, ok, err}
use fusion_zksnark_circle.Types.External.{External}
use fusion_zksnark_circle.Config.{Config}
use fusion_zksnark_circle.Prover.L1Proof.{Proof}
use fusion_zksnark_circle.Prover.Prove.{Zokrates, prove}
use fusion_zksnark_circle.Api.{SignedTx}
use fusion_zksnark_circle.Prover.State.{State}
use fusion_zksnark_circle.Sequencer.Loop.{Contract}
use fusion_zksnark_circle.L1.Reply.{Error, Reply, done, revert}
use fusion_zksnark_circle.L1.Fusion
use fusion_zksnark_circle.L1.Fusion.{Fusion, TxProof, created}

-- The calls of the contract that change it, as its generated interface decodes them.
pub data FusionCalls (P : Type 0) : Type 0 where
  deposit : ℕ → FusionCalls P
  submit_block : TxProof P → FusionCalls P

-- The recipient of a transaction, and what the interface makes of its input; `none` is an error.
pub record L1Tx (P : Type 0) : Type 0 where
  pub to : Option ℕ
  pub input : Option (FusionCalls P)

abbrev pub L1Block : Type 0 → Type 0
L1Block P = List (L1Tx P)

pub record Anvil (P : Type 0) : Type 0 where
  pub fusion : Fusion
  pub mined : List (L1Block P)

-- The chain on which the contract has been deployed.
abbrev pub spawned : {P : Type 0} → Anvil P
spawned = record { fusion = created; mined = [] }

module _ {P : Type 0} (contract : ℕ) where
  abbrev pub block_of : FusionCalls P → L1Block P
  block_of call = record { to = some contract; input = some call } ∷ []

  -- A call that was sent: it is mined, or the client answers to its revert.
  unfoldable pub sent :
      (Error → Anvil P → Option (Anvil P))
      → FusionCalls P
      → Reply Fusion
      → Anvil P
      → Option (Anvil P)
  sent on_revert call (done c) chain =
      some (record { fusion = c; mined = chain.mined ++ block_of call ∷ [] })
  sent on_revert call (revert e) chain = on_revert e chain

  -- `contract.deposit(l2_recipient).value(value).send()`
  unfoldable pub send_deposit :
      (Error → Anvil P → Option (Anvil P)) → ℕ → ℕ → Anvil P → Option (Anvil P)
  unfolding sent
  send_deposit on_revert l2_recipient value chain =
      sent on_revert (deposit l2_recipient) (Fusion.deposit chain.fusion value l2_recipient) chain

  -- The contract as the sequencer's client sees it.
  abbrev pub anvil :
      (ℕ → Bool)
      → (List ℕ → P → Option ℕ)
      → (Error → Anvil P → Option (Anvil P))
      → Contract (TxProof P)
  anvil accepts verify on_revert = record {
    Chain = Anvil P;
    call_root = λ chain. some chain.fusion.root;
    submit_block = λ chain proof.
        sent on_revert (submit_block proof) (Fusion.submit_block accepts verify chain.fusion proof)
          chain;
  }

-- What the tests run against: the contract's address and the verifier, the choice of recipients to
-- take ether, the client's answer to a revert, and the files, ZoKrates, the configuration and the
-- entropy of the prover. `skip_prefix` takes the prefix off a hexadecimal text.
pub record Env : Type 1 where
  pub contract : ℕ
  pub verify : List ℕ → Proof → Option ℕ
  pub accepts : ℕ → Bool
  pub on_revert : Error → Anvil Proof → Option (Anvil Proof)
  pub zokrates : Zokrates
  pub config : Config
  pub skip_prefix : String → Option String
  pub entropy : zokrates.Entropy

abbrev pub client : Env → Contract (TxProof Proof)
client env = anvil env.contract env.accepts env.verify env.on_revert

-- The proof of `Prover::prove` as the contract's call has it.
abbrev pub proved : External → Env → SignedTx → State → State → Option (Result (TxProof Proof))
proved X env tx s s' =
    Option.map
      (λ r. elim r [ ok t ↦ ok (record { proof = t.proof; input = t.input }) | err e ↦ err e ])
      (prove X env.zokrates env.config tx s s' env.skip_prefix env.entropy)
