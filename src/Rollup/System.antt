-- ===== src/Rollup/System.antt =====
-- The contract and the sequencer's state, which change together: ether is paid in on L1
-- (l1-verifier/src/Fusion.sol), or a transaction is applied and its proof submitted
-- (fusion-sequencer/src/sequencer.rs).
use fusion_zksnark_circle.Base.{ℕ, ◌+◌, ◌≡◌, ◌≢◌, Bool, Option, some, List}
use fusion_zksnark_circle.Types.External.{External, FieldText, PoseidonPairs}
use fusion_zksnark_circle.Api.{SignedTx}
use fusion_zksnark_circle.Prover.State.{State, default_state, root}
use fusion_zksnark_circle.Prover.CircuitInput.{CircuitInput, new_input}
use fusion_zksnark_circle.Sequencer.Transactions.{address_of, apply_tx}
use fusion_zksnark_circle.Sequencer.Validity.{IsWellFormed}
use fusion_zksnark_circle.Sequencer.Supply.{sum_of, supply, IsOnce}
use fusion_zksnark_circle.Circuits.Fusion.{public_inputs}
use fusion_zksnark_circle.L1.Reply.{done}
use fusion_zksnark_circle.L1.Fusion.{Fusion, created, deposit, submit_block}
use fusion_zksnark_circle.L1.Steps.{HoldsWords}

pub record System : Type 0 where
  pub l1 : Fusion
  pub l2 : State

abbrev pub deployed : System
deployed = record { l1 = created; l2 = default_state }

module _ (X : External) {P : Type 0} (accepts : ℕ → Bool) (verify : List ℕ → P → Option ℕ)
    (keys : List ℕ) where
  -- One step, of which all addresses are among `keys`.
  pub data Step (u v : System) : Type 0 where
    paid_in :
        (value recipient : ℕ)
        → IsOnce recipient keys
        → deposit u.l1 value recipient ≡ done v.l1
        → v.l2 ≡ u.l2
        → Step u v
    block :
        (tx : SignedTx) (input : CircuitInput) (proof : P) (a b : ℕ)
        → address_of X tx.tx.sender ≡ some a
        → address_of X tx.tx.to ≡ some b
        → a ≢ b
        → IsOnce a keys
        → IsOnce b keys
        → apply_tx X u.l2 tx.tx ≡ some v.l2
        → new_input X tx u.l2 v.l2 ≡ some input
        → submit_block accepts verify u.l1 (record { proof = proof; input = public_inputs input })
          ≡ done v.l1
        → Step u v

  pub data Reach (u : System) : System → Type 0 where
    here : Reach u u
    next : {v w : System} → Reach u v → Step v w → Reach u w

-- The contract has the state's root, and its ether covers the deposits that are not claimed and all
-- balances of the state.
pub record IsBacked {X : External} (text : FieldText X) (pairs : PoseidonPairs X) (keys : List ℕ)
    (u : System) : Type 0 where
  pub rooted : root X u.l2 ≡ some u.l1.root
  pub well_formed : IsWellFormed text pairs u.l2
  pub words : HoldsWords u.l1
  pub backed : u.l1.balance ≡ sum_of u.l1.deposits keys + supply u.l2 keys
