-- ===== src/Sequencer/Observer.antt =====
-- How the tests of the sequencer follow the rollup from the contract's calls
-- (fusion-sequencer/src/sequencer.rs). `none` is a panic.
use fusion_zksnark_circle.Base.{ℕ, Option, some, List, [], ◌∷◌, ◌>>=◌, get_elem?}
use fusion_zksnark_circle.Types.External.{External}
use fusion_zksnark_circle.Types.PublicKey.{from_point, to_u256}
use fusion_zksnark_circle.Api.{Tx, kind_from_u256}
use fusion_zksnark_circle.Prover.State.{State}
use fusion_zksnark_circle.Sequencer.Transactions.{apply_tx}

module _ (X : External) where
  -- The transaction of a proof, from the proof's inputs.
  unfoldable pub tx_proof_to_fusion_tx : List ℕ → Option Tx
  tx_proof_to_fusion_tx input = do
    k ← get_elem? input 2
    kind ← kind_from_u256 k
    sender_x ← get_elem? input 3
    sender_y ← get_elem? input 4
    sender ← to_u256 X (from_point sender_x sender_y)
    to_x ← get_elem? input 5
    to_y ← get_elem? input 6
    to ← to_u256 X (from_point to_x to_y)
    nonce ← get_elem? input 7
    value ← get_elem? input 8
    some (record { kind = kind; sender = sender; to = to; nonce = nonce; value = value })

  -- The transactions of the proofs that `next_fusion_txs` has decoded.
  unfoldable pub fusion_txs : List (List ℕ) → Option (List Tx)
  unfolding tx_proof_to_fusion_tx
  fusion_txs [] = some []
  fusion_txs (input ∷ inputs) = do
    tx ← tx_proof_to_fusion_tx input
    txs ← fusion_txs inputs
    some (tx ∷ txs)

  -- `txs.iter().fold(state, apply_tx)`
  unfoldable pub replay : State → List Tx → Option State
  replay state [] = some state
  replay state (tx ∷ txs) = do next ← apply_tx X state tx; replay next txs
