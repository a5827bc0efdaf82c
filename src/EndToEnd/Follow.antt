-- ===== src/EndToEnd/Follow.antt =====
-- How the end-to-end tests follow the rollup from the blocks of the chain
-- (fusion-sequencer/src/sequencer.rs). `none` is a panic, or a wait for a block that does not come.
use fusion_zksnark_circle.Base.{
  ℕ, zero, suc, ◌≡◌, refl, ==_refl, Bool, true, false, Option, none, some, List, [], ◌∷◌, ◌==◌,
  if◌then◌else◌, ◌>>=◌,
}
use fusion_zksnark_circle.Types.External.{External}
use fusion_zksnark_circle.Api.{Tx}
use fusion_zksnark_circle.Prover.State.{State}
use fusion_zksnark_circle.Sequencer.Observer.{tx_proof_to_fusion_tx, replay}
use fusion_zksnark_circle.Sequencer.Transactions.{apply_tx}
use fusion_zksnark_circle.L1.Fusion.{TxProof}
use fusion_zksnark_circle.EndToEnd.Anvil.{FusionCalls, deposit, submit_block, L1Block, block_of}

unfoldable pub decode_l2_proof : {P : Type 0} → Option (FusionCalls P) → Option (TxProof P)
decode_l2_proof none = none
decode_l2_proof (some (deposit l2_recipient)) = none
decode_l2_proof (some (submit_block proof)) = some proof

-- `tx.to == Some(contract)`
unfoldable pub is_to : ℕ → Option ℕ → Bool
is_to contract none = false
is_to contract (some to) = to == contract

unfoldable pub is_empty : {A : Type 0} → List A → Bool
is_empty [] = true
is_empty (a ∷ l) = false

module _ (X : External) {P : Type 0} (contract : ℕ) where
  -- The transactions of one block.
  unfoldable pub block_fusion_txs : L1Block P → Option (List Tx)
  unfolding decode_l2_proof is_to
  block_fusion_txs [] = some []
  block_fusion_txs (l1_tx ∷ block) =
      let rest = block_fusion_txs block in
      if is_to contract l1_tx.to
      then elim (decode_l2_proof l1_tx.input) [
        | none ↦ rest
        | some tx_proof ↦ do
          tx ← tx_proof_to_fusion_tx X tx_proof.input
          txs ← rest
          some (tx ∷ txs)
      ]
      else rest

  -- The transactions of the first block that has any, and the blocks after it.
  unfoldable pub next_fusion_txs : List (L1Block P) → Option (List Tx × List (L1Block P))
  unfolding block_fusion_txs is_empty
  next_fusion_txs [] = none
  next_fusion_txs (block ∷ blocks) =
      let later = next_fusion_txs blocks in
      do txs ← block_fusion_txs block; if is_empty txs then later else some (txs, blocks)

  -- The loop that the tests end with.
  unfoldable pub follow : ℕ → State → List (L1Block P) → Option State
  unfolding next_fusion_txs
  follow zero state blocks = some state
  follow (suc n) state blocks = do
    (txs, rest) ← next_fusion_txs blocks
    state' ← replay X state txs
    follow n state' rest

  -- A payment is passed over.
  pub follow-deposit :
      (n l2_recipient : ℕ) (s : State) (blocks : List (L1Block P))
      → follow (suc n) s (block_of contract (deposit l2_recipient) ∷ blocks)
        ≡ follow (suc n) s blocks
  unfolding follow next_fusion_txs block_fusion_txs is_to decode_l2_proof is_empty
  follow-deposit n l2_recipient s blocks = rw (==_refl contract) refl

  -- A block of one transaction is applied.
  pub follow-block :
      (n : ℕ) (s s' : State) (tx : Tx) (block : L1Block P) (blocks : List (L1Block P))
      → block_fusion_txs block ≡ some (tx ∷ [])
      → apply_tx X s tx ≡ some s'
      → follow (suc n) s (block ∷ blocks) ≡ follow n s' blocks
  unfolding follow next_fusion_txs is_empty replay
  follow-block n s s' tx block blocks shown run = rw (shown, run) refl
