-- ===== src/Sequencer/Turns.antt =====
-- One turn of the loop, with a contract that answers.
use fusion_zksnark_circle.Base.{
  ℕ, ◌≤◌, ◌<◌, ◌≡◌, ◌++◌, ap, some_injective, true, false, ltb, Option, some, [], ◌∷◌, length,
  Result, ok, err, arith,
}
use Prim.Native.String.{String}
use fusion_zksnark_circle.Types.External.{External}
use fusion_zksnark_circle.Api.{SignedTx}
use fusion_zksnark_circle.Prover.State.{State, root}
use fusion_zksnark_circle.Sequencer.Transactions.{validate_tx, apply_tx}
use fusion_zksnark_circle.Sequencer.Loop.{
  Contract, valid_txs, states_from, last_state, requests, make_block, request_proofs, submit_proofs,
  Sequencer, turn,
}

-- A block of one message.
make_block-one_valid :
    (X : External) (s s' : State) (tx : SignedTx)
    → validate_tx X s tx ≡ some (ok tt)
    → apply_tx X s tx.tx ≡ some s'
    → make_block X s (tx ∷ []) ≡ some (record { tx = tx; pre_state = s; post_state = s' } ∷ [], s')
unfolding make_block valid_txs states_from requests last_state
make_block-one_valid X s s' tx valid run = rw (valid, run)

make_block-one_invalid :
    (X : External) (s : State) (tx : SignedTx) (e : String)
    → validate_tx X s tx ≡ some (err e)
    → make_block X s (tx ∷ []) ≡ some ([], s)
unfolding make_block valid_txs states_from requests last_state
make_block-one_invalid X s tx e invalid = rw invalid

module _ (X : External) {P : Type 0} (prove : SignedTx → State → State → Option (Result P))
    (C : Contract P) (min_tx_block : ℕ) (q : Sequencer) (chain : C.Chain) (current : ℕ)
    (tx : SignedTx) (answers : C.call_root chain ≡ some current) where
  -- If the contract answers the call for its root, a turn does not panic on a message that leaves the
  -- mempool short of `min_tx_block` transactions: it appends the message, unvalidated, and does
  -- nothing else.
  pub turn-waits :
      length (q.mempool ++ tx ∷ []) < min_tx_block
      → turn X prove C min_tx_block q chain tx
        ≡ some (record q { mempool = q.mempool ++ tx ∷ [] }, chain)
  unfolding turn
  turn-waits short =
      let t : ltb (length (q.mempool ++ tx ∷ [])) min_tx_block ≡ true = ground arith in
      rw (answers, t)

  module _ (small : min_tx_block ≤ 1) (nothing_waits : q.mempool ≡ []) where
    full : ltb 1 min_tx_block ≡ false
    full = ground arith

    -- Where a block has one transaction and the contract answers the call for its root, a turn on a
    -- message that validation rejects with an error changes neither the state nor the contract, and
    -- drops the message. The state must have a root, which the loop prints.
    pub turn-rejects :
        (e : String) (computed : ℕ)
        → root X q.state ≡ some computed
        → validate_tx X q.state tx ≡ some (err e)
        → turn X prove C min_tx_block q chain tx
          ≡ some (record { mempool = []; state = q.state }, chain)
    unfolding turn request_proofs submit_proofs
    turn-rejects e computed rooted invalid =
        rw (answers, nothing_waits, full, make_block-one_invalid X q.state tx e invalid, rooted)

    -- Where a block has one transaction and the contract answers the call for its root, a turn on a
    -- valid message that `apply_tx` applies takes the applied state, whatever the prover returns:
    -- it submits a proof, and ignores an error of the prover, so that the contract stays behind.
    -- The applied state must have a root, which the loop prints.
    pub turn-applies :
        (s' : State) (computed : ℕ) (proof : Result P) (chain' : C.Chain)
        → root X s' ≡ some computed
        → validate_tx X q.state tx ≡ some (ok tt)
        → apply_tx X q.state tx.tx ≡ some s'
        → prove tx q.state s' ≡ some proof
        → (elim proof [ ok p ↦ C.submit_block chain p | err e ↦ some chain ]) ≡ some chain'
        → turn X prove C min_tx_block q chain tx
          ≡ some (record { mempool = []; state = s' }, chain')
    unfolding turn request_proofs submit_proofs
    turn-applies s' computed (ok p) chain' rooted valid run proved submitted = rw (
      answers,
      nothing_waits,
      full,
      make_block-one_valid X q.state s' tx valid run,
      rooted,
      proved,
      submitted,
    )
    turn-applies s' computed (err e) chain' rooted valid run proved submitted =
        rw
          (
            answers,
            nothing_waits,
            full,
            make_block-one_valid X q.state s' tx valid run,
            rooted,
            proved,
          )
          (ap (λ c. some (record { mempool = []; state = s' }, c)) (some_injective submitted))
