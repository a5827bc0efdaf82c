-- ===== src/Sequencer/Loop.antt =====
-- `run_sequencer` (fusion-sequencer/src/sequencer.rs): one turn of its loop for each transaction that
-- the channel delivers. `none` is a panic of a turn. The prover and the contract are parameters.
use fusion_zksnark_circle.Base.{
  ℕ, ltb, if◌then◌else◌, ◌>>=◌, Option, some, List, [], ◌∷◌, ◌++◌, length, Result, ok, err,
}
use fusion_zksnark_circle.Types.External.{External}
use fusion_zksnark_circle.Api.{SignedTx}
use fusion_zksnark_circle.Prover.State.{State, default_state, root}
use fusion_zksnark_circle.Sequencer.Transactions.{validate_tx, apply_tx}

-- The contract's client: a read of the root and a submission, in the contract's state, which fail by
-- `none`.
pub record Contract (P : Type 0) : Type 1 where
  pub Chain : Type 0
  pub call_root : Chain → Option ℕ
  pub submit_block : Chain → P → Option Chain

-- A request for a proof: the states before and after a transaction.
pub record Request : Type 0 where
  pub tx : SignedTx
  pub pre_state : State
  pub post_state : State

module _ (X : External) where
  -- `filter(|tx| validate_tx(&state, tx).is_ok())`
  unfoldable pub valid_txs : State → List SignedTx → Option (List SignedTx)
  valid_txs state [] = some []
  valid_txs state (tx ∷ txs) = do
    verdict ← validate_tx X state tx
    rest ← valid_txs state txs
    some (elim verdict [ ok _ ↦ tx ∷ rest | err _ ↦ rest ])

  -- The vector of states, from the first on: each transaction is applied to the last of them.
  unfoldable pub states_from : State → List SignedTx → Option (List State)
  states_from state [] = some (state ∷ [])
  states_from state (tx ∷ txs) = do
    next ← apply_tx X state tx.tx
    rest ← states_from next txs
    some (state ∷ rest)

-- `states.last()`, of a vector that begins with a state.
unfoldable pub last_state : State → List State → State
last_state s [] = s
last_state s (t ∷ states) = last_state t states

-- `states.windows(2).zip(txs.iter())`
unfoldable pub requests : List State → List SignedTx → List Request
requests [] txs = []
requests (s ∷ []) txs = []
requests (s ∷ t ∷ states) [] = []
requests (s ∷ t ∷ states) (tx ∷ txs) =
    record { tx = tx; pre_state = s; post_state = t } ∷ requests (t ∷ states) txs

module _ (X : External) where
  -- The block that a full mempool makes: the requests, and the state after it.
  unfoldable pub make_block : State → List SignedTx → Option (List Request × State)
  make_block state mempool = do
    txs ← valid_txs X state mempool
    states ← states_from X state txs
    some (requests states txs, last_state state states)

module _ {P : Type 0} (prove : SignedTx → State → State → Option (Result P)) where
  -- The awaited tasks; one that panicked panics the loop.
  unfoldable pub request_proofs : List Request → Option (List (Result P))
  request_proofs [] = some []
  request_proofs (r ∷ rs) = do
    proof ← prove r.tx r.pre_state r.post_state
    proofs ← request_proofs rs
    some (proof ∷ proofs)

module _ {P : Type 0} (C : Contract P) where
  unfoldable pub submit_proofs : C.Chain → List (Result P) → Option C.Chain
  submit_proofs chain [] = some chain
  submit_proofs chain (err e ∷ proofs) = submit_proofs chain proofs
  submit_proofs chain (ok proof ∷ proofs) = do
    chain' ← C.submit_block chain proof
    submit_proofs chain' proofs

-- The variables of the loop.
pub record Sequencer : Type 0 where
  pub mempool : List SignedTx
  pub state : State

abbrev pub start : Sequencer
start = record { mempool = []; state = default_state }

module _ (X : External) {P : Type 0} (prove : SignedTx → State → State → Option (Result P))
    (C : Contract P) (min_tx_block : ℕ) where
  unfoldable pub turn : Sequencer → C.Chain → SignedTx → Option (Sequencer × C.Chain)
  unfolding make_block
  turn q chain tx = do
    current_root ← C.call_root chain
    let mempool = q.mempool ++ tx ∷ []
    if ltb (length mempool) min_tx_block then some (record q { mempool = mempool }, chain) else do
      (rs, state) ← make_block X q.state mempool
      computed_root ← root X state
      proofs ← request_proofs prove rs
      chain' ← submit_proofs C chain proofs
      some (record { mempool = []; state = state }, chain')

  unfoldable pub run : Sequencer → C.Chain → List SignedTx → Option (Sequencer × C.Chain)
  unfolding turn
  run q chain [] = some (q, chain)
  run q chain (tx ∷ txs) = do (q', chain') ← turn q chain tx; run q' chain' txs
