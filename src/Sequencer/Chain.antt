-- ===== src/Sequencer/Chain.antt =====
-- The blocks of the loop.
use fusion_zksnark_circle.Base.{
  ◌≡◌, refl, subst, ap, some_injective, inl, inr, some, List, [], ◌∷◌, Result, ok, err, arith,
  Option-cases,
}
use fusion_zksnark_circle.Types.External.{External}
use fusion_zksnark_circle.Api.{SignedTx}
use fusion_zksnark_circle.Prover.State.{State}
use fusion_zksnark_circle.Sequencer.Transactions.{validate_tx, apply_tx}
use fusion_zksnark_circle.Sequencer.Loop.{
  Request, valid_txs, states_from, last_state, requests, make_block,
}

-- The requests lead from one state to another, each from where the one before ended.
abbrev pub Leads : External → State → List Request → State → Type 0
Leads X s [] s' = s ≡ s'
Leads X s (r ∷ rs) s' =
    (r.pre_state ≡ s) × (apply_tx X s r.tx.tx ≡ some r.post_state) × Leads X r.post_state rs s'

abbrev pub txs_of : List Request → List SignedTx
txs_of [] = []
txs_of (r ∷ rs) = r.tx ∷ txs_of rs

states_from-Leads :
    (X : External) (s : State) (txs : List SignedTx) {states : List State}
    → states_from X s txs ≡ some states
    → Leads X s (requests states txs) (last_state s states)
      × (txs_of (requests states txs) ≡ txs)
      × (rest : List State) × (states ≡ s ∷ rest)
unfolding states_from requests last_state
states_from-Leads X s [] {states} e =
    let same : s ∷ [] ≡ states = some_injective e in rw (← same) (refl, refl, [], refl)
states_from-Leads X s (tx ∷ txs) {states} e = elim (Option-cases (apply_tx X s tx.tx)) [
  | inl n ↦ absurd (ground (arith, n))
  | inr (next, step) ↦ elim (Option-cases (states_from X next txs)) [
    | inl n ↦ absurd (ground (arith, n, step))
    | inr (more, tail) ↦
        let same : s ∷ more ≡ states = some_injective (rw (step, tail) at e) in
        let (leads, kept, rest, shape) = states_from-Leads X next txs tail in
        rw (← same, shape)
          ((refl, step, rw shape at leads), ap (λ l. tx ∷ l) (rw shape at kept), next ∷ rest, refl)
  ]
]

abbrev pub AllValid : External → State → List SignedTx → Type 0
AllValid X s [] = Unit
AllValid X s (tx ∷ txs) = (validate_tx X s tx ≡ some (ok tt)) × AllValid X s txs

valid_txs-AllValid :
    (X : External) (s : State) (mempool : List SignedTx) {txs : List SignedTx}
    → valid_txs X s mempool ≡ some txs
    → AllValid X s txs
unfolding valid_txs
valid_txs-AllValid X s [] e = rw (← some_injective e) tt
valid_txs-AllValid X s (tx ∷ mempool) e = elim (Option-cases (validate_tx X s tx)) [
  | inl n ↦ absurd (ground (arith, n))
  | inr (verdict, v) ↦ elim (Option-cases (valid_txs X s mempool)) [
    | inl n ↦ absurd (ground (arith, n, v))
    | inr (rest, r) ↦ keep verdict rest v (valid_txs-AllValid X s mempool r) (rw (v, r) at e)
  ]
]
  where
    keep :
        (verdict : Result (Unit {0})) (rest : List SignedTx) {txs : List SignedTx}
        → validate_tx X s tx ≡ some verdict
        → AllValid X s rest
        → some (elim verdict [ ok _ ↦ tx ∷ rest | err _ ↦ rest ]) ≡ some txs
        → AllValid X s txs
    keep (ok u) rest v all e = rw (← some_injective e) (v, all)
    keep (err m) rest v all e = rw (← some_injective e) all

-- A block that the loop makes consists of transactions that were valid in the state before it, and
-- its requests lead from that state to the state after it: each pair of states is one step of
-- `apply_tx`, and begins where the pair before it ended.
pub make_block-Leads :
    (X : External) (s s' : State) (mempool : List SignedTx) (rs : List Request)
    → make_block X s mempool ≡ some (rs, s')
    → AllValid X s (txs_of rs) × Leads X s rs s'
unfolding make_block
make_block-Leads X s s' mempool rs e = elim (Option-cases (valid_txs X s mempool)) [
  | inl n ↦ absurd (ground (arith, n))
  | inr (txs, v) ↦ elim (Option-cases (states_from X s txs)) [
    | inl n ↦ absurd (ground (arith, n, v))
    | inr (states, r) ↦
        let same = some_injective (rw (v, r) at e) in
        let (leads, kept, rest, shape) = states_from-Leads X s txs r in
        subst (λ block. AllValid X s (txs_of block.0) × Leads X s block.0 block.1) same
          (rw kept (valid_txs-AllValid X s mempool v), leads)
  ]
]
