-- ===== src/Sequencer/Run.antt =====
-- Invariants of the loop over any messages.
use fusion_zksnark_circle.Base.{
  ℕ, ltb, ◌<◌, ◌≡◌, refl, subst, ap, some_injective, inl, inr, Option, some, List, [], ◌∷◌, ◌++◌,
  length, Result, arith, Option-cases, Bool-cases,
}
use Prim.Native.Nat.{max}
use fusion_zksnark_circle.Types.External.{External, FieldText, PoseidonPairs}
use fusion_zksnark_circle.Api.{SignedTx}
use fusion_zksnark_circle.Prover.State.{State, root}
use fusion_zksnark_circle.Sequencer.Validity.{IsWellFormed, apply_tx-IsWellFormed}
use fusion_zksnark_circle.Sequencer.Loop.{
  Contract, Request, request_proofs, submit_proofs, Sequencer, make_block, turn, run,
}
use fusion_zksnark_circle.Sequencer.Chain.{Leads, make_block-Leads}

module _ {X : External} (text : FieldText X) (pairs : PoseidonPairs X) where
  pub Leads-IsWellFormed :
      (s s' : State) (rs : List Request)
      → IsWellFormed text pairs s
      → Leads X s rs s'
      → IsWellFormed text pairs s'
  Leads-IsWellFormed s s' [] w l = subst (IsWellFormed text pairs) l w
  Leads-IsWellFormed s s' (r ∷ rs) w l =
      Leads-IsWellFormed r.post_state s' rs
        (apply_tx-IsWellFormed text pairs s r.post_state r.tx.tx w l.1) l.2

Leads-append :
    (X : External) (s u s' : State) (rs rs' : List Request)
    → Leads X s rs u
    → Leads X u rs' s'
    → Leads X s (rs ++ rs') s'
Leads-append X s u s' [] rs' l m = rw l m
Leads-append X s u s' (r ∷ rs) rs' l m = (l.0, l.1, Leads-append X r.post_state u s' rs rs' l.2 m)

module _ (X : External) {P : Type 0} (prove : SignedTx → State → State → Option (Result P))
    (C : Contract P) (min_tx_block : ℕ) where
  -- What a turn that ended did: it kept the transaction, or made a block of the mempool.
  pub data Outcome (q : Sequencer) (tx : SignedTx) : Sequencer → Type 0 where
    kept :
        length (q.mempool ++ tx ∷ []) < min_tx_block
        → Outcome q tx (record q { mempool = q.mempool ++ tx ∷ [] })
    closed :
        (rs : List Request) (s : State)
        → make_block X q.state (q.mempool ++ tx ∷ []) ≡ some (rs, s)
        → Outcome q tx (record { mempool = []; state = s })

  pub turn-Outcome :
      (q q' : Sequencer) (chain chain' : C.Chain) (tx : SignedTx)
      → turn X prove C min_tx_block q chain tx ≡ some (q', chain')
      → Outcome q tx q'
  unfolding turn
  turn-Outcome q q' chain chain' tx e = elim (Option-cases (C.call_root chain)) [
    | inl n ↦ absurd (ground (arith, n))
    | inr (current, c) ↦ elim (Bool-cases (ltb (length (q.mempool ++ tx ∷ [])) min_tx_block)) [
      | inl short ↦
          subst (Outcome q tx) (ap (λ r. r.0) (some_injective (rw (c, short) at e)))
            (kept (ground arith))
      | inr full ↦ elim (Option-cases (make_block X q.state (q.mempool ++ tx ∷ []))) [
        | inl n ↦ absurd (ground (arith, n, c, full))
        | inr ((rs, s), b) ↦ elim (Option-cases (root X s)) [
          | inl n ↦ absurd (ground (arith, n, c, full, b))
          | inr (r, k) ↦ elim (Option-cases (request_proofs prove rs)) [
            | inl n ↦ absurd (ground (arith, n, c, full, b, k))
            | inr (proofs, p) ↦ elim (Option-cases (submit_proofs C chain proofs)) [
              | inl n ↦ absurd (ground (arith, n, c, full, b, k, p))
              | inr (after, d) ↦
                  subst (Outcome q tx)
                    (ap (λ r. r.0) (some_injective (rw (c, full, b, k, p, d) at e))) (closed rs s b)
            ]
          ]
        ]
      ]
    ]
  ]

  turn-Leads :
      (q q' : Sequencer) (tx : SignedTx)
      → Outcome q tx q'
      → (length q'.mempool < max 1 min_tx_block) × (rs : List Request) × Leads X q.state rs q'.state
  turn-Leads q q' tx (kept short) = (omega arith, [], refl)
  turn-Leads q q' tx (closed rs s b) =
      (omega arith, rs, (make_block-Leads X q.state s (q.mempool ++ tx ∷ []) rs b).1)

  -- From a well formed state with fewer than `max 1 min_tx_block` waiting transactions: after any
  -- messages that the loop survives, its state is well formed and comes from the first by applying
  -- transactions one after another, and again fewer than that wait.
  pub run-Leads :
      (text : FieldText X) (pairs : PoseidonPairs X) (q q' : Sequencer) (chain chain' : C.Chain)
      (txs : List SignedTx)
      → IsWellFormed text pairs q.state
      → length q.mempool < max 1 min_tx_block
      → run X prove C min_tx_block q chain txs ≡ some (q', chain')
      → IsWellFormed text pairs q'.state
        × (length q'.mempool < max 1 min_tx_block)
        × (rs : List Request) × Leads X q.state rs q'.state
  unfolding run
  run-Leads text pairs q q' chain chain' [] w short e =
      let same : q ≡ q' = ap (λ r. r.0) (some_injective e) in
      (rw same at w, rw same at short, [], ap Sequencer.state same)
  run-Leads text pairs q q' chain chain' (tx ∷ txs) w short e =
      elim (Option-cases (turn X prove C min_tx_block q chain tx)) [
        | inl n ↦ absurd (ground (arith, n))
        | inr ((u, after), t) ↦
            let (bound, rs, leads) = turn-Leads q u tx (turn-Outcome q u chain after tx t) in
            let w' = Leads-IsWellFormed text pairs q.state u.state rs w leads in
            let (wf, low, rs', leads') =
              run-Leads text pairs u q' after chain' txs w' bound (rw t at e) in
            (wf, low, rs ++ rs', Leads-append X q.state u.state q'.state rs rs' leads leads')
      ]
