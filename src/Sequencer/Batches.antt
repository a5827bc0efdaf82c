-- ===== src/Sequencer/Batches.antt =====
-- A block is validated against the state before it, and not against the states in between.
use fusion_zksnark_circle.Base.{
  ℕ, ◌+◌, ◌<◌, ◌≡◌, ◌≢◌, sym, ◌∙◌, some_injective, inl, inr, some, none, [], ◌∷◌, ok, arith,
  Option-cases,
}
use fusion_zksnark_circle.Types.External.{External, FieldText, PoseidonPairs}
use fusion_zksnark_circle.Api.{deposit, Tx, SignedTx}
use fusion_zksnark_circle.Prover.State.{Account, State, get}
use fusion_zksnark_circle.Sequencer.Transactions.{address_of, validate_tx, apply_tx, new_sender}
use fusion_zksnark_circle.Sequencer.Validity.{IsWellFormed, apply_tx-IsWellFormed, apply_tx-Applied}
use fusion_zksnark_circle.Sequencer.Effects.{written}
use fusion_zksnark_circle.Sequencer.Transfers.{apply_tx-overdraft}
use fusion_zksnark_circle.Sequencer.Loop.{valid_txs, states_from, make_block}

new_sender-balance :
    (a : ℕ) (account : Account) (tx : Tx) {acc : Account}
    → tx.kind ≢ deposit
    → new_sender a account tx ≡ some acc
    → acc.balance + tx.value ≡ account.balance
unfolding new_sender
new_sender-balance a account tx kind e = ground (arith, e)

module _ {X : External} (text : FieldText X) (pairs : PoseidonPairs X) where
  module _ (s : State) (tx : SignedTx) (a b : ℕ) (w : IsWellFormed text pairs s)
      (sender : address_of X tx.tx.sender ≡ some a) (to : address_of X tx.tx.to ≡ some b)
      (ne : a ≢ b) (spends : tx.tx.kind ≢ deposit) where
    pub spent :
        (s' : State)
        → apply_tx X s tx.tx ≡ some s'
        → (get s' a).balance + tx.tx.value ≡ (get s a).balance
    spent s' run =
        let r = apply_tx-Applied X s s' tx.tx run in
        let ra : r.a ≡ a = some_injective (sym r.sender ∙ sender) in
        let rb : r.b ≡ b = some_injective (sym r.to ∙ to) in
        let (sound, at) =
          written text pairs s s' tx.tx r.a r.b w.sound r.sender r.to run r.acc r.acc' r.debit
            r.credit in
        let left = new_sender-balance r.a (get s r.a) tx.tx spends r.debit in
        ground (arith, at a, ra, rb, left)

    twice_applied :
        (get s a).balance < tx.tx.value + tx.tx.value → states_from X s (tx ∷ tx ∷ []) ≡ none
    unfolding states_from
    twice_applied short = elim (Option-cases (apply_tx X s tx.tx)) [
      | inl n ↦ rw n
      | inr (s', run) ↦
          let w' = apply_tx-IsWellFormed text pairs s s' tx.tx w run in
          let over =
            apply_tx-overdraft text pairs s' tx.tx a b w' sender to spends
              (omega (arith, spent s' run)) in
          rw (run, over)
    ]

    -- In a well formed state: a valid transfer or withdrawal between two different addresses that
    -- its sender can pay for once but not twice passes validation twice when it stands twice in
    -- one mempool, and the block of the two panics.
    pub make_block-twice :
        validate_tx X s tx ≡ some (ok tt)
        → (get s a).balance < tx.tx.value + tx.tx.value
        → (valid_txs X s (tx ∷ tx ∷ []) ≡ some (tx ∷ tx ∷ []))
          × (make_block X s (tx ∷ tx ∷ []) ≡ none)
    unfolding make_block valid_txs
    make_block-twice valid short = (rw valid, rw (valid, twice_applied short))
