-- ===== src/Sequencer/Transfers.antt =====
-- The three kinds of transactions, one by one.
use fusion_zksnark_circle.Base.{
  ite, ℕ, ◌+◌, ◌-◌, ◌≤◌, ◌<◌, ◌≡◌, ◌≢◌, ◌⊎◌, some_injective, sym, ◌∙◌, if_pos, if_neg, some, none,
  u256_size, ℕ_discrete, arith,
}
use fusion_zksnark_circle.Types.External.{External, FieldText, PoseidonPairs}
use fusion_zksnark_circle.Api.{transfer, deposit, withdraw, Tx}
use fusion_zksnark_circle.Prover.State.{Account, State, new_account, get}
use fusion_zksnark_circle.Sequencer.Transactions.{new_sender, new_to, address_of, apply_tx}
use fusion_zksnark_circle.Sequencer.Effects.{two_writes, apply_tx-two_writes, written}
use fusion_zksnark_circle.Sequencer.Validity.{IsWellFormed, apply_tx-Applied}

new_to-kept :
    (b : ℕ) (account : Account) (tx : Tx) → tx.kind ≢ transfer → new_to b account tx ≡ some account
unfolding new_to
new_to-kept b account tx kind = ground arith

two_writes-lost :
    {X : External} (text : FieldText X) (pairs : PoseidonPairs X) (s : State) (a b : ℕ)
    (acc acc' : Account) (j : ℕ)
    → a ≡ b
    → acc' ≡ get s b
    → two_writes text pairs s a acc b acc' j ≡ get s j
two_writes-lost text pairs s a b acc acc' j e k = elim (ℕ_discrete j b) [
  | yes p ↦ rw (if_pos (ℕ_discrete j b) p, k, p)
  | no n ↦ rw (if_neg (ℕ_discrete j b) n, if_neg (ℕ_discrete j a) (λ p. n (p ∙ e)))
]

module _ {X : External} (text : FieldText X) (pairs : PoseidonPairs X) where
  module _ (s : State) (tx : Tx) (a b : ℕ) (w : IsWellFormed text pairs s)
      (sender : address_of X tx.sender ≡ some a) (to : address_of X tx.to ≡ some b) where
    -- In a well formed state, where both keys of the transaction have addresses: a transfer that
    -- the sender's balance covers, and that does not push the receiver's balance out of a word,
    -- succeeds. It moves the value from the sender's account to the receiver's, gives the sender
    -- the transaction's nonce, keeps the receiver's, and leaves every other account as it was.
    -- Where the two addresses are the same, the receiver's new account is the one that stays.
    pub apply_tx-transfer :
        tx.kind ≡ transfer
        → tx.value ≤ (get s a).balance
        → (get s b).balance + tx.value < u256_size
        → (s' : State) × (apply_tx X s tx ≡ some s')
          × ((j : ℕ)
              → get s' j
                ≡ ite
                    (ℕ_discrete j b)
                    (new_account b ((get s b).balance + tx.value) (get s b).nonce)
                    (ite
                      (ℕ_discrete j a)
                      (new_account a ((get s a).balance - tx.value) tx.nonce)
                      (get s j)))
    unfolding new_sender new_to
    apply_tx-transfer kind covered fits =
        let (s', run, sound, at) =
          apply_tx-two_writes text pairs s tx a b
            (new_account a ((get s a).balance - tx.value) tx.nonce)
            (new_account b ((get s b).balance + tx.value) (get s b).nonce) w.sound sender to
            (ground arith) (ground arith) in
        (s', run, at)

    -- In a well formed state: a transfer whose two keys have one address, and whose value neither
    -- exceeds the balance nor pushes it out of a word, succeeds and creates money. The account's
    -- balance grows by the value, and its nonce stays.
    pub apply_tx-same_address :
        tx.kind ≡ transfer
        → a ≡ b
        → tx.value ≤ (get s a).balance
        → (get s a).balance + tx.value < u256_size
        → (s' : State) × (apply_tx X s tx ≡ some s')
          × (get s' a ≡ new_account a ((get s a).balance + tx.value) (get s a).nonce)
    apply_tx-same_address kind same covered fits =
        let (s', run, at) = apply_tx-transfer kind covered (rw same at fits) in
        (s', run, ground (arith, at a, same))

    -- In a well formed state: a deposit or a withdrawal whose sender and receiver have different
    -- addresses succeeds if the new balance is a word that is not negative. It changes the
    -- sender's balance by the value, up for a deposit and down for a withdrawal, gives the sender
    -- the transaction's nonce, and leaves every other account as it was, the receiver's too.
    pub apply_tx-boundary :
        (balance : ℕ)
        → a ≢ b
        → ((tx.kind ≡ deposit) × (balance ≡ (get s a).balance + tx.value) × (balance < u256_size))
          ⊎ ((tx.kind ≡ withdraw) × (balance + tx.value ≡ (get s a).balance))
        → (s' : State) × (apply_tx X s tx ≡ some s')
          × ((j : ℕ) → get s' j ≡ ite (ℕ_discrete j a) (new_account a balance tx.nonce) (get s j))
    unfolding new_sender new_to
    apply_tx-boundary balance ne how =
        let (s', run, sound, at) =
          apply_tx-two_writes text pairs s tx a b (new_account a balance tx.nonce) (get s b) w.sound
            sender to (ground arith) (ground arith) in
        (s', run, λ j. ground (arith, at j))

    -- In a well formed state, where both keys of the transaction have addresses: `apply_tx` panics
    -- on a transfer or a withdrawal that the sender's balance does not cover.
    pub apply_tx-overdraft :
        tx.kind ≢ deposit → (get s a).balance < tx.value → apply_tx X s tx ≡ none
    unfolding apply_tx new_sender
    apply_tx-overdraft kind short = ground (arith, sender, to)

    -- In a well formed state: a deposit or a withdrawal whose sender and receiver have one
    -- address, and which `apply_tx` applies, changes no account, not even the sender's balance or
    -- nonce. The receiver's old account is written over the new one.
    pub apply_tx-lost :
        (s' : State)
        → tx.kind ≢ transfer
        → a ≡ b
        → apply_tx X s tx ≡ some s'
        → (j : ℕ) → get s' j ≡ get s j
    apply_tx-lost s' kind same run j =
        let r = apply_tx-Applied X s s' tx run in
        let kept : r.acc' ≡ get s r.b =
          some_injective (sym r.credit ∙ new_to-kept r.b (get s r.b) tx kind) in
        let ra : r.a ≡ a = some_injective (sym r.sender ∙ sender) in
        let rb : r.b ≡ b = some_injective (sym r.to ∙ to) in
        let (sound, at) =
          written text pairs s s' tx r.a r.b w.sound r.sender r.to run r.acc r.acc' r.debit
            r.credit in
        at j ∙ two_writes-lost text pairs s r.a r.b r.acc r.acc' j (ra ∙ same ∙ sym rb) kept
