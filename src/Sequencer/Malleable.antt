-- ===== src/Sequencer/Malleable.antt =====
-- A signature holds for every transaction with the same hash, and the hash reads nonce and value in
-- the field (`hash_tx` of fusion-api/src/lib.rs, `ToFr` of fusion-types/src/lib.rs).
use fusion_zksnark_circle.Base.{
  ℕ, ◌+◌, ◌≤◌, ◌<◌, ◌≡◌, ◌≢◌, ◌-◌, refl, ◌∙◌, inl, inr, some, ok, u256_size, arith, Option-cases,
}
use fusion_zksnark_circle.Types.External.{External, FieldText, PoseidonPairs}
use fusion_zksnark_circle.Types.Field.{to_fr-reduce}
use fusion_zksnark_circle.Api.{deposit, Tx, SignedTx, hash_tx}
use fusion_zksnark_circle.Wallet
use fusion_zksnark_circle.Prover.State.{Account, State, new_account, get}
use fusion_zksnark_circle.Sequencer.Transactions.{
  address_of, verify_tx_signature, validate_tx, new_sender, new_to, apply_tx,
}
use fusion_zksnark_circle.Sequencer.Effects.{apply_tx-two_writes}
use fusion_zksnark_circle.Sequencer.Validity.{IsWellFormed, apply_tx-IsWellFormed}
use fusion_zksnark_circle.Sequencer.Replay.{IsAdmissible, validate_tx-IsAdmissible, nonce-apply_tx}
use fusion_zksnark_circle.Sequencer.Batches.{spent}

-- The transaction with another nonce and value, under the signature that it had.
abbrev pub altered : SignedTx → ℕ → ℕ → SignedTx
altered tx n v = record tx { tx = record tx.tx { nonce = n; value = v } }

module _ {X : External} (text : FieldText X) where
  abbrev pub Congruent : Tx → ℕ → ℕ → Type 0
  Congruent tx n v = (text.reduce n ≡ text.reduce tx.nonce) × (text.reduce v ≡ text.reduce tx.value)

  hash_tx-Congruent :
      (tx : Tx) (n v : ℕ)
      → Congruent tx n v
      → hash_tx X (record tx { nonce = n; value = v }) ≡ hash_tx X tx
  unfolding hash_tx
  hash_tx-Congruent tx n v (cn, cv) = rw (
    to_fr-reduce text n,
    to_fr-reduce text v,
    to_fr-reduce text tx.nonce,
    to_fr-reduce text tx.value,
    cn,
    cv,
  )

  verify_tx_signature-Congruent :
      (tx : SignedTx) (n v : ℕ)
      → Congruent tx.tx n v
      → verify_tx_signature X (altered tx n v) ≡ verify_tx_signature X tx
  unfolding verify_tx_signature Wallet.verify_tx_signature
  verify_tx_signature-Congruent tx n v c = rw (hash_tx-Congruent tx.tx n v c)

  -- A signed transaction that is valid in one state stays valid in every other with its nonce and its
  -- value replaced by numbers that are read as the same field elements, if the sender's account there
  -- admits the replaced one. The signature is the old one.
  pub validate_tx-altered :
      (s t : State) (tx : SignedTx) (a n v : ℕ)
      → validate_tx X s tx ≡ some (ok tt)
      → address_of X tx.tx.sender ≡ some a
      → Congruent tx.tx n v
      → IsAdmissible (get t a) (altered tx n v).tx
      → validate_tx X t (altered tx n v) ≡ some (ok tt)
  validate_tx-altered s t tx a n v valid sender c h =
      let (a', signed, sender', admitted) = (validate_tx-IsAdmissible X s tx).0 valid in
      (validate_tx-IsAdmissible X t (altered tx n v)).1
        (a, verify_tx_signature-Congruent tx n v c ∙ signed, sender, h)

debited :
    (a : ℕ) (account : Account) (tx : Tx)
    → tx.kind ≢ deposit
    → tx.value ≤ account.balance
    → (acc : Account) × (new_sender a account tx ≡ some acc)
unfolding new_sender
debited a account tx spends covered =
    (new_account a (account.balance - tx.value) tx.nonce, ground (arith, spends, covered))

credited :
    (b : ℕ) (account : Account) (tx : Tx)
    → account.balance + tx.value < u256_size
    → (acc : Account) × (new_to b account tx ≡ some acc)
unfolding new_to
credited b account tx fits = elim (Option-cases (new_to b account tx)) [
  | inl n ↦ absurd (ground (arith, n, fits))
  | inr found ↦ found
]

module _ {X : External} (text : FieldText X) (pairs : PoseidonPairs X) where
  -- One signature spends twice. In a well formed state: after a valid transfer or withdrawal between
  -- two different addresses has been applied, the same message with a larger nonce that is read as
  -- the same field element, the nonce plus the field's size for one, is valid under the old
  -- signature, if the balance covers the value twice and the receiver's balance has room for it. It
  -- is applied too, and the sender has paid the value twice.
  pub validate_tx-spends_twice :
      (s s' : State) (tx : SignedTx) (a b n : ℕ)
      → IsWellFormed text pairs s
      → address_of X tx.tx.sender ≡ some a
      → address_of X tx.tx.to ≡ some b
      → a ≢ b
      → tx.tx.kind ≢ deposit
      → validate_tx X s tx ≡ some (ok tt)
      → apply_tx X s tx.tx ≡ some s'
      → tx.tx.nonce < n
      → text.reduce n ≡ text.reduce tx.tx.nonce
      → tx.tx.value + tx.tx.value ≤ (get s a).balance
      → (get s' b).balance + tx.tx.value < u256_size
      → (s'' : State) × (validate_tx X s' (altered tx n tx.tx.value) ≡ some (ok tt))
        × (apply_tx X s' (altered tx n tx.tx.value).tx ≡ some s'')
        × ((get s'' a).balance + tx.tx.value + tx.tx.value ≡ (get s a).balance)
  validate_tx-spends_twice s s' tx a b n w sender to ne spends valid run above c covers fits =
      let w' = apply_tx-IsWellFormed text pairs s s' tx.tx w run in
      let paid = spent text pairs s tx a b w sender to ne spends s' run in
      let nonce = nonce-apply_tx text pairs s s' tx a b w sender to ne run in
      let (a', signed, sender', ok_tx) = (validate_tx-IsAdmissible X s tx).0 valid in
      let again = altered tx n tx.tx.value in
      let covered : tx.tx.value ≤ (get s' a).balance = omega (arith, paid, covers) in
      let (acc, debit) = debited a (get s' a) again.tx spends covered in
      let (acc', credit) = credited b (get s' b) again.tx fits in
      let (s'', run', sound, at) =
        apply_tx-two_writes text pairs s' again.tx a b acc acc' w'.sound sender to debit credit in
      (
        s'',
        validate_tx-altered text s s' tx a n tx.tx.value valid sender (c, refl)
            (record {
              not_to_self = ok_tx.not_to_self;
              covered = λ kind. covered;
              fresh = rw nonce above;
            }),
        run',
        omega (arith, paid, spent text pairs s' again a b w' sender to ne spends s'' run'),
      )
