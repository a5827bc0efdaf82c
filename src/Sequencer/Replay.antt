-- ===== src/Sequencer/Replay.antt =====
-- What `validate_tx` guards against.
use fusion_zksnark_circle.Base.{
  ℕ, ◌≤◌, ◌<◌, ◌≡◌, ◌≢◌, ◌⊎◌, ◌↔◌, some_injective, refl, sym, ap, ◌∙◌, inl, inr, some, Result, ok,
  err, arith, Option-cases,
}
use Prim.Native.String.{String}
use fusion_zksnark_circle.Types.External.{External, FieldText, PoseidonPairs}
use fusion_zksnark_circle.Api.{transfer, deposit, Tx, SignedTx}
use fusion_zksnark_circle.Prover.State.{Account, State, get}
use fusion_zksnark_circle.Sequencer.Transactions.{
  check_account, new_sender, address_of, verify_tx_signature, validate_tx, apply_tx,
}
use fusion_zksnark_circle.Sequencer.Effects.{written}
use fusion_zksnark_circle.Sequencer.Validity.{IsWellFormed, apply_tx-Applied}

-- The conditions under which the sequencer takes a transaction from the account of its sender.
pub record IsAdmissible (account : Account) (tx : Tx) : Type 0 where
  pub not_to_self : tx.kind ≡ transfer → tx.sender ≢ tx.to
  pub covered : tx.kind ≢ deposit → tx.value ≤ account.balance
  pub fresh : account.nonce < tx.nonce

check_account-IsAdmissible :
    (account : Account) (tx : Tx) → check_account account tx ≡ ok tt → IsAdmissible account tx
unfolding check_account
check_account-IsAdmissible account tx e = record {
  not_to_self = λ kind same. ground (arith, e, kind, same);
  covered = λ kind. ground (arith, e, kind);
  fresh = ground (arith, e);
}

IsAdmissible-check_account :
    (account : Account) (tx : Tx) → IsAdmissible account tx → check_account account tx ≡ ok tt
unfolding check_account
IsAdmissible-check_account account tx h = ground (arith, h.not_to_self, h.covered, h.fresh)

pub Result-cases :
    {A : Type 0} (r : Result A) → ((a : A) × (r ≡ ok a)) ⊎ ((e : String) × (r ≡ err e))
Result-cases (ok a) = inl (a, refl)
Result-cases (err e) = inr (e, refl)

module _ (X : External) (s : State) (tx : SignedTx) where
  pub validate_tx-parts :
      validate_tx X s tx ≡ some (ok tt)
      → (a : ℕ) × (verify_tx_signature X tx ≡ some (ok tt))
        × (address_of X tx.tx.sender ≡ some a)
        × (check_account (get s a) tx.tx ≡ ok tt)
  unfolding validate_tx
  validate_tx-parts e = elim (Option-cases (verify_tx_signature X tx)) [
    | inl n ↦ absurd (ground (arith, n))
    | inr (r, v) ↦ elim (Result-cases r) [
      | inr (m, n) ↦ absurd (ground (arith, n, v))
      | inl (u, k) ↦ elim (Option-cases (address_of X tx.tx.sender)) [
        | inl n ↦ absurd (ground (arith, n, v, k))
        | inr (a, sender) ↦ (a, v ∙ ap some k, sender, some_injective (rw (v, k, sender) at e))
      ]
    ]
  ]

  -- A transaction is valid exactly when its signature is, its sender has an address, and the account
  -- at that address admits it: no transfer has one key on both sides, the balance covers a transfer
  -- or a withdrawal, and the nonce is above the account's.
  pub validate_tx-IsAdmissible : (validate_tx X s tx ≡ some (ok tt)) ↔ (
      (a : ℕ) × (verify_tx_signature X tx ≡ some (ok tt))
      × (address_of X tx.tx.sender ≡ some a)
      × IsAdmissible (get s a) tx.tx)
  unfolding validate_tx
  validate_tx-IsAdmissible = (
    λ e.
        let (a, v, sender, c) = validate_tx-parts e in
        (a, v, sender, check_account-IsAdmissible (get s a) tx.tx c),
    λ (a, v, sender, h). rw (v, sender, IsAdmissible-check_account (get s a) tx.tx h),
  )

new_sender-nonce :
    (a : ℕ) (account : Account) (tx : Tx) {acc : Account}
    → new_sender a account tx ≡ some acc
    → acc.nonce ≡ tx.nonce
unfolding new_sender
new_sender-nonce a account tx e = ground (arith, e)

check_account_stale :
    (account : Account) (tx : Tx)
    → account.nonce ≡ tx.nonce
    → (e : String) × (check_account account tx ≡ err e)
check_account_stale account tx stale = elim (Result-cases (check_account account tx)) [
  | inr (e, k) ↦ (e, k)
  | inl (u, k) ↦
      let fresh = (check_account-IsAdmissible account tx k).fresh in
      absurd (omega (arith, fresh, stale))
]

module _ {X : External} (text : FieldText X) (pairs : PoseidonPairs X) where
  module _ (s s' : State) (tx : SignedTx) (a b : ℕ) (w : IsWellFormed text pairs s)
      (sender : address_of X tx.tx.sender ≡ some a) (to : address_of X tx.tx.to ≡ some b)
      (ne : a ≢ b) (run : apply_tx X s tx.tx ≡ some s') where
    pub nonce-apply_tx : (get s' a).nonce ≡ tx.tx.nonce
    nonce-apply_tx =
        let r = apply_tx-Applied X s s' tx.tx run in
        let ra : r.a ≡ a = some_injective (sym r.sender ∙ sender) in
        let rb : r.b ≡ b = some_injective (sym r.to ∙ to) in
        let (sound, at) =
          written text pairs s s' tx.tx r.a r.b w.sound r.sender r.to run r.acc r.acc' r.debit
            r.credit in
        let nonce = new_sender-nonce r.a (get s r.a) tx.tx r.debit in
        ground (arith, at a, ra, rb, nonce)

    -- In a well formed state: a valid transaction between two different addresses that `apply_tx`
    -- applies raises its sender's nonce, and is rejected with an error, not accepted a second
    -- time, in the state that applying it leaves.
    pub validate_tx-apply_tx :
        validate_tx X s tx ≡ some (ok tt)
        → ((get s a).nonce < (get s' a).nonce) × (e : String) × (validate_tx X s' tx ≡ some (err e))
    unfolding validate_tx
    validate_tx-apply_tx valid =
        let (a', v, sender', c) = validate_tx-parts X s tx valid in
        let same : a' ≡ a = some_injective (sym sender' ∙ sender) in
        let fresh = (check_account-IsAdmissible (get s a') tx.tx c).fresh in
        let (e, stale) = check_account_stale (get s' a) tx.tx nonce-apply_tx in
        (rw nonce-apply_tx (rw same at fresh), e, rw (v, sender, stale))
