-- ===== src/Sequencer/Validity.antt =====
-- The invariant of the states that the sequencer goes through.
use fusion_zksnark_circle.Base.{ℕ, ◌<◌, ◌≡◌, refl, inl, inr, some, u256_size, arith, Option-cases}
use fusion_zksnark_circle.Types.External.{External, FieldText, PoseidonPairs}
use fusion_zksnark_circle.Api.{Tx}
use fusion_zksnark_circle.Merkle.Tree
use fusion_zksnark_circle.Base.BTreeMap
use fusion_zksnark_circle.Prover.State.{Account, State, new_account, default_state, get}
use fusion_zksnark_circle.Prover.Laws.{IsSound, default_state-IsSound}
use fusion_zksnark_circle.Sequencer.Transactions.{new_sender, new_to, address_of, apply_tx}
use fusion_zksnark_circle.Sequencer.Effects.{two_writes, written}

-- What a run of `apply_tx` that returned has computed.
pub record Applied (X : External) (s : State) (tx : Tx) : Type 0 where
  pub a : ℕ
  pub b : ℕ
  pub acc : Account
  pub acc' : Account
  pub sender : address_of X tx.sender ≡ some a
  pub to : address_of X tx.to ≡ some b
  pub debit : new_sender a (get s a) tx ≡ some acc
  pub credit : new_to b (get s b) tx ≡ some acc'

pub apply_tx-Applied :
    (X : External) (s s' : State) (tx : Tx) → apply_tx X s tx ≡ some s' → Applied X s tx
unfolding apply_tx
apply_tx-Applied X s s' tx run = elim (Option-cases (address_of X tx.sender)) [
  | inl e ↦ absurd (ground (arith, e))
  | inr (a, sender) ↦ elim (Option-cases (address_of X tx.to)) [
    | inl e ↦ absurd (ground (arith, e))
    | inr (b, to) ↦ elim (Option-cases (new_sender a (get s a) tx)) [
      | inl e ↦ absurd (ground (arith, e))
      | inr (acc, debit) ↦ elim (Option-cases (new_to b (get s b) tx)) [
        | inl e ↦ absurd (ground (arith, e))
        | inr (acc', credit) ↦ record {
          a = a;
          b = b;
          acc = acc;
          acc' = acc';
          sender = sender;
          to = to;
          debit = debit;
          credit = credit;
        }
      ]
    ]
  ]
]

abbrev pub FitsAt : ℕ → Account → Type 0
FitsAt j acc = (acc.id ≡ j) × (acc.balance < u256_size)

new_sender-FitsAt :
    (a : ℕ) (account : Account) (tx : Tx) {acc : Account}
    → FitsAt a account
    → new_sender a account tx ≡ some acc
    → FitsAt a acc
unfolding new_sender
new_sender-FitsAt a account tx h e = ground arith

new_to-FitsAt :
    (b : ℕ) (account : Account) (tx : Tx) {acc : Account}
    → FitsAt b account
    → new_to b account tx ≡ some acc
    → FitsAt b acc
unfolding new_to
new_to-FitsAt b account tx h e = ground arith

module _ {X : External} (text : FieldText X) (pairs : PoseidonPairs X) where
  -- Stored hashes follow the accounts; every account has its own key as its id, and its balance is a
  -- word.
  pub record IsWellFormed (s : State) : Type 0 where
    pub sound : IsSound text pairs s
    pub fits : (j : ℕ) → FitsAt j (get s j)

  two_writes-FitsAt :
      (s : State) (a b : ℕ) (acc acc' : Account)
      → ((j : ℕ) → FitsAt j (get s j))
      → FitsAt a acc
      → FitsAt b acc'
      → (j : ℕ) → FitsAt j (two_writes text pairs s a acc b acc' j)
  two_writes-FitsAt s a b acc acc' fits fa fb j = ground (arith, fits j)

  -- Every transaction that `apply_tx` applies without a panic, valid or not, keeps the state well
  -- formed.
  pub apply_tx-IsWellFormed :
      (s s' : State) (tx : Tx) → IsWellFormed s → apply_tx X s tx ≡ some s' → IsWellFormed s'
  apply_tx-IsWellFormed s s' tx w run =
      let r = apply_tx-Applied X s s' tx run in
      let (sound, at) =
        written text pairs s s' tx r.a r.b w.sound r.sender r.to run r.acc r.acc' r.debit
          r.credit in
      record {
        sound = sound;
        fits = λ j. rw (at j) (
            two_writes-FitsAt s r.a r.b r.acc r.acc' w.fits
              (new_sender-FitsAt r.a (get s r.a) tx (w.fits r.a) r.debit)
              (new_to-FitsAt r.b (get s r.b) tx (w.fits r.b) r.credit) j);
      }

  -- The state of `Default` is well formed.
  get-default : (j : ℕ) → get default_state j ≡ new_account j 0 0
  unfolding get Tree.get BTreeMap.get
  get-default j = refl

  pub default_state-IsWellFormed : IsWellFormed default_state
  default_state-IsWellFormed = record {
    sound = default_state-IsSound text pairs;
    fits = λ j. rw (get-default j) (refl, ground arith);
  }
