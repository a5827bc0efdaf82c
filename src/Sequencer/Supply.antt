-- ===== src/Sequencer/Supply.antt =====
-- The sum of the balances over a list of addresses, and what a transaction does to it.
use fusion_zksnark_circle.Base.{
  ℕ, ◌+◌, ◌≡◌, ◌≢◌, ◌⊎◌, inl, inr, refl, sym, ap, ◌∙◌, ite, some_injective, some, List, [], ◌∷◌,
  ℕ_discrete, arith,
}
use fusion_zksnark_circle.Types.External.{External, FieldText, PoseidonPairs}
use fusion_zksnark_circle.Api.{transfer, deposit, withdraw, Tx}
use fusion_zksnark_circle.Prover.State.{Account, State, get}
use fusion_zksnark_circle.Sequencer.Transactions.{address_of, new_sender, new_to, apply_tx}
use fusion_zksnark_circle.Sequencer.Effects.{written}
use fusion_zksnark_circle.Sequencer.Validity.{IsWellFormed, apply_tx-Applied}

unfoldable pub sum_of : (ℕ → ℕ) → List ℕ → ℕ
sum_of f [] = 0
sum_of f (j ∷ js) = f j + sum_of f js

abbrev pub supply : State → List ℕ → ℕ
supply s keys = sum_of (λ j. (get s j).balance) keys

abbrev pub IsAbsent : ℕ → List ℕ → Type 0
IsAbsent k [] = Unit {0}
IsAbsent k (j ∷ js) = (j ≢ k) × IsAbsent k js

-- The key is in the list exactly once.
abbrev pub IsOnce : ℕ → List ℕ → Type 0
IsOnce k [] = ⊥
IsOnce k (j ∷ js) = ((j ≡ k) × IsAbsent k js) ⊎ ((j ≢ k) × IsOnce k js)

-- What a transaction brings in from outside, and takes out.
unfoldable pub deposited : Tx → ℕ
deposited tx = elim tx.kind [ deposit ↦ tx.value | transfer ↦ 0 | withdraw ↦ 0 ]

unfoldable pub withdrawn : Tx → ℕ
withdrawn tx = elim tx.kind [ withdraw ↦ tx.value | transfer ↦ 0 | deposit ↦ 0 ]

unfoldable transferred : Tx → ℕ
transferred tx = elim tx.kind [ transfer ↦ tx.value | withdraw ↦ 0 | deposit ↦ 0 ]

sum_of-absent :
    (f f' : ℕ → ℕ) (k v : ℕ) (js : List ℕ)
    → IsAbsent k js
    → ((j : ℕ) → f' j ≡ ite (ℕ_discrete j k) v (f j))
    → sum_of f' js ≡ sum_of f js
unfolding sum_of
sum_of-absent f f' k v [] out at = refl
sum_of-absent f f' k v (j ∷ js) out at =
    ground (arith, at j, out.0, sum_of-absent f f' k v js out.1 at)

pub sum_of-once :
    (f f' : ℕ → ℕ) (k v : ℕ) (js : List ℕ)
    → IsOnce k js
    → ((j : ℕ) → f' j ≡ ite (ℕ_discrete j k) v (f j))
    → sum_of f' js + f k ≡ sum_of f js + v
unfolding sum_of
sum_of-once f f' k v [] h at = absurd h
sum_of-once f f' k v (j ∷ js) (inl (e, out)) at =
    ground (arith, at j, ap f e, sum_of-absent f f' k v js out at)
sum_of-once f f' k v (j ∷ js) (inr (n, h)) at = ground (arith, at j, sum_of-once f f' k v js h at)

new_sender-sum :
    (a : ℕ) (account : Account) (tx : Tx) {acc : Account}
    → new_sender a account tx ≡ some acc
    → acc.balance + transferred tx + withdrawn tx ≡ account.balance + deposited tx
unfolding new_sender transferred withdrawn deposited
new_sender-sum a account tx e = ground (arith, e)

new_to-sum :
    (b : ℕ) (account : Account) (tx : Tx) {acc : Account}
    → new_to b account tx ≡ some acc
    → acc.balance ≡ account.balance + transferred tx
unfolding new_to transferred
new_to-sum b account tx e = ground (arith, e)

module _ {X : External} (text : FieldText X) (pairs : PoseidonPairs X) where
  -- In a well formed state: if `apply_tx` applies a transaction between two different addresses, then
  -- over every list of addresses that has each of the two exactly once, the sum of the balances grows
  -- by what a deposit brings in, shrinks by what a withdrawal takes out, and a transfer keeps it.
  pub apply_tx-supply :
      (s s' : State) (tx : Tx) (a b : ℕ) (keys : List ℕ)
      → IsWellFormed text pairs s
      → address_of X tx.sender ≡ some a
      → address_of X tx.to ≡ some b
      → a ≢ b
      → IsOnce a keys
      → IsOnce b keys
      → apply_tx X s tx ≡ some s'
      → supply s' keys + withdrawn tx ≡ supply s keys + deposited tx
  apply_tx-supply s s' tx a b keys w sender to ne once_a once_b run =
      let r = apply_tx-Applied X s s' tx run in
      let ra : r.a ≡ a = some_injective (sym r.sender ∙ sender) in
      let rb : r.b ≡ b = some_injective (sym r.to ∙ to) in
      let (sound, at) =
        written text pairs s s' tx a b w.sound sender to run r.acc r.acc' (rw ra at r.debit)
          (rw rb at r.credit) in
      let f : ℕ → ℕ = λ j. (get s j).balance in
      let g : ℕ → ℕ = λ j. ite (ℕ_discrete j a) r.acc.balance (f j) in
      let kept : g b ≡ f b = ground arith in
      let first : sum_of g keys + f a ≡ sum_of f keys + r.acc.balance =
        sum_of-once f g a r.acc.balance keys once_a (λ j. refl) in
      let second : supply s' keys + g b ≡ sum_of g keys + r.acc'.balance =
        sum_of-once g (λ j. (get s' j).balance) b r.acc'.balance keys once_b
          (λ j. ground (arith, at j)) in
      let paid = new_sender-sum a (get s a) tx (rw ra at r.debit) in
      let received = new_to-sum b (get s b) tx (rw rb at r.credit) in
      omega (arith, kept, first, second, paid, received)
