-- ===== src/Sequencer/Effects.antt =====
-- What a transaction does to the accounts.
use fusion_zksnark_circle.Base.{
  ℕ, ◌<◌, ◌≡◌, sym, subst, some_injective, Option-cases, inl, inr, ap, ◌∙◌, ite, some, u256_size,
  ℕ_discrete, arith,
}
use fusion_zksnark_circle.Types.External.{External, FieldText, PoseidonPairs}
use fusion_zksnark_circle.Types.Field.{fr_to_u256-canonical}
use fusion_zksnark_circle.Types.PublicKey.{from_u256, address, public_key_to_fr}
use fusion_zksnark_circle.Api.{Tx}
use fusion_zksnark_circle.Prover.State.{Account, State, get}
use fusion_zksnark_circle.Prover.Laws.{IsSound, update-get}
use fusion_zksnark_circle.Sequencer.Transactions.{new_sender, new_to, address_of, apply_tx}

-- An address is a word.
pub address_of-lt :
    {X : External} (text : FieldText X) (word : ℕ) {a : ℕ}
    → address_of X word ≡ some a
    → a < u256_size
unfolding address_of address
address_of-lt {X} text word e = elim (Option-cases (from_u256 X word)) [
  | inl n ↦ ground arith
  | inr (pk, k) ↦ elim (Option-cases (public_key_to_fr X pk)) [
    | inl n ↦ ground arith
    | inr (f, h) ↦ ground (arith, fr_to_u256-canonical text f, text.canonical-lt f)
  ]
]

module _ {X : External} (text : FieldText X) (pairs : PoseidonPairs X) where
  -- The accounts after writing the sender's and then the receiver's.
  abbrev pub two_writes : State → ℕ → Account → ℕ → Account → ℕ → Account
  two_writes s a acc b acc' j = ite (ℕ_discrete j b) acc' (ite (ℕ_discrete j a) acc (get s j))

  -- If the two new accounts exist, `apply_tx` does not panic on a sound state, and writes them.
  pub apply_tx-two_writes :
      (s : State) (tx : Tx) (a b : ℕ) (acc acc' : Account)
      → IsSound text pairs s
      → address_of X tx.sender ≡ some a
      → address_of X tx.to ≡ some b
      → new_sender a (get s a) tx ≡ some acc
      → new_to b (get s b) tx ≡ some acc'
      → (s' : State) × (apply_tx X s tx ≡ some s')
        × IsSound text pairs s'
        × ((j : ℕ) → get s' j ≡ two_writes s a acc b acc' j)
  unfolding apply_tx
  apply_tx-two_writes s tx a b acc acc' sound sender to ns nt =
      let (s₁, run₁, sound₁, at₁) =
        update-get text pairs s a acc (address_of-lt text tx.sender sender) sound in
      let (s₂, run₂, sound₂, at₂) =
        update-get text pairs s₁ b acc' (address_of-lt text tx.to to) sound₁ in
      (
        s₂,
        rw (sender, to, ns, nt, run₁) run₂,
        sound₂,
        λ j. at₂ j ∙ ap (ite (ℕ_discrete j b) acc') (at₁ j),
      )

  module _ (s s' : State) (tx : Tx) (a b : ℕ) (sound : IsSound text pairs s)
      (sender : address_of X tx.sender ≡ some a) (to : address_of X tx.to ≡ some b)
      (run : apply_tx X s tx ≡ some s') where
    pub written :
        (acc acc' : Account)
        → new_sender a (get s a) tx ≡ some acc
        → new_to b (get s b) tx ≡ some acc'
        → IsSound text pairs s' × ((j : ℕ) → get s' j ≡ two_writes s a acc b acc' j)
    written acc acc' ns nt =
        let (s₂, run₂, sound₂, at₂) = apply_tx-two_writes s tx a b acc acc' sound sender to ns nt in
        let same : s₂ ≡ s' = some_injective (sym run₂ ∙ run) in
        subst (λ u. IsSound text pairs u × ((j : ℕ) → get u j ≡ two_writes s a acc b acc' j)) same
          (sound₂, at₂)
