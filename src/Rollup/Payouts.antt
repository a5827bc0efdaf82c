-- ===== src/Rollup/Payouts.antt =====
-- The contract never lacks the ether for a block of the sequencer.
use fusion_zksnark_circle.Base.{
  ℕ, ◌+◌, ◌-◌, ◌^◌, ◌≤◌, ◌<◌, ◌≡◌, ◌⊎◌, refl, sym, ap, subst, ◌∙◌, inl, inr, Bool, true, Option,
  some, some_injective, List, [], ◌∷◌, arith,
}
use fusion_zksnark_circle.Types.External.{External, FieldText, PoseidonPairs}
use fusion_zksnark_circle.Api.{TxKind, transfer, deposit, withdraw, Tx, SignedTx, kind_to_u256}
use fusion_zksnark_circle.Prover.State.{Account, State, get, root}
use fusion_zksnark_circle.Prover.CircuitInput.{CircuitInput, pre_account_to, new_input}
use fusion_zksnark_circle.Sequencer.Transactions.{address_of, new_sender, apply_tx}
use fusion_zksnark_circle.Sequencer.Validity.{apply_tx-Applied}
use fusion_zksnark_circle.Sequencer.Supply.{sum_of, IsOnce}
use fusion_zksnark_circle.Circuits.Fusion.{public_inputs}
use fusion_zksnark_circle.L1.Reply.{done}
use fusion_zksnark_circle.L1.Fusion.{Fusion, write, submit_block}
use fusion_zksnark_circle.L1.Steps.{
  Effect, Effect-root, moved, claimed, paid, Accepted, submit_block-Accepted,
}
use fusion_zksnark_circle.Rollup.Inputs.{Describes, new_input-Describes}
use fusion_zksnark_circle.Rollup.System.{System, IsBacked}

pub sum_of-le : (f : ℕ → ℕ) (k : ℕ) (keys : List ℕ) → IsOnce k keys → f k ≤ sum_of f keys
unfolding sum_of
sum_of-le f k [] h = absurd h
sum_of-le f k (j ∷ keys) (inl (e, out)) = omega (arith, ap f e)
sum_of-le f k (j ∷ keys) (inr (n, h)) = omega (arith, sum_of-le f k keys h)

TxKind-cases : (k : TxKind) → (k ≡ transfer) ⊎ (k ≡ deposit) ⊎ (k ≡ withdraw)
TxKind-cases transfer = inl refl
TxKind-cases deposit = inr (inl refl)
TxKind-cases withdraw = inr (inr refl)

kind_code :
    (k : TxKind)
    → (k ≡ transfer → kind_to_u256 k ≡ 0)
      × (k ≡ deposit → kind_to_u256 k ≡ 1)
      × (k ≡ withdraw → kind_to_u256 k ≡ 2)
unfolding kind_to_u256
kind_code k = (λ e. ground (arith, e), λ e. ground (arith, e), λ e. ground (arith, e))

spent-le :
    (a : ℕ) (account : Account) (tx : Tx) {acc : Account}
    → tx.kind ≡ withdraw
    → new_sender a account tx ≡ some acc
    → tx.value ≤ account.balance
unfolding new_sender
spent-le a account tx kind e = ground (arith, kind)

pub withdrawn_to :
    (tx : SignedTx) (s : State) (b : ℕ)
    → tx.tx.kind ≡ withdraw
    → (pre_account_to tx s b).id ≡ tx.tx.to
unfolding pre_account_to
withdrawn_to tx s b kind = ground (arith, kind)

module _ {X : External} (text : FieldText X) (pairs : PoseidonPairs X) {P : Type 0}
    (accepts : ℕ → Bool) (verify : List ℕ → P → Option ℕ) (keys : List ℕ) (u : System) (s' : State)
    (tx : SignedTx) (i : CircuitInput) (proof : P) (a b : ℕ) (h : IsBacked text pairs keys u)
    (sender : address_of X tx.tx.sender ≡ some a) (once : IsOnce a keys)
    (run : apply_tx X u.l2 tx.tx ≡ some s') (d : Describes X tx u.l2 s' a b i) where
  covered : tx.tx.kind ≡ withdraw → tx.tx.value ≤ u.l1.balance
  covered kind =
      let r = apply_tx-Applied X u.l2 s' tx.tx run in
      let ra : r.a ≡ a = some_injective (sym r.sender ∙ sender) in
      let paid_by = spent-le a (get u.l2 a) tx.tx kind (rw ra at r.debit) in
      omega (arith, paid_by, sum_of-le (λ j. (get u.l2 j).balance) a keys once, h.backed)

  block-Effect :
      (tx.tx.kind ≡ deposit → tx.tx.value ≤ u.l1.deposits a)
      → (tx.tx.kind ≡ withdraw → tx.tx.to < 2 ^ 160)
      → (tx.tx.kind ≡ withdraw → accepts tx.tx.to ≡ true)
      → (c' : Fusion) × Effect accepts u.l1 (public_inputs i) c'
  unfolding public_inputs
  block-Effect available small willing =
      let codes = kind_code tx.tx.kind in
      elim (TxKind-cases tx.tx.kind) [
        | inl k ↦ (u.l1, moved (ap done (d.kind ∙ codes.0 k)) refl)
        | inr (inl k) ↦ (
          record u.l1 { deposits = write u.l1.deposits a (u.l1.deposits a - tx.tx.value) },
          claimed tx.tx.value a (ap done (d.kind ∙ codes.1 k)) (ap done d.value)
              (ap done (ap Account.id d.sender ∙ (h.well_formed.fits a).0)) (available k) refl,
        )
        | inr (inr k) ↦ (
          record u.l1 {
            balance = u.l1.balance - tx.tx.value;
            sent = write u.l1.sent tx.tx.to (u.l1.sent tx.tx.to + tx.tx.value);
          },
          paid tx.tx.value tx.tx.to (ap done (d.kind ∙ codes.2 k)) (ap done d.value)
              (ap done (ap Account.id d.to ∙ withdrawn_to tx u.l2 b k)) (small k) (willing k)
              (covered k) refl,
        )
      ]

  accepted :
      (c' : Fusion)
      → verify (public_inputs i) proof ≡ some 0
      → Effect accepts u.l1 (public_inputs i) c'
      → Accepted accepts verify u.l1
          (record { proof = proof; input = public_inputs i })
          (record c' { root = i.post_root })
  unfolding public_inputs
  accepted c' proved effect = record {
    pre_root = ap done (some_injective (sym d.pre_root ∙ h.rooted));
    post_root = refl;
    long = refl;
    proved = proved;
    effect =
        let rooted = Effect-root accepts u.l1 (public_inputs i) c' effect in
        subst (Effect accepts u.l1 (public_inputs i))
          (ap {A = ℕ} {B = Fusion} (λ r. record c' { root = r }) rooted) effect;
  }

module _ {X : External} (text : FieldText X) (pairs : PoseidonPairs X) {P : Type 0}
    (accepts : ℕ → Bool) (verify : List ℕ → P → Option ℕ) (keys : List ℕ) where
  -- On layers that agree, the contract accepts the block of a transaction that `apply_tx` applies
  -- and `CircuitInput::new` builds an input for, if the verifier accepts the proof, a deposit is
  -- covered by the sender's on the contract, and a withdrawal goes to an address of 160 bits that
  -- takes ether. A withdrawal never lacks ether, since the sender's balance covers it. The sender's
  -- address is once among `keys`. The contract's new root is that of the new state.
  pub submit_block-new_input :
      (u : System) (s' : State) (tx : SignedTx) (i : CircuitInput) (proof : P) (a b : ℕ)
      → IsBacked text pairs keys u
      → address_of X tx.tx.sender ≡ some a
      → address_of X tx.tx.to ≡ some b
      → IsOnce a keys
      → apply_tx X u.l2 tx.tx ≡ some s'
      → new_input X tx u.l2 s' ≡ some i
      → verify (public_inputs i) proof ≡ some 0
      → (tx.tx.kind ≡ deposit → tx.tx.value ≤ u.l1.deposits a)
      → (tx.tx.kind ≡ withdraw → tx.tx.to < 2 ^ 160)
      → (tx.tx.kind ≡ withdraw → accepts tx.tx.to ≡ true)
      → (c' : Fusion) × (submit_block accepts verify u.l1
            (record { proof = proof; input = public_inputs i })
          ≡ done c')
        × (root X s' ≡ some c'.root)
  submit_block-new_input u s' tx i proof a b h sender to once run built proved available small
        willing =
      let d = new_input-Describes X tx u.l2 s' i a b sender to built in
      let (c, effect) =
        block-Effect text pairs accepts verify keys u s' tx i proof a b h sender once run d
          available small willing in
      let c' : Fusion = record c { root = i.post_root } in
      (
        c',
        (submit_block-Accepted accepts verify u.l1
              (record { proof = proof; input = public_inputs i }) c' h.words).1
            (accepted text pairs accepts verify keys u s' tx i proof a b h sender once run d c
              proved effect),
        d.post_root,
      )
