-- ===== src/Rollup/Settlement.antt =====
-- What a turn of the loop on a deposit or a withdrawal does on both layers
-- (fusion-sequencer/src/sequencer.rs, l1-verifier/src/Fusion.sol).
use fusion_zksnark_circle.Base.{
  ℕ, ◌+◌, ◌-◌, ◌^◌, ◌≤◌, ◌<◌, ◌≡◌, ◌≢◌, ◌⊎◌, refl, sym, ap, ◌∙◌, some_injective, inl, inr, Bool,
  true, Option, some, List, [], if_pos, ℕ_discrete, Result, ok, u256_size, arith,
}
use fusion_zksnark_circle.Types.External.{External, FieldText, PoseidonPairs}
use fusion_zksnark_circle.Api.{deposit, withdraw, SignedTx}
use fusion_zksnark_circle.Prover.State.{Account, State, new_account, get, root}
use fusion_zksnark_circle.Prover.CircuitInput.{CircuitInput, new_input}
use fusion_zksnark_circle.Sequencer.Transactions.{address_of, validate_tx, apply_tx}
use fusion_zksnark_circle.Sequencer.Transfers.{apply_tx-boundary}
use fusion_zksnark_circle.Sequencer.Loop.{turn}
use fusion_zksnark_circle.Sequencer.Turns.{turn-applies}
use fusion_zksnark_circle.Sequencer.Supply.{IsOnce}
use fusion_zksnark_circle.Circuits.Fusion.{public_inputs}
use fusion_zksnark_circle.L1.Reply.{Error, done, done_injective}
use fusion_zksnark_circle.L1.Fusion.{Fusion, TxProof, write, submit_block}
use fusion_zksnark_circle.L1.Steps.{Effect, moved, claimed, paid, submit_block-Accepted}
use fusion_zksnark_circle.Rollup.Inputs.{Describes, new_input-Describes}
use fusion_zksnark_circle.Rollup.System.{System, IsBacked}
use fusion_zksnark_circle.Rollup.Backing.{kind_of_code}
use fusion_zksnark_circle.Rollup.Payouts.{submit_block-new_input, withdrawn_to, sum_of-le}
use fusion_zksnark_circle.Sequencer.Replay.{validate_tx-IsAdmissible}
use fusion_zksnark_circle.Rollup.Turning.{settled, l1_contract}

module _ (X : External) (accepts : ℕ → Bool) (tx : SignedTx) (s s' : State) (a b : ℕ)
    (i : CircuitInput) (d : Describes X tx s s' a b i) (c c' : Fusion) where
  pub claimed_by :
      (get s a).id ≡ a
      → tx.tx.kind ≡ deposit
      → Effect accepts c (public_inputs i) c'
      → c' ≡ record c { deposits = write c.deposits a (c.deposits a - tx.tx.value) }
  unfolding public_inputs
  claimed_by own k (moved kind same) =
      absurd (cc (sym ((kind_of_code tx.tx.kind).0 (sym d.kind ∙ done_injective kind)) ∙ k))
  claimed_by own k (claimed value recipient kind v r enough same) =
      let to_a : recipient ≡ a = sym (done_injective r) ∙ ap Account.id d.sender ∙ own in
      let amount : value ≡ tx.tx.value = sym (done_injective v) ∙ d.value in
      rw (to_a, amount) at same
  claimed_by own k (paid value recipient kind v r small willing enough same) =
      absurd (cc (sym ((kind_of_code tx.tx.kind).2 (sym d.kind ∙ done_injective kind)) ∙ k))

  pub paid_by :
      tx.tx.kind ≡ withdraw
      → Effect accepts c (public_inputs i) c'
      → c' ≡ record c {
        balance = c.balance - tx.tx.value;
        sent = write c.sent tx.tx.to (c.sent tx.tx.to + tx.tx.value);
      }
  unfolding public_inputs
  paid_by k (moved kind same) =
      absurd (cc (sym ((kind_of_code tx.tx.kind).0 (sym d.kind ∙ done_injective kind)) ∙ k))
  paid_by k (claimed value recipient kind v r enough same) =
      absurd (cc (sym ((kind_of_code tx.tx.kind).1 (sym d.kind ∙ done_injective kind)) ∙ k))
  paid_by k (paid value recipient kind v r small willing enough same) =
      let to : recipient ≡ tx.tx.to =
        sym (done_injective r) ∙ ap Account.id d.to ∙ withdrawn_to tx s b k in
      let amount : value ≡ tx.tx.value = sym (done_injective v) ∙ d.value in rw (to, amount) at same

module _ {X : External} (text : FieldText X) (pairs : PoseidonPairs X) {P : Type 0}
    (accepts : ℕ → Bool) (verify : List ℕ → P → Option ℕ) (keys : List ℕ)
    (on_revert : Error → Fusion → Option Fusion)
    (prove : SignedTx → State → State → Option (Result (TxProof P))) (u : System) (s' : State)
    (tx : SignedTx) (i : CircuitInput) (proof : P) (a b : ℕ) (h : IsBacked text pairs keys u)
    (sender : address_of X tx.tx.sender ≡ some a) (to : address_of X tx.tx.to ≡ some b) (ne : a ≢ b)
    (once : IsOnce a keys) (valid : validate_tx X u.l2 tx ≡ some (ok tt))
    (run : apply_tx X u.l2 tx.tx ≡ some s') (built : new_input X tx u.l2 s' ≡ some i)
    (proved : prove tx u.l2 s' ≡ some (ok (record { proof = proof; input = public_inputs i })))
    (verified : verify (public_inputs i) proof ≡ some 0) where
  -- A turn takes the transaction, and leaves this contract.
  abbrev Takes : Fusion → Type 0
  Takes c' =
      turn X prove (l1_contract accepts verify on_revert) 1 (record { mempool = []; state = u.l2 })
        u.l1 tx
      ≡ some (record { mempool = []; state = s' }, c')

  taken :
      (c' : Fusion)
      → submit_block accepts verify u.l1 (record { proof = proof; input = public_inputs i })
        ≡ done c'
      → root X s' ≡ some c'.root
      → Takes c'
  unfolding settled
  taken c' e rooted =
      turn-applies X prove (l1_contract accepts verify on_revert) 1
        (record { mempool = []; state = u.l2 }) u.l1 u.l1.root tx refl (omega arith) refl s' c'.root
        (ok (record { proof = proof; input = public_inputs i })) c' rooted valid run proved
        (rw e refl)

  effect_of :
      (c' : Fusion)
      → submit_block accepts verify u.l1 (record { proof = proof; input = public_inputs i })
        ≡ done c'
      → Effect accepts u.l1 (public_inputs i) (record c' { root = u.l1.root })
  effect_of c' e =
      ((submit_block-Accepted accepts verify u.l1
          (record { proof = proof; input = public_inputs i }) c' h.words).0
        e).effect

  left :
      (balance : ℕ)
      → ((tx.tx.kind ≡ deposit)
          × (balance ≡ (get u.l2 a).balance + tx.tx.value)
          × (balance < u256_size))
        ⊎ ((tx.tx.kind ≡ withdraw) × (balance + tx.tx.value ≡ (get u.l2 a).balance))
      → get s' a ≡ new_account a balance tx.tx.nonce
  left balance how =
      let (t, run', at) =
        apply_tx-boundary text pairs u.l2 tx.tx a b h.well_formed sender to balance ne how in
      let same : t ≡ s' = some_injective (sym run' ∙ run) in
      ap (λ s. get s a) (sym same) ∙ at a ∙ if_pos (ℕ_discrete a a) refl _ _

  -- On layers that agree, for a valid deposit between two different addresses that `apply_tx` applies,
  -- of at most what was paid in on the contract for the sender, where the new balance is a word,
  -- `CircuitInput::new` builds an input, the prover returns a proof over its public inputs and the
  -- verifier accepts it: a turn of the loop, with one transaction for a block and an empty mempool,
  -- credits the sender on L2, takes the value off the deposits on L1, leaves the contract's ether, and
  -- leaves both layers with one root. The sender's address is once among `keys`.
  pub turn-claims :
      tx.tx.kind ≡ deposit
      → tx.tx.value ≤ u.l1.deposits a
      → (get u.l2 a).balance + tx.tx.value < u256_size
      → (c' : Fusion) × Takes c'
        × (root X s' ≡ some c'.root)
        × (c'.deposits a ≡ u.l1.deposits a - tx.tx.value)
        × (c'.balance ≡ u.l1.balance)
        × (get s' a ≡ new_account a ((get u.l2 a).balance + tx.tx.value) tx.tx.nonce)
  turn-claims kind enough fits =
      let (c', e, rooted) =
        submit_block-new_input text pairs accepts verify keys u s' tx i proof a b h sender to once
          run built verified (λ k. enough) (λ k. absurd (cc (sym kind ∙ k)))
          (λ k. absurd (cc (sym kind ∙ k))) in
      let d = new_input-Describes X tx u.l2 s' i a b sender to built in
      let effect =
        claimed_by X accepts tx u.l2 s' a b i d u.l1 (record c' { root = u.l1.root })
          (h.well_formed.fits a).0 kind (effect_of c' e) in
      (
        c',
        taken c' e rooted,
        rooted,
        ap (λ (f : Fusion). f.deposits a) effect ∙ if_pos (ℕ_discrete a a) refl _ _,
        ap Fusion.balance effect,
        left ((get u.l2 a).balance + tx.tx.value) (inl (kind, refl, fits)),
      )

  -- On layers that agree, for a valid withdrawal between two different addresses that `apply_tx` applies,
  -- to an address of 160 bits that takes ether, where `CircuitInput::new` builds an input, the prover
  -- returns a proof over its public inputs and the verifier accepts it: a turn of the loop, with one
  -- transaction for a block and an empty mempool, debits the sender on L2, pays the value out of the
  -- contract's ether to the address on L1, and leaves both layers with one root. The sender's address is
  -- once among `keys`.
  pub turn-pays :
      tx.tx.kind ≡ withdraw
      → tx.tx.to < 2 ^ 160
      → accepts tx.tx.to ≡ true
      → (c' : Fusion) × Takes c'
        × (root X s' ≡ some c'.root)
        × (c'.balance + tx.tx.value ≡ u.l1.balance)
        × (c'.sent tx.tx.to ≡ u.l1.sent tx.tx.to + tx.tx.value)
        × ((get s' a).balance + tx.tx.value ≡ (get u.l2 a).balance)
  turn-pays kind small willing =
      let (c', e, rooted) =
        submit_block-new_input text pairs accepts verify keys u s' tx i proof a b h sender to once
          run built verified (λ k. absurd (cc (sym kind ∙ k))) (λ k. small) (λ k. willing) in
      let d = new_input-Describes X tx u.l2 s' i a b sender to built in
      let effect =
        paid_by X accepts tx u.l2 s' a b i d u.l1 (record c' { root = u.l1.root }) kind
          (effect_of c' e) in
      let (a', v, sender', admitted) = (validate_tx-IsAdmissible X u.l2 tx).0 valid in
      let same : a' ≡ a = some_injective (sym sender' ∙ sender) in
      let enough : tx.tx.value ≤ (get u.l2 a).balance =
        rw same at (admitted.covered (λ k. cc (sym kind ∙ k))) in
      let kept = left ((get u.l2 a).balance - tx.tx.value) (inr (kind, omega (arith, enough))) in
      let ether : tx.tx.value ≤ u.l1.balance =
        omega (arith, enough, sum_of-le (λ j. (get u.l2 j).balance) a keys once, h.backed) in
      (
        c',
        taken c' e rooted,
        rooted,
        omega (arith, ap Fusion.balance effect, ether),
        ap (λ (f : Fusion). f.sent tx.tx.to) effect
            ∙ if_pos (ℕ_discrete tx.tx.to tx.tx.to) refl _ _,
        omega (arith, ap Account.balance kept, enough),
      )
