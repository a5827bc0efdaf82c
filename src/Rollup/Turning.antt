-- ===== src/Rollup/Turning.antt =====
-- The loop of the sequencer (fusion-sequencer/src/sequencer.rs) with the contract
-- (l1-verifier/src/Fusion.sol) that it submits its blocks to.
use fusion_zksnark_circle.Base.{
  ℕ, ◌^◌, ◌≤◌, ◌<◌, ◌≡◌, ◌≢◌, refl, sym, ap, ◌∙◌, some_injective, Bool, true, false, Option, some,
  List, [], leb, ==_refl, ◌==◌, Result, ok, arith,
}
use fusion_zksnark_circle.Types.External.{External, FieldText, PoseidonPairs}
use fusion_zksnark_circle.Api.{deposit, withdraw, SignedTx, kind_to_u256}
use fusion_zksnark_circle.Prover.State.{Account, State, root}
use fusion_zksnark_circle.Prover.CircuitInput.{CircuitInput, new_input}
use fusion_zksnark_circle.Sequencer.Transactions.{address_of, validate_tx, apply_tx}
use fusion_zksnark_circle.Sequencer.Loop.{Contract, turn}
use fusion_zksnark_circle.Sequencer.Turns.{turn-applies}
use fusion_zksnark_circle.Sequencer.Supply.{IsOnce}
use fusion_zksnark_circle.Circuits.Fusion.{public_inputs}
use fusion_zksnark_circle.L1.Reply.{Error, Reply, done, revert, read, invalid_pre_root}
use fusion_zksnark_circle.L1.Fusion.{
  Fusion, TxProof, submit_block, verify_tx, verify_and_process_deposit, claim, claim_value,
}
use fusion_zksnark_circle.Rollup.Inputs.{new_input-Describes}
use fusion_zksnark_circle.Rollup.System.{System, block, IsBacked}
use fusion_zksnark_circle.Rollup.Backing.{Step-IsBacked}
use fusion_zksnark_circle.Rollup.Payouts.{submit_block-new_input}

-- What the client answers to a block: the contract that took it, or what it makes of a revert.
unfoldable pub settled : (Error → Fusion → Option Fusion) → Reply Fusion → Fusion → Option Fusion
settled on_revert (done c') c = some c'
settled on_revert (revert e) c = on_revert e c

module _ {P : Type 0} (accepts : ℕ → Bool) (verify : List ℕ → P → Option ℕ)
    (on_revert : Error → Fusion → Option Fusion) where
  -- The contract behind the client that the sequencer calls.
  abbrev pub l1_contract : Contract (TxProof P)
  l1_contract = record {
    Chain = Fusion;
    call_root = λ c. some c.root;
    submit_block = λ c proof. settled on_revert (submit_block accepts verify c proof) c;
  }

module _ {X : External} (text : FieldText X) (pairs : PoseidonPairs X) {P : Type 0}
    (accepts : ℕ → Bool) (verify : List ℕ → P → Option ℕ) (keys : List ℕ)
    (on_revert : Error → Fusion → Option Fusion)
    (prove : SignedTx → State → State → Option (Result (TxProof P))) where
  -- A turn of the loop, with one transaction for a block and an empty mempool, on a valid
  -- transaction between two different addresses that are once among `keys`, where `apply_tx` and
  -- `CircuitInput::new` succeed, the prover returns a proof over the circuit's public inputs, the
  -- verifier accepts it, a deposit is available on the contract, a withdrawal goes to an address of
  -- 160 bits, and its recipient takes ether: the loop takes the new state, the contract takes the
  -- block, and the two layers agree again, if they did before.
  pub turn-IsBacked :
      (u : System) (s' : State) (tx : SignedTx) (i : CircuitInput) (proof : P) (a b : ℕ)
      → IsBacked text pairs keys u
      → address_of X tx.tx.sender ≡ some a
      → address_of X tx.tx.to ≡ some b
      → a ≢ b
      → IsOnce a keys
      → IsOnce b keys
      → validate_tx X u.l2 tx ≡ some (ok tt)
      → apply_tx X u.l2 tx.tx ≡ some s'
      → new_input X tx u.l2 s' ≡ some i
      → prove tx u.l2 s' ≡ some (ok (record { proof = proof; input = public_inputs i }))
      → verify (public_inputs i) proof ≡ some 0
      → (tx.tx.kind ≡ deposit → tx.tx.value ≤ u.l1.deposits a)
      → (tx.tx.kind ≡ withdraw → tx.tx.to < 2 ^ 160)
      → (tx.tx.kind ≡ withdraw → accepts tx.tx.to ≡ true)
      → (c' : Fusion) × (turn X prove
            (l1_contract accepts verify on_revert)
            1
            (record { mempool = []; state = u.l2 })
            u.l1
            tx
          ≡ some (record { mempool = []; state = s' }, c'))
        × IsBacked text pairs keys (record { l1 = c'; l2 = s' })
  unfolding settled
  turn-IsBacked u s' tx i proof a b h ea eb ne oa ob valid run built proved verified available small
        willing =
      let (c', done_, rooted) =
        submit_block-new_input text pairs accepts verify keys u s' tx i proof a b h ea eb oa run
          built verified available small willing in
      (
        c',
        turn-applies X prove (l1_contract accepts verify on_revert) 1
            (record { mempool = []; state = u.l2 }) u.l1 u.l1.root tx refl (omega arith) refl s'
            c'.root (ok (record { proof = proof; input = public_inputs i })) c' rooted valid run
            proved (rw done_ refl),
        Step-IsBacked text pairs accepts verify keys
            (block tx i proof a b ea eb ne oa ob run built done_) h,
      )

  -- A turn on a valid deposit that exceeds what was paid in for its sender, on layers that agree,
  -- with a client that reports no revert: the sequencer takes the new state, while the contract
  -- stays as it was. If the roots of the two differ, the contract then rejects every later block
  -- that starts from the sequencer's root. The loop is that of blocks of one transaction with an
  -- empty mempool, `apply_tx` and `CircuitInput::new` succeed, and the prover returns a proof over
  -- the circuit's public inputs.
  pub turn-unclaimed :
      (u : System) (s' : State) (tx : SignedTx) (i : CircuitInput) (proof : P) (a b : ℕ)
      (later : TxProof P)
      → ((e : Error) (c : Fusion) → on_revert e c ≡ some c)
      → IsBacked text pairs keys u
      → address_of X tx.tx.sender ≡ some a
      → address_of X tx.tx.to ≡ some b
      → tx.tx.kind ≡ deposit
      → u.l1.deposits a < tx.tx.value
      → validate_tx X u.l2 tx ≡ some (ok tt)
      → apply_tx X u.l2 tx.tx ≡ some s'
      → new_input X tx u.l2 s' ≡ some i
      → prove tx u.l2 s' ≡ some (ok (record { proof = proof; input = public_inputs i }))
      → i.post_root ≢ u.l1.root
      → read later.input 0 ≡ done i.post_root
      → (turn X prove
            (l1_contract accepts verify on_revert)
            1
            (record { mempool = []; state = u.l2 })
            u.l1
            tx
          ≡ some (record { mempool = []; state = s' }, u.l1))
        × (root X s' ≡ some i.post_root)
        × (submit_block accepts verify u.l1 later ≡ revert invalid_pre_root)
  unfolding settled submit_block verify_tx verify_and_process_deposit claim claim_value
      public_inputs kind_to_u256
  turn-unclaimed u s' tx i proof a b later silent h ea eb kind short valid run built proved apart
        next =
      let d = new_input-Describes X tx u.l2 s' i a b ea eb built in
      let same : i.pre_root ≡ u.l1.root = some_injective (sym d.pre_root ∙ h.rooted) in
      let one : i.tx.kind ≡ 1 = d.kind ∙ ap kind_to_u256 kind in
      let own : i.pre_accounts.0.id ≡ a = ap Account.id d.sender ∙ (h.well_formed.fits a).0 in
      let lacks : leb tx.tx.value (u.l1.deposits a) ≡ false = ground arith in
      let behind : (u.l1.root == i.post_root) ≡ false = ground (arith, apart) in
      (
        turn-applies X prove (l1_contract accepts verify on_revert) 1
            (record { mempool = []; state = u.l2 }) u.l1 u.l1.root tx refl (omega arith) refl s'
            i.post_root (ok (record { proof = proof; input = public_inputs i })) u.l1 d.post_root
            valid run proved (rw (same, ==_refl u.l1.root, one, d.value, own, lacks) (silent _ _)),
        d.post_root,
        rw (next, behind) refl,
      )
