-- ===== src/Sequencer/Scenario.antt =====
-- The test `state_update_test` of the sequencer (fusion-sequencer/src/sequencer.rs), for any two keys.
use fusion_zksnark_circle.Base.{
  ℕ, ◌+◌, ◌≡◌, ◌≢◌, refl, sym, ap, inl, inr, Option, some, ◌>>=◌, arith,
}
use fusion_zksnark_circle.Base.BTreeMap
use fusion_zksnark_circle.Merkle.Tree
use fusion_zksnark_circle.Types.External.{External, FieldText, PoseidonPairs}
use fusion_zksnark_circle.Types.PublicKey.{PublicKey, to_u256, from_u256, address}
use fusion_zksnark_circle.Api.{transfer, deposit, withdraw, Tx}
use fusion_zksnark_circle.Prover.State.{Account, State, new_account, default_state, get}
use fusion_zksnark_circle.Sequencer.Transactions.{address_of, apply_tx}
use fusion_zksnark_circle.Sequencer.Validity.{
  IsWellFormed, default_state-IsWellFormed, apply_tx-IsWellFormed,
}
use fusion_zksnark_circle.Sequencer.Transfers.{apply_tx-boundary, apply_tx-transfer}

-- The transactions of the test.
abbrev pub tx_1 : ℕ → Tx
tx_1 sender = record { kind = deposit; sender = sender; to = 0; nonce = 1; value = 1000 }

abbrev pub tx_2 : ℕ → ℕ → Tx
tx_2 sender to = record { kind = transfer; sender = sender; to = to; nonce = 2; value = 500 }

abbrev pub tx_3 : ℕ → Tx
tx_3 sender = record { kind = withdraw; sender = sender; to = 0; nonce = 3; value = 200 }

module _ (X : External) where
  -- The two accounts that the test makes its assertions of.
  unfoldable pub state_update_test : PublicKey → PublicKey → Option (Account × Account)
  state_update_test pk_1 pk_2 = do
    sender_1 ← to_u256 X pk_1
    sender_2 ← to_u256 X pk_2
    state_1 ← apply_tx X default_state (tx_1 sender_1)
    state_2 ← apply_tx X state_1 (tx_2 sender_1 sender_2)
    state_3 ← apply_tx X state_2 (tx_3 sender_2)
    address_1 ← address X pk_1
    address_2 ← address X pk_2
    some (get state_3 address_1, get state_3 address_2)

module _ {X : External} (text : FieldText X) (pairs : PoseidonPairs X) where
  empty_account : (k : ℕ) → get default_state k ≡ new_account k 0 0
  unfolding get Tree.get BTreeMap.get
  empty_account k = refl

  module _ (v w a b z : ℕ) (ea : address_of X v ≡ some a) (eb : address_of X w ≡ some b)
      (ez : address_of X 0 ≡ some z) (ab : a ≢ b) (az : a ≢ z) (bz : b ≢ z) where
    paid_in :
        (s : State) × (apply_tx X default_state (tx_1 v) ≡ some s)
        × IsWellFormed text pairs s
        × (get s a ≡ new_account a 1000 1)
        × (get s b ≡ new_account b 0 0)
    paid_in =
        let w = default_state-IsWellFormed text pairs in
        let (s, run, at) =
          apply_tx-boundary text pairs default_state (tx_1 v) a z w ea ez 1000 az
            (inl (refl, ap (λ acc. acc.balance + 1000) (sym (empty_account a)), omega arith)) in
        (
          s,
          run,
          apply_tx-IsWellFormed text pairs default_state s (tx_1 v) w run,
          ground (arith, at a),
          ground (arith, at b, ab, empty_account b),
        )

    moved :
        (s : State) (h : IsWellFormed text pairs s)
        → get s a ≡ new_account a 1000 1
        → get s b ≡ new_account b 0 0
        → (s' : State) × (apply_tx X s (tx_2 v w) ≡ some s')
          × IsWellFormed text pairs s'
          × (get s' a ≡ new_account a 500 2)
          × (get s' b ≡ new_account b 500 0)
    moved s h ga gb =
        let (s', run, at) =
          apply_tx-transfer text pairs s (tx_2 v w) a b h ea eb refl
            (omega (arith, ap Account.balance ga)) (omega (arith, ap Account.balance gb)) in
        (
          s',
          run,
          apply_tx-IsWellFormed text pairs s s' (tx_2 v w) h run,
          ground (arith, at a, ab, ap Account.balance ga),
          ground (arith, at b, ap Account.balance gb, ap Account.nonce gb),
        )

    withdrawn :
        (s : State) (h : IsWellFormed text pairs s)
        → get s a ≡ new_account a 500 2
        → get s b ≡ new_account b 500 0
        → (s' : State) × (apply_tx X s (tx_3 w) ≡ some s')
          × (get s' a ≡ new_account a 500 2)
          × (get s' b ≡ new_account b 300 3)
    withdrawn s h ga gb =
        let (s', run, at) =
          apply_tx-boundary text pairs s (tx_3 w) b z h eb ez 300 bz
            (inr (refl, ap Account.balance (sym gb))) in
        (s', run, ground (arith, at a, ab, ga), ground (arith, at b))

  -- For two public keys whose words read back as them, and whose addresses are different from each other
  -- and from the address of the word 0: the test's deposit, transfer and withdrawal run without a
  -- panic, and leave the balances and nonces that the test asserts.
  pub state_update_test-passes :
      (pk_1 pk_2 : PublicKey) (v w a b z : ℕ)
      → to_u256 X pk_1 ≡ some v
      → to_u256 X pk_2 ≡ some w
      → from_u256 X v ≡ some pk_1
      → from_u256 X w ≡ some pk_2
      → address X pk_1 ≡ some a
      → address X pk_2 ≡ some b
      → address_of X 0 ≡ some z
      → a ≢ b
      → a ≢ z
      → b ≢ z
      → state_update_test X pk_1 pk_2 ≡ some (new_account a 500 2, new_account b 300 3)
  unfolding state_update_test address_of
  state_update_test-passes pk_1 pk_2 v w a b z ev ew fv fw ea eb ez ab az bz =
      let ka : address_of X v ≡ some a = rw fv ea in
      let kb : address_of X w ≡ some b = rw fw eb in
      let (s, run, h, ga, gb) = paid_in v w a b z ka kb ez ab az bz in
      let (s', run', h', ga', gb') = moved v w a b z ka kb ez ab az bz s h ga gb in
      let (s'', run'', ga'', gb'') = withdrawn v w a b z ka kb ez ab az bz s' h' ga' gb' in
      rw (ev, ew, run, run', run'', ea, eb, ga'', gb'') refl
