-- ===== src/Examples/Rollup.antt =====
-- The theorems on the state, the sequencer and the state circuit at the example's states.
use Prim.Native.String.{String}
use fusion_zksnark_circle.Base.{
  ℕ, ◌-◌, ◌+◌, ◌<◌, ◌≡◌, ◌↔◌, inl, refl, ap, ite, some, ok, err, ℕ_discrete, arith,
}
use fusion_zksnark_circle.Prover.State.{Account, new_account, State, get}
use fusion_zksnark_circle.Sequencer.Transactions.{
  address_of, verify_tx_signature, validate_tx, apply_tx,
}
use fusion_zksnark_circle.Sequencer.Transfers.{apply_tx-transfer}
use fusion_zksnark_circle.Sequencer.Supply.{supply, deposited, withdrawn, apply_tx-supply}
use fusion_zksnark_circle.Base.{[], ◌∷◌, inl, inr, refl}
use fusion_zksnark_circle.Sequencer.Replay.{
  IsAdmissible, validate_tx-IsAdmissible, validate_tx-apply_tx,
}
use fusion_zksnark_circle.Examples.Scheme.{scheme, scheme_text, scheme_pairs}
use fusion_zksnark_circle.Examples.Accounts.{
  payer_funded, moved, address_of-256, address_of-0, funded, funded-IsWellFormed, payee_empty,
  moved_valid, transferring,
}

apply_tx-transfer_example :
    (s' : State) × (apply_tx scheme funded moved.tx ≡ some s')
    × ((j : ℕ)
        → get s' j
          ≡ ite
              (ℕ_discrete j 1)
              (new_account 1 ((get funded 1).balance + 6) (get funded 1).nonce)
              (ite (ℕ_discrete j 2) (new_account 2 ((get funded 2).balance - 6) 2) (get funded j)))
apply_tx-transfer_example =
    apply_tx-transfer scheme_text scheme_pairs funded moved.tx 2 1 funded-IsWellFormed
      address_of-256 address_of-0 refl (omega (arith, ap Account.balance payer_funded))
      (omega (arith, ap Account.balance payee_empty))

validate_tx-IsAdmissible_example : (validate_tx scheme funded moved ≡ some (ok tt)) ↔ (
    (a : ℕ) × (verify_tx_signature scheme moved ≡ some (ok tt))
    × (address_of scheme 256 ≡ some a)
    × IsAdmissible (get funded a) moved.tx)
validate_tx-IsAdmissible_example = validate_tx-IsAdmissible scheme funded moved

validate_tx-apply_tx_example :
    ((get funded 2).nonce < (get transferring.0 2).nonce)
    × (e : String) × (validate_tx scheme transferring.0 moved ≡ some (err e))
validate_tx-apply_tx_example =
    validate_tx-apply_tx scheme_text scheme_pairs funded transferring.0 moved 2 1
      funded-IsWellFormed address_of-256 address_of-0 (λ e. omega (arith, e)) transferring.1
      moved_valid

apply_tx-supply_example :
    supply transferring.0 (1 ∷ 2 ∷ 3 ∷ []) + withdrawn moved.tx
    ≡ supply funded (1 ∷ 2 ∷ 3 ∷ []) + deposited moved.tx
apply_tx-supply_example =
    apply_tx-supply scheme_text scheme_pairs funded transferring.0 moved.tx 2 1 (1 ∷ 2 ∷ 3 ∷ [])
      funded-IsWellFormed address_of-256 address_of-0 (λ e. omega (arith, e))
      (inr (λ e. omega (arith, e), inl (refl, (λ e. omega (arith, e), tt))))
      (inl (refl, (λ e. omega (arith, e), (λ e. omega (arith, e), tt)))) transferring.1
