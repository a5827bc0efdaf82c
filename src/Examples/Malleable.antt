-- ===== src/Examples/Malleable.antt =====
-- The theorem on altered transactions: the withdrawal of four with the nonce 5 in place of 2, in a
-- field of three elements.
use fusion_zksnark_circle.Base.{◌+◌, ◌≡◌, refl, ap, ◌∙◌, some, ok, ℕ_discrete, arith}
use fusion_zksnark_circle.Prover.State.{Account, State, new_account, get}
use fusion_zksnark_circle.Sequencer.Transactions.{validate_tx, apply_tx}
use fusion_zksnark_circle.Sequencer.Malleable.{altered, validate_tx-spends_twice}
use fusion_zksnark_circle.Examples.Scheme.{scheme, scheme_text, scheme_pairs, reduce}
use fusion_zksnark_circle.Examples.Accounts.{
  payer_funded, payee_empty, funded, funded-IsWellFormed, address_of-256, address_of-0,
}
use fusion_zksnark_circle.Examples.Settlement.{paid_out, withdrawing, paid_out_valid}

still_empty : get withdrawing.0 1 ≡ new_account 1 0 0
unfolding ℕ_discrete
still_empty = withdrawing.2 1 ∙ payee_empty

same_element : reduce 5 ≡ reduce 2
unfolding reduce
same_element = refl

validate_tx-spends_twice_example :
    (s'' : State) × (validate_tx scheme withdrawing.0 (altered paid_out 5 4) ≡ some (ok tt))
    × (apply_tx scheme withdrawing.0 (altered paid_out 5 4).tx ≡ some s'')
    × ((get s'' 2).balance + 4 + 4 ≡ (get funded 2).balance)
validate_tx-spends_twice_example =
    validate_tx-spends_twice scheme_text scheme_pairs funded withdrawing.0 paid_out 2 1 5
      funded-IsWellFormed address_of-256 address_of-0 (λ e. omega (arith, e)) (λ e. cc)
      paid_out_valid withdrawing.1 (omega arith) same_element
      (omega (arith, ap Account.balance payer_funded))
      (omega (arith, ap Account.balance still_empty))
