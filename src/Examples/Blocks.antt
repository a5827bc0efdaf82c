-- ===== src/Examples/Blocks.antt =====
-- The theorems on blocks and on the loop at the example's states, and those whose inputs run into
-- flaws of the sequencer.
use Prim.Native.String.{String}
use fusion_zksnark_circle.Base.{
  ℕ, ◌+◌, ◌<◌, ◌≡◌, refl, ap, ite, Option, some, none, List, [], ◌∷◌, Result, ok, err, length,
  ℕ_discrete, arith,
}
use Prim.Native.Nat.{max}
use fusion_zksnark_circle.Api.{transfer, deposit, Tx, SignedTx}
use fusion_zksnark_circle.Prover.State.{
  Account, new_account, State, default_state, get, root, proof,
}
use fusion_zksnark_circle.Prover.Laws.{IsSound}
use fusion_zksnark_circle.Sequencer.Transactions.{new_sender, new_to, validate_tx, apply_tx}
use fusion_zksnark_circle.Sequencer.Effects.{apply_tx-two_writes}
use fusion_zksnark_circle.Sequencer.Validity.{apply_tx-IsWellFormed, IsWellFormed}
use fusion_zksnark_circle.Sequencer.Transfers.{apply_tx-lost, apply_tx-same_address}
use fusion_zksnark_circle.Sequencer.Loop.{
  Contract, Request, Sequencer, turn, run, make_block, valid_txs,
}
use fusion_zksnark_circle.Sequencer.Turns.{turn-applies}
use fusion_zksnark_circle.Sequencer.Chain.{Leads}
use fusion_zksnark_circle.Sequencer.Run.{run-Leads}
use fusion_zksnark_circle.Sequencer.Batches.{make_block-twice}
use fusion_zksnark_circle.Sequencer.Replay.{validate_tx-apply_tx}
use fusion_zksnark_circle.Circuits.Checks.{root_of, proof_of}
use fusion_zksnark_circle.Examples.Scheme.{scheme, scheme_text, scheme_pairs}
use fusion_zksnark_circle.Examples.Accounts.{
  tx_of, moved, payer_funded, address_of-256, address_of-0, fresh, nothing_yet, funded,
  funded-IsWellFormed, moved_valid, transferring,
}

abbrev root_of_funded : (r : ℕ) × (root scheme funded ≡ some r)
root_of_funded = root_of scheme_text scheme_pairs funded funded-IsWellFormed.sound

abbrev proof_of_two : (items : List ℕ) × (proof funded 2 ≡ some items)
proof_of_two = proof_of scheme_text scheme_pairs funded 2

-- A deposit whose receiver is its sender.
abbrev self_deposit : Tx
self_deposit = (tx_of deposit 256 256 1 3).tx

self_debit : new_sender 2 (get default_state 2) self_deposit ≡ some (new_account 2 3 1)
unfolding new_sender
self_debit = rw (nothing_yet 2)

self_credit : new_to 2 (get default_state 2) self_deposit ≡ some (get default_state 2)
unfolding new_to
self_credit = refl

abbrev self_deposited :
    (s' : State) × (apply_tx scheme default_state self_deposit ≡ some s')
    × IsSound scheme_text scheme_pairs s'
    × ((j : ℕ)
        → get s' j
          ≡ ite
              (ℕ_discrete j 2)
              (get default_state 2)
              (ite (ℕ_discrete j 2) (new_account 2 3 1) (get default_state j)))
self_deposited =
    apply_tx-two_writes scheme_text scheme_pairs default_state self_deposit 2 2 (new_account 2 3 1)
      (get default_state 2) fresh.sound address_of-256 address_of-256 self_debit self_credit

apply_tx-lost_example : get self_deposited.0 2 ≡ get default_state 2
apply_tx-lost_example =
    apply_tx-lost scheme_text scheme_pairs default_state self_deposit 2 2 fresh address_of-256
      address_of-256 self_deposited.0 (λ e. cc) refl self_deposited.1 2

apply_tx-same_address_example :
    (s' : State) × (apply_tx scheme funded (tx_of transfer 256 256 2 6).tx ≡ some s')
    × (get s' 2 ≡ new_account 2 ((get funded 2).balance + 6) (get funded 2).nonce)
apply_tx-same_address_example =
    apply_tx-same_address scheme_text scheme_pairs funded (tx_of transfer 256 256 2 6).tx 2 2
      funded-IsWellFormed address_of-256 address_of-256 refl refl
      (omega (arith, ap Account.balance payer_funded))
      (omega (arith, ap Account.balance payer_funded))

make_block-twice_example :
    (valid_txs scheme funded (moved ∷ moved ∷ []) ≡ some (moved ∷ moved ∷ []))
    × (make_block scheme funded (moved ∷ moved ∷ []) ≡ none)
make_block-twice_example =
    make_block-twice scheme_text scheme_pairs funded moved 2 1 funded-IsWellFormed address_of-256
      address_of-0 (λ e. omega (arith, e)) (λ e. cc) moved_valid
      (omega (arith, ap Account.balance payer_funded))

abbrev root_of_transferring : (r : ℕ) × (root scheme transferring.0 ≡ some r)
root_of_transferring =
    let w =
      apply_tx-IsWellFormed scheme_text scheme_pairs funded transferring.0 moved.tx
        funded-IsWellFormed transferring.1 in
    root_of scheme_text scheme_pairs transferring.0 w.sound

-- A contract that counts the submissions, and a prover that proves a transaction by its value.
abbrev counter : Contract ℕ
counter = record { Chain = ℕ; call_root = λ n. some 0; submit_block = λ n p. some (n + 1) }

abbrev prove : SignedTx → State → State → Option (Result ℕ)
prove tx s s' = some (ok tx.tx.value)

abbrev waiting : Sequencer
waiting = record { mempool = []; state = funded }

turned :
    turn scheme prove counter 1 waiting 0 moved
    ≡ some (record { mempool = []; state = transferring.0 }, 1)
turned =
    turn-applies scheme prove counter 1 waiting 0 0 moved refl (omega arith) refl transferring.0
      root_of_transferring.0 (ok 6) 1 root_of_transferring.1 moved_valid transferring.1 refl refl

abbrev replayed : (e : String) × (validate_tx scheme transferring.0 moved ≡ some (err e))
replayed =
    let r =
      validate_tx-apply_tx scheme_text scheme_pairs funded transferring.0 moved 2 1
        funded-IsWellFormed address_of-256 address_of-0 (λ e. omega (arith, e)) transferring.1
        moved_valid in
    (r.1, r.2)

abbrev afterwards : Sequencer
afterwards = record { mempool = []; state = transferring.0 }

run_once : run scheme prove counter 1 waiting 0 (moved ∷ []) ≡ some (afterwards, 1)
unfolding run
run_once = rw turned

run-Leads_example :
    IsWellFormed scheme_text scheme_pairs transferring.0
    × (length {A = SignedTx} [] < max 1 1)
    × (rs : List Request) × Leads scheme funded rs transferring.0
run-Leads_example =
    run-Leads scheme prove counter 1 scheme_text scheme_pairs waiting afterwards 0 1 (moved ∷ [])
      funded-IsWellFormed (omega arith) run_once
