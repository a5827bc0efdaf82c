-- ===== src/Examples/Settlement.antt =====
-- The theorems on a deposit and a withdrawal on both layers, at the example's states: ten are claimed,
-- and four of them are withdrawn to the address 0.
use fusion_zksnark_circle.Base.{
  ℕ, ◌+◌, ◌-◌, ◌≡◌, refl, sym, ap, inr, true, Option, some, [], Result, ok, ite, ℕ_discrete, arith,
}
use fusion_zksnark_circle.Base.Bytes.{to_big_endian, to_little_endian}
use fusion_zksnark_circle.Types.PublicKey.{
  u256_to_babyjubjub_point, from_babyjubjub_point, public_key_to_fr, point_from_babyjubjub_point,
}
use fusion_zksnark_circle.Types.Field.{fr_to_u256, to_fr, big_int_to_u256}
use fusion_zksnark_circle.Types.Signature.{to_babyjubjub_signature, u512_to_babyjubjub_signature}
use fusion_zksnark_circle.Wallet
use fusion_zksnark_circle.Api.{SignedTx, withdraw, hash_tx}
use fusion_zksnark_circle.Prover.Poseidon.{pair}
use fusion_zksnark_circle.Prover.State.{Account, State, new_account, default_state, get, root}
use fusion_zksnark_circle.Prover.CircuitInput.{CircuitInput, signature_of, new_input}
use fusion_zksnark_circle.Sequencer.Transactions.{verify_tx_signature, validate_tx, apply_tx}
use fusion_zksnark_circle.Sequencer.Replay.{IsAdmissible, validate_tx-IsAdmissible}
use fusion_zksnark_circle.Sequencer.Transfers.{apply_tx-boundary}
use fusion_zksnark_circle.Sequencer.Loop.{turn}
use fusion_zksnark_circle.Circuits.MerkleTree.{main}
use fusion_zksnark_circle.Circuits.Accepts.{main-new_input}
use fusion_zksnark_circle.Circuits.Fusion.{public_inputs}
use fusion_zksnark_circle.L1.Reply.{Error}
use fusion_zksnark_circle.L1.Fusion.{Fusion, TxProof}
use fusion_zksnark_circle.Rollup.Backing.{Reach-IsBacked}
use fusion_zksnark_circle.Rollup.Turning.{l1_contract}
use fusion_zksnark_circle.Rollup.Settlement.{turn-claims, turn-pays}
use fusion_zksnark_circle.Examples.Scheme.{
  scheme, scheme_text, scheme_pairs, pair_nonzero, write, read, last_two, hash_all, canonical,
  decompress_signature, is_signature,
}
use fusion_zksnark_circle.Examples.Accounts.{
  canonical-small, tx_of, paid_in, nothing_yet, payer_funded, funded, funding, funded-IsWellFormed,
  address_of-256, address_of-0, signed,
}
use fusion_zksnark_circle.Examples.Layers.{
  keys, willing, verifier, holding, before, after, after_reached, claiming, before-IsBacked,
  sender-IsOnce, available, paid_in_valid,
}

-- A client that hears of no revert.
abbrev unheard : Error → Fusion → Option Fusion
unheard e c = some c

-- A prover that has the proof over the given inputs.
abbrev prove : CircuitInput → SignedTx → State → State → Option (Result (TxProof (Unit {0})))
prove i tx s s' = some (ok (record { proof = tt; input = public_inputs i }))

turn-claims_example :
    (c' : Fusion) × (turn scheme
        (prove claiming.0)
        (l1_contract willing verifier unheard)
        1
        (record { mempool = []; state = default_state })
        holding
        paid_in
      ≡ some (record { mempool = []; state = funded }, c'))
    × (root scheme funded ≡ some c'.root)
    × (c'.deposits 2 ≡ holding.deposits 2 - 10)
    × (c'.balance ≡ 10)
    × (get funded 2 ≡ new_account 2 ((get default_state 2).balance + 10) 1)
turn-claims_example =
    turn-claims scheme_text scheme_pairs willing verifier keys unheard (prove claiming.0) before
      funded paid_in claiming.0 tt 2 1 before-IsBacked address_of-256 address_of-0
      (λ e. omega (arith, e)) sender-IsOnce paid_in_valid funding.1 claiming.1 refl refl refl
      available (omega (arith, ap Account.balance (nothing_yet 2)))

abbrev pub paid_out : SignedTx
paid_out = tx_of withdraw 256 0 2 4

abbrev pub withdrawing :
    (s' : State) × (apply_tx scheme funded paid_out.tx ≡ some s')
    × ((j : ℕ) → get s' j ≡ ite (ℕ_discrete j 2) (new_account 2 6 2) (get funded j))
withdrawing =
    apply_tx-boundary scheme_text scheme_pairs funded paid_out.tx 2 1 funded-IsWellFormed
      address_of-256 address_of-0 6 (λ e. omega (arith, e))
      (inr (refl, ap Account.balance (sym payer_funded)))

signature_of-paid_out : signature_of scheme paid_out ≡ some signed
unfolding signature_of to_babyjubjub_signature u512_to_babyjubjub_signature decompress_signature
    to_little_endian point_from_babyjubjub_point big_int_to_u256 fr_to_u256 read write canonical
signature_of-paid_out = refl

paid_out_verified : verify_tx_signature scheme paid_out ≡ some (ok tt)
unfolding verify_tx_signature Wallet.verify_tx_signature u256_to_babyjubjub_point last_two
    to_big_endian to_babyjubjub_signature read u512_to_babyjubjub_signature decompress_signature
    hash_tx from_babyjubjub_point fr_to_u256 to_fr public_key_to_fr hash_all is_signature write
paid_out_verified = refl

paid_out-IsAdmissible : IsAdmissible (get funded 2) paid_out.tx
paid_out-IsAdmissible = record {
  not_to_self = λ k e. omega (arith, e);
  covered = λ k. omega (arith, ap Account.balance payer_funded);
  fresh = omega (arith, ap Account.nonce payer_funded);
}

pub paid_out_valid : validate_tx scheme funded paid_out ≡ some (ok tt)
paid_out_valid =
    (validate_tx-IsAdmissible scheme funded paid_out).1
      (2, paid_out_verified, address_of-256, paid_out-IsAdmissible)

abbrev paying :
    (input : CircuitInput) × (new_input scheme paid_out funded withdrawing.0 ≡ some input)
    × (main (pair scheme_text scheme_pairs) 101 input ≡ true)
paying =
    main-new_input scheme_text scheme_pairs canonical-small pair_nonzero (omega arith) funded
      withdrawing.0 paid_out 2 1 signed funded-IsWellFormed address_of-256 address_of-0
      (λ e. omega (arith, e)) paid_out_valid withdrawing.1 signature_of-paid_out
      (record {
        nonce = omega arith;
        low = omega (arith, ap Account.balance payer_funded);
        claimed = λ k. cc;
        credited = λ k. cc;
        receiver = λ k. cc;
      })

turn-pays_example :
    (c' : Fusion) × (turn scheme
        (prove paying.0)
        (l1_contract willing verifier unheard)
        1
        (record { mempool = []; state = funded })
        after.l1
        paid_out
      ≡ some (record { mempool = []; state = withdrawing.0 }, c'))
    × (root scheme withdrawing.0 ≡ some c'.root)
    × (c'.balance + 4 ≡ after.l1.balance)
    × (c'.sent 0 ≡ after.l1.sent 0 + 4)
    × ((get withdrawing.0 2).balance + 4 ≡ (get funded 2).balance)
turn-pays_example =
    turn-pays scheme_text scheme_pairs willing verifier keys unheard (prove paying.0) after
      withdrawing.0 paid_out paying.0 tt 2 1
      (Reach-IsBacked scheme_text scheme_pairs willing verifier keys after after_reached)
      address_of-256 address_of-0 (λ e. omega (arith, e)) sender-IsOnce paid_out_valid withdrawing.1
      paying.1 refl refl refl (omega arith) refl
