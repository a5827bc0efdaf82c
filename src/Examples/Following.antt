-- ===== src/Examples/Following.antt =====
-- The theorem on following the sequencer, in the small scheme, whose field has three elements: the key
-- 256 transfers two.
use fusion_zksnark_circle.Base.{
  ℕ, inl, inr, ◌-◌, ◌+◌, ◌≡◌, refl, ap, ite, true, some, List, [], ◌∷◌, map, ok, ℕ_discrete, arith,
}
use fusion_zksnark_circle.Base.Bytes.{to_big_endian, to_little_endian}
use fusion_zksnark_circle.Types.Field.{fr_to_u256, to_fr, big_int_to_u256}
use fusion_zksnark_circle.Types.PublicKey.{
  u256_to_babyjubjub_point, from_babyjubjub_point, public_key_to_fr, point_from_babyjubjub_point,
}
use fusion_zksnark_circle.Types.Signature.{to_babyjubjub_signature, u512_to_babyjubjub_signature}
use fusion_zksnark_circle.Wallet
use fusion_zksnark_circle.Api.{
  Tx, TxKind, SignedTx, transfer, deposit, withdraw, kind_to_u256, hash_tx,
}
use fusion_zksnark_circle.Prover.Poseidon.{pair}
use fusion_zksnark_circle.Prover.State.{Account, State, new_account, get}
use fusion_zksnark_circle.Prover.CircuitInput.{CircuitInput, signature_of, new_input}
use fusion_zksnark_circle.Sequencer.Transactions.{verify_tx_signature, validate_tx, apply_tx}
use fusion_zksnark_circle.Sequencer.Transfers.{apply_tx-transfer}
use fusion_zksnark_circle.Sequencer.Replay.{validate_tx-IsAdmissible}
use fusion_zksnark_circle.Sequencer.Loop.{
  Request, make_block, valid_txs, states_from, requests, last_state,
}
use fusion_zksnark_circle.Sequencer.Observer.{fusion_txs, replay}
use fusion_zksnark_circle.Circuits.MerkleTree.{main}
use fusion_zksnark_circle.Circuits.Accepts.{main-new_input}
use fusion_zksnark_circle.Rollup.Following.{
  inputs_of, IsElement, listed, AllElementary, replay-make_block,
}
use fusion_zksnark_circle.EndToEnd.Follow.{follow}
use fusion_zksnark_circle.EndToEnd.Followed.{Event, inputs_sent, blocks_of, follow-make_block}
use fusion_zksnark_circle.Examples.Scheme.{
  scheme, scheme_text, scheme_pairs, pair_nonzero, canonical, reduce, write, read, last_two,
  hash_all, decompress_signature, is_signature,
}
use fusion_zksnark_circle.Examples.Accounts.{
  tx_of, payer_funded, payee_empty, funded, funded-IsWellFormed, address_of-256, address_of-0,
  signed, canonical-small,
}
use fusion_zksnark_circle.Examples.Strangers.{points}

abbrev given : SignedTx
given = tx_of transfer 256 0 2 2

given_verified : verify_tx_signature scheme given ≡ some (ok tt)
unfolding verify_tx_signature Wallet.verify_tx_signature u256_to_babyjubjub_point last_two
    to_big_endian to_babyjubjub_signature read u512_to_babyjubjub_signature decompress_signature
    hash_tx from_babyjubjub_point fr_to_u256 to_fr public_key_to_fr hash_all is_signature write
given_verified = refl

given_valid : validate_tx scheme funded given ≡ some (ok tt)
given_valid = (validate_tx-IsAdmissible scheme funded given).1 (
  2,
  given_verified,
  address_of-256,
  record {
    not_to_self = λ k e. omega (arith, e);
    covered = λ k. omega (arith, ap Account.balance payer_funded);
    fresh = omega (arith, ap Account.nonce payer_funded);
  },
)

abbrev giving :
    (s' : State) × (apply_tx scheme funded given.tx ≡ some s')
    × ((j : ℕ)
        → get s' j
          ≡ ite
              (ℕ_discrete j 1)
              (new_account 1 ((get funded 1).balance + 2) (get funded 1).nonce)
              (ite (ℕ_discrete j 2) (new_account 2 ((get funded 2).balance - 2) 2) (get funded j)))
giving =
    apply_tx-transfer scheme_text scheme_pairs funded given.tx 2 1 funded-IsWellFormed
      address_of-256 address_of-0 refl (omega (arith, ap Account.balance payer_funded))
      (omega (arith, ap Account.balance payee_empty))

abbrev asked : Request
asked = record { tx = given; pre_state = funded; post_state = giving.0 }

block_of_asked : make_block scheme funded (given ∷ []) ≡ some (asked ∷ [], giving.0)
unfolding make_block valid_txs states_from requests last_state
block_of_asked = rw (given_valid, giving.1)

signature_of-given : signature_of scheme given ≡ some signed
unfolding signature_of to_babyjubjub_signature u512_to_babyjubjub_signature decompress_signature
    to_little_endian point_from_babyjubjub_point big_int_to_u256 fr_to_u256 read write canonical
signature_of-given = refl

abbrev given_input :
    (input : CircuitInput) × (new_input scheme given funded giving.0 ≡ some input)
    × (main (pair scheme_text scheme_pairs) 101 input ≡ true)
given_input =
    main-new_input scheme_text scheme_pairs canonical-small pair_nonzero (omega arith) funded
      giving.0 given 2 1 signed funded-IsWellFormed address_of-256 address_of-0
      (λ e. omega (arith, e)) given_valid giving.1 signature_of-given
      (record {
        nonce = omega arith;
        low = omega (arith, ap Account.balance payer_funded);
        claimed = λ k. cc;
        credited = λ k. omega (arith, ap Account.balance payee_empty);
        receiver = λ k. omega (arith, ap Account.nonce payee_empty);
      })

inputs_of-asked : inputs_of scheme (asked ∷ []) ≡ some (given_input.0 ∷ [])
unfolding inputs_of
inputs_of-asked = rw given_input.1 refl

kinds : (k : TxKind) → IsElement scheme_text (kind_to_u256 k)
unfolding canonical reduce kind_to_u256
kinds transfer = refl
kinds deposit = refl
kinds withdraw = refl

small_block : AllElementary scheme_text (asked ∷ [])
unfolding AllElementary canonical reduce
small_block = ((refl, refl), tt)

replay-make_block_example :
    (txs : List Tx) × (fusion_txs scheme (map (listed scheme_text) (given_input.0 ∷ [])) ≡ some txs)
    × (replay scheme funded txs ≡ some giving.0)
replay-make_block_example =
    replay-make_block scheme_text points kinds funded giving.0 (given ∷ []) (asked ∷ [])
      (given_input.0 ∷ []) block_of_asked small_block inputs_of-asked

-- A payment for the address 2 is mined before the proof.
abbrev events : List (Event (Unit {0}))
events = inl 2 ∷ inr (given_input.0, tt) ∷ []

follow-make_block_example :
    follow scheme 7 1 funded (blocks_of scheme_text 7 events) ≡ some giving.0
unfolding inputs_sent
follow-make_block_example =
    follow-make_block scheme_text points kinds 7 funded giving.0 (given ∷ []) (asked ∷ []) events
      block_of_asked small_block inputs_of-asked
