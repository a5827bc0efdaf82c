-- ===== src/Examples/Layers.antt =====
-- The theorems on the two layers at the example's states: ten are paid in for the address 2, and
-- claimed by the block of the deposit.
use fusion_zksnark_circle.Base.{
  ℕ, ◌≤◌, ◌≡◌, ◌↔◌, refl, ap, inl, inr, Bool, true, Option, some, List, [], ◌∷◌, ok, ℕ_discrete,
  arith,
}
use fusion_zksnark_circle.Types.Field.{fr_to_u256, big_int_to_u256}
use fusion_zksnark_circle.Base.Bytes.{to_big_endian, to_little_endian}
use fusion_zksnark_circle.Types.PublicKey.{
  u256_to_babyjubjub_point, from_babyjubjub_point, public_key_to_fr, point_from_babyjubjub_point,
}
use fusion_zksnark_circle.Types.Field.{to_fr}
use fusion_zksnark_circle.Types.Signature.{to_babyjubjub_signature, u512_to_babyjubjub_signature}
use fusion_zksnark_circle.Wallet
use fusion_zksnark_circle.Api.{hash_tx}
use fusion_zksnark_circle.Prover.State.{Account, default_state, get, root}
use fusion_zksnark_circle.Prover.CircuitInput.{CircuitInput, signature_of, new_input}
use fusion_zksnark_circle.Sequencer.Transactions.{verify_tx_signature, validate_tx}
use fusion_zksnark_circle.Sequencer.Replay.{IsAdmissible, validate_tx-IsAdmissible}
use fusion_zksnark_circle.Sequencer.Supply.{IsOnce}
use fusion_zksnark_circle.Circuits.Accepts.{main-new_input}
use fusion_zksnark_circle.Circuits.MerkleTree.{main}
use fusion_zksnark_circle.Circuits.Fusion.{public_inputs}
use fusion_zksnark_circle.Prover.Poseidon.{pair}
use fusion_zksnark_circle.L1.Reply.{done}
use fusion_zksnark_circle.L1.Fusion
use fusion_zksnark_circle.L1.Fusion.{Fusion, created, write, submit_block}
use fusion_zksnark_circle.L1.Steps.{Accepted, submit_block-Accepted}
use fusion_zksnark_circle.Rollup.System.{
  System, deployed, Reach, here, next, paid_in as paying, block, IsBacked,
}
use fusion_zksnark_circle.Rollup.Backing.{Reach-IsBacked}
use fusion_zksnark_circle.Rollup.Payouts.{submit_block-new_input}
use fusion_zksnark_circle.Examples.Scheme.{
  scheme, scheme_text, scheme_pairs, pair_nonzero, write as write_text, read, last_two, hash_all,
  canonical, decompress_signature, is_signature,
}
use fusion_zksnark_circle.Examples.Accounts.{
  canonical-small, paid_in, nothing_yet, fresh, funded, funding, address_of-256, address_of-0,
  signed,
}

abbrev pub keys : List ℕ
keys = 1 ∷ 2 ∷ 3 ∷ []

abbrev pub willing : ℕ → Bool
willing a = true

abbrev pub verifier : List ℕ → Unit {0} → Option ℕ
verifier input p = some 0

pub sender-IsOnce : IsOnce 2 keys
sender-IsOnce = inr (λ e. omega (arith, e), inl (refl, (λ e. omega (arith, e), tt)))

pub recipient-IsOnce : IsOnce 1 keys
recipient-IsOnce = inl (refl, (λ e. omega (arith, e), (λ e. omega (arith, e), tt)))

abbrev pub holding : Fusion
holding = record created { deposits = write created.deposits 2 10; balance = 10 }

abbrev pub before : System
before = record { l1 = holding; l2 = default_state }

ten_paid : Fusion.deposit created 10 2 ≡ done holding
unfolding Fusion.deposit
ten_paid = refl

before_reached : Reach scheme willing verifier keys deployed before
before_reached = next here (paying 10 2 sender-IsOnce ten_paid refl)

pub before-IsBacked : IsBacked scheme_text scheme_pairs keys before
before-IsBacked =
    Reach-IsBacked scheme_text scheme_pairs willing verifier keys before before_reached

pub signature_of-paid_in : signature_of scheme paid_in ≡ some signed
unfolding signature_of to_babyjubjub_signature u512_to_babyjubjub_signature decompress_signature
    to_little_endian point_from_babyjubjub_point big_int_to_u256 fr_to_u256 read write_text
    canonical
signature_of-paid_in = refl

paid_in_verified : verify_tx_signature scheme paid_in ≡ some (ok tt)
unfolding verify_tx_signature Wallet.verify_tx_signature u256_to_babyjubjub_point last_two
    to_big_endian to_babyjubjub_signature read u512_to_babyjubjub_signature decompress_signature
    hash_tx from_babyjubjub_point fr_to_u256 to_fr public_key_to_fr hash_all is_signature write_text
paid_in_verified = refl

paid_in-IsAdmissible : IsAdmissible (get default_state 2) paid_in.tx
paid_in-IsAdmissible = record {
  not_to_self = λ k e. omega (arith, e);
  covered = λ k. absurd (k refl);
  fresh = omega (arith, ap Account.nonce (nothing_yet 2));
}

pub paid_in_valid : validate_tx scheme default_state paid_in ≡ some (ok tt)
paid_in_valid =
    (validate_tx-IsAdmissible scheme default_state paid_in).1
      (2, paid_in_verified, address_of-256, paid_in-IsAdmissible)

abbrev pub claiming :
    (input : CircuitInput) × (new_input scheme paid_in default_state funded ≡ some input)
    × (main (pair scheme_text scheme_pairs) 101 input ≡ true)
claiming =
    main-new_input scheme_text scheme_pairs canonical-small pair_nonzero (omega arith) default_state
      funded paid_in 2 1 signed fresh address_of-256 address_of-0 (λ e. omega (arith, e))
      paid_in_valid funding.1 signature_of-paid_in
      (record {
        nonce = omega arith;
        low = omega (arith, ap Account.balance (nothing_yet 2));
        claimed = λ k. omega (arith, ap Account.balance (nothing_yet 2));
        credited = λ k. cc;
        receiver = λ k. cc;
      })

pub available : 10 ≤ holding.deposits 2
unfolding ℕ_discrete
available = omega arith

abbrev pub claimed_block :
    (c' : Fusion) × (submit_block willing verifier holding
        (record { proof = tt; input = public_inputs claiming.0 })
      ≡ done c')
    × (root scheme funded ≡ some c'.root)
claimed_block =
    submit_block-new_input scheme_text scheme_pairs willing verifier keys before funded paid_in
      claiming.0 tt 2 1 before-IsBacked address_of-256 address_of-0 sender-IsOnce funding.1
      claiming.1 refl (λ k. available) (λ k. cc) (λ k. cc)

abbrev pub after : System
after = record { l1 = claimed_block.0; l2 = funded }

pub after_reached : Reach scheme willing verifier keys deployed after
after_reached = next before_reached (
    block paid_in claiming.0 tt 2 1 address_of-256 address_of-0 (λ e. omega (arith, e))
      sender-IsOnce recipient-IsOnce funding.1 claiming.1 claimed_block.1)

submit_block-Accepted_example :
    (submit_block willing verifier holding (record { proof = tt; input = public_inputs claiming.0 })
      ≡ done claimed_block.0)
    ↔ Accepted willing verifier holding
        (record { proof = tt; input = public_inputs claiming.0 })
        claimed_block.0
submit_block-Accepted_example =
    submit_block-Accepted willing verifier holding
      (record { proof = tt; input = public_inputs claiming.0 }) claimed_block.0
      before-IsBacked.words
