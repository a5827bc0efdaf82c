-- ===== src/Examples/Accounts.antt =====
-- The theorems on the state, the sequencer and the state circuit, in the small scheme: a deposit of
-- ten by the key 256, whose address is 2, a transfer of six to the key 0, whose address is 1.
use fusion_zksnark_circle.Base.{
  ℕ, ◌-◌, ◌+◌, ◌<◌, ◌≡◌, inl, refl, sym, ◌∙◌, ap, ite, some, ok, ℕ_discrete, arith,
}
use fusion_zksnark_circle.Base.BTreeMap
use fusion_zksnark_circle.Types.PublicKey.{
  from_u256, address, u256_to_babyjubjub_point, from_babyjubjub_point, public_key_to_fr,
  point_from_babyjubjub_point,
}
use fusion_zksnark_circle.Types.Field.{fr_to_u256, to_fr, big_int_to_u256}
use fusion_zksnark_circle.Types.Signature.{to_babyjubjub_signature, u512_to_babyjubjub_signature}
use fusion_zksnark_circle.Wallet
use fusion_zksnark_circle.Base.Bytes.{to_big_endian, to_little_endian}
use fusion_zksnark_circle.Merkle.Tree
use fusion_zksnark_circle.Api.{TxKind, transfer, deposit, SignedTx, hash_tx}
use fusion_zksnark_circle.Prover.State.{Account, new_account, State, default_state, get}
use fusion_zksnark_circle.Prover.CircuitInput.{CircuitTxSignature, signature_of}
use fusion_zksnark_circle.Sequencer.Transactions.{
  address_of, verify_tx_signature, validate_tx, apply_tx,
}
use fusion_zksnark_circle.Sequencer.Validity.{
  IsWellFormed, default_state-IsWellFormed, apply_tx-IsWellFormed,
}
use fusion_zksnark_circle.Sequencer.Transfers.{apply_tx-transfer, apply_tx-boundary}
use fusion_zksnark_circle.Sequencer.Replay.{IsAdmissible, validate_tx-IsAdmissible}
use fusion_zksnark_circle.Circuits.Given.{IsElementary}
use fusion_zksnark_circle.Examples.Scheme.{
  Residue, r0, r1, r2, scheme, scheme_text, scheme_pairs, write, read, last_two, hash_all,
  canonical, decompress_signature, is_signature,
}

abbrev pub tx_of : TxKind → ℕ → ℕ → ℕ → ℕ → SignedTx
tx_of kind sender to nonce value = record {
  tx = record { kind = kind; sender = sender; to = to; nonce = nonce; value = value };
  signature = write 7;
}

abbrev pub paid_in : SignedTx
paid_in = tx_of deposit 256 0 1 10

abbrev pub moved : SignedTx
moved = tx_of transfer 256 0 2 6

pub address_of-256 : address_of scheme 256 ≡ some 2
unfolding address_of from_u256 address u256_to_babyjubjub_point last_two to_big_endian
    from_babyjubjub_point fr_to_u256 read public_key_to_fr to_fr hash_all write canonical
address_of-256 = refl

pub address_of-0 : address_of scheme 0 ≡ some 1
unfolding address_of from_u256 address u256_to_babyjubjub_point last_two to_big_endian
    from_babyjubjub_point fr_to_u256 read public_key_to_fr to_fr hash_all write canonical
address_of-0 = refl

abbrev pub fresh : IsWellFormed scheme_text scheme_pairs default_state
fresh = default_state-IsWellFormed scheme_text scheme_pairs

pub nothing_yet : (k : ℕ) → get default_state k ≡ new_account k 0 0
unfolding get Tree.get BTreeMap.get
nothing_yet k = refl

abbrev pub funding :
    (s' : State) × (apply_tx scheme default_state paid_in.tx ≡ some s')
    × ((j : ℕ) → get s' j ≡ ite (ℕ_discrete j 2) (new_account 2 10 1) (get default_state j))
funding =
    apply_tx-boundary scheme_text scheme_pairs default_state paid_in.tx 2 1 fresh address_of-256
      address_of-0 10 (λ e. omega (arith, e))
      (inl (refl, ap (λ a. a.balance + 10) (sym (nothing_yet 2)), omega arith))

abbrev pub funded : State
funded = funding.0

abbrev pub funded-IsWellFormed : IsWellFormed scheme_text scheme_pairs funded
funded-IsWellFormed =
    apply_tx-IsWellFormed scheme_text scheme_pairs default_state funded paid_in.tx fresh funding.1

pub payee_empty : get funded 1 ≡ new_account 1 0 0
unfolding ℕ_discrete
payee_empty = funding.2 1 ∙ nothing_yet 1

pub payer_funded : get funded 2 ≡ new_account 2 10 1
unfolding ℕ_discrete
payer_funded = funding.2 2

abbrev pub signed : CircuitTxSignature
signed = record { r = record { x = 0; y = 0 }; s = 7 }

pub signature_of-moved : signature_of scheme moved ≡ some signed
unfolding signature_of to_babyjubjub_signature u512_to_babyjubjub_signature decompress_signature
    to_little_endian point_from_babyjubjub_point big_int_to_u256 fr_to_u256 read write canonical
signature_of-moved = refl

pub moved_verified : verify_tx_signature scheme moved ≡ some (ok tt)
unfolding verify_tx_signature Wallet.verify_tx_signature u256_to_babyjubjub_point last_two
    to_big_endian to_babyjubjub_signature read u512_to_babyjubjub_signature decompress_signature
    hash_tx from_babyjubjub_point fr_to_u256 to_fr public_key_to_fr hash_all is_signature write
moved_verified = refl

pub moved-IsAdmissible : IsAdmissible (get funded 2) moved.tx
moved-IsAdmissible = record {
  not_to_self = λ k e. omega (arith, e);
  covered = λ k. omega (arith, ap Account.balance payer_funded);
  fresh = omega (arith, ap Account.nonce payer_funded);
}

pub moved_valid : validate_tx scheme funded moved ≡ some (ok tt)
moved_valid =
    (validate_tx-IsAdmissible scheme funded moved).1
      (2, moved_verified, address_of-256, moved-IsAdmissible)

abbrev pub transferring :
    (s' : State) × (apply_tx scheme funded moved.tx ≡ some s')
    × ((j : ℕ)
        → get s' j
          ≡ ite
              (ℕ_discrete j 1)
              (new_account 1 ((get funded 1).balance + 6) (get funded 1).nonce)
              (ite (ℕ_discrete j 2) (new_account 2 ((get funded 2).balance - 6) 2) (get funded j)))
transferring =
    apply_tx-transfer scheme_text scheme_pairs funded moved.tx 2 1 funded-IsWellFormed
      address_of-256 address_of-0 refl (omega (arith, ap Account.balance payer_funded))
      (omega (arith, ap Account.balance payee_empty))

pub canonical-small : (f : Residue) → canonical f < 101
unfolding canonical
canonical-small r0 = omega arith
canonical-small r1 = omega arith
canonical-small r2 = omega arith

pub moved-IsElementary : IsElementary 101 funded moved 2 1
moved-IsElementary = record {
  nonce = omega arith;
  low = omega (arith, ap Account.balance payer_funded);
  claimed = λ k. cc;
  credited = λ k. omega (arith, ap Account.balance payee_empty);
  receiver = λ k. omega (arith, ap Account.nonce payee_empty);
}
