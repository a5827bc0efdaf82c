-- ===== src/Examples/Whole.antt =====
-- The theorems on the whole circuit, in the small scheme and over the small monoid of points.
use fusion_zksnark_circle.Base.{ℕ, ◌*◌, ◌≡◌, ◌≢◌, refl, Bool, some, List, [], ◌∷◌, arith}
use fusion_zksnark_circle.Base.Bytes.{to_big_endian}
use fusion_zksnark_circle.Types.External.{PoseidonLists, PoseidonPairs}
use fusion_zksnark_circle.Types.PublicKey.{
  from_u256, u256_to_babyjubjub_point, from_babyjubjub_point, public_key_to_fr,
}
use fusion_zksnark_circle.Types.Field.{to_fr, fr_to_u256}
use fusion_zksnark_circle.Api.{hash_tx, kind_to_u256}
use fusion_zksnark_circle.Prover.Poseidon.{pair}
use fusion_zksnark_circle.Prover.State.{default_state}
use fusion_zksnark_circle.Prover.CircuitInput.{CircuitInput, new_input}
use fusion_zksnark_circle.Sequencer.Validity.{
  IsWellFormed, default_state-IsWellFormed, apply_tx-IsWellFormed,
}
use fusion_zksnark_circle.Circuits.Signature.{base}
use fusion_zksnark_circle.Circuits.Scalar.{times}
use fusion_zksnark_circle.Circuits.Fusion.{main}
use fusion_zksnark_circle.Circuits.Whole.{words_hash, pairs_of, main-equation}
use fusion_zksnark_circle.Examples.Scheme.{
  Residue, r0, scheme, scheme_text, scheme_pairs, pair_nonzero, residue_hash, hash_all, canonical,
  reduce, last_two, read, write,
}
use fusion_zksnark_circle.Examples.Accounts.{
  paid_in, moved, funded, funding, address_of-256, address_of-0, signed, signature_of-moved,
  moved_valid, transferring, moved-IsElementary, canonical-small,
}
use fusion_zksnark_circle.Examples.Curve.{add, everywhere, curve, unpacks, unpacking}

unfoldable list_hash : List Residue → Residue
unfolding residue_hash
list_hash [] = r0
list_hash (a ∷ []) = a
list_hash (a ∷ b ∷ rest) = residue_hash a b

hash_all-list_hash :
    (f : Residue) (fs : List Residue) → hash_all (f ∷ fs) ≡ some (list_hash (f ∷ fs))
unfolding hash_all list_hash
hash_all-list_hash f [] = refl
hash_all-list_hash f (g ∷ fs) = refl

abbrev lists : PoseidonLists scheme
lists = record { list_hash = list_hash; hash_list = λ f fs short. hash_all-list_hash f fs }

abbrev pairs : PoseidonPairs scheme
pairs = pairs_of scheme_text lists

nonzero : (a b : ℕ) → pair scheme_text pairs a b ≢ 0
unfolding pair scheme_pairs list_hash
nonzero a b = pair_nonzero a b

funded-IsWellFormed : IsWellFormed scheme_text pairs funded
funded-IsWellFormed =
    apply_tx-IsWellFormed scheme_text pairs default_state funded paid_in.tx
      (default_state-IsWellFormed scheme_text pairs) funding.1

sender_key : from_u256 scheme 256 ≡ some (record { point = record { x = 1; y = 0 } })
unfolding from_u256 u256_to_babyjubjub_point last_two to_big_endian from_babyjubjub_point fr_to_u256
    read write canonical
sender_key = refl

to_key : from_u256 scheme 0 ≡ some (record { point = record { x = 0; y = 0 } })
unfolding from_u256 u256_to_babyjubjub_point last_two to_big_endian from_babyjubjub_point fr_to_u256
    read write canonical
to_key = refl

moved_hash : hash_tx scheme moved.tx ≡ some 1
unfolding hash_tx u256_to_babyjubjub_point last_two to_big_endian from_babyjubjub_point fr_to_u256
    read to_fr public_key_to_fr hash_all write canonical kind_to_u256
moved_hash = refl

balanced :
    times add 7 base
    ≡ add
        (record { x = 0; y = 0 })
        (times add
          (8 * words_hash scheme_text lists (0 ∷ 0 ∷ 1 ∷ 0 ∷ 1 ∷ []))
          (record { x = 1; y = 0 }))
unfolding times add words_hash list_hash canonical reduce
balanced = refl

main-equation_example :
    (i : CircuitInput) × (new_input scheme moved funded transferring.0 ≡ some i)
    × ((hm_bits s_bits : List Bool) × (main 101 add everywhere everywhere
            (words_hash scheme_text lists)
            unpacks
            hm_bits
            s_bits
            i
          ≡ some tt))
main-equation_example =
    main-equation scheme_text lists canonical-small nonzero curve everywhere unpacking (omega arith)
      funded transferring.0 moved 2 1 signed (record { x = 1; y = 0 }) 1 funded-IsWellFormed
      address_of-256 address_of-0 (λ e. omega (arith, e)) moved_valid transferring.1
      signature_of-moved moved-IsElementary sender_key moved_hash refl refl refl refl (omega arith)
      balanced
