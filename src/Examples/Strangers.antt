-- ===== src/Examples/Strangers.antt =====
-- The theorems on what the circuit leaves open and on the sizes of its input, at the example's states.
use fusion_zksnark_circle.Base.{ℕ, ◌<◌, ◌≡◌, refl, true, some, List, ite, ℕ_discrete, arith}
use fusion_zksnark_circle.Base.Bytes.{AreBytes}
use mathlib.Core.List.{reverse}
use fusion_zksnark_circle.Types.External.{BjjPoint}
use fusion_zksnark_circle.Prover.Poseidon.{pair}
use fusion_zksnark_circle.Prover.State.{State, new_account, get, root, update}
use fusion_zksnark_circle.Prover.Laws.{IsSound, update-get}
use fusion_zksnark_circle.Prover.CircuitInput.{CircuitInput, new_input}
use fusion_zksnark_circle.Sequencer.Validity.{FitsAt, IsWellFormed, apply_tx-IsWellFormed}
use fusion_zksnark_circle.Circuits.MerkleTree.{main}
use fusion_zksnark_circle.Circuits.Accepts.{main-new_input}
use fusion_zksnark_circle.Circuits.Gaps.{main-other_accounts}
use fusion_zksnark_circle.Rollup.Sizes.{HasSizes, new_input-HasSizes}
use fusion_zksnark_circle.Rollup.Following.{Recompresses}
use fusion_zksnark_circle.Examples.Scheme.{
  Residue, scheme, scheme_text, scheme_pairs, pair_nonzero, compress_point, last_two, canonical,
  reduce-canonical, r0, r1, r2,
}
use fusion_zksnark_circle.Examples.Accounts.{
  canonical-small, moved-IsElementary, moved, funded, funded-IsWellFormed, address_of-256,
  address_of-0, signed, signature_of-moved, moved_valid, transferring,
}
use fusion_zksnark_circle.Examples.Keys.{AreBytes-zeros}

transferred-IsWellFormed : IsWellFormed scheme_text scheme_pairs transferring.0
transferred-IsWellFormed =
    apply_tx-IsWellFormed scheme_text scheme_pairs funded transferring.0 moved.tx
      funded-IsWellFormed transferring.1

-- A stranger, whom the transfer does not name, has a thousand.
abbrev enriched :
    (u : State) × (update scheme transferring.0 3 (new_account 3 1000 0) ≡ some u)
    × IsSound scheme_text scheme_pairs u
    × ((j : ℕ) → get u j ≡ ite (ℕ_discrete j 3) (new_account 3 1000 0) (get transferring.0 j))
enriched =
    update-get scheme_text scheme_pairs transferring.0 3 (new_account 3 1000 0) (omega arith)
      transferred-IsWellFormed.sound

enriched-FitsAt : (j : ℕ) → FitsAt j (get enriched.0 j)
enriched-FitsAt j = ground (arith, enriched.3 j, transferred-IsWellFormed.fits j)

enriched-IsWellFormed : IsWellFormed scheme_text scheme_pairs enriched.0
enriched-IsWellFormed = record { sound = enriched.2; fits = enriched-FitsAt }

enriched_else :
    (get enriched.0 2 ≡ get transferring.0 2) × (get enriched.0 1 ≡ get transferring.0 1)
unfolding ℕ_discrete
enriched_else = (enriched.3 2, enriched.3 1)

main-other_accounts_example :
    (honest : CircuitInput) × (r : ℕ) × (path : List ℕ × List ℕ) × (new_input scheme moved funded
        transferring.0
      ≡ some honest)
    × (root scheme enriched.0 ≡ some r)
    × (main (pair scheme_text scheme_pairs) 101 (record honest { post_root = r; post_path = path })
        ≡ true)
main-other_accounts_example =
    main-other_accounts scheme_text scheme_pairs canonical-small pair_nonzero (omega arith) funded
      transferring.0 enriched.0 moved 2 1 signed funded-IsWellFormed enriched-IsWellFormed
      address_of-256 address_of-0 (λ e. omega (arith, e)) moved_valid transferring.1
      signature_of-moved enriched_else.0 (λ k. enriched_else.1) moved-IsElementary

pub canonical-byte : (f : Residue) → canonical f < 256
unfolding canonical
canonical-byte r0 = omega arith
canonical-byte r1 = omega arith
canonical-byte r2 = omega arith

pub point-AreBytes : (p : BjjPoint Residue) → AreBytes 32 (reverse (compress_point p))
unfolding compress_point
point-AreBytes p = (canonical-byte p.y, (canonical-byte p.x, AreBytes-zeros 30))

pub last_two-compress_point : (p : BjjPoint Residue) → last_two (compress_point p) ≡ some p
unfolding last_two compress_point
last_two-compress_point p = rw (reduce-canonical p.x, reduce-canonical p.y) refl

abbrev pub points : Recompresses scheme
points = record { bytes = λ l p e. point-AreBytes p; back = λ l p e. last_two-compress_point p }

abbrev pub block_input :
    (input : CircuitInput) × (new_input scheme moved funded transferring.0 ≡ some input)
    × (main (pair scheme_text scheme_pairs) 101 input ≡ true)
block_input =
    main-new_input scheme_text scheme_pairs canonical-small pair_nonzero (omega arith) funded
      transferring.0 moved 2 1 signed funded-IsWellFormed address_of-256 address_of-0
      (λ e. omega (arith, e)) moved_valid transferring.1 signature_of-moved moved-IsElementary

new_input-HasSizes_example : HasSizes block_input.0
new_input-HasSizes_example =
    new_input-HasSizes scheme_text moved funded transferring.0 block_input.0 block_input.1
