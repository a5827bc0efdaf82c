-- ===== src/Examples/Turning.antt =====
-- The theorems on the loop with the contract, at the example's deposit: ten were paid in, or nothing.
use fusion_zksnark_circle.Base.{◌≡◌, ◌≢◌, refl, ap, Option, some, [], ◌∷◌, Result, ok, arith}
use fusion_zksnark_circle.Api.{SignedTx}
use fusion_zksnark_circle.Prover.State.{Account, State, default_state, root}
use fusion_zksnark_circle.Prover.Roots.{root-nonzero}
use fusion_zksnark_circle.Sequencer.Loop.{turn}
use fusion_zksnark_circle.Circuits.Fusion.{public_inputs}
use fusion_zksnark_circle.L1.Reply.{Error, revert, invalid_pre_root}
use fusion_zksnark_circle.L1.Fusion.{Fusion, TxProof, created, submit_block}
use fusion_zksnark_circle.Rollup.System.{deployed, IsBacked}
use fusion_zksnark_circle.Rollup.Inputs.{new_input-Describes}
use fusion_zksnark_circle.Rollup.Backing.{deployed-IsBacked}
use fusion_zksnark_circle.Rollup.Turning.{l1_contract, turn-IsBacked, turn-unclaimed}
use fusion_zksnark_circle.Examples.Scheme.{scheme, scheme_text, scheme_pairs, pair_nonzero}
use fusion_zksnark_circle.Examples.Accounts.{
  paid_in, funded, funding, funded-IsWellFormed, payer_funded, address_of-256, address_of-0,
}
use fusion_zksnark_circle.Examples.Layers.{
  keys, willing, verifier, holding, before, claiming, before-IsBacked, sender-IsOnce,
  recipient-IsOnce, available, paid_in_valid,
}

-- A client that hears of no revert.
abbrev unheard : Error → Fusion → Option Fusion
unheard e c = some c

abbrev proof : TxProof (Unit {0})
proof = record { proof = tt; input = public_inputs claiming.0 }

abbrev prove : SignedTx → State → State → Option (Result (TxProof (Unit {0})))
prove tx s s' = some (ok proof)

turn-IsBacked_example :
    (c' : Fusion) × (turn scheme prove
        (l1_contract willing verifier unheard)
        1
        (record { mempool = []; state = default_state })
        holding
        paid_in
      ≡ some (record { mempool = []; state = funded }, c'))
    × IsBacked scheme_text scheme_pairs keys (record { l1 = c'; l2 = funded })
turn-IsBacked_example =
    turn-IsBacked scheme_text scheme_pairs willing verifier keys unheard prove before funded paid_in
      claiming.0 tt 2 1 before-IsBacked address_of-256 address_of-0 (λ e. omega (arith, e))
      sender-IsOnce recipient-IsOnce paid_in_valid funding.1 claiming.1 refl refl (λ k. available)
      (λ k. cc) (λ k. cc)

claimed_root : claiming.0.post_root ≢ 0
claimed_root =
    root-nonzero scheme_text scheme_pairs pair_nonzero funded 2 claiming.0.post_root
      funded-IsWellFormed.sound (omega arith)
      (λ e. omega (arith, ap Account.balance payer_funded, e))
      (new_input-Describes scheme paid_in default_state funded claiming.0 2 1 address_of-256
        address_of-0 claiming.1).post_root

turn-unclaimed_example :
    (turn scheme prove
        (l1_contract willing verifier unheard)
        1
        (record { mempool = []; state = default_state })
        created
        paid_in
      ≡ some (record { mempool = []; state = funded }, created))
    × (root scheme funded ≡ some claiming.0.post_root)
    × (submit_block willing verifier created
          (record { proof = tt; input = claiming.0.post_root ∷ [] })
        ≡ revert invalid_pre_root)
turn-unclaimed_example =
    turn-unclaimed scheme_text scheme_pairs willing verifier keys unheard prove deployed funded
      paid_in claiming.0 tt 2 1 (record { proof = tt; input = claiming.0.post_root ∷ [] })
      (λ e c. refl) (deployed-IsBacked scheme_text scheme_pairs willing verifier keys)
      address_of-256 address_of-0 refl (omega arith) paid_in_valid funding.1 claiming.1 refl
      claimed_root refl
