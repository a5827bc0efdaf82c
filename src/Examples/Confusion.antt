-- ===== src/Examples/Confusion.antt =====
-- The theorem on confused roots, in the small scheme.
use fusion_zksnark_circle.Base.{ℕ, ◌≡◌, ◌^◌, some, arith}
use fusion_zksnark_circle.Prover.State.{State, new_account, default_state, get, root, update}
use fusion_zksnark_circle.Prover.Confusion.{leaf_of, forged, update-one_root}
use fusion_zksnark_circle.Examples.Scheme.{scheme, scheme_text, scheme_pairs, pair_nonzero}

update-one_root_example :
    (s₁ s t : State) × (r : ℕ) × (update scheme default_state 1 (new_account 1 5 1) ≡ some s₁)
    × (update scheme s₁ (2 ^ 255) (new_account (2 ^ 255) 6 1) ≡ some s)
    × (update scheme default_state (leaf_of scheme_text scheme_pairs 1 (new_account 1 5 1)) (
          forged scheme_text scheme_pairs 1
            (new_account 1 5 1)
            (2 ^ 255)
            (new_account (2 ^ 255) 6 1))
        ≡ some t)
    × (root scheme s ≡ some r)
    × (root scheme t ≡ some r)
    × ((get t (leaf_of scheme_text scheme_pairs 1 (new_account 1 5 1))).balance ≡ 2 ^ 255)
update-one_root_example =
    update-one_root scheme_text scheme_pairs pair_nonzero 1 (2 ^ 255) (new_account 1 5 1)
      (new_account (2 ^ 255) 6 1) (omega arith) (omega arith) (omega arith) (λ e. omega (arith, e))
      (λ e. omega (arith, e))
