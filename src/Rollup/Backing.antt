-- ===== src/Rollup/Backing.antt =====
-- Every step keeps the two layers in agreement.
use fusion_zksnark_circle.Base.{
  ℕ, ◌+◌, ◌-◌, ◌<◌, ◌≡◌, refl, sym, ap, subst, ◌∙◌, Bool, Option, some, List, [], ◌∷◌, not, ltb,
  ◌==◌, u256_size, arith,
}
use fusion_zksnark_circle.Types.External.{External, FieldText, PoseidonPairs}
use fusion_zksnark_circle.Api.{TxKind, transfer, deposit, withdraw, Tx, SignedTx, kind_to_u256}
use fusion_zksnark_circle.Base.BTreeMap
use fusion_zksnark_circle.Merkle.Tree
use fusion_zksnark_circle.Merkle.Sparse.{stored}
use fusion_zksnark_circle.Merkle.Operations.{root_hash-subtree, subtree-zero}
use fusion_zksnark_circle.Prover.Poseidon.{pair}
use fusion_zksnark_circle.Prover.Laws.{poseidon_total, default_state-IsSound}
use fusion_zksnark_circle.Prover.State.{Account, State, default_state, get, root}
use fusion_zksnark_circle.Prover.CircuitInput.{CircuitInput}
use fusion_zksnark_circle.Sequencer.Validity.{default_state-IsWellFormed, apply_tx-IsWellFormed}
use fusion_zksnark_circle.Sequencer.Supply.{
  sum_of, sum_of-once, supply, IsOnce, deposited, withdrawn, apply_tx-supply,
}
use fusion_zksnark_circle.Circuits.Fusion.{public_inputs}
use fusion_zksnark_circle.L1.Reply.{done, read, require-done, done_injective}
use fusion_zksnark_circle.L1.Fusion
use fusion_zksnark_circle.L1.Fusion.{Fusion, created, write, submit_block}
use fusion_zksnark_circle.L1.Steps.{HoldsWords, Effect, moved, claimed, paid, submit_block-Accepted}
use fusion_zksnark_circle.Rollup.Inputs.{Describes, new_input-Describes}
use fusion_zksnark_circle.Rollup.System.{
  System, deployed, Step, paid_in, block, Reach, here, next, IsBacked,
}

pub kind_of_code :
    (k : TxKind)
    → (kind_to_u256 k ≡ 0 → k ≡ transfer)
      × (kind_to_u256 k ≡ 1 → k ≡ deposit)
      × (kind_to_u256 k ≡ 2 → k ≡ withdraw)
unfolding kind_to_u256
kind_of_code transfer = (λ e. refl, λ e. absurd (omega (arith, e)), λ e. absurd (omega (arith, e)))
kind_of_code deposit = (λ e. absurd (omega (arith, e)), λ e. refl, λ e. absurd (omega (arith, e)))
kind_of_code withdraw = (λ e. absurd (omega (arith, e)), λ e. absurd (omega (arith, e)), λ e. refl)

-- Paying in adds to the deposits what it adds to the ether.
deposit-sum :
    (c c' : Fusion) (value recipient : ℕ) (keys : List ℕ)
    → HoldsWords c
    → IsOnce recipient keys
    → Fusion.deposit c value recipient ≡ done c'
    → HoldsWords c'
      × (c'.root ≡ c.root)
      × (c'.balance + sum_of c.deposits keys ≡ c.balance + sum_of c'.deposits keys)
unfolding Fusion.deposit
deposit-sum c c' value recipient keys words once e =
    let (t, e₁) = require-done (not (value == 0)) _ _ e in
    let (u, e₂) = require-done (ltb (c.deposits recipient + value) u256_size) _ _ e₁ in
    let small : c.deposits recipient + value < u256_size = ground arith in
    subst
      (λ (d : Fusion).
        HoldsWords d
        × (d.root ≡ c.root)
        × (d.balance + sum_of c.deposits keys ≡ c.balance + sum_of d.deposits keys))
      (done_injective e₂)
      (
        λ k. ground (arith, words k, small),
        refl,
        omega (
          arith,
          sum_of-once c.deposits (write c.deposits recipient (c.deposits recipient + value))
              recipient (c.deposits recipient + value) keys once (λ j. refl),
        ),
      )

-- What a block leaves of the contract's ether and of the deposits.
record Settles (tx : Tx) (keys : List ℕ) (c c' : Fusion) : Type 0 where
  words : HoldsWords c'
  claims : sum_of c'.deposits keys + deposited tx ≡ sum_of c.deposits keys
  payments : c'.balance + withdrawn tx ≡ c.balance

module _ (X : External) (accepts : ℕ → Bool) (tx : SignedTx) (s s' : State) (a b : ℕ)
    (i : CircuitInput) (d : Describes X tx s s' a b i) (own : (get s a).id ≡ a) (keys : List ℕ)
    (once : IsOnce a keys) (c c' : Fusion) (words : HoldsWords c) where
  Effect-Settles : Effect accepts c (public_inputs i) c' → Settles tx.tx keys c c'
  unfolding public_inputs deposited withdrawn
  Effect-Settles (moved kind same) =
      let k : tx.tx.kind ≡ transfer =
        (kind_of_code tx.tx.kind).0 (sym d.kind ∙ done_injective kind) in
      subst (Settles tx.tx keys c) (sym same)
        (record { words = words; claims = ground (arith, k); payments = ground (arith, k) })
  Effect-Settles (claimed value recipient kind v r enough same) =
      let k : tx.tx.kind ≡ deposit =
        (kind_of_code tx.tx.kind).1 (sym d.kind ∙ done_injective kind) in
      let to_a : recipient ≡ a = sym (done_injective r) ∙ ap Account.id d.sender ∙ own in
      let amount : value ≡ tx.tx.value = sym (done_injective v) ∙ d.value in
      let sum =
        sum_of-once c.deposits (write c.deposits recipient (c.deposits recipient - value)) recipient
          (c.deposits recipient - value) keys (rw to_a once) (λ j. refl) in
      subst (Settles tx.tx keys c) (sym same) (record {
        words = λ j. ground (arith, words j, words recipient);
        claims = ground (arith, k, amount, sum);
        payments = ground (arith, k);
      })
  Effect-Settles (paid value recipient kind v r small willing enough same) =
      let k : tx.tx.kind ≡ withdraw =
        (kind_of_code tx.tx.kind).2 (sym d.kind ∙ done_injective kind) in
      let amount : value ≡ tx.tx.value = sym (done_injective v) ∙ d.value in
      subst (Settles tx.tx keys c) (sym same)
        (record { words = words; claims = ground (arith, k); payments = ground (arith, k, amount) })

post_root_of : (i : CircuitInput) (r : ℕ) → read (public_inputs i) 1 ≡ done r → i.post_root ≡ r
unfolding public_inputs
post_root_of i r e = done_injective e

sum_of-zero : (keys : List ℕ) → sum_of (λ k. 0) keys ≡ 0
unfolding sum_of
sum_of-zero [] = refl
sum_of-zero (k ∷ keys) = omega (arith, sum_of-zero keys)

supply-default : (keys : List ℕ) → supply default_state keys ≡ 0
unfolding get Tree.get BTreeMap.get
supply-default keys = sum_of-zero keys

module _ {X : External} (text : FieldText X) (pairs : PoseidonPairs X) {P : Type 0}
    (accepts : ℕ → Bool) (verify : List ℕ → P → Option ℕ) (keys : List ℕ) where
  pub Step-IsBacked :
      {u v : System}
      → Step X accepts verify keys u v
      → IsBacked text pairs keys u
      → IsBacked text pairs keys v
  Step-IsBacked {u} {v} (paid_in value recipient once e same) h =
      let (words, rooted, sum) = deposit-sum u.l1 v.l1 value recipient keys h.words once e in
      record {
        rooted = rw (same, rooted) h.rooted;
        well_formed = rw same h.well_formed;
        words = words;
        backed = rw same (omega (arith, sum, h.backed));
      }
  Step-IsBacked {u} {v} (block tx i proof a b ea eb ne oa ob run built e) h =
      let d = new_input-Describes X tx u.l2 v.l2 i a b ea eb built in
      let acc =
        (submit_block-Accepted accepts verify u.l1
            (record { proof = proof; input = public_inputs i }) v.l1 h.words).0
          e in
      let w = apply_tx-IsWellFormed text pairs u.l2 v.l2 tx.tx h.well_formed run in
      let settled =
        Effect-Settles X accepts tx u.l2 v.l2 a b i d (h.well_formed.fits a).0 keys oa u.l1
          (record v.l1 { root = u.l1.root }) h.words acc.effect in
      let sum =
        apply_tx-supply text pairs u.l2 v.l2 tx.tx a b keys h.well_formed ea eb ne oa ob run in
      record {
        rooted = d.post_root ∙ ap some (post_root_of i v.l1.root acc.post_root);
        well_formed = w;
        words = settled.words;
        backed = omega (arith, sum, settled.claims, settled.payments, h.backed);
      }

  root-default : root X default_state ≡ some 0
  unfolding root poseidon_total stored Tree.get BTreeMap.get
  root-default =
      root_hash-subtree (poseidon_total text pairs) default_state.inner
        (default_state-IsSound text pairs)
      ∙ ap some (subtree-zero (pair text pairs) _ (λ p. refl) 256 [])

  pub deployed-IsBacked : IsBacked text pairs keys deployed
  deployed-IsBacked = record {
    rooted = root-default;
    well_formed = default_state-IsWellFormed text pairs;
    words = λ k. omega arith;
    backed = omega (arith, sum_of-zero keys, supply-default keys);
  }

  reached :
      {u v : System}
      → IsBacked text pairs keys u
      → Reach X accepts verify keys u v
      → IsBacked text pairs keys v
  reached h here = h
  reached h (next r st) = Step-IsBacked st (reached h r)

  pub Reach-IsBacked :
      (u : System) → Reach X accepts verify keys deployed u → IsBacked text pairs keys u
  Reach-IsBacked u r = reached deployed-IsBacked r
