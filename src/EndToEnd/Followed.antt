-- ===== src/EndToEnd/Followed.antt =====
-- Whoever follows the blocks of the chain computes the sequencer's state
-- (fusion-sequencer/src/sequencer.rs).
use fusion_zksnark_circle.Base.{
  ℕ, ◌≡◌, ◌⊎◌, inl, inr, refl, ap, subst, ◌∙◌, some_injective, >>=-some, some, List, [], ◌∷◌,
  length, ==_refl,
}
use fusion_zksnark_circle.Types.External.{External, FieldText}
use fusion_zksnark_circle.Api.{Tx, TxKind, SignedTx, kind_to_u256}
use fusion_zksnark_circle.Prover.State.{State}
use fusion_zksnark_circle.Prover.CircuitInput.{CircuitInput, new_input}
use fusion_zksnark_circle.Sequencer.Loop.{Request, make_block}
use fusion_zksnark_circle.Sequencer.Chain.{Leads, make_block-Leads}
use fusion_zksnark_circle.Sequencer.Observer.{tx_proof_to_fusion_tx}
use fusion_zksnark_circle.Rollup.Following.{
  Recompresses, IsElement, listed, AllElementary, inputs_of, followed,
}
use fusion_zksnark_circle.EndToEnd.Anvil.{L1Block, deposit, submit_block, block_of}
use fusion_zksnark_circle.EndToEnd.Follow.{
  decode_l2_proof, is_to, block_fusion_txs, follow, follow-deposit, follow-block,
}

-- What reaches the contract: a payment for a recipient, or a proof with the circuit's input.
abbrev pub Event : Type 0 → Type 0
Event P = ℕ ⊎ (CircuitInput × P)

unfoldable pub inputs_sent : {P : Type 0} → List (Event P) → List CircuitInput
inputs_sent [] = []
inputs_sent (inl r ∷ l) = inputs_sent l
inputs_sent (inr (i, q) ∷ l) = i ∷ inputs_sent l

module _ {X : External} (text : FieldText X) {P : Type 0} (contract : ℕ) where
  abbrev pub proof_block : CircuitInput → P → L1Block P
  proof_block i q = block_of contract (submit_block (record { proof = q; input = listed text i }))

  unfoldable pub blocks_of : List (Event P) → List (L1Block P)
  blocks_of [] = []
  blocks_of (inl r ∷ l) = block_of contract (deposit r) ∷ blocks_of l
  blocks_of (inr (i, q) ∷ l) = proof_block i q ∷ blocks_of l

module _ {X : External} (text : FieldText X) (points : Recompresses X)
    (kinds : (k : TxKind) → IsElement text (kind_to_u256 k)) {P : Type 0} (contract : ℕ) where
  proof_block-shown :
      (i : CircuitInput) (q : P) (t : Tx)
      → tx_proof_to_fusion_tx X (listed text i) ≡ some t
      → block_fusion_txs X contract (proof_block text contract i q) ≡ some (t ∷ [])
  unfolding block_fusion_txs is_to decode_l2_proof
  proof_block-shown i q t e = rw (==_refl contract, e) refl

  follow-Leads :
      (s s' : State) (rs : List Request) (events : List (Event P))
      → Leads X s rs s'
      → AllElementary text rs
      → inputs_of X rs ≡ some (inputs_sent events)
      → follow X contract (length rs) s (blocks_of text contract events) ≡ some s'
  unfolding follow inputs_of inputs_sent blocks_of AllElementary
  follow-Leads s s' [] events same el e = ap some same
  follow-Leads s s' (r ∷ rs) [] (pre, step, leads) el e =
      let (i, made, e₁) = >>=-some (new_input X r.tx r.pre_state r.post_state) _ e in
      let (is, rest, e₂) = >>=-some (inputs_of X rs) _ e₁ in absurd (cc (some_injective e₂))
  follow-Leads s s' (r ∷ rs) (inl x ∷ events) leads el e =
      follow-deposit X contract (length rs) x s (blocks_of text contract events)
      ∙ follow-Leads s s' (r ∷ rs) events leads el e
  follow-Leads s s' (r ∷ rs) (inr (j, q) ∷ events) (pre, step, leads) (el, els) e =
      let (i, made, e₁) = >>=-some (new_input X r.tx r.pre_state r.post_state) _ e in
      let (is, rest, e₂) = >>=-some (inputs_of X rs) _ e₁ in
      let shape : i ∷ is ≡ j ∷ inputs_sent events = some_injective e₂ in
      let (t, decoded, next) =
        followed text points kinds r.tx s r.post_state i step (rw pre at made) el in
      let same_i : i ≡ j = cc shape in
      let same_is : is ≡ inputs_sent events = cc shape in
      let decoded_j =
        subst (λ k. tx_proof_to_fusion_tx X (listed text k) ≡ some t) same_i decoded in
      follow-block X contract (length rs) s r.post_state t (proof_block text contract j q)
        (blocks_of text contract events) (proof_block-shown j q t decoded_j) next
      ∙ follow-Leads r.post_state s' rs events leads els (rest ∙ ap some same_is)

  -- Whoever follows the blocks of the chain, as the end-to-end tests do, computes the sequencer's
  -- state. If payments and the proofs of a block's requests, in their order, reach the contract in
  -- any interleaving, one block of L1 for each, following as many proofs as there are requests from
  -- the state before the sequencer's block gives the state after it: payments are passed over, and
  -- every proof's inputs are decoded and applied. The proofs list the inputs of the circuit modulo the
  -- field's size, and the nonces and values of the requests are canonical numbers of field elements.
  -- Assumed are canonical numbers for the kinds, and a curve's crate that compresses a point that it
  -- has decompressed into 32 bytes of the same point.
  pub follow-make_block :
      (s s' : State) (mempool : List SignedTx) (rs : List Request) (events : List (Event P))
      → make_block X s mempool ≡ some (rs, s')
      → AllElementary text rs
      → inputs_of X rs ≡ some (inputs_sent events)
      → follow X contract (length rs) s (blocks_of text contract events) ≡ some s'
  follow-make_block s s' mempool rs events made el shown =
      follow-Leads s s' rs events (make_block-Leads X s s' mempool rs made).1 el shown
