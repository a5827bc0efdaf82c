-- ===== src/Rollup/Following.antt =====
-- Whoever reads the public inputs of the proofs of a block computes the sequencer's state
-- (fusion-sequencer/src/sequencer.rs).
use mathlib.Core.List.{reverse}
use fusion_zksnark_circle.Base.{
  ℕ, ◌≡◌, refl, sym, ap, subst, ◌∙◌, some_injective, >>=-some, Option, some, List, [], ◌∷◌, map,
  ◌>>=◌,
}
use fusion_zksnark_circle.Base.Bytes.{AreBytes}
use fusion_zksnark_circle.Types.External.{External, BjjPoint, FieldText}
use fusion_zksnark_circle.Types.PublicKey.{
  Point, PublicKey, from_babyjubjub_point-canonical_key, from_point, from_u256, to_u256,
  u256_to_babyjubjub_point, from_u256-to_u256,
}
use fusion_zksnark_circle.Api.{
  Tx, TxKind, SignedTx, kind_to_u256, kind_from_u256, kind_from_u256-kind_to_u256,
}
use fusion_zksnark_circle.Prover.State.{State}
use fusion_zksnark_circle.Prover.CircuitInput.{CircuitInput, new_input}
use fusion_zksnark_circle.Sequencer.Transactions.{address_of, apply_tx, new_sender, new_to}
use fusion_zksnark_circle.Sequencer.Validity.{apply_tx-Applied}
use fusion_zksnark_circle.Sequencer.Loop.{Request, make_block}
use fusion_zksnark_circle.Sequencer.Chain.{Leads, make_block-Leads}
use fusion_zksnark_circle.Sequencer.Observer.{tx_proof_to_fusion_tx, fusion_txs, replay}
use fusion_zksnark_circle.Circuits.Fusion.{public_inputs}
use fusion_zksnark_circle.Rollup.Inputs.{new_input-Describes}

-- The crate compresses a point that it has decompressed into 32 bytes of the same point.
pub record Recompresses (X : External) : Type 0 where
  pub bytes :
      (l : List ℕ) (p : BjjPoint X.Fr)
      → X.decompress_point l ≡ some p
      → AreBytes 32 (reverse (X.compress_point p))
  pub back :
      (l : List ℕ) (p : BjjPoint X.Fr)
      → X.decompress_point l ≡ some p
      → X.decompress_point (X.compress_point p) ≡ some p

-- The circuit's inputs of a block's requests.
unfoldable pub inputs_of : External → List Request → Option (List CircuitInput)
inputs_of X [] = some []
inputs_of X (r ∷ rs) = do
  i ← new_input X r.tx r.pre_state r.post_state
  is ← inputs_of X rs
  some (i ∷ is)

module _ {X : External} (text : FieldText X) where
  -- A number that is the canonical number of a field element.
  abbrev pub IsElement : ℕ → Type 0
  IsElement n = text.canonical (text.reduce n) ≡ n

  -- The inputs that a proof lists, which the contract's call carries.
  abbrev pub listed : CircuitInput → List ℕ
  listed i = map (λ n. text.canonical (text.reduce n)) (public_inputs i)

  abbrev pub IsElementaryTx : Tx → Type 0
  IsElementaryTx tx = IsElement tx.nonce × IsElement tx.value

  unfoldable pub AllElementary : List Request → Type 0
  AllElementary [] = Unit {0}
  AllElementary (r ∷ rs) = IsElementaryTx r.tx.tx × AllElementary rs

module _ {X : External} (text : FieldText X) (points : Recompresses X)
    (kinds : (k : TxKind) → IsElement text (kind_to_u256 k)) where
  canonical_again : (f : X.Fr) → IsElement text (text.canonical f)
  canonical_again f = ap text.canonical (text.reduce-canonical f)

  key-IsElement :
      (n : ℕ) (k : Point)
      → from_u256 X n ≡ some (record { point = k })
      → IsElement text k.x × IsElement text k.y
  unfolding from_u256
  key-IsElement n k e =
      let (q, d, own) = >>=-some (u256_to_babyjubjub_point X n) _ e in
      let same = some_injective (sym (from_babyjubjub_point-canonical_key text q) ∙ own) in
      subst (λ (key : PublicKey). IsElement text key.point.x × IsElement text key.point.y) same
        (canonical_again q.x, canonical_again q.y)

  key_word :
      (n : ℕ) (k : Point)
      → from_u256 X n ≡ some (record { point = k })
      → (w : ℕ) × (to_u256 X (from_point k.x k.y) ≡ some w)
        × (from_u256 X w ≡ some (record { point = k }))
  unfolding from_u256 u256_to_babyjubjub_point from_point
  key_word n k e =
      let (p, d, own) = >>=-some (u256_to_babyjubjub_point X n) _ e in
      let (pk, w, made, unmade, word, read) =
        from_u256-to_u256 text p (points.bytes _ p d) (points.back _ p d) in
      let same : pk ≡ record { point = k } = some_injective (sym made ∙ own) in
      (w, rw same at word, rw same at read)

  same_step :
      (s : State) (tx : Tx) (w w' : ℕ)
      → address_of X w ≡ address_of X tx.sender
      → address_of X w' ≡ address_of X tx.to
      → apply_tx X s
          (record { kind = tx.kind; sender = w; to = w'; nonce = tx.nonce; value = tx.value })
        ≡ apply_tx X s tx
  unfolding apply_tx new_sender new_to
  same_step s tx w w' e e' = rw (e, e')

  pub followed :
      (tx : SignedTx) (s s' : State) (i : CircuitInput)
      → apply_tx X s tx.tx ≡ some s'
      → new_input X tx s s' ≡ some i
      → IsElementaryTx text tx.tx
      → (t : Tx) × (tx_proof_to_fusion_tx X (listed text i) ≡ some t) × (apply_tx X s t ≡ some s')
  unfolding tx_proof_to_fusion_tx public_inputs address_of
  followed tx s s' i step made (en, ev) =
      let r = apply_tx-Applied X s s' tx.tx step in
      let d = new_input-Describes X tx s s' i r.a r.b r.sender r.to made in
      let (w, ew, kw) = key_word tx.tx.sender i.tx.sender d.sender_key in
      let (w', ew', kw') = key_word tx.tx.to i.tx.to d.to_key in
      let kind : kind_from_u256 i.tx.kind ≡ some tx.tx.kind =
        (kind_from_u256-kind_to_u256 i.tx.kind tx.tx.kind).0.1 d.kind in
      let el_k : IsElement text i.tx.kind = rw d.kind (kinds tx.tx.kind) in
      let (x, y) = key-IsElement tx.tx.sender i.tx.sender d.sender_key in
      let (x', y') = key-IsElement tx.tx.to i.tx.to d.to_key in
      let same : address_of X w ≡ address_of X tx.tx.sender = rw (kw, d.sender_key) refl in
      let same' : address_of X w' ≡ address_of X tx.tx.to = rw (kw', d.to_key) refl in
      (
        record { kind = tx.tx.kind; sender = w; to = w'; nonce = tx.tx.nonce; value = tx.tx.value },
        rw (el_k, kind, x, y, ew, x', y', ew', d.nonce, en, d.value, ev) refl,
        same_step s tx.tx w w' same same' ∙ step,
      )

  followed_block :
      (s s' : State) (rs : List Request) (inputs : List CircuitInput)
      → Leads X s rs s'
      → AllElementary text rs
      → inputs_of X rs ≡ some inputs
      → (txs : List Tx) × (fusion_txs X (map (listed text) inputs) ≡ some txs)
        × (replay X s txs ≡ some s')
  unfolding fusion_txs replay inputs_of AllElementary
  followed_block s s' [] inputs same el e =
      let shape : [] ≡ inputs = some_injective e in rw (← shape) ([], refl, ap some same)
  followed_block s s' (r ∷ rs) inputs (pre, step, leads) (el, els) e =
      let (i, made, e₁) = >>=-some (new_input X r.tx r.pre_state r.post_state) _ e in
      let (is, rest, e₂) = >>=-some (inputs_of X rs) _ e₁ in
      let shape : i ∷ is ≡ inputs = some_injective e₂ in
      let (t, decoded, next) = followed r.tx s r.post_state i step (rw pre at made) el in
      let (txs, more, done) = followed_block r.post_state s' rs is leads els rest in
      rw (← shape) (t ∷ txs, rw (decoded, more) refl, rw (next, done) refl)

  -- If the curve's crate compresses a point that it has decompressed into 32 bytes of the same
  -- point, the numbers of the kinds are canonical numbers of field elements, and so are the nonces and
  -- values of a block's requests: whoever decodes, in order, the inputs that the proofs of the
  -- requests list, which are the public inputs of the circuit modulo the field's size, gets a list of
  -- transactions, without a panic, and applying it to the state before the block gives the state
  -- after it.
  pub replay-make_block :
      (s s' : State) (mempool : List SignedTx) (rs : List Request) (inputs : List CircuitInput)
      → make_block X s mempool ≡ some (rs, s')
      → AllElementary text rs
      → inputs_of X rs ≡ some inputs
      → (txs : List Tx) × (fusion_txs X (map (listed text) inputs) ≡ some txs)
        × (replay X s txs ≡ some s')
  replay-make_block s s' mempool rs inputs made el shown =
      followed_block s s' rs inputs (make_block-Leads X s s' mempool rs made).1 el shown
