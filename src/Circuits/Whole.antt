-- ===== src/Circuits/Whole.antt =====
-- The circuit hashes a transaction as the wallet does, and accepts what the sequencer and the wallet
-- do.
use fusion_zksnark_circle.Base.{
  ℕ, ◌*◌, ◌<◌, ◌≡◌, ◌≢◌, refl, sym, ap, ◌∙◌, some_injective, >>=-some, Bool, true, some, List, [],
  ◌∷◌, map, ok, arith,
}
use fusion_zksnark_circle.Types.External.{External, FieldText, PoseidonPairs, PoseidonLists}
use fusion_zksnark_circle.Types.Field.{to_fr-reduce, fr_to_u256-canonical}
use fusion_zksnark_circle.Types.PublicKey.{
  Point, PublicKey, from_u256, u256_to_babyjubjub_point, public_key_to_fr,
}
use fusion_zksnark_circle.Api.{Tx, SignedTx, kind_to_u256, hash_tx}
use fusion_zksnark_circle.Prover.Poseidon.{pair}
use fusion_zksnark_circle.Prover.State.{State}
use fusion_zksnark_circle.Prover.CircuitInput.{
  CircuitTx, CircuitTxSignature, CircuitInput, signature_of, new_input,
}
use fusion_zksnark_circle.Sequencer.Transactions.{address_of, validate_tx, apply_tx}
use fusion_zksnark_circle.Sequencer.Validity.{IsWellFormed}
use fusion_zksnark_circle.Circuits.Steps.{Encodes}
use fusion_zksnark_circle.Circuits.MerkleTree
use fusion_zksnark_circle.Circuits.MerkleTree.{field_tx, elements_of}
use fusion_zksnark_circle.Circuits.Elements.{mod-small, field_point-small}
use fusion_zksnark_circle.Circuits.Given.{IsElementary, kind-lt, key-lt, signature-lt, value-lt}
use fusion_zksnark_circle.Sequencer.Replay.{validate_tx-IsAdmissible}
use fusion_zksnark_circle.Circuits.Accepts.{main-new_input}
use fusion_zksnark_circle.Circuits.Signature.{base}
use fusion_zksnark_circle.Circuits.Scalar.{IsCurve, Unpacks, times, verify_signature-equation}
use fusion_zksnark_circle.Circuits.Fusion.{tx_hash, main}
use fusion_zksnark_circle.Rollup.Inputs.{new_input-Describes}

module _ {X : External} (text : FieldText X) (lists : PoseidonLists X) where
  -- The hash of a list of words.
  unfoldable pub words_hash : List ℕ → ℕ
  words_hash ns = text.canonical (lists.list_hash (map text.reduce ns))

  abbrev pub pairs_of : PoseidonPairs X
  pairs_of = record {
    pair_hash = λ a b. lists.list_hash (a ∷ b ∷ []);
    hash_pair = λ a b. lists.hash_list a (b ∷ []) (omega arith);
  }

  key_hash :
      (p : Point)
      → public_key_to_fr X (record { point = p }) ≡ some (text.reduce (words_hash (p.x ∷ p.y ∷ [])))
  unfolding public_key_to_fr words_hash
  key_hash p =
      rw (to_fr-reduce text p.x, to_fr-reduce text p.y, text.reduce-canonical _)
        (lists.hash_list (text.reduce p.x) (text.reduce p.y ∷ []) (omega arith))

  pub hash_tx-words :
      (tx : Tx) (s t : Point)
      → from_u256 X tx.sender ≡ some (record { point = s })
      → from_u256 X tx.to ≡ some (record { point = t })
      → hash_tx X tx
        ≡ some (
            words_hash (
              kind_to_u256 tx.kind
              ∷ words_hash (s.x ∷ s.y ∷ [])
              ∷ words_hash (t.x ∷ t.y ∷ [])
              ∷ tx.nonce
              ∷ tx.value
              ∷ []))
  unfolding hash_tx from_u256 words_hash
  hash_tx-words tx s t sender to =
      let (p, ep, ks) = >>=-some (u256_to_babyjubjub_point X tx.sender) _ sender in
      let (q, eq, kt) = >>=-some (u256_to_babyjubjub_point X tx.to) _ to in
      rw
        (
          ep,
          ks,
          eq,
          kt,
          key_hash s,
          key_hash t,
          to_fr-reduce text (kind_to_u256 tx.kind),
          to_fr-reduce text tx.nonce,
          to_fr-reduce text tx.value,
          lists.hash_list (text.reduce (kind_to_u256 tx.kind))
              (text.reduce (words_hash (s.x ∷ s.y ∷ []))
                ∷ text.reduce (words_hash (t.x ∷ t.y ∷ []))
                ∷ text.reduce tx.nonce
                ∷ text.reduce tx.value
                ∷ [])
              (omega arith),
        )
        (fr_to_u256-canonical text _)

  -- The circuit hashes a transaction as the wallet does, where it has the numbers of the wallet's
  -- and its points are the keys that the two words read as.
  pub tx_hash-hash_tx :
      (tx : Tx) (c : CircuitTx)
      → Encodes tx c
      → from_u256 X tx.sender ≡ some (record { point = c.sender })
      → from_u256 X tx.to ≡ some (record { point = c.to })
      → hash_tx X tx ≡ some (tx_hash words_hash c)
  unfolding tx_hash
  tx_hash-hash_tx tx c e sender to =
      hash_tx-words tx c.sender c.to sender to ∙ rw (sym e.kind, sym e.nonce, sym e.value)

  pair-words_hash : (λ a b. words_hash (a ∷ b ∷ [])) ≡ pair text pairs_of
  unfolding words_hash pair
  pair-words_hash = refl

  words_hash-lt : (p : ℕ) → ((f : X.Fr) → text.canonical f < p) → (l : List ℕ) → words_hash l < p
  unfolding words_hash
  words_hash-lt p small l = small _

module _ {X : External} (text : FieldText X) (lists : PoseidonLists X) {p : ℕ}
    (small : (f : X.Fr) → text.canonical f < p)
    (nonzero : (x y : ℕ) → pair text (pairs_of text lists) x y ≢ 0) {add : Point → Point → Point}
    {on_curve : Point → Bool} (curve : IsCurve add on_curve) (order_check : Point → Bool)
    {unpacks : ℕ → List Bool → Bool} (u : Unpacks p unpacks) where
  -- What the whole circuit accepts: some choice of bits passes.
  abbrev pub Accepts : CircuitInput → Type 0
  Accepts i =
      (hm_bits s_bits : List Bool) × (main p add on_curve order_check (words_hash text lists)
          unpacks hm_bits s_bits i
        ≡ some tt)

  field_tx-small :
      (s s' : State) (tx : SignedTx) (a b : ℕ)
      → IsWellFormed text (pairs_of text lists) s
      → address_of X tx.tx.sender ≡ some a
      → address_of X tx.tx.to ≡ some b
      → a ≢ b
      → validate_tx X s tx ≡ some (ok tt)
      → apply_tx X s tx.tx ≡ some s'
      → IsElementary p s tx a b
      → 2 < p
      → (i : CircuitInput) → new_input X tx s s' ≡ some i
      → i.tx.sig.s < p
      → (elements_of p i).tx ≡ i.tx
  unfolding elements_of field_tx
  field_tx-small s s' tx a b w sender to ne valid run small_tx two i made low =
      let pairs = pairs_of text lists in
      let (a', v, sender', ok_tx) = (validate_tx-IsAdmissible X s tx).0 valid in
      let same : a' ≡ a = some_injective (sym sender' ∙ sender) in
      let d = new_input-Describes X tx s s' i a b sender to made in
      let (x, y) =
        key-lt text pairs small tx.tx.sender (record { point = i.tx.sender }) d.sender_key in
      let (x', y') = key-lt text pairs small tx.tx.to (record { point = i.tx.to }) d.to_key in
      let (rx, ry) = signature-lt text pairs small tx i.tx.sig d.sig in
      let value =
        value-lt text pairs small nonzero two s s' tx a b w sender to ne run small_tx
          (rw same at ok_tx) tx.tx.kind refl in
      rw
        (
          mod-small i.tx.kind p (rw d.kind (kind-lt p two tx.tx.kind)),
          field_point-small p i.tx.sender x y,
          field_point-small p i.tx.to x' y',
          mod-small i.tx.nonce p (rw d.nonce small_tx.nonce),
          mod-small i.tx.value p (rw d.value value),
          field_point-small p i.tx.sig.r rx ry,
          mod-small i.tx.sig.s p low,
        )
        refl

  main-signed :
      (i : CircuitInput) (h : ℕ)
      → MerkleTree.main (λ a b. words_hash text lists (a ∷ b ∷ [])) p i ≡ true
      → (elements_of p i).tx ≡ i.tx
      → tx_hash (words_hash text lists) i.tx ≡ h
      → on_curve base ≡ true
      → on_curve i.tx.sender ≡ true
      → on_curve i.tx.sig.r ≡ true
      → order_check i.tx.sig.r ≡ true
      → i.tx.sig.s < p
      → times add i.tx.sig.s base
        ≡ add i.tx.sig.r (
            times add
              (8
                * words_hash text lists
                    (i.tx.sig.r.x ∷ i.tx.sig.r.y ∷ i.tx.sender.x ∷ i.tx.sender.y ∷ h ∷ []))
              i.tx.sender)
      → Accepts i
  unfolding main
  main-signed i h accepted same hash on_base on_sender on_r order low equation =
      let hm =
        words_hash text lists
          (i.tx.sig.r.x ∷ i.tx.sig.r.y ∷ i.tx.sender.x ∷ i.tx.sender.y ∷ h ∷ []) in
      let (hm_bits, hm_chosen, hm_own) = u.own_bits hm (words_hash-lt text lists p small _) in
      let (s_bits, s_chosen, s_own) = u.own_bits i.tx.sig.s low in
      let (verdict, e, test, same_s, same_hm) =
        verify_signature-equation curve order_check (words_hash text lists) u hm_bits s_bits
          i.tx.sender h i.tx.sig on_base on_sender on_r order hm_chosen s_chosen in
      let passed : verdict ≡ true = test.1 (rw (hm_own, s_own) equation) in
      (hm_bits, s_bits, rw (accepted, same, hash, e, passed) refl)

  -- For a transaction that the sequencer validates and applies, under the conditions on balances,
  -- nonces and hashes of the state circuit: `CircuitInput::new` builds an input that the whole circuit
  -- accepts for some choice of bits, if the signature, over the hash that the wallet signs,
  -- satisfies the equation of EdDSA with cofactor 8, its point and the sender's key are on the curve,
  -- its point passes the order check, and its number is below the field's size. The curve's sum is
  -- assumed associative with a neutral element, and an element's own bits to be an unpacking of it.
  pub main-equation :
      (two : 2 < p) (s s' : State) (tx : SignedTx) (a b : ℕ) (sig : CircuitTxSignature) (k : Point)
      (h : ℕ)
      → IsWellFormed text (pairs_of text lists) s
      → address_of X tx.tx.sender ≡ some a
      → address_of X tx.tx.to ≡ some b
      → a ≢ b
      → validate_tx X s tx ≡ some (ok tt)
      → apply_tx X s tx.tx ≡ some s'
      → signature_of X tx ≡ some sig
      → IsElementary p s tx a b
      → from_u256 X tx.tx.sender ≡ some (record { point = k })
      → hash_tx X tx.tx ≡ some h
      → on_curve base ≡ true
      → on_curve k ≡ true
      → on_curve sig.r ≡ true
      → order_check sig.r ≡ true
      → sig.s < p
      → times add sig.s base
        ≡ add sig.r
            (times add (8 * words_hash text lists (sig.r.x ∷ sig.r.y ∷ k.x ∷ k.y ∷ h ∷ [])) k)
      → (i : CircuitInput) × (new_input X tx s s' ≡ some i) × Accepts i
  main-equation two s s' tx a b sig k h w sender to ne valid run signed small_tx key hash on_base
        on_k on_r order small_s equation =
      let (i, made, accepted) =
        main-new_input text (pairs_of text lists) small nonzero two s s' tx a b sig w sender to ne
          valid run signed small_tx in
      let d = new_input-Describes X tx s s' i a b sender to made in
      let same_tx =
        field_tx-small s s' tx a b w sender to ne valid run small_tx two i made
          (omega (arith, ap CircuitTxSignature.s (some_injective (sym signed ∙ d.sig)), small_s)) in
      let hashed = some_injective (
        sym (
          tx_hash-hash_tx text lists tx.tx i.tx
            (record { kind = d.kind; nonce = d.nonce; value = d.value }) d.sender_key d.to_key)
        ∙ hash) in
      let same_key : k ≡ i.tx.sender =
        ap PublicKey.point (some_injective (sym key ∙ d.sender_key)) in
      let same_sig : sig ≡ i.tx.sig = some_injective (sym signed ∙ d.sig) in
      (
        i,
        made,
        main-signed i h (ap (λ f. MerkleTree.main f p i) (pair-words_hash text lists) ∙ accepted)
            same_tx hashed on_base (rw same_key at on_k) (rw same_sig at on_r)
            (rw same_sig at order) (rw same_sig at small_s) (rw (same_key, same_sig) at equation),
      )
