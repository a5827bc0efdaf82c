-- ===== src/Circuits/Checks.antt =====
-- The tests of the state circuit (circuits/merkle_tree.zok) on the input of a step of the sequencer.
use fusion_zksnark_circle.Base.{
  ℕ, ◌+◌, ◌<◌, ◌≡◌, ◌≢◌, refl, sym, ap, ◌∙◌, some_injective, inl, inr, Bool, true, some, List, ◌==◌,
  ==_iff, ltb, leb, if◌then◌else◌, u256_size, arith, Option-cases,
}
use fusion_zksnark_circle.Types.External.{External, FieldText, PoseidonPairs}
use fusion_zksnark_circle.Types.Field.{to_fr-reduce, fr_to_u256-canonical}
use fusion_zksnark_circle.Types.PublicKey.{PublicKey, from_u256, address, public_key_to_fr}
use fusion_zksnark_circle.Merkle.BranchKey.{to_bitmap}
use fusion_zksnark_circle.Merkle.Operations.{root_hash-subtree}
use fusion_zksnark_circle.Merkle.Proofs.{proof-siblings}
use fusion_zksnark_circle.Api.{TxKind, transfer, deposit, withdraw, SignedTx, kind_to_u256}
use fusion_zksnark_circle.Prover.Poseidon.{pair}
use fusion_zksnark_circle.Prover.State.{Account, State, get, root, proof}
use fusion_zksnark_circle.Prover.CircuitInput.{CircuitTx, CircuitInput, pre_account_to, to_vec_bool}
use fusion_zksnark_circle.Prover.Laws.{IsSound, poseidon_total}
use fusion_zksnark_circle.Sequencer.Transactions.{address_of, apply_tx}
use fusion_zksnark_circle.Sequencer.Effects.{address_of-lt, written}
use fusion_zksnark_circle.Sequencer.Validity.{IsWellFormed, apply_tx-Applied, apply_tx-IsWellFormed}
use fusion_zksnark_circle.Sequencer.Replay.{IsAdmissible}
use fusion_zksnark_circle.Circuits.MerkleTree.{
  hash_leaf, verify_merkle_path, post_account_sender, post_account_recipient, tests,
}
use fusion_zksnark_circle.Circuits.Paths.{verify_merkle_path-proof}
use fusion_zksnark_circle.Circuits.Steps.{
  Encodes, post_account_sender-new_sender, post_account_recipient-new_to,
}

-- A test that the circuit makes of transfers alone, and one that it makes of all but deposits.
if_transfer :
    (n : ℕ) (k : TxKind) (b : Bool)
    → n ≡ kind_to_u256 k
    → (k ≡ transfer → b ≡ true)
    → (if n == 0 then b else true) ≡ true
unfolding kind_to_u256
if_transfer n transfer b e h = ground (arith, e, h refl)
if_transfer n deposit b e h = ground (arith, e)
if_transfer n withdraw b e h = ground (arith, e)

unless_deposit :
    (n : ℕ) (k : TxKind) (b : Bool)
    → n ≡ kind_to_u256 k
    → (k ≢ deposit → b ≡ true)
    → (if n == 1 then true else b) ≡ true
unfolding kind_to_u256
unless_deposit n transfer b e h = let t : b ≡ true = h (λ q. cc) in ground (arith, e, t)
unless_deposit n deposit b e h = ground (arith, e)
unless_deposit n withdraw b e h = let t : b ≡ true = h (λ q. cc) in ground (arith, e, t)

module _ {X : External} (text : FieldText X) (pairs : PoseidonPairs X) where
  pub address-pair :
      (key : PublicKey) → address X key ≡ some (pair text pairs key.point.x key.point.y)
  unfolding address public_key_to_fr pair
  address-pair key =
      rw
        (
          to_fr-reduce text key.point.x,
          to_fr-reduce text key.point.y,
          pairs.hash_pair (text.reduce key.point.x) (text.reduce key.point.y),
        )
        (fr_to_u256-canonical text _)

  -- A word with an address is the word of a key, and the address is the hash of the key's point.
  pub address_of-parts :
      (word : ℕ) {a : ℕ}
      → address_of X word ≡ some a
      → (key : PublicKey) × (from_u256 X word ≡ some key)
        × (address X key ≡ some a)
        × (pair text pairs key.point.x key.point.y ≡ a)
  unfolding address_of
  address_of-parts word e = elim (Option-cases (from_u256 X word)) [
    | inl n ↦ absurd (ground (arith, n))
    | inr (key, k) ↦
        let at = rw k at e in (key, k, at, some_injective (sym (address-pair key) ∙ at))
  ]

  pub root_of : (s : State) → IsSound text pairs s → (r : ℕ) × (root X s ≡ some r)
  unfolding root
  root_of s sound = (_, root_hash-subtree (poseidon_total text pairs) s.inner sound)

  pub proof_of : (s : State) (k : ℕ) → (items : List ℕ) × (proof s k ≡ some items)
  unfolding proof
  proof_of s k = (_, proof-siblings s.inner k)

  -- The path of an account of a well formed state.
  path_of :
      (nonzero : (x y : ℕ) → pair text pairs x y ≢ 0) (s : State) (k : ℕ) (acc : Account)
      → IsWellFormed text pairs s
      → acc ≡ get s k
      → k < u256_size
      → (r : ℕ) (items : List ℕ) → root X s ≡ some r
      → proof s k ≡ some items
      → verify_merkle_path
          (pair text pairs)
          r
          (hash_leaf (pair text pairs) acc)
          (to_vec_bool (to_bitmap k))
          items
        ≡ true
  path_of nonzero s k acc w same small r items er ei =
      rw same
        (verify_merkle_path-proof text pairs nonzero s k small w.sound (w.fits k).0 r items er ei)

  module _ (nonzero : (x y : ℕ) → pair text pairs x y ≢ 0) (p : ℕ) (s s' : State) (tx : SignedTx)
      (a b : ℕ) (w : IsWellFormed text pairs s) (sender : address_of X tx.tx.sender ≡ some a)
      (to : address_of X tx.tx.to ≡ some b) (ne : a ≢ b) (run : apply_tx X s tx.tx ≡ some s') where
    pub after : IsWellFormed text pairs s'
    after = apply_tx-IsWellFormed text pairs s s' tx.tx w run

    sender_after :
        (c : CircuitTx)
        → Encodes tx.tx c
        → (get s a).balance < p
        → (tx.tx.kind ≡ deposit → (get s a).balance + tx.tx.value < p)
        → post_account_sender p c (get s a) ≡ get s' a
    sender_after c e low fits =
        let r = apply_tx-Applied X s s' tx.tx run in
        let ra : r.a ≡ a = some_injective (sym r.sender ∙ sender) in
        let rb : r.b ≡ b = some_injective (sym r.to ∙ to) in
        let (sound, at) =
          written text pairs s s' tx.tx r.a r.b w.sound r.sender r.to run r.acc r.acc' r.debit
            r.credit in
        let same : get s' a ≡ r.acc = ground (arith, at a, ra, rb) in
        post_account_sender-new_sender p tx.tx c e tx.tx.kind a (get s a) r.acc refl (w.fits a).0
          low fits (rw ra at r.debit)
        ∙ sym same

    recipient_after :
        (c : CircuitTx)
        → Encodes tx.tx c
        → tx.tx.kind ≡ transfer
        → (get s b).balance + tx.tx.value < p
        → post_account_recipient p c (get s b) ≡ get s' b
    recipient_after c e kind fits =
        let r = apply_tx-Applied X s s' tx.tx run in
        let rb : r.b ≡ b = some_injective (sym r.to ∙ to) in
        let (sound, at) =
          written text pairs s s' tx.tx r.a r.b w.sound r.sender r.to run r.acc r.acc' r.debit
            r.credit in
        let same : get s' b ≡ r.acc' = ground (arith, at b, rb) in
        post_account_recipient-new_to p tx.tx c e b (get s b) r.acc' kind (w.fits b).0 fits
          (rw rb at r.credit)
        ∙ sym same

    pub pre_account_to-get : tx.tx.kind ≡ transfer → pre_account_to tx s b ≡ get s b
    unfolding pre_account_to
    pre_account_to-get kind = ground (arith, kind)

    abbrev pub input_of :
        CircuitTx → Account → ℕ → ℕ → List ℕ × List ℕ → List ℕ × List ℕ → CircuitInput
    input_of c to_acc r r' before later = record {
      pre_root = r;
      post_root = r';
      tx = c;
      pre_accounts = (get s a, to_acc);
      direction_selector = (to_vec_bool (to_bitmap a), to_vec_bool (to_bitmap b));
      pre_path = before;
      post_path = later;
    }

    -- The tests of the circuit pass one by one, with any state behind the new root that has the new
    -- accounts of the sender and of a transfer's receiver.
    module _ (u : State) (v : IsWellFormed text pairs u) (same_a : get u a ≡ get s' a)
        (same_b : tx.tx.kind ≡ transfer → get u b ≡ get s' b) where
      pub tests-input_of :
          (c : CircuitTx) (to_acc : Account) (r r' : ℕ) (pa pb qa qb : List ℕ)
          → Encodes tx.tx c
          → (tx.tx.kind ≡ transfer → to_acc ≡ get s b)
          → IsAdmissible (get s a) tx.tx
          → pair text pairs c.sender.x c.sender.y ≡ a
          → pair text pairs c.to.x c.to.y ≡ b
          → (root X s ≡ some r) × (proof s a ≡ some pa) × (proof s b ≡ some pb)
          → (root X u ≡ some r') × (proof u a ≡ some qa) × (proof u b ≡ some qb)
          → (get s a).balance < p
          → (tx.tx.kind ≡ deposit → (get s a).balance + tx.tx.value < p)
          → (tx.tx.kind ≡ transfer → (get s b).balance + tx.tx.value < p)
          → tests (pair text pairs) p (input_of c to_acc r r' (pa, pb) (qa, qb)) ≡ true
      unfolding tests
      tests-input_of c to_acc r r' pa pb qa qb e own_to ok_tx ha hb (er, epa, epb) (er', eqa, eqb)
            low fits_a fits_b =
          let small_a = address_of-lt text tx.tx.sender sender in
          let small_b = address_of-lt text tx.tx.to to in
          let h = pair text pairs in
          let k = tx.tx.kind in
          let covers : tx.tx.kind ≢ deposit → leb c.value (get s a).balance ≡ true =
            λ t. ground (arith, e.value, ok_tx.covered t) in
          let fresh : ltb (get s a).nonce c.nonce ≡ true = ground (arith, e.nonce, ok_tx.fresh) in
          rw (
            path_of nonzero s a (get s a) w refl small_a r pa er epa,
            if_transfer c.kind k
                (verify_merkle_path h r (hash_leaf h to_acc) (to_vec_bool (to_bitmap b)) pb) e.kind
                (λ t. path_of nonzero s b to_acc w (own_to t) small_b r pb er epb),
            (==_iff (h c.sender.x c.sender.y) (get s a).id).1 (ha ∙ sym (w.fits a).0),
            if_transfer c.kind k (h c.to.x c.to.y == to_acc.id) e.kind (λ t.
                (==_iff (h c.to.x c.to.y) to_acc.id).1
                  (hb ∙ sym (w.fits b).0 ∙ ap Account.id (sym (own_to t)))),
            unless_deposit c.kind k (leb c.value (get s a).balance) e.kind covers,
            fresh,
            path_of nonzero u a (post_account_sender p c (get s a)) v
                (sender_after c e low fits_a ∙ sym same_a) small_a r' qa er' eqa,
            if_transfer c.kind k
                (verify_merkle_path h r' (hash_leaf h (post_account_recipient p c to_acc))
                  (to_vec_bool (to_bitmap b)) qb)
                e.kind
                (λ t.
                  path_of nonzero u b (post_account_recipient p c to_acc) v
                    (ap (post_account_recipient p c) (own_to t)
                      ∙ recipient_after c e t (fits_b t)
                      ∙ sym (same_b t))
                    small_b r' qb er' eqb),
          )
