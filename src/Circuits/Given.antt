-- ===== src/Circuits/Given.antt =====
-- What the prover gives the state circuit (fusion-prover/src/lib.rs, circuits/merkle_tree.zok) are field
-- elements, and the circuit's tests pass on them.
use fusion_zksnark_circle.Base.{
  ℕ, ◌+◌, ◌<◌, ◌≡◌, ◌≢◌, refl, sym, ap, subst, ◌∙◌, some_injective, >>=-some, true, some, List, [],
  of_bits, arith,
}
use fusion_zksnark_circle.Types.External.{External, FieldText, PoseidonPairs}
use fusion_zksnark_circle.Types.Field.{fr_to_u256-canonical, big_int_to_u256}
use fusion_zksnark_circle.Types.Signature.{to_babyjubjub_signature}
use fusion_zksnark_circle.Types.PublicKey.{
  PublicKey, point_from_babyjubjub_point, from_u256, u256_to_babyjubjub_point,
  from_babyjubjub_point-canonical_key,
}
use fusion_zksnark_circle.Merkle.BranchKey.{to_bitmap}
use fusion_zksnark_circle.Merkle.Paths.{length-to_bitmap}
use fusion_zksnark_circle.Merkle.Sparse.{stored}
use fusion_zksnark_circle.Merkle.Operations.{root_hash-subtree}
use fusion_zksnark_circle.Merkle.Proofs.{siblings, proof-siblings}
use fusion_zksnark_circle.Api.{TxKind, transfer, deposit, withdraw, SignedTx, kind_to_u256}
use fusion_zksnark_circle.Prover.Poseidon.{pair}
use fusion_zksnark_circle.Prover.State.{Account, State, get, root, proof}
use fusion_zksnark_circle.Prover.CircuitInput.{
  CircuitTx, CircuitTxSignature, CircuitInput, signature_of,
}
use fusion_zksnark_circle.Prover.Laws.{IsSound, poseidon_total}
use fusion_zksnark_circle.Sequencer.Transactions.{address_of, apply_tx}
use fusion_zksnark_circle.Sequencer.Validity.{IsWellFormed}
use fusion_zksnark_circle.Sequencer.Replay.{IsAdmissible}
use fusion_zksnark_circle.Circuits.MerkleTree.{
  elements, elements_of, field_tx, field_point, field_account, tests, main,
}
use fusion_zksnark_circle.Circuits.Steps.{Encodes}
use fusion_zksnark_circle.Circuits.Checks.{address_of-parts, input_of, tests-input_of}
use fusion_zksnark_circle.Circuits.Elements.{
  mod-small, field_account-small, stored-lt, subtree-lt, elements-siblings,
}

pub kind-lt : (p : ℕ) → 2 < p → (k : TxKind) → kind_to_u256 k < p
unfolding kind_to_u256
kind-lt p h transfer = omega (arith, h)
kind-lt p h deposit = omega (arith, h)
kind-lt p h withdraw = omega (arith, h)

-- The numbers of a transaction's step that the circuit takes as field elements without a change.
pub record IsElementary (p : ℕ) (s : State) (tx : SignedTx) (a b : ℕ) : Type 0 where
  pub nonce : tx.tx.nonce < p
  pub low : (get s a).balance < p
  pub claimed : tx.tx.kind ≡ deposit → (get s a).balance + tx.tx.value < p
  pub credited : tx.tx.kind ≡ transfer → (get s b).balance + tx.tx.value < p
  pub receiver : tx.tx.kind ≡ transfer → (get s b).nonce < p

module _ {X : External} (text : FieldText X) (pairs : PoseidonPairs X) {p : ℕ}
    (small : (f : X.Fr) → text.canonical f < p) where
  pub pair-lt : (x y : ℕ) → pair text pairs x y < p
  unfolding pair
  pair-lt x y = small _

  pub root-lt : (s : State) (r : ℕ) → IsSound text pairs s → root X s ≡ some r → r < p
  unfolding root poseidon_total
  root-lt s r c e =
      let total = poseidon_total text pairs in
      let same = some_injective (sym (root_hash-subtree total s.inner c) ∙ e) in
      let top =
        subtree-lt total pair-lt (λ q. stored total s.inner (of_bits q))
          (λ q. stored-lt total pair-lt s.inner (of_bits q)) 256 [] in
      subst (λ n. n < p) same top

  pub proof-elements :
      (s : State) (k : ℕ) (items : List ℕ)
      → IsSound text pairs s
      → proof s k ≡ some items
      → elements p items ≡ items
  unfolding proof poseidon_total
  proof-elements s k items c e =
      let same : siblings s.inner 0 (to_bitmap k) ≡ items =
        some_injective (sym (proof-siblings s.inner k) ∙ e) in
      subst (λ l. elements p l ≡ l) same
        (elements-siblings (poseidon_total text pairs) pair-lt s.inner 0 (to_bitmap k) c
          (omega (arith, length-to_bitmap k)))

  pub key-lt :
      (n : ℕ) (key : PublicKey) → from_u256 X n ≡ some key → (key.point.x < p) × (key.point.y < p)
  unfolding from_u256
  key-lt n key e =
      let (q, d, own) = >>=-some (u256_to_babyjubjub_point X n) _ e in
      let same = some_injective (sym (from_babyjubjub_point-canonical_key text q) ∙ own) in
      subst (λ (k : PublicKey). (k.point.x < p) × (k.point.y < p)) same (small q.x, small q.y)

  pub signature-lt :
      (tx : SignedTx) (sig : CircuitTxSignature)
      → signature_of X tx ≡ some sig
      → (sig.r.x < p) × (sig.r.y < p)
  unfolding signature_of point_from_babyjubjub_point
  signature-lt tx sig e =
      let (q, d, e₁) = >>=-some (to_babyjubjub_signature X tx.signature) _ e in
      let read =
        rw (fr_to_u256-canonical text q.r_b8.x, fr_to_u256-canonical text q.r_b8.y) at e₁ in
      let (n, f, own) = >>=-some (big_int_to_u256 q.s) _ read in
      subst (λ (g : CircuitTxSignature). (g.r.x < p) × (g.r.y < p)) (some_injective own)
        (small q.r_b8.x, small q.r_b8.y)

  module _ (nonzero : (x y : ℕ) → pair text pairs x y ≢ 0) (two : 2 < p) (s s' : State)
      (tx : SignedTx) (a b : ℕ) (w : IsWellFormed text pairs s)
      (sender : address_of X tx.tx.sender ≡ some a) (to : address_of X tx.tx.to ≡ some b)
      (ne : a ≢ b) (run : apply_tx X s tx.tx ≡ some s') (small_tx : IsElementary p s tx a b) where
    address-lt : (word : ℕ) {k : ℕ} → address_of X word ≡ some k → k < p
    address-lt word e =
        let (key, f, own, h) = address_of-parts text pairs word e in
        subst (λ n. n < p) h (pair-lt key.point.x key.point.y)

    pub value-lt : IsAdmissible (get s a) tx.tx → (k : TxKind) → tx.tx.kind ≡ k → tx.tx.value < p
    value-lt ok_tx deposit k = omega (arith, small_tx.claimed k)
    value-lt ok_tx transfer k = omega (arith, small_tx.low, ok_tx.covered (λ e. cc))
    value-lt ok_tx withdraw k = omega (arith, small_tx.low, ok_tx.covered (λ e. cc))

    -- What the circuit reads of a transaction and of the receiver's account.
    field_tx-Encodes :
        (c : CircuitTx)
        → Encodes tx.tx c
        → IsAdmissible (get s a) tx.tx
        → Encodes tx.tx (field_tx p c)
    unfolding field_tx
    field_tx-Encodes c e ok_tx = record {
      kind = rw e.kind (mod-small _ p (kind-lt p two tx.tx.kind));
      nonce = rw e.nonce (mod-small _ p small_tx.nonce);
      value = rw e.value (mod-small _ p (value-lt ok_tx tx.tx.kind refl));
    }

    receiver-small : tx.tx.kind ≡ transfer → field_account p (get s b) ≡ get s b
    receiver-small k =
        field_account-small p (get s b) (rw (w.fits b).0 (address-lt tx.tx.to to))
          (omega (arith, small_tx.credited k)) (small_tx.receiver k)

    sender_pair :
        (c : CircuitTx)
        → c.sender.x < p
        → c.sender.y < p
        → pair text pairs (field_tx p c).sender.x (field_tx p c).sender.y
          ≡ pair text pairs c.sender.x c.sender.y
    unfolding field_tx field_point
    sender_pair c x y = rw (mod-small c.sender.x p x, mod-small c.sender.y p y) refl

    to_pair :
        (c : CircuitTx)
        → c.to.x < p
        → c.to.y < p
        → pair text pairs (field_tx p c).to.x (field_tx p c).to.y ≡ pair text pairs c.to.x c.to.y
    unfolding field_tx field_point
    to_pair c x y = rw (mod-small c.to.x p x, mod-small c.to.y p y) refl

    abbrev pub given :
        CircuitTx → Account → ℕ → ℕ → List ℕ × List ℕ → List ℕ × List ℕ → CircuitInput
    given = input_of text pairs nonzero p s s' tx a b w sender to ne run

    given-elements :
        (c : CircuitTx) (to_acc : Account) (r r' : ℕ) (pa pb qa qb : List ℕ)
        → field_account p (get s a) ≡ get s a
        → r < p
        → r' < p
        → elements p pa ≡ pa
        → elements p pb ≡ pb
        → elements p qa ≡ qa
        → elements p qb ≡ qb
        → elements_of p (given c to_acc r r' (pa, pb) (qa, qb))
          ≡ given (field_tx p c) (field_account p to_acc) r r' (pa, pb) (qa, qb)
    unfolding elements_of
    given-elements c to_acc r r' pa pb qa qb own lr lr' ea eb fa fb =
        rw (mod-small r p lr, mod-small r' p lr', own, ea, eb, fa, fb) refl

    module _ (u : State) (v : IsWellFormed text pairs u) (same_a : get u a ≡ get s' a)
        (same_b : tx.tx.kind ≡ transfer → get u b ≡ get s' b) where
      pub main-input_of :
          (c : CircuitTx) (to_acc : Account) (r r' : ℕ) (pa pb qa qb : List ℕ)
          → Encodes tx.tx c
          → (tx.tx.kind ≡ transfer → to_acc ≡ get s b)
          → IsAdmissible (get s a) tx.tx
          → from_u256 X tx.tx.sender ≡ some (record { point = c.sender })
          → from_u256 X tx.tx.to ≡ some (record { point = c.to })
          → pair text pairs c.sender.x c.sender.y ≡ a
          → pair text pairs c.to.x c.to.y ≡ b
          → (root X s ≡ some r) × (proof s a ≡ some pa) × (proof s b ≡ some pb)
          → (root X u ≡ some r') × (proof u a ≡ some qa) × (proof u b ≡ some qb)
          → main (pair text pairs) p (given c to_acc r r' (pa, pb) (qa, qb)) ≡ true
      unfolding main
      main-input_of c to_acc r r' pa pb qa qb e own_to ok_tx key key' ha hb (er, epa, epb)
            (er', eqa, eqb) =
          let d = small_tx in
          let sender_account =
            field_account-small p (get s a) (rw (w.fits a).0 (address-lt tx.tx.sender sender)) d.low
              (omega (arith, ok_tx.fresh, d.nonce)) in
          let (x, y) = key-lt tx.tx.sender (record { point = c.sender }) key in
          let (x', y') = key-lt tx.tx.to (record { point = c.to }) key' in
          let same : elements_of p (given c to_acc r r' (pa, pb) (qa, qb))
              ≡ given (field_tx p c) (field_account p to_acc) r r' (pa, pb) (qa, qb) =
            given-elements c to_acc r r' pa pb qa qb sender_account (root-lt s r w.sound er)
              (root-lt u r' v.sound er') (proof-elements s a pa w.sound epa)
              (proof-elements s b pb w.sound epb) (proof-elements u a qa v.sound eqa)
              (proof-elements u b qb v.sound eqb) in
          ap (tests (pair text pairs) p) same
          ∙ tests-input_of text pairs nonzero p s s' tx a b w sender to ne run u v same_a same_b
              (field_tx p c) (field_account p to_acc) r r' pa pb qa qb (field_tx-Encodes c e ok_tx)
              (λ k. ap (field_account p) (own_to k) ∙ receiver-small k) ok_tx
              (sender_pair c x y ∙ ha) (to_pair c x' y' ∙ hb) (er, epa, epb) (er', eqa, eqb) d.low
              d.claimed d.credited
