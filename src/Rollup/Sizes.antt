-- ===== src/Rollup/Sizes.antt =====
-- The sizes that the circuit's program is compiled for (fusion-prover/src/lib.rs, circuits/types.zok).
use fusion_zksnark_circle.Base.{
  ℕ, zero, suc, ◌<◌, ◌≡◌, refl, sym, ap, ◌∙◌, some_injective, >>=-some, some, length, u256_size,
  arith, List, bits, length-bits,
}
use fusion_zksnark_circle.Types.External.{External, BjjPoint, FieldText, pos, negsuc, BigInt}
use fusion_zksnark_circle.Types.Field.{big_int_to_u256, fr_to_u256-canonical}
use fusion_zksnark_circle.Types.PublicKey.{
  Point, PublicKey, from_u256, address, u256_to_babyjubjub_point, from_babyjubjub_point,
  point_from_babyjubjub_point,
}
use fusion_zksnark_circle.Types.Signature.{to_babyjubjub_signature}
use fusion_zksnark_circle.Merkle.BranchKey.{Bitmap, to_bitmap}
use fusion_zksnark_circle.Merkle.Proofs.{proof-siblings, length-siblings}
use fusion_zksnark_circle.Api.{SignedTx}
use fusion_zksnark_circle.Prover.State.{State, root, proof}
use fusion_zksnark_circle.Prover.CircuitInput.{
  CircuitTxSignature, CircuitInput, bits_from, to_vec_bool, signature_of, to_circuit_tx, new_input,
}
use fusion_zksnark_circle.Rollup.Inputs.{to_circuit_tx-parts}

pub record IsWordPoint (p : Point) : Type 0 where
  pub x : p.x < u256_size
  pub y : p.y < u256_size

-- One bit and one hash for each level of the tree, on both paths; the points' coordinates and the
-- signature's number are words.
pub record HasSizes (i : CircuitInput) : Type 0 where
  pub selectors : (length i.direction_selector.0 ≡ 256) × (length i.direction_selector.1 ≡ 256)
  pub pre_paths : (length i.pre_path.0 ≡ 256) × (length i.pre_path.1 ≡ 256)
  pub post_paths : (length i.post_path.0 ≡ 256) × (length i.post_path.1 ≡ 256)
  pub sender : IsWordPoint i.tx.sender
  pub to : IsWordPoint i.tx.to
  pub r : IsWordPoint i.tx.sig.r
  pub s : i.tx.sig.s < u256_size

length-bits_from : (b : Bitmap) (i n : ℕ) → length (bits_from b i n) ≡ n
unfolding bits_from
length-bits_from b i zero = refl
length-bits_from b i (suc n) = ap suc (length-bits_from b (suc i) n)

length-to_vec_bool : (b : Bitmap) → length (to_vec_bool b) ≡ 256
unfolding to_vec_bool
length-to_vec_bool b = length-bits_from b 0 256

length-proof : (s : State) (k : ℕ) {items : List ℕ} → proof s k ≡ some items → length items ≡ 256
unfolding proof to_bitmap bits
length-proof s k {items} e =
    let same = some_injective (sym (proof-siblings s.inner k) ∙ e) in
    ap length (sym same) ∙ length-siblings s.inner 0 (to_bitmap k) ∙ length-bits 256 k

big_int_to_u256-lt : (n : BigInt) {w : ℕ} → big_int_to_u256 n ≡ some w → w < u256_size
unfolding big_int_to_u256
big_int_to_u256-lt (pos n) e = ground (arith, e)
big_int_to_u256-lt (negsuc n) e = cc

module _ {X : External} (text : FieldText X) where
  word_point :
      (p : BjjPoint X.Fr) {q : Point} → point_from_babyjubjub_point X p ≡ some q → IsWordPoint q
  unfolding point_from_babyjubjub_point
  word_point p {q} e =
      let same =
        some_injective (rw (fr_to_u256-canonical text p.x, fr_to_u256-canonical text p.y) at e) in
      rw (← same) (record { x = text.canonical-lt p.x; y = text.canonical-lt p.y })

  word_key : (n : ℕ) {k : PublicKey} → from_u256 X n ≡ some k → IsWordPoint k.point
  unfolding from_u256 from_babyjubjub_point
  word_key n {k} e =
      let (p, d, e₁) = >>=-some (u256_to_babyjubjub_point X n) _ e in
      let (q, f, e₂) = >>=-some (point_from_babyjubjub_point X p) _ e₁ in
      rw (← ap PublicKey.point (some_injective e₂)) (word_point p f)

  word_signature :
      (tx : SignedTx) {sig : CircuitTxSignature}
      → signature_of X tx ≡ some sig
      → IsWordPoint sig.r × (sig.s < u256_size)
  unfolding signature_of
  word_signature tx {sig} e =
      let (b, d, e₁) = >>=-some (to_babyjubjub_signature X tx.signature) _ e in
      let (r, f, e₂) = >>=-some (point_from_babyjubjub_point X b.r_b8) _ e₁ in
      let (n, g, e₃) = >>=-some (big_int_to_u256 b.s) _ e₂ in
      rw (← some_injective e₃) (word_point b.r_b8 f, big_int_to_u256-lt b.s g)

  -- Every input that `CircuitInput::new` builds has 256 directions and 256 hashes on each path, as
  -- the circuit's arrays have, and the coordinates of its keys and of the signature's point, and
  -- the signature's number, are words.
  pub new_input-HasSizes :
      (tx : SignedTx) (s s' : State) (i : CircuitInput) → new_input X tx s s' ≡ some i → HasSizes i
  unfolding new_input
  new_input-HasSizes tx s s' i e =
      let (c, ec, e₀) = >>=-some (to_circuit_tx X tx) _ e in
      let (fk, fk', kind, nonce, value, sig) = to_circuit_tx-parts X tx c ec in
      let (words, small) = word_signature tx sig in
      let (a, ea, e₁) = >>=-some (address X (record { point = c.sender })) _ e₀ in
      let (b, eb, e₂) = >>=-some (address X (record { point = c.to })) _ e₁ in
      let (r, er, e₃) = >>=-some (root X s) _ e₂ in
      let (r', er', e₄) = >>=-some (root X s') _ e₃ in
      let (pa, epa, e₅) = >>=-some (proof s a) _ e₄ in
      let (pb, epb, e₆) = >>=-some (proof s b) _ e₅ in
      let (qa, eqa, e₇) = >>=-some (proof s' a) _ e₆ in
      let (qb, eqb, e₈) = >>=-some (proof s' b) _ e₇ in
      rw (← some_injective e₈) (record {
        selectors = (length-to_vec_bool (to_bitmap a), length-to_vec_bool (to_bitmap b));
        pre_paths = (length-proof s a epa, length-proof s b epb);
        post_paths = (length-proof s' a eqa, length-proof s' b eqb);
        sender = word_key tx.tx.sender fk;
        to = word_key tx.tx.to fk';
        r = words;
        s = small;
      })
