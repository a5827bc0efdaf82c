-- ===== src/EndToEnd/Signing.antt =====
-- The keys of the end-to-end tests, and how the tests sign (fusion-sequencer/src/sequencer.rs,
-- fusion-wallet/src/lib.rs).
use mathlib.Core.List.{reverse}
use fusion_zksnark_circle.Base.{
  ℕ, ◌^◌, ◌<◌, ◌≡◌, refl, true, Option, none, some, ◌>>=◌, ltb, arith, ok, err, u256_size,
}
use fusion_zksnark_circle.Base.Bytes.{
  AreBytes, from_big_endian, from_little_endian, from_little_endian-lt,
  to_big_endian-from_big_endian,
}
use fusion_zksnark_circle.Types.External.{
  External, BjjSignature, pos, FieldText, PoseidonLists, DecimalText,
}
use fusion_zksnark_circle.Types.Field.{to_big_int, big_int_to_u256, fr_to_u256-canonical}
use fusion_zksnark_circle.Types.PublicKey.{
  PublicKey, from_u256, to_u256, address, canonical_key, from_babyjubjub_point-canonical_key,
  to_babyjubjub_point-canonical_key, point_from_babyjubjub_point, u256_to_babyjubjub_point,
}
use fusion_zksnark_circle.Types.PrivateKey
use fusion_zksnark_circle.Types.PrivateKey.{PrivateKey}
use fusion_zksnark_circle.Types.Signature.{
  to_babyjubjub_signature, to_babyjubjub_signature-compress,
}
use fusion_zksnark_circle.Api.{Tx, SignedTx, hash_tx}
use fusion_zksnark_circle.Wallet.{
  sign, new_key_pair, verify_tx_signature, new_private_key, new_public_key,
}
use fusion_zksnark_circle.Prover.Poseidon.{pair}
use fusion_zksnark_circle.Prover.CircuitInput.{CircuitTxSignature, signature_of}
use fusion_zksnark_circle.Sequencer.Transactions.{address_of}
use fusion_zksnark_circle.Circuits.Checks.{address-pair, address_of-parts}
use fusion_zksnark_circle.Circuits.Whole.{pairs_of, words_hash, hash_tx-words}

module _ (X : External) where
  -- `fusion_wallet::sign(&tx, sk.to_string()).unwrap()`, and the transaction with its text.
  unfoldable pub sign_tx : PrivateKey X.Key → Tx → Option SignedTx
  sign_tx sk tx = do
    sig ← sign X tx (PrivateKey.to_string X sk)
    elim sig [ ok s ↦ some (record { tx = tx; signature = X.u512_to_string s }) | err e ↦ none ]

-- What the curve's crate does when a key signs the number of a field element: the signature is
-- verified under the public point, survives its compressed form of 64 bytes, and has a word for its
-- scalar.
pub record Signs {X : External} (text : FieldText X) (k : X.Key) (f : X.Fr) : Type 0 where
  pub sig : BjjSignature X.Fr
  pub n : ℕ
  pub made : X.sign_message k (to_big_int (text.canonical f)) ≡ ok sig
  pub holds : X.verify_signature (X.public k) sig (to_big_int (text.canonical f)) ≡ true
  pub bytes : AreBytes 64 (X.compress_signature sig)
  pub back : X.decompress_signature (X.compress_signature sig) ≡ some sig
  pub scalar : sig.s ≡ pos n
  pub small : n < u256_size

-- What it does with a key that it has drawn: the key and its public point survive their 32 bytes, and
-- it signs every field element.
pub record IsKey {X : External} (text : FieldText X) (k : X.Key) : Type 0 where
  pub bytes : AreBytes 32 (reverse (X.key_bytes k))
  pub imported : X.import_key (X.key_bytes k) ≡ some k
  pub point_bytes : AreBytes 32 (reverse (X.compress_point (X.public k)))
  pub point_back : X.decompress_point (X.compress_point (X.public k)) ≡ some (X.public k)
  pub signs : (f : X.Fr) → Signs text k f

-- The decimal text of a number of 512 bits is read back.
abbrev pub WideText : External → Type 0
WideText X = (n : ℕ) → n < 2 ^ 512 → X.u512_from_dec_str (X.u512_to_string n) ≡ some n

module _ {X : External} (text : FieldText X) (lists : PoseidonLists X) (k : X.Key) where
  -- The public key, its word, and its address.
  abbrev pub key_of : PublicKey
  key_of = canonical_key text (X.public k)

  abbrev pub word_of : ℕ
  word_of = from_big_endian (X.compress_point (X.public k))

  abbrev pub place_of : ℕ
  place_of = pair text (pairs_of text lists) key_of.point.x key_of.point.y

  pub new_key_pair-key_of : new_key_pair X k ≡ some (record { key = k }, key_of)
  unfolding new_key_pair new_private_key new_public_key
  new_key_pair-key_of = rw (from_babyjubjub_point-canonical_key text (X.public k)) refl

  pub to_u256-word_of : to_u256 X key_of ≡ some word_of
  unfolding to_u256
  to_u256-word_of = rw (to_babyjubjub_point-canonical_key text (X.public k)) refl

  pub address-place_of : address X key_of ≡ some place_of
  address-place_of = address-pair text (pairs_of text lists) key_of

  module _ (good : IsKey text k) where
    pub decompressed : u256_to_babyjubjub_point X word_of ≡ some (X.public k)
    unfolding u256_to_babyjubjub_point
    decompressed =
        rw (to_big_endian-from_big_endian 32 (X.compress_point (X.public k)) good.point_bytes)
          good.point_back

    pub from_u256-word_of : from_u256 X word_of ≡ some key_of
    unfolding from_u256
    from_u256-word_of = rw decompressed (from_babyjubjub_point-canonical_key text (X.public k))

    pub address_of-word_of : address_of X word_of ≡ some place_of
    unfolding address_of
    address_of-word_of = rw from_u256-word_of address-place_of

    pub hashed :
        (tx : Tx) {b : ℕ}
        → tx.sender ≡ word_of
        → address_of X tx.to ≡ some b
        → (f : X.Fr) × (hash_tx X tx ≡ some (text.canonical f))
    unfolding words_hash
    hashed tx sender to =
        let (key', read, own, at) = address_of-parts text (pairs_of text lists) tx.to to in
        (_, hash_tx-words text lists tx key_of.point key'.point (rw sender from_u256-word_of) read)

    pub read_back :
        (f : X.Fr) (r : Signs text k f)
        → WideText X
        → to_babyjubjub_signature X
            (X.u512_to_string (from_little_endian (X.compress_signature r.sig)))
          ≡ some r.sig
    read_back f r wide =
        to_babyjubjub_signature-compress X r.sig r.bytes r.back
          (wide _ (from_little_endian-lt 64 (X.compress_signature r.sig) r.bytes))

    circuit_signature :
        (f : X.Fr) (r : Signs text k f) (m : SignedTx)
        → to_babyjubjub_signature X m.signature ≡ some r.sig
        → (sig : CircuitTxSignature) × (signature_of X m ≡ some sig)
    unfolding signature_of point_from_babyjubjub_point big_int_to_u256
    circuit_signature f r m read =
        let fits : ltb r.n u256_size ≡ true = ground (arith, r.small) in
        (
          record {
            r = record { x = text.canonical r.sig.r_b8.x; y = text.canonical r.sig.r_b8.y };
            s = r.n;
          },
          rw
              (
                read,
                fr_to_u256-canonical text r.sig.r_b8.x,
                fr_to_u256-canonical text r.sig.r_b8.y,
                r.scalar,
                fits,
              )
              refl,
        )

    -- The key signs every transaction from its word to a word with an address: the signature is
    -- verified, and the circuit's input takes it.
    pub sign_tx-verified :
        (tx : Tx) {b : ℕ}
        → DecimalText X
        → WideText X
        → tx.sender ≡ word_of
        → address_of X tx.to ≡ some b
        → (m : SignedTx) × (sign_tx X (record { key = k }) tx ≡ some m)
          × (m.tx ≡ tx)
          × (verify_tx_signature X m ≡ some (ok tt))
          × (sig : CircuitTxSignature) × (signature_of X m ≡ some sig)
    unfolding sign_tx sign verify_tx_signature
    sign_tx-verified tx decimal wide sender to =
        let (f, hash) = hashed tx sender to in
        let r = good.signs f in
        let m : SignedTx = record {
          tx = tx;
          signature = X.u512_to_string (from_little_endian (X.compress_signature r.sig));
        } in
        let (sig, own) = circuit_signature f r m (read_back f r wide) in
        let point : u256_to_babyjubjub_point X tx.sender ≡ some (X.public k) =
          rw sender decompressed in
        let key_text = PrivateKey.from_string-to_string X decimal k good.bytes good.imported in
        (
          m,
          rw (key_text, hash, r.made) refl,
          refl,
          rw (point, read_back f r wide, hash, r.holds) refl,
          sig,
          own,
        )
