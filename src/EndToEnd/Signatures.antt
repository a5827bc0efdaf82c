-- ===== src/EndToEnd/Signatures.antt =====
-- The test `signatures` of the wallet (fusion-wallet/src/lib.rs), for any two keys. It returns the two
-- verdicts that it makes assertions of.
use fusion_zksnark_circle.Base.{
  ℕ, ◌≡◌, ◌≢◌, refl, ap, ◌∙◌, sym, false, Option, some, ◌>>=◌, Result, ok, err,
}
use fusion_zksnark_circle.Types.External.{External, FieldText, PoseidonLists, DecimalText}
use fusion_zksnark_circle.Types.Field.{to_big_int}
use fusion_zksnark_circle.Types.PublicKey.{to_u256}
use fusion_zksnark_circle.Types.PrivateKey
use fusion_zksnark_circle.Api.{transfer, Tx, hash_tx}
use fusion_zksnark_circle.Wallet.{sign, new_key_pair, verify_tx_signature}
use fusion_zksnark_circle.EndToEnd.Signing.{
  sign_tx, IsKey, WideText, word_of, new_key_pair-key_of, to_u256-word_of, address_of-word_of,
  decompressed, hashed, read_back,
}

-- The transaction of the test, with its nonce.
abbrev tx_of : ℕ → ℕ → ℕ → Tx
tx_of sender to nonce = record {
  kind = transfer;
  sender = sender;
  to = to;
  nonce = nonce;
  value = 0;
}

unfoldable signatures_test :
    (X : External) → X.Key → X.Key → Option (Result (Unit {0}) × Result (Unit {0}))
signatures_test X drawn_1 drawn_2 = do
  (sk_1, pk_1) ← new_key_pair X drawn_1
  (sk_2, pk_2) ← new_key_pair X drawn_2
  sender ← to_u256 X pk_1
  to ← to_u256 X pk_2
  signed_tx ← sign_tx X sk_1 (tx_of sender to 1)
  before ← verify_tx_signature X signed_tx
  after ← verify_tx_signature X (record signed_tx { tx = record signed_tx.tx { nonce = 3 } })
  some (before, after)

module _ {X : External} (text : FieldText X) (lists : PoseidonLists X) (decimal : DecimalText X)
    (wide : WideText X) where
  -- The test passes for any two keys, if the transactions with the nonces 1 and 3 have different
  -- hashes, and the first key's signature of one field element is not verified for another: the
  -- signed transaction is verified, and with the other nonce it is refused.
  signatures_test-passes :
      (k_1 k_2 : X.Key) (good_1 : IsKey text k_1)
      → IsKey text k_2
      → hash_tx X (tx_of (word_of text lists k_1) (word_of text lists k_2) 1)
        ≢ hash_tx X (tx_of (word_of text lists k_1) (word_of text lists k_2) 3)
      → ((f g : X.Fr)
          → text.canonical f ≢ text.canonical g
          → X.verify_signature (X.public k_1) (good_1.signs f).sig (to_big_int (text.canonical g))
            ≡ false)
      → signatures_test X k_1 k_2 ≡ some (ok tt, err "Invalid signature.")
  unfolding signatures_test sign_tx sign verify_tx_signature
  signatures_test-passes k_1 k_2 good_1 good_2 other refused =
      let to = address_of-word_of text lists k_2 good_2 in
      let sender = word_of text lists k_1 in
      let (f, hash) =
        hashed text lists k_1 good_1 (tx_of sender (word_of text lists k_2) 1) refl to in
      let (g, hash') =
        hashed text lists k_1 good_1 (tx_of sender (word_of text lists k_2) 3) refl to in
      let r = good_1.signs f in
      let no = refused f g (λ e. other (hash ∙ ap some e ∙ sym hash')) in
      let key_text = PrivateKey.from_string-to_string X decimal k_1 good_1.bytes good_1.imported in
      rw
        (
          new_key_pair-key_of text lists k_1,
          new_key_pair-key_of text lists k_2,
          to_u256-word_of text lists k_1,
          to_u256-word_of text lists k_2,
          key_text,
          hash,
          r.made,
          decompressed text lists k_1 good_1,
          read_back text lists k_1 good_1 f r wide,
          hash,
          r.holds,
          hash',
          no,
        )
        refl
