-- ===== src/Api/Tests.antt =====
-- The test `hash` of fusion-api/src/lib.rs, with the text of the key's word as an argument. It returns
-- the hash.
use Prim.Native.String.{String}
use fusion_zksnark_circle.Base.{ℕ, ◌<◌, ◌≡◌, Option, some, [], ◌∷◌, ◌>>=◌, unwrap, u256_size}
use fusion_zksnark_circle.Types.External.{External, FieldText, PoseidonLists, DecimalText}
use fusion_zksnark_circle.Types.PublicKey.{Point, from_u256}
use fusion_zksnark_circle.Api.{transfer, Tx, kind_to_u256, hash_tx}
use fusion_zksnark_circle.Circuits.Whole.{words_hash, hash_tx-words}

unfoldable hash_test : (X : External) → String → Option ℕ
hash_test X key_text = do
  sender ← unwrap (X.from_dec_str key_text)
  to ← unwrap (X.from_dec_str key_text)
  let tx : Tx = record { sender = sender; to = to; nonce = 0; value = 0; kind = transfer }
  hash_tx X tx

-- For a word that is read as a public key with the point p, the hash is that of the kind's 0, the
-- hash of the point twice, and the two zeros.
hash_test-words :
    {X : External} (text : FieldText X) (lists : PoseidonLists X) (decimal : DecimalText X) (n : ℕ)
    (p : Point)
    → n < u256_size
    → from_u256 X n ≡ some (record { point = p })
    → hash_test X (X.to_string n)
      ≡ some (
          words_hash text lists (
            0
            ∷ words_hash text lists (p.x ∷ p.y ∷ [])
            ∷ words_hash text lists (p.x ∷ p.y ∷ [])
            ∷ 0
            ∷ 0
            ∷ []))
unfolding hash_test kind_to_u256
hash_test-words text lists decimal n p small key = rw (decimal n small) (
    hash_tx-words text lists (record { sender = n; to = n; nonce = 0; value = 0; kind = transfer })
      p p key key)
