-- ===== src/Examples/Keys.antt =====
-- The theorems on numbers, keys and signatures, in the small scheme.
use fusion_zksnark_circle.Base.{ℕ, zero, suc, replicate, ◌≡◌, refl, none, some, ok, arith}
use fusion_zksnark_circle.Base.Bytes.{AreBytes, to_big_endian, from_big_endian}
use fusion_zksnark_circle.Types.External.{BjjPoint, BjjSignature, pos}
use fusion_zksnark_circle.Types.Field.{to_fr, fr_to_u256}
use fusion_zksnark_circle.Types.PublicKey
use fusion_zksnark_circle.Types.PublicKey.{
  PublicKey, from_babyjubjub_point, to_babyjubjub_point, from_u256-to_u256,
}
use fusion_zksnark_circle.Types.PrivateKey
use fusion_zksnark_circle.Types.PrivateKey.{
  PrivateKey, from_string, to_string, KeepsBytes, to_string-from_string,
}
use fusion_zksnark_circle.Api.{SignedTx, Tx, transfer, kind_to_u256, hash_tx}
use fusion_zksnark_circle.Wallet.{sign, verify_tx_signature, verify_tx_signature-sign}
use fusion_zksnark_circle.Wallet.Cli.{send_transfer}
use fusion_zksnark_circle.Wallet.Sending.{AreWords, cli_of, send_transfer-cli_of}
use fusion_zksnark_circle.Examples.Scheme.{
  Residue, r0, r1, r2, scheme, read-write, write, compress_signature, decompress_signature,
  canonical, reduce, small_number, last_two, public_point, is_signature, read, hash_all,
}

abbrev point : BjjPoint Residue
point = record { x = r1; y = r2 }

pub AreBytes-zeros : (n : ℕ) → AreBytes n (replicate n 0)
AreBytes-zeros zero = tt
AreBytes-zeros (suc n) = (omega arith, AreBytes-zeros n)

keeps : KeepsBytes scheme
keeps bytes long = (bytes, refl, refl)

abbrev signature : BjjSignature Residue
signature = record { r_b8 = record { x = r1; y = r0 }; s = pos 7 }

signature-AreBytes : AreBytes 64 (compress_signature signature)
unfolding compress_signature small_number canonical
signature-AreBytes = (omega arith, (omega arith, (omega arith, AreBytes-zeros 61)))

-- The key 1 has the point (1, 0), whose compressed form ends with the bytes 1 and 0.
abbrev pub tx : Tx
tx = record { kind = transfer; sender = 256; to = 0; nonce = 1; value = 2 }

key_read : from_string scheme (write 1) ≡ some (record { key = to_big_endian 32 1 })
unfolding from_string PrivateKey.from_u256 read write
key_read = refl

sender_point : last_two (to_big_endian 32 256) ≡ some (public_point (to_big_endian 32 1))
unfolding last_two reduce public_point to_big_endian from_big_endian
sender_point = refl

hash_tx-tx : hash_tx scheme tx ≡ some 1
unfolding hash_tx PublicKey.u256_to_babyjubjub_point last_two to_big_endian from_babyjubjub_point
    fr_to_u256 read to_fr PublicKey.public_key_to_fr hash_all write canonical kind_to_u256
hash_tx-tx = refl

verify_tx_signature-sign_example :
    (s : ℕ) × (sign scheme tx (write 1) ≡ some (ok s))
    × (verify_tx_signature scheme (record { tx = tx; signature = write s }) ≡ some (ok tt))
unfolding decompress_signature compress_signature is_signature public_point reduce from_big_endian
    to_big_endian small_number canonical
verify_tx_signature-sign_example =
    verify_tx_signature-sign scheme tx (write 1) (record { key = to_big_endian 32 1 }) 1 signature
      key_read hash_tx-tx sender_point refl refl signature-AreBytes refl (λ n small. read-write n)

pub tx_signed :
    (s : ℕ) × (sign scheme tx (write 1) ≡ some (ok s))
    × (verify_tx_signature scheme (record { tx = tx; signature = write s }) ≡ some (ok tt))
unfolding decompress_signature compress_signature is_signature public_point reduce from_big_endian
    to_big_endian small_number canonical
tx_signed =
    verify_tx_signature-sign scheme tx (write 1) (record { key = to_big_endian 32 1 }) 1 signature
      key_read hash_tx-tx sender_point refl refl signature-AreBytes refl (λ n small. read-write n)

words : AreWords tx
words = record { sender = omega arith; to = omega arith; nonce = omega arith; value = omega arith }

abbrev pub sent : SignedTx
sent = record { tx = tx; signature = write tx_signed.0 }

pub sent_by_cli : send_transfer scheme (cli_of tx (some (write 1)) none) ≡ some (ok sent)
sent_by_cli =
    send_transfer-cli_of scheme tx (write 1) tx_signed.0 words refl tx_signed.1 tx_signed.2
