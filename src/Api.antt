-- ===== src/Api.antt =====
-- Transactions (fusion-api/src/lib.rs).
pub mod Tests
use Prim.Native.String.{String}
use fusion_zksnark_circle.Base.{
  ℕ, ◌^◌, ◌≡◌, ◌↔◌, Option, none, some, [], ◌∷◌, ◌==◌, ltb, if◌then◌else◌, ◌>>=◌, unwrap, arith,
}
use fusion_zksnark_circle.Types.External.{External}
use fusion_zksnark_circle.Types.Field.{to_fr, fr_to_u256}
use fusion_zksnark_circle.Types.PublicKey.{
  from_babyjubjub_point, u256_to_babyjubjub_point, public_key_to_fr,
}

pub data TxKind : Type 0 where
  transfer deposit withdraw : TxKind

pub record Tx : Type 0 where
  pub kind : TxKind
  pub sender : ℕ
  pub to : ℕ
  pub nonce : ℕ
  pub value : ℕ

pub record SignedTx : Type 0 where
  pub tx : Tx
  pub signature : String

-- `impl ToU256 for TxKind`
unfoldable pub kind_to_u256 : TxKind → ℕ
kind_to_u256 transfer = 0
kind_to_u256 deposit = 1
kind_to_u256 withdraw = 2

-- `impl From<u8> for TxKind`
unfoldable pub kind_from_u8 : ℕ → Option TxKind
kind_from_u8 k =
    if k == 0
    then some transfer
    else if k == 1
    then some deposit
    else if k == 2
    then some withdraw
    else none

-- `U256::as_u32`, which panics on a number of more than 32 bits.
unfoldable pub as_u32 : ℕ → Option ℕ
as_u32 k = if ltb k (2 ^ 32) then some k else none

-- `impl From<U256> for TxKind`
unfoldable pub kind_from_u256 : ℕ → Option TxKind
unfolding as_u32
kind_from_u256 k = do
  n ← as_u32 k
  if n == 0
      then some transfer
      else if n == 1
      then some deposit
      else if n == 2
      then some withdraw
      else none

-- Both conversions read a number as a kind exactly if it is the number that `kind_to_u256` writes
-- for that kind.
pub kind_from_u256-kind_to_u256 :
    (n : ℕ) (k : TxKind)
    → ((kind_from_u256 n ≡ some k) ↔ (n ≡ kind_to_u256 k))
      × ((kind_from_u8 n ≡ some k) ↔ (n ≡ kind_to_u256 k))
unfolding kind_from_u256 kind_from_u8 kind_to_u256
kind_from_u256-kind_to_u256 n transfer = ground arith
kind_from_u256-kind_to_u256 n deposit = ground arith
kind_from_u256-kind_to_u256 n withdraw = ground arith

module _ (X : External) where
  unfoldable pub hash_tx : Tx → Option ℕ
  hash_tx tx = do
    sender_point ← u256_to_babyjubjub_point X tx.sender
    sender_pk ← from_babyjubjub_point X sender_point
    to_point ← u256_to_babyjubjub_point X tx.to
    to_pk ← from_babyjubjub_point X to_point
    kind ← to_fr X (kind_to_u256 tx.kind)
    sender ← public_key_to_fr X sender_pk
    to ← public_key_to_fr X to_pk
    nonce ← to_fr X tx.nonce
    value ← to_fr X tx.value
    hash ← unwrap (X.poseidon_hash (kind ∷ sender ∷ to ∷ nonce ∷ value ∷ []))
    fr_to_u256 X hash
