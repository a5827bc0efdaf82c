-- ===== src/Wallet/Cli.antt =====
-- The wallet's command line (fusion-wallet/src/main.rs): the conversions of its arguments, and what
-- each command signs, verifies and sends. `none` is a panic.
use Prim.Native.String.{String}
use fusion_zksnark_circle.Base.{ℕ, Option, some, none, ◌>>=◌, unwrap, Result, ok, err}
use fusion_zksnark_circle.Types.External.{External, BigInt}
use fusion_zksnark_circle.Types.Field.{big_int_to_u256}
use fusion_zksnark_circle.Types.PrivateKey
use fusion_zksnark_circle.Types.PublicKey
use fusion_zksnark_circle.Api.{transfer, Tx, SignedTx, kind_from_u8}
use fusion_zksnark_circle.Wallet.{sign, verify_tx_signature, new_public_key}

pub record CliTx : Type 0 where
  pub private_key : Option String
  pub sender : BigInt
  pub to : BigInt
  pub value : BigInt
  pub nonce : BigInt
  pub kind : Option ℕ
  pub signature : Option String

-- `impl From<CLITx> for TransferTx`
unfoldable pub to_transfer_tx : CliTx → Option Tx
to_transfer_tx cli = do
  sender ← big_int_to_u256 cli.sender
  to ← big_int_to_u256 cli.to
  nonce ← big_int_to_u256 cli.nonce
  value ← big_int_to_u256 cli.value
  some (record { kind = transfer; sender = sender; to = to; nonce = nonce; value = value })

-- `impl From<CLITx> for Tx`
unfoldable pub to_tx : CliTx → Option Tx
to_tx cli = do
  sender ← big_int_to_u256 cli.sender
  to ← big_int_to_u256 cli.to
  nonce ← big_int_to_u256 cli.nonce
  value ← big_int_to_u256 cli.value
  k ← unwrap cli.kind
  kind ← kind_from_u8 k
  some (record { kind = kind; sender = sender; to = to; nonce = nonce; value = value })

-- `impl From<CLITx> for SignedTx`
unfoldable pub to_signed_tx : CliTx → Option SignedTx
unfolding to_tx
to_signed_tx cli = do
  tx ← to_tx cli
  signature ← unwrap cli.signature
  some (record { tx = tx; signature = signature })

-- A result that has to be one of success.
unfoldable pub unwrap_ok : {A : Type 0} → Result A → Option A
unwrap_ok (ok a) = some a
unwrap_ok (err e) = none

module _ (X : External) where
  open X use {u512_to_string}

  -- The number that `public` prints.
  unfoldable pub print_public : String → Option ℕ
  print_public private_key = do
    sk ← PrivateKey.from_string X private_key
    pk ← new_public_key X sk
    PublicKey.to_u256 X pk

  -- The number that `sign` prints.
  unfoldable pub print_signature : CliTx → Option ℕ
  unfolding to_tx unwrap_ok
  print_signature cli = do
    tx ← to_tx cli
    private_key ← unwrap cli.private_key
    signed ← sign X tx private_key
    unwrap_ok signed

  -- `verify`
  unfoldable pub verify : CliTx → Option (Unit {0})
  unfolding to_signed_tx unwrap_ok
  verify cli = do tx ← to_signed_tx cli; verified ← verify_tx_signature X tx; unwrap_ok verified

  -- The given signature, or the text of a new one.
  unfoldable pub signature_for : CliTx → Tx → Option String
  unfolding unwrap_ok
  signature_for cli tx = elim cli.signature [
    | some given ↦ some given
    | none ↦ do
      private_key ← unwrap cli.private_key
      signed ← sign X tx private_key
      signature ← unwrap_ok signed
      some (u512_to_string signature)
  ]

  -- `send` up to the message that it submits to the server.
  unfoldable pub send : SignedTx → Option (Result SignedTx)
  send tx = do
    verified ← verify_tx_signature X tx
    some (elim verified [ ok _ ↦ ok tx | err e ↦ err e ])

  -- `send transfer`
  unfoldable pub send_transfer : CliTx → Option (Result SignedTx)
  unfolding to_transfer_tx signature_for send
  send_transfer cli = do
    tx ← to_transfer_tx cli
    signature ← signature_for cli tx
    send (record { tx = tx; signature = signature })
