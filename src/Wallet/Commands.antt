-- ===== src/Wallet/Commands.antt =====
-- `main` of the wallet (fusion-wallet/src/main.rs): its commands. Connecting to the server is a
-- parameter, and so are the server's channel and the key that is drawn. `none` is a panic.
use Prim.Native.String.{String}
use fusion_zksnark_circle.Base.{Option, none, some, ◌>>=◌, Result, ok, err}
use fusion_zksnark_circle.Types.External.{External}
use fusion_zksnark_circle.Types.PrivateKey
use fusion_zksnark_circle.Config.{Config}
use fusion_zksnark_circle.Api.{SignedTx}
use fusion_zksnark_circle.Wallet.{new_private_key}
use fusion_zksnark_circle.Wallet.Cli.{CliTx, print_public, print_signature, verify, send_transfer}
use fusion_zksnark_circle.Sequencer.Server.{submit_transaction}

pub data SendSubcommands : Type 0 where
  transfer : CliTx → SendSubcommands
  deposit : CliTx → SendSubcommands
  withdraw : CliTx → SendSubcommands

pub data Subcommands : Type 0 where
  new : Subcommands
  public : String → Subcommands
  sign : CliTx → Subcommands
  send : SendSubcommands → Subcommands
  verify_tx : CliTx → Subcommands

-- What a command has printed, and the server's channel behind it.
pub record Outcome (Sender : Type 0) : Type 0 where
  pub printed : Option String
  pub sx : Sender

module _ (X : External) {Sender : Type 0} (enqueue : Sender → SignedTx → Option Sender)
    (connect : Config → Option (Result (Unit {0}))) (drawn : X.Key) (config : Config)
    (sx : Sender) where
  abbrev print : String → Option (Result (Outcome Sender))
  print line = some (ok (record { printed = some line; sx = sx }))

  abbrev silent : Sender → Option (Result (Outcome Sender))
  silent sx' = some (ok (record { printed = none; sx = sx' }))

  -- The end of `send`, from the connection on; both `unwrap`s are of the server's answer.
  unfoldable pub submit : SignedTx → Option (Result (Outcome Sender))
  submit tx = do
    connected ← connect config
    elim connected [
      | err e ↦ some (err e)
      | ok _ ↦ do
        (answer, sx') ← submit_transaction enqueue sx tx
        elim answer [ ok _ ↦ silent sx' | err e ↦ none ]
    ]

  unfoldable pub run_send : SendSubcommands → Option (Result (Outcome Sender))
  unfolding submit
  run_send (transfer cli) = do
    sent ← send_transfer X cli
    elim sent [ err e ↦ some (err e) | ok tx ↦ submit tx ]
  run_send (deposit cli) = silent sx
  run_send (withdraw cli) = silent sx

  unfoldable pub run : Subcommands → Option (Result (Outcome Sender))
  unfolding run_send
  run new = print (PrivateKey.to_string X (new_private_key X drawn))
  run (public private_key) = do k ← print_public X private_key; print (X.to_string k)
  run (sign cli) = do signature ← print_signature X cli; print (X.u512_to_string signature)
  run (send sub) = run_send sub
  run (verify_tx cli) = do _ ← verify X cli; silent sx
