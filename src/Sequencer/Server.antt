-- ===== src/Sequencer/Server.antt =====
-- The service that takes transactions (fusion-sequencer/src/server.rs, fusion-api/src/lib.rs). The
-- transport is not modelled. The channel to the sequencer is a parameter, with its operation `send`,
-- for which `none` is an error. Elsewhere `none` is a panic.
use fusion_zksnark_circle.Base.{Option, some, ◌>>=◌, unwrap, Result, ok}
use fusion_zksnark_circle.Api.{SignedTx}

module _ {Sender : Type 0} (send : Sender → SignedTx → Option Sender) where
  unfoldable pub submit_transaction : Sender → SignedTx → Option (Result (Unit {0}) × Sender)
  submit_transaction sx tx = do sx' ← unwrap (send sx tx); some (ok tt, sx')
