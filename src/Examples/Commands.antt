-- ===== src/Examples/Commands.antt =====
-- The theorems on the wallet's commands, in the small scheme.
use Prim.Native.String.{String}
use fusion_zksnark_circle.Base.{
  ℕ, zero, suc, replicate, ◌≡◌, ◌⊎◌, refl, Option, some, none, List, [], ◌∷◌, ◌++◌, Result, ok,
  arith,
}
use fusion_zksnark_circle.Base.Bytes.{AreBytes, from_big_endian}
use fusion_zksnark_circle.Types.PublicKey
use fusion_zksnark_circle.Types.PublicKey.{PublicKey}
use fusion_zksnark_circle.Config.{Config, default_config}
use fusion_zksnark_circle.Api
use fusion_zksnark_circle.Api.{SignedTx}
use fusion_zksnark_circle.Wallet.{new_public_key, verify_tx_signature}
use fusion_zksnark_circle.Wallet.Cli.{CliTx, send_transfer}
use fusion_zksnark_circle.Wallet.Sending.{cli_of}
use fusion_zksnark_circle.Wallet.Commands.{Outcome, run, transfer, send, new, public, submit}
use fusion_zksnark_circle.Wallet.Commands
use fusion_zksnark_circle.Wallet.Printing.{run-queue, run-new}
use fusion_zksnark_circle.Sequencer.Server
use fusion_zksnark_circle.Examples.Scheme.{
  scheme, scheme_text, scheme_decimal, write, reduce, canonical, compress_point, last_two,
  public_point,
}
use fusion_zksnark_circle.Examples.Keys.{tx, sent, sent_by_cli}

abbrev connected : Config → Option (Result (Unit {0}))
connected config = some (ok tt)

-- A channel that is never closed.
abbrev enqueue : List SignedTx → SignedTx → Option (List SignedTx)
enqueue queue tx = some (queue ++ tx ∷ [])

abbrev drawn : List ℕ
drawn = replicate 31 0 ++ 1 ∷ []

abbrev transferred : Outcome (List SignedTx)
transferred = record { printed = none; sx = sent ∷ [] }

submitted :
    run scheme enqueue connected drawn default_config []
      (send (transfer (cli_of tx (some (write 1)) none)))
    ≡ some (ok transferred)
unfolding run Commands.run_send submit Server.submit_transaction
submitted = rw sent_by_cli refl

run-queue_example :
    (◌≡◌ {A = List SignedTx} transferred.sx [])
    ⊎ ((cli : CliTx) × (t : SignedTx) × (send (transfer (cli_of tx (some (write 1)) none))
          ≡ send (transfer cli))
        × (send_transfer scheme cli ≡ some (ok t))
        × (t.tx.kind ≡ Api.transfer)
        × (verify_tx_signature scheme t ≡ some (ok tt))
        × (enqueue [] t ≡ some (sent ∷ [])))
run-queue_example =
    run-queue scheme enqueue connected drawn default_config []
      (send (transfer (cli_of tx (some (write 1)) none))) transferred submitted

AreBytes-zeros : (n : ℕ) → AreBytes n (replicate n 0)
AreBytes-zeros zero = tt
AreBytes-zeros (suc n) = (omega arith, AreBytes-zeros n)

run-new_example :
    (line : String) × (w : ℕ) × (pk : PublicKey) × (run scheme enqueue connected drawn
        default_config [] new
      ≡ some (ok (record { printed = some line; sx = [] })))
    × (run scheme enqueue connected drawn default_config [] (public line)
        ≡ some (ok (record { printed = some (write w); sx = [] })))
    × (new_public_key scheme (record { key = drawn }) ≡ some pk)
    × (PublicKey.from_u256 scheme w ≡ some pk)
unfolding compress_point public_point last_two canonical reduce from_big_endian
run-new_example =
    run-new scheme_text scheme_decimal enqueue connected drawn default_config []
      (omega arith, AreBytes-zeros 31) refl (omega arith, (omega arith, AreBytes-zeros 30)) refl
