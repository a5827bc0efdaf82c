-- ===== src/Wallet/Printing.antt =====
-- What the wallet's commands print is what its commands read, and what they submit
-- (fusion-wallet/src/main.rs).
use Prim.Native.String.{String}
use mathlib.Core.List.{reverse}
use fusion_zksnark_circle.Base.{
  ℕ, ◌≡◌, ◌⊎◌, refl, sym, ap, ◌∙◌, inl, inr, some_injective, >>=-some, Option, some, Result, ok,
}
use fusion_zksnark_circle.Base.Bytes.{AreBytes}
use fusion_zksnark_circle.Types.External.{External, FieldText, DecimalText}
use fusion_zksnark_circle.Types.PrivateKey
use fusion_zksnark_circle.Types.PublicKey
use fusion_zksnark_circle.Types.PublicKey.{PublicKey}
use fusion_zksnark_circle.Config.{Config}
use fusion_zksnark_circle.Api
use fusion_zksnark_circle.Api.{SignedTx}
use fusion_zksnark_circle.Wallet.{new_private_key, new_public_key, verify_tx_signature}
use fusion_zksnark_circle.Wallet.Cli.{CliTx, print_public, print_signature, verify, send_transfer}
use fusion_zksnark_circle.Wallet.Sending.{send_transfer-transfer}
use fusion_zksnark_circle.Wallet.Commands.{
  Subcommands, Outcome, submit, run_send, run, transfer, deposit, withdraw, send, new, public, sign,
  verify_tx,
}
use fusion_zksnark_circle.Sequencer.Replay.{Result-cases}
use fusion_zksnark_circle.Sequencer.Server.{submit_transaction}

outcome : {Sender : Type 0} {p q : Outcome Sender} → some (ok p) ≡ some (ok q) → q.sx ≡ p.sx
outcome {Sender} {p} {q} e = let same : p ≡ q = cc in sym (ap Outcome.sx same)

submit_transaction-done :
    {Sender : Type 0} (enqueue : Sender → SignedTx → Option Sender) (sx sx' : Sender)
    (tx : SignedTx) (answer : Result (Unit {0}))
    → submit_transaction enqueue sx tx ≡ some (answer, sx')
    → (answer ≡ ok tt) × (enqueue sx tx ≡ some sx')
unfolding submit_transaction
submit_transaction-done enqueue sx sx' tx answer e =
    let (next, q, e₁) = >>=-some (enqueue sx tx) _ e in
    let same = some_injective e₁ in (sym (ap (λ t. t.0) same), q ∙ ap (λ t. some t.1) same)

module _ (X : External) {Sender : Type 0} (enqueue : Sender → SignedTx → Option Sender)
    (connect : Config → Option (Result (Unit {0}))) (drawn : X.Key) (config : Config)
    (sx : Sender) where
  submit-queue :
      (tx : SignedTx) (o : Outcome Sender)
      → submit X enqueue connect drawn config sx tx ≡ some (ok o)
      → enqueue sx tx ≡ some o.sx
  unfolding submit
  submit-queue tx o e =
      let (r, c, e₁) = >>=-some (connect config) _ e in
      elim (Result-cases r) [
        | inr (why, k) ↦ absurd (cc (rw k at e₁))
        | inl (u, k) ↦
            let ((answer, sx'), s, e₂) =
              >>=-some (submit_transaction enqueue sx tx) _ (rw k at e₁) in
            let (same, sent) = submit_transaction-done enqueue sx sx' tx answer s in
            sent ∙ ap some (sym (outcome (rw same at e₂)))
      ]

  -- A command that returns without an error leaves the server's channel as it was, unless it is
  -- `send transfer`: then what it put on the channel is one transfer, the one that its arguments
  -- make, and the transfer's signature has been verified.
  pub run-queue :
      (sub : Subcommands) (o : Outcome Sender)
      → run X enqueue connect drawn config sx sub ≡ some (ok o)
      → (o.sx ≡ sx)
        ⊎ ((cli : CliTx) × (tx : SignedTx) × (sub ≡ send (transfer cli))
            × (send_transfer X cli ≡ some (ok tx))
            × (tx.tx.kind ≡ Api.transfer)
            × (verify_tx_signature X tx ≡ some (ok tt))
            × (enqueue sx tx ≡ some o.sx))
  unfolding run run_send
  run-queue new o e = inl (outcome e)
  run-queue (public private_key) o e =
      let (k, p, e₁) = >>=-some (print_public X private_key) _ e in inl (outcome e₁)
  run-queue (sign cli) o e =
      let (k, p, e₁) = >>=-some (print_signature X cli) _ e in inl (outcome e₁)
  run-queue (send (transfer cli)) o e =
      let (r, t, e₁) = >>=-some (send_transfer X cli) _ e in
      elim (Result-cases r) [
        | inr (why, k) ↦ absurd (cc (rw k at e₁))
        | inl (tx, k) ↦
            let sent : send_transfer X cli ≡ some (ok tx) = t ∙ ap some k in
            let (kind, verified) = send_transfer-transfer X cli tx sent in
            inr (cli, tx, refl, sent, kind, verified, submit-queue tx o (rw k at e₁))
      ]
  run-queue (send (deposit cli)) o e = inl (outcome e)
  run-queue (send (withdraw cli)) o e = inl (outcome e)
  run-queue (verify_tx cli) o e = let (u, v, e₁) = >>=-some (verify X cli) _ e in inl (outcome e₁)

module _ {X : External} (text : FieldText X) (decimal : DecimalText X) {Sender : Type 0}
    (enqueue : Sender → SignedTx → Option Sender) (connect : Config → Option (Result (Unit {0})))
    (drawn : X.Key) (config : Config) (sx : Sender)
    (key_bytes : AreBytes 32 (reverse (X.key_bytes drawn)))
    (imported : X.import_key (X.key_bytes drawn) ≡ some drawn) where
  -- `new` prints a line for the key that was drawn, and `public` reads the line and prints the text
  -- of a word that reads as the key's public key, if the bytes of the key are 32 and are imported
  -- as the key, its point is compressed into 32 bytes that are decompressed to it, and decimal
  -- texts are read back.
  pub run-new :
      AreBytes 32 (reverse (X.compress_point (X.public drawn)))
      → X.decompress_point (X.compress_point (X.public drawn)) ≡ some (X.public drawn)
      → (line : String) × (w : ℕ) × (pk : PublicKey) × (run X enqueue connect drawn config sx new
          ≡ some (ok (record { printed = some line; sx = sx })))
        × (run X enqueue connect drawn config sx (public line)
            ≡ some (ok (record { printed = some (X.to_string w); sx = sx })))
        × (new_public_key X (record { key = drawn }) ≡ some pk)
        × (PublicKey.from_u256 X w ≡ some pk)
  unfolding run print_public new_private_key new_public_key
  run-new bytes back =
      let (pk, w, made, unmade, word, read) =
        PublicKey.from_u256-to_u256 text (X.public drawn) bytes back in
      (
        PrivateKey.to_string X (record { key = drawn }),
        w,
        pk,
        refl,
        rw (PrivateKey.from_string-to_string X decimal drawn key_bytes imported, made, word) refl,
        made,
        read,
      )
