-- ===== src/Wallet/Sending.antt =====
-- What the commands of the wallet read, and what `send` lets through (fusion-wallet/src/main.rs).
use Prim.Native.String.{String}
use fusion_zksnark_circle.Base.{
  ℕ, ◌<◌, ◌≡◌, refl, sym, ap, subst, ◌∙◌, Option, some, none, u256_size, Result, ok, err,
  some_injective, Option-cases, inl, inr, arith,
}
use fusion_zksnark_circle.Types.External.{External}
use fusion_zksnark_circle.Types.Field.{to_big_int, big_int_to_u256, big_int_to_u256-to_big_int}
use fusion_zksnark_circle.Api.{
  TxKind, transfer, deposit, withdraw, Tx, SignedTx, kind_to_u256, kind_from_u8,
}
use fusion_zksnark_circle.Wallet.{sign, verify_tx_signature}
use fusion_zksnark_circle.Wallet.Cli.{
  CliTx, to_transfer_tx, to_signed_tx, unwrap_ok, signature_for, send, send_transfer,
}

-- The arguments that spell a transaction out.
abbrev pub cli_of : Tx → Option String → Option String → CliTx
cli_of tx private_key signature = record {
  private_key = private_key;
  sender = to_big_int tx.sender;
  to = to_big_int tx.to;
  value = to_big_int tx.value;
  nonce = to_big_int tx.nonce;
  kind = some (kind_to_u256 tx.kind);
  signature = signature;
}

pub record AreWords (tx : Tx) : Type 0 where
  pub sender : tx.sender < u256_size
  pub to : tx.to < u256_size
  pub nonce : tx.nonce < u256_size
  pub value : tx.value < u256_size

kind_from_u8-kind_to_u256 : (k : TxKind) → kind_from_u8 (kind_to_u256 k) ≡ some k
unfolding kind_from_u8 kind_to_u256
kind_from_u8-kind_to_u256 transfer = refl
kind_from_u8-kind_to_u256 deposit = refl
kind_from_u8-kind_to_u256 withdraw = refl

-- The arguments that spell a transaction of words out are read back as that transaction with its
-- signature.
pub to_signed_tx-cli_of :
    (tx : Tx) (private_key : Option String) (signature : String)
    → AreWords tx
    → to_signed_tx (cli_of tx private_key (some signature))
      ≡ some (record { tx = tx; signature = signature })
unfolding to_signed_tx
to_signed_tx-cli_of tx private_key signature small = rw (
  big_int_to_u256-to_big_int tx.sender small.sender,
  big_int_to_u256-to_big_int tx.to small.to,
  big_int_to_u256-to_big_int tx.nonce small.nonce,
  big_int_to_u256-to_big_int tx.value small.value,
  kind_from_u8-kind_to_u256 tx.kind,
)

to_transfer_tx-cli_of :
    (tx : Tx) (private_key signature : Option String)
    → AreWords tx
    → tx.kind ≡ transfer
    → to_transfer_tx (cli_of tx private_key signature) ≡ some tx
unfolding to_transfer_tx
to_transfer_tx-cli_of tx private_key signature small kind =
    rw
      (
        big_int_to_u256-to_big_int tx.sender small.sender,
        big_int_to_u256-to_big_int tx.to small.to,
        big_int_to_u256-to_big_int tx.nonce small.nonce,
        big_int_to_u256-to_big_int tx.value small.value,
      )
      (ap (λ k. some (record tx { kind = k })) (sym kind))

passed :
    (r : Result (Unit {0})) (t tx : SignedTx)
    → (elim r [ ok _ ↦ ok t | err e ↦ err e ]) ≡ ok tx
    → (t ≡ tx) × (r ≡ ok tt)
passed (ok u) t tx e = (ground (arith, e), refl)
passed (err m) t tx e = absurd (ground (arith, e))

module _ (X : External) where
  send-verified :
      (t tx : SignedTx)
      → send X t ≡ some (ok tx)
      → (t ≡ tx) × (verify_tx_signature X t ≡ some (ok tt))
  unfolding send
  send-verified t tx e = elim (Option-cases (verify_tx_signature X t)) [
    | inl n ↦ absurd (ground (arith, n))
    | inr (r, v) ↦
        let (same, good) = passed r t tx (some_injective (rw v at e)) in (same, v ∙ ap some good)
  ]

  transfer_of : (cli : CliTx) (t : Tx) → to_transfer_tx cli ≡ some t → t.kind ≡ transfer
  unfolding to_transfer_tx
  transfer_of cli t e = ground (
    arith,
    Option-cases (big_int_to_u256 cli.sender),
    Option-cases (big_int_to_u256 cli.to),
    Option-cases (big_int_to_u256 cli.nonce),
    Option-cases (big_int_to_u256 cli.value),
  )

  -- Whatever `send transfer` submits is a transfer, and its signature has been verified.
  pub send_transfer-transfer :
      (cli : CliTx) (tx : SignedTx)
      → send_transfer X cli ≡ some (ok tx)
      → (tx.tx.kind ≡ transfer) × (verify_tx_signature X tx ≡ some (ok tt))
  unfolding send_transfer
  send_transfer-transfer cli tx e = elim (Option-cases (to_transfer_tx cli)) [
    | inl n ↦ absurd (ground (arith, n))
    | inr (t, k) ↦ elim (Option-cases (signature_for X cli t)) [
      | inl n ↦ absurd (ground (arith, n, k))
      | inr (signature, g) ↦
          let (same, good) =
            send-verified (record { tx = t; signature = signature }) tx (rw (k, g) at e) in
          (
            sym (ap (λ u. u.tx.kind) same) ∙ transfer_of cli t k,
            subst (λ u. verify_tx_signature X u ≡ some (ok tt)) same good,
          )
    ]
  ]

  -- If the arguments spell out a transfer of words without a signature, and `sign` signs it with
  -- their private key such that `verify_tx_signature` accepts the signature's text, then `send
  -- transfer` submits the transfer with that text.
  pub send_transfer-cli_of :
      (tx : Tx) (private_key : String) (s : ℕ)
      → AreWords tx
      → tx.kind ≡ transfer
      → sign X tx private_key ≡ some (ok s)
      → verify_tx_signature X (record { tx = tx; signature = X.u512_to_string s }) ≡ some (ok tt)
      → send_transfer X (cli_of tx (some private_key) none)
        ≡ some (ok (record { tx = tx; signature = X.u512_to_string s }))
  unfolding send_transfer send signature_for unwrap_ok
  send_transfer-cli_of tx private_key s small kind signed verified =
      rw (to_transfer_tx-cli_of tx (some private_key) none small kind, signed, verified)
