-- ===== src/Sequencer/Transactions.antt =====
-- `validate_tx` and `apply_tx` (fusion-sequencer/src/sequencer.rs). `none` is a panic: a point that is
-- not decompressed, or a sum or difference of words that does not fit.
use fusion_zksnark_circle.Base.{
  ℕ, Bool, true, false, Option, some, ltb, leb, ◌==◌, ◌&&◌, if◌then◌else◌, ◌>>=◌, Result, ok, err,
  checked_add, checked_sub,
}
use fusion_zksnark_circle.Types.External.{External}
use fusion_zksnark_circle.Types.PublicKey.{from_u256, address}
use fusion_zksnark_circle.Api.{TxKind, transfer, deposit, withdraw, Tx, SignedTx}
use fusion_zksnark_circle.Wallet
use fusion_zksnark_circle.Prover.State.{Account, State, new_account, get, update}

-- `matches!(tx.tx.kind, TxKind::Transfer)`
unfoldable pub is_transfer : TxKind → Bool
is_transfer transfer = true
is_transfer deposit = false
is_transfer withdraw = false

-- `matches!(tx.tx.kind, TxKind::Transfer | TxKind::Withdraw)`
unfoldable pub is_spending : TxKind → Bool
is_spending transfer = true
is_spending deposit = false
is_spending withdraw = true

-- The tests of `validate_tx` on the sender's account, behind the signature.
unfoldable pub check_account : Account → Tx → Result (Unit {0})
unfolding is_transfer is_spending
check_account account tx =
    if is_transfer tx.kind && tx.sender == tx.to
    then err "Tx to self"
    else if is_spending tx.kind && ltb account.balance tx.value
    then err "Insufficient balance"
    else if leb tx.nonce account.nonce
    then err "Nonce too low"
    else ok tt

-- The new account of the sender.
unfoldable pub new_sender : ℕ → Account → Tx → Option Account
new_sender addr account tx = elim tx.kind [
  | deposit ↦ do
    balance ← checked_add account.balance tx.value
    some (new_account addr balance tx.nonce)
  | transfer ↦ do
    balance ← checked_sub account.balance tx.value
    some (new_account addr balance tx.nonce)
  | withdraw ↦ do
    balance ← checked_sub account.balance tx.value
    some (new_account addr balance tx.nonce)
]

-- The new account of the receiver.
unfoldable pub new_to : ℕ → Account → Tx → Option Account
new_to addr account tx = elim tx.kind [
  | transfer ↦ do
    balance ← checked_add account.balance tx.value
    some (new_account addr balance account.nonce)
  | withdraw ↦ some account
  | deposit ↦ some account
]

module _ (X : External) where
  -- The address of a compressed public key.
  unfoldable pub address_of : ℕ → Option ℕ
  address_of word = do pk ← from_u256 X word; address X pk

  -- `verify_tx_signature`, the wallet's
  unfoldable pub verify_tx_signature : SignedTx → Option (Result (Unit {0}))
  verify_tx_signature tx = Wallet.verify_tx_signature X tx

  unfoldable pub validate_tx : State → SignedTx → Option (Result (Unit {0}))
  unfolding verify_tx_signature check_account
  validate_tx state tx = do
    verified ← verify_tx_signature tx
    elim verified [
      | err e ↦ some (err e)
      | ok _ ↦ do
        sender_addr ← address_of tx.tx.sender
        some (check_account (get state sender_addr) tx.tx)
    ]

  unfoldable pub apply_tx : State → Tx → Option State
  apply_tx state tx = do
    sender_addr ← address_of tx.sender
    to_addr ← address_of tx.to
    new_account_sender ← new_sender sender_addr (get state sender_addr) tx
    new_account_to ← new_to to_addr (get state to_addr) tx
    state' ← update X state sender_addr new_account_sender
    update X state' to_addr new_account_to
