-- ===== src/Circuits/Steps.antt =====
-- The accounts that the circuit computes are those that the sequencer writes, where the field does
-- not wrap around.
use fusion_zksnark_circle.Base.{ℕ, ◌+◌, ◌-◌, ◌≤◌, ◌<◌, ◌≡◌, refl, some, arith}
use fusion_zksnark_circle.Api.{TxKind, transfer, deposit, withdraw, Tx, kind_to_u256}
use fusion_zksnark_circle.Prover.State.{Account}
use fusion_zksnark_circle.Prover.CircuitInput.{CircuitTx}
use fusion_zksnark_circle.Sequencer.Transactions.{new_sender, new_to}
use fusion_zksnark_circle.Circuits.MerkleTree.{
  field_add, field_sub, post_account_sender, post_account_recipient,
}

field_add-small : (p a b : ℕ) → a + b < p → field_add p a b ≡ a + b
unfolding field_add
field_add-small p a b h = grind arith

field_sub-small : (p a b : ℕ) → b ≤ a → a < p → field_sub p a b ≡ a - b
unfolding field_sub
field_sub-small p a b h l =
    let shift : a + p - b ≡ a - b + p = omega arith in rw shift (grind arith)

-- The circuit's transaction has the numbers of the rollup's.
pub record Encodes (tx : Tx) (c : CircuitTx) : Type 0 where
  pub kind : c.kind ≡ kind_to_u256 tx.kind
  pub nonce : c.nonce ≡ tx.nonce
  pub value : c.value ≡ tx.value

module _ (p : ℕ) (tx : Tx) (c : CircuitTx) (e : Encodes tx c) where
  pub post_account_sender-new_sender :
      (k : TxKind) (a : ℕ) (account acc : Account)
      → tx.kind ≡ k
      → account.id ≡ a
      → account.balance < p
      → (k ≡ deposit → account.balance + tx.value < p)
      → new_sender a account tx ≡ some acc
      → post_account_sender p c account ≡ acc
  unfolding post_account_sender new_sender kind_to_u256
  post_account_sender-new_sender transfer a account acc kind own low fits run =
      ground (arith, e.kind, field_sub-small p account.balance tx.value)
  post_account_sender-new_sender withdraw a account acc kind own low fits run =
      ground (arith, e.kind, field_sub-small p account.balance tx.value)
  post_account_sender-new_sender deposit a account acc kind own low fits run =
      ground (arith, e.kind, fits refl, field_add-small p account.balance tx.value)

  pub post_account_recipient-new_to :
      (b : ℕ) (account acc : Account)
      → tx.kind ≡ transfer
      → account.id ≡ b
      → account.balance + tx.value < p
      → new_to b account tx ≡ some acc
      → post_account_recipient p c account ≡ acc
  unfolding post_account_recipient new_to kind_to_u256
  post_account_recipient-new_to b account acc kind own fits run =
      ground (arith, e.kind, field_add-small p account.balance tx.value)
