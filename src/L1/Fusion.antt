-- ===== src/L1/Fusion.antt =====
-- The contract's functions (l1-verifier/src/Fusion.sol). The generated verifier is a parameter, and
-- so is the choice of a recipient to take ether; `none` is a revert of the verifier.
use fusion_zksnark_circle.Base.{
  ℕ, ◌+◌, ◌-◌, ◌%◌, ◌^◌, Bool, Option, some, none, List, ite, ltb, leb, ◌==◌, not, ◌&&◌,
  if◌then◌else◌, length, ℕ_discrete, u256_size,
}
use fusion_zksnark_circle.L1.Reply.{
  Reply, done, revert, ◌>>=◌, ◌>>◌, require, read, invalid_pre_root, invalid_input_length,
  invalid_snark, invalid_transaction_type, invalid_l1_address, deposit_amount_too_low,
  deposit_amount_not_available, panicked, verifier_reverted, transfer_failed,
}

-- The contract's storage, its ether, and the ether that it has sent to each address.
pub record Fusion : Type 0 where
  pub root : ℕ
  pub deposits : ℕ → ℕ
  pub balance : ℕ
  pub sent : ℕ → ℕ

abbrev pub created : Fusion
created = record { root = 0; deposits = λ k. 0; balance = 0; sent = λ k. 0 }

pub record TxProof (P : Type 0) : Type 0 where
  pub proof : P
  pub input : List ℕ

abbrev pub write : (ℕ → ℕ) → ℕ → ℕ → ℕ → ℕ
write m k v j = ite (ℕ_discrete j k) v (m j)

-- `deposit`, with the ether that comes with the call.
unfoldable pub deposit : Fusion → ℕ → ℕ → Reply Fusion
deposit c value l2_recipient = do
  require (not (value == 0)) deposit_amount_too_low
  require (ltb (c.deposits l2_recipient + value) u256_size) panicked
  done (record c {
    deposits = write c.deposits l2_recipient (c.deposits l2_recipient + value);
    balance = c.balance + value;
  })

-- The branch of a claimed deposit, whose subtraction is unchecked: what it does with its inputs.
unfoldable pub claim_value : Fusion → ℕ → ℕ → Reply Fusion
claim_value c l2_value l2_recipient = do
  require (leb l2_value (c.deposits l2_recipient)) deposit_amount_not_available
  done (record c {
    deposits =
        write c.deposits l2_recipient
          ((c.deposits l2_recipient + u256_size - l2_value) % u256_size);
  })

unfoldable pub claim : Fusion → List ℕ → Reply Fusion
claim c input = do
  l2_value ← read input 8
  l2_recipient ← read input 12
  claim_value c l2_value l2_recipient

module _ (accepts : ℕ → Bool) where
  -- `payable(l1Address).transfer(l2Value)`
  unfoldable pub transfer : Fusion → ℕ → ℕ → Reply Fusion
  transfer c l1_address value = do
    require (leb value c.balance && accepts l1_address) transfer_failed
    done (record c {
      balance = c.balance - value;
      sent = write c.sent l1_address (c.sent l1_address + value);
    })

  -- The branch of a withdrawal, and what it does with its inputs.
  unfoldable pub pay_value : Fusion → ℕ → ℕ → Reply Fusion
  unfolding transfer
  pay_value c l2_value l1_recipient = do
    let l1_address = l1_recipient % 2 ^ 160
    require (l1_recipient == l1_address) invalid_l1_address
    transfer c l1_address l2_value

  unfoldable pub pay_out : Fusion → List ℕ → Reply Fusion
  pay_out c input = do
    l2_value ← read input 8
    l1_recipient ← read input 15
    pay_value c l2_value l1_recipient

  unfoldable pub verify_and_process_deposit : Fusion → List ℕ → Reply Fusion
  unfolding claim pay_out
  verify_and_process_deposit c input = do
    tx_kind ← read input 2
    if tx_kind == 0
        then done c
        else if tx_kind == 1
        then claim c input
        else if tx_kind == 2
        then pay_out c input
        else revert invalid_transaction_type

  module _ {P : Type 0} (verify : List ℕ → P → Option ℕ) where
    -- The call of the verifier, for which 0 is success.
    unfoldable pub check_snark : TxProof P → Reply (Unit {0})
    check_snark l2_tx = elim (verify l2_tx.input l2_tx.proof) [
      | none ↦ revert verifier_reverted
      | some code ↦ require (code == 0) invalid_snark
    ]

    unfoldable pub verify_tx : Fusion → TxProof P → Reply Fusion
    unfolding verify_and_process_deposit check_snark
    verify_tx c l2_tx = do
      require (length l2_tx.input == 18) invalid_input_length
      c' ← verify_and_process_deposit c l2_tx.input
      check_snark l2_tx
      done c'

    -- `submitBlock`, for blocks of `BLOCK_SIZE`, that is of one transaction.
    unfoldable pub submit_block : Fusion → TxProof P → Reply Fusion
    unfolding verify_tx
    submit_block c l2_tx = do
      pre_root ← read l2_tx.input 0
      require (c.root == pre_root) invalid_pre_root
      c' ← verify_tx c l2_tx
      post_root ← read l2_tx.input 1
      done (record c' { root = post_root })
