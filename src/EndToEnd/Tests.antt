-- ===== src/EndToEnd/Tests.antt =====
-- The end-to-end tests of the sequencer (fusion-sequencer/src/sequencer.rs), as functions of the two
-- keys drawn, which return the values that they make assertions of. The messages of a test's task come
-- to the sequencer in their order, and the test's loop sees every block that is mined.
use fusion_zksnark_circle.Base.{ℕ, zero, suc, ◌+◌, Option, some, List, [], ◌∷◌, ◌>>=◌}
use fusion_zksnark_circle.Types.External.{External}
use fusion_zksnark_circle.Types.PublicKey.{to_u256, address}
use fusion_zksnark_circle.Types.PrivateKey.{PrivateKey}
use fusion_zksnark_circle.Api.{transfer, deposit, withdraw, Tx, SignedTx}
use fusion_zksnark_circle.Wallet.{new_key_pair}
use fusion_zksnark_circle.Prover.L1Proof.{Proof}
use fusion_zksnark_circle.Prover.State.{default_state, get, root}
use fusion_zksnark_circle.Sequencer.Loop.{start, run}
use fusion_zksnark_circle.EndToEnd.Anvil.{Anvil, spawned, send_deposit, Env, client, proved}
use fusion_zksnark_circle.EndToEnd.Follow.{follow}
use fusion_zksnark_circle.EndToEnd.Signing.{sign_tx}

-- A deposit; the transfer, and the withdrawal to the address 42 on L1.
abbrev deposit_of : ℕ → ℕ → ℕ → Tx
deposit_of sender nonce value = record {
  kind = deposit;
  sender = sender;
  to = 0;
  nonce = nonce;
  value = value;
}

abbrev transfer_of : ℕ → ℕ → Tx
transfer_of sender to = record { kind = transfer; sender = sender; to = to; nonce = 2; value = 600 }

abbrev withdraw_of : ℕ → Tx
withdraw_of sender = record { kind = withdraw; sender = sender; to = 42; nonce = 3; value = 100 }

-- The values that the tests of deposits make assertions of, in order.
record Asserted : Type 0 where
  first_root : ℕ
  paid_in : ℕ
  balance : ℕ
  nonce : ℕ
  deposits : ℕ
  contract_root : ℕ
  state_root : ℕ

-- The values that the test makes assertions of, in order.
record Flow : Type 0 where
  first_root : ℕ
  recipient_before : ℕ
  contract_before : ℕ
  paid_in : ℕ
  balance_1 : ℕ
  nonce_1 : ℕ
  deposits : ℕ
  balance_2 : ℕ
  nonce_2 : ℕ
  recipient_after : ℕ
  contract_root : ℕ
  state_root : ℕ

-- The transactions of the test's loop, from the index `i` on.
unfoldable transfers : ℕ → ℕ → ℕ → ℕ → List Tx
transfers sender to i zero = []
transfers sender to i (suc n) =
    record { kind = transfer; sender = sender; to = to; nonce = i + 1; value = 0 }
    ∷ transfers sender to (suc i) n

module _ (X : External) (env : Env) where
  unfoldable deposit_test : X.Key → X.Key → Option Asserted
  deposit_test drawn_1 drawn_2 = do
    let deployed : Anvil Proof = spawned
    (sk_1, pk_1) ← new_key_pair X drawn_1
    (sk_2, pk_2) ← new_key_pair X drawn_2
    pk_1_address ← address X pk_1
    pk_2_address ← address X pk_2
    chain ← send_deposit env.contract env.on_revert pk_1_address 1000 deployed
    sender ← to_u256 X pk_1
    signed_tx ← sign_tx X sk_1 (deposit_of sender 1 1000)
    (q, chain') ← run X (proved X env) (client env) 1 start chain (signed_tx ∷ [])
    state ← follow X env.contract 1 default_state chain'.mined
    state_root ← root X state
    some (record {
      first_root = deployed.fusion.root;
      paid_in = chain.fusion.deposits pk_1_address;
      balance = (get state pk_1_address).balance;
      nonce = (get state pk_1_address).nonce;
      deposits = chain'.fusion.deposits pk_1_address;
      contract_root = chain'.fusion.root;
      state_root = state_root;
    })

  unfoldable deposit_partial_claim_test : X.Key → X.Key → Option Asserted
  deposit_partial_claim_test drawn_1 drawn_2 = do
    let deployed : Anvil Proof = spawned
    (sk_1, pk_1) ← new_key_pair X drawn_1
    (sk_2, pk_2) ← new_key_pair X drawn_2
    pk_1_address ← address X pk_1
    pk_2_address ← address X pk_2
    chain ← send_deposit env.contract env.on_revert pk_1_address 1000 deployed
    sender ← to_u256 X pk_1
    first ← sign_tx X sk_1 (deposit_of sender 1 300)
    second ← sign_tx X sk_1 (deposit_of sender 2 300)
    (q, chain') ← run X (proved X env) (client env) 1 start chain (first ∷ second ∷ [])
    state ← follow X env.contract 2 default_state chain'.mined
    state_root ← root X state
    some (record {
      first_root = deployed.fusion.root;
      paid_in = chain.fusion.deposits pk_1_address;
      balance = (get state pk_1_address).balance;
      nonce = (get state pk_1_address).nonce;
      deposits = chain'.fusion.deposits pk_1_address;
      contract_root = chain'.fusion.root;
      state_root = state_root;
    })

  unfoldable deposit_transfer_withdraw_flow_test : X.Key → X.Key → Option Flow
  deposit_transfer_withdraw_flow_test drawn_1 drawn_2 = do
    let deployed : Anvil Proof = spawned
    (sk_1, pk_1) ← new_key_pair X drawn_1
    (sk_2, pk_2) ← new_key_pair X drawn_2
    pk_1_address ← address X pk_1
    pk_2_address ← address X pk_2
    chain ← send_deposit env.contract env.on_revert pk_1_address 1000 deployed
    sender_1 ← to_u256 X pk_1
    sender_2 ← to_u256 X pk_2
    first ← sign_tx X sk_1 (deposit_of sender_1 1 1000)
    second ← sign_tx X sk_1 (transfer_of sender_1 sender_2)
    third ← sign_tx X sk_2 (withdraw_of sender_2)
    (q, chain') ← run X (proved X env) (client env) 1 start chain (first ∷ second ∷ third ∷ [])
    state ← follow X env.contract 3 default_state chain'.mined
    state_root ← root X state
    some (record {
      first_root = deployed.fusion.root;
      recipient_before = deployed.fusion.sent 42;
      contract_before = deployed.fusion.balance;
      paid_in = chain.fusion.deposits pk_1_address;
      balance_1 = (get state pk_1_address).balance;
      nonce_1 = (get state pk_1_address).nonce;
      deposits = chain'.fusion.deposits pk_1_address;
      balance_2 = (get state pk_2_address).balance;
      nonce_2 = (get state pk_2_address).nonce;
      recipient_after = chain'.fusion.sent 42;
      contract_root = chain'.fusion.root;
      state_root = state_root;
    })

  unfoldable sign_all : PrivateKey X.Key → List Tx → Option (List SignedTx)
  unfolding sign_tx
  sign_all sk [] = some []
  sign_all sk (tx ∷ txs) = do m ← sign_tx X sk tx; ms ← sign_all sk txs; some (m ∷ ms)

  -- The roots that the test makes assertions of: the contract's at first, and at the end the contract's
  -- and the followed state's.
  unfoldable end_to_end_simple_test : ℕ → X.Key → X.Key → Option (ℕ × ℕ × ℕ)
  end_to_end_simple_test n_tx drawn_1 drawn_2 = do
    let deployed : Anvil Proof = spawned
    (sk_1, pk_1) ← new_key_pair X drawn_1
    (sk_2, pk_2) ← new_key_pair X drawn_2
    sender ← to_u256 X pk_1
    to ← to_u256 X pk_2
    signed_txs ← sign_all sk_1 (transfers sender to 0 n_tx)
    (q, chain') ← run X (proved X env) (client env) 1 start deployed signed_txs
    state ← follow X env.contract n_tx default_state chain'.mined
    state_root ← root X state
    some (deployed.fusion.root, chain'.fusion.root, state_root)
