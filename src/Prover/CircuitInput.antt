-- ===== src/Prover/CircuitInput.antt =====
-- The input of the circuit (fusion-prover/src/lib.rs).
use fusion_zksnark_circle.Base.{
  ℕ, zero, suc, Bool, false, Option, some, List, [], ◌∷◌, ◌>>=◌, get_or,
}
use fusion_zksnark_circle.Types.External.{External}
use fusion_zksnark_circle.Types.Field.{big_int_to_u256}
use fusion_zksnark_circle.Types.PublicKey.{Point, from_u256, address, point_from_babyjubjub_point}
use fusion_zksnark_circle.Types.Signature.{to_babyjubjub_signature}
use fusion_zksnark_circle.Merkle.BranchKey.{Bitmap, to_bitmap}
use fusion_zksnark_circle.Api.{transfer, deposit, withdraw, SignedTx, kind_to_u256}
use fusion_zksnark_circle.Prover.State.{Account, State, new_account, get, proof, root}

pub record CircuitTxSignature : Type 0 where
  pub r : Point
  pub s : ℕ

pub record CircuitTx : Type 0 where
  pub kind : ℕ
  pub sender : Point
  pub to : Point
  pub nonce : ℕ
  pub value : ℕ
  pub sig : CircuitTxSignature

-- The vectors of two are pairs: the sender's part, and the receiver's.
pub record CircuitInput : Type 0 where
  pub pre_root : ℕ
  pub post_root : ℕ
  pub tx : CircuitTx
  pub pre_accounts : Account × Account
  pub direction_selector : List Bool × List Bool
  pub pre_path : List ℕ × List ℕ
  pub post_path : List ℕ × List ℕ

-- The loop of `to_vec_bool`: the bits from `i` on, for `n` rounds.
unfoldable pub bits_from : Bitmap → ℕ → ℕ → List Bool
bits_from b i zero = []
bits_from b i (suc n) = get_or b i false ∷ bits_from b (suc i) n

unfoldable pub to_vec_bool : Bitmap → List Bool
to_vec_bool b = bits_from b 0 256

-- The receiver's account as the circuit gets it.
unfoldable pub pre_account_to : SignedTx → State → ℕ → Account
pre_account_to tx pre_state to_addr = elim tx.tx.kind [
  | withdraw ↦ new_account tx.tx.to 0 0
  | transfer ↦ get pre_state to_addr
  | deposit ↦ get pre_state to_addr
]

module _ (X : External) where
  -- `impl From<SignedTx> for CircuitTxSignature`
  unfoldable pub signature_of : SignedTx → Option CircuitTxSignature
  signature_of tx = do
    sig ← to_babyjubjub_signature X tx.signature
    r ← point_from_babyjubjub_point X sig.r_b8
    s ← big_int_to_u256 sig.s
    some (record { r = r; s = s })

  unfoldable pub to_circuit_tx : SignedTx → Option CircuitTx
  unfolding signature_of
  to_circuit_tx tx = do
    sender_pk ← from_u256 X tx.tx.sender
    to_pk ← from_u256 X tx.tx.to
    sig ← signature_of tx
    some (record {
      kind = kind_to_u256 tx.tx.kind;
      sender = sender_pk.point;
      to = to_pk.point;
      nonce = tx.tx.nonce;
      value = tx.tx.value;
      sig = sig;
    })

  -- `CircuitInput::new`
  unfoldable pub new_input : SignedTx → State → State → Option CircuitInput
  unfolding to_circuit_tx
  new_input tx pre_state post_state = do
    circuit_tx ← to_circuit_tx tx
    sender_addr ← address X (record { point = circuit_tx.sender })
    to_addr ← address X (record { point = circuit_tx.to })
    pre_root ← root X pre_state
    post_root ← root X post_state
    pre_from ← proof pre_state sender_addr
    pre_to ← proof pre_state to_addr
    post_from ← proof post_state sender_addr
    post_to ← proof post_state to_addr
    some (record {
      pre_root = pre_root;
      post_root = post_root;
      tx = circuit_tx;
      pre_accounts = (get pre_state sender_addr, pre_account_to tx pre_state to_addr);
      direction_selector = (to_vec_bool (to_bitmap sender_addr), to_vec_bool (to_bitmap to_addr));
      pre_path = (pre_from, pre_to);
      post_path = (post_from, post_to);
    })
