-- ===== src/Prover/State.antt =====
-- `Account` and `State` (fusion-prover/src/state.rs).
use fusion_zksnark_circle.Base.{
  ℕ, Option, none, some, List, [], ◌∷◌, ◌==◌, ◌&&◌, if◌then◌else◌, ◌>>=◌,
}
use fusion_zksnark_circle.Types.External.{External}
use fusion_zksnark_circle.Merkle.Tree
use fusion_zksnark_circle.Merkle.Tree.{MerkleTree, Value}
use fusion_zksnark_circle.Prover.Poseidon.{poseidon, poseidon_hasher}

pub record Account : Type 0 where
  pub id : ℕ
  pub balance : ℕ
  pub nonce : ℕ

-- `Account::new`
abbrev pub new_account : ℕ → ℕ → ℕ → Account
new_account id balance nonce = record { id = id; balance = balance; nonce = nonce }

pub record State : Type 0 where
  pub inner : MerkleTree Account

-- The derived `Default`.
abbrev pub default_state : State
default_state = record { inner = Tree.empty }

unfoldable pub get : State → ℕ → Account
get s key = elim (Tree.get s.inner key) [ some acc ↦ acc | none ↦ new_account key 0 0 ]

unfoldable pub proof : State → ℕ → Option (List ℕ)
proof s key = Tree.proof s.inner key

module _ (X : External) where
  -- `impl Value for Account`
  unfoldable pub account_to_u256 : Account → Option ℕ
  account_to_u256 acc =
      if acc.balance == 0 && acc.nonce == 0
      then some 0
      else poseidon X (acc.balance ∷ acc.nonce ∷ [])

  unfoldable pub account_value : Value Account
  unfolding account_to_u256
  account_value = record { to_u256 = account_to_u256; zero = new_account 0 0 0 }

  unfoldable pub root : State → Option ℕ
  root s = Tree.root_hash (poseidon_hasher X) s.inner

  unfoldable pub update : State → ℕ → Account → Option State
  update s key value = do
    inner ← Tree.update (poseidon_hasher X) account_value s.inner key value
    some (record { inner = inner })
