-- ===== src/Prover/Laws.antt =====
-- What the state promises: a total map from keys to accounts, and a root that follows it.
use fusion_zksnark_circle.Base.{
  ℕ, ◌<◌, ◌≡◌, ite, some, ◌==◌, ◌&&◌, if◌then◌else◌, ℕ_discrete, u256_size, arith,
}
use fusion_zksnark_circle.Types.External.{External, FieldText, PoseidonPairs}
use fusion_zksnark_circle.Merkle.Sparse.{Total, IsConsistent}
use fusion_zksnark_circle.Merkle.Operations.{update-IsConsistent, empty-IsConsistent}
use fusion_zksnark_circle.Prover.Poseidon.{poseidon_hasher, pair, poseidon-pair, hash_words-pair}
use fusion_zksnark_circle.Prover.State.{
  Account, State, default_state, get, account_to_u256, account_value, update,
}

module _ {X : External} (text : FieldText X) (pairs : PoseidonPairs X) where
  -- The word of an account.
  unfoldable pub account_word : Account → ℕ
  account_word acc =
      if acc.balance == 0 && acc.nonce == 0 then 0 else pair text pairs acc.balance acc.nonce

  pub account_to_u256-account_word :
      (acc : Account) → account_to_u256 X acc ≡ some (account_word acc)
  unfolding account_to_u256 account_word
  account_to_u256-account_word acc = ground (arith, poseidon-pair text pairs acc.balance acc.nonce)

  unfoldable pub poseidon_total : Total (poseidon_hasher X) (account_value X)
  unfolding account_value
  poseidon_total = record {
    hash = pair text pairs;
    hash_words-hash = hash_words-pair text pairs;
    value = account_word;
    to_u256-value = account_to_u256-account_word;
  }

  abbrev pub IsSound : State → Type 0
  IsSound s = IsConsistent poseidon_total s.inner

  pub default_state-IsSound : IsSound default_state
  default_state-IsSound = empty-IsConsistent poseidon_total

  -- On a sound state and a key of 256 bits `update` does not panic; the state that it leaves is sound,
  -- has the new account at the key, and is as before at every other key.
  pub update-get :
      (s : State) (k : ℕ) (acc : Account)
      → k < u256_size
      → IsSound s
      → (s' : State) × (update X s k acc ≡ some s')
        × IsSound s'
        × ((j : ℕ) → get s' j ≡ ite (ℕ_discrete j k) acc (get s j))
  unfolding update get
  update-get s k acc small sound =
      let (t, run, c, at) = update-IsConsistent poseidon_total s.inner k acc small sound in
      (record { inner = t }, rw run, c, λ j. ground (arith, at j))
