-- ===== src/Prover/Confusion.antt =====
-- Two states with one root: leaves and inner nodes of the tree are hashed alike
-- (fusion-prover/src/state.rs, fusion-prover/src/merkle_tree.rs).
use fusion_zksnark_circle.Base.{
  ℕ, ◌≤◌, ◌<◌, ◌^◌, ◌≡◌, ◌≢◌, refl, sym, ap, ◌∙◌, ite, none, some, ℕ_discrete, u256_size, arith,
}
use fusion_zksnark_circle.Base.BTreeMap
use fusion_zksnark_circle.Types.External.{External, FieldText, PoseidonPairs}
use fusion_zksnark_circle.Merkle.Tree
use fusion_zksnark_circle.Merkle.Tree.{Hasher, Value, MerkleTree, empty, root_hash}
use fusion_zksnark_circle.Merkle.Sparse.{Total, merge, stored, IsConsistent}
use fusion_zksnark_circle.Merkle.Operations.{update-IsConsistent, empty-IsConsistent}
use fusion_zksnark_circle.Merkle.Confusion.{root_hash-one_leaf, root_hash-two_leaves}
use fusion_zksnark_circle.Prover.Poseidon.{pair}
use fusion_zksnark_circle.Prover.State.{
  Account, State, new_account, default_state, get, root, update,
}
use fusion_zksnark_circle.Prover.Laws.{account_word, poseidon_total}

module _ {S T : Type 0} {H : Hasher S} {V : Value T} (total : Total H V) where
  pub one_stored :
      (k : ℕ) (v : T)
      → k < u256_size
      → total.value v ≢ 0
      → (t : MerkleTree T) × (Tree.update H V empty k v ≡ some t)
        × IsConsistent total t
        × ((j : ℕ) → Tree.get t j ≡ ite (ℕ_discrete j k) (some v) none)
        × (root_hash H t ≡ some (total.hash k (total.value v)))
  unfolding Tree.get BTreeMap.get stored
  one_stored k v small held =
      let (t, run, c, at) = update-IsConsistent total empty k v small (empty-IsConsistent total) in
      let own : stored total t k ≡ total.hash k (total.value v) = ground (arith, at k, held) in
      (
        t,
        run,
        c,
        at,
        root_hash-one_leaf total t c k small (λ j m ne. ground (arith, at j, ne)) ∙ ap some own,
      )

module _ {S T : Type 0} {H : Hasher S} {V : Value T} (total : Total H V)
    (nonzero : (a b : ℕ) → total.hash a b ≢ 0) where
  two_stored :
      (k j : ℕ) (v w : T)
      → k < 2 ^ 255
      → 2 ^ 255 ≤ j
      → j < u256_size
      → total.value v ≢ 0
      → total.value w ≢ 0
      → (t u : MerkleTree T) × (Tree.update H V empty k v ≡ some t)
        × (Tree.update H V t j w ≡ some u)
        × (root_hash H u
            ≡ some (total.hash (total.hash k (total.value v)) (total.hash j (total.value w))))
  unfolding stored merge
  two_stored k j v w low high small held held' =
      let (t, run, c, at, rooted) = one_stored total k v (omega (arith, low)) held in
      let (u, run', c', at') = update-IsConsistent total t j w small c in
      let ne : k ≢ j = λ e. omega (arith, e, low, high) in
      let left : stored total u k ≡ total.hash k (total.value v) =
        ground (arith, at k, at' k, held, ne) in
      let right : stored total u j ≡ total.hash j (total.value w) = ground (arith, at' j, held') in
      let off : (i : ℕ) → i < u256_size → i ≢ k → i ≢ j → stored total u i ≡ 0 =
        λ i m n o. ground (arith, at i, at' i, n, o) in
      (
        t,
        u,
        run,
        run',
        root_hash-two_leaves total u c' k j low high small off
            ∙ ap some
                (ground (arith, left, right, nonzero k (total.value v), nonzero j (total.value w))),
      )

module _ {X : External} (text : FieldText X) (pairs : PoseidonPairs X) where
  -- The hash of an account's leaf.
  abbrev pub leaf_of : ℕ → Account → ℕ
  leaf_of a acc = pair text pairs a (pair text pairs acc.balance acc.nonce)

  -- The account whose leaf hash is the root of two accounts.
  abbrev pub forged : ℕ → Account → ℕ → Account → Account
  forged a acc b acc' = new_account (leaf_of a acc) b (pair text pairs acc'.balance acc'.nonce)

module _ {X : External} (text : FieldText X) (pairs : PoseidonPairs X)
    (nonzero : (x y : ℕ) → pair text pairs x y ≢ 0) where
  word_of_account :
      (acc : Account)
      → acc.balance ≢ 0
      → account_word text pairs acc ≡ pair text pairs acc.balance acc.nonce
  unfolding account_word
  word_of_account acc held = ground (arith, held)

  pair-lt : (a b : ℕ) → pair text pairs a b < u256_size
  unfolding pair
  pair-lt a b = text.canonical-lt _

  -- A root does not determine the accounts. If the hash of two numbers is never zero: for two
  -- accounts that hold something, at a key below 2 ^ 255 and at one from there on, the state of the
  -- two has the same root as a state with one other account, at the first one's leaf hash, whose
  -- balance is the second one's key. `update` builds both states from the empty one.
  pub update-one_root :
      (a b : ℕ) (acc acc' : Account)
      → a < 2 ^ 255
      → 2 ^ 255 ≤ b
      → b < u256_size
      → acc.balance ≢ 0
      → acc'.balance ≢ 0
      → (s₁ s t : State) × (r : ℕ) × (update X default_state a acc ≡ some s₁)
        × (update X s₁ b acc' ≡ some s)
        × (update X default_state (leaf_of text pairs a acc) (forged text pairs a acc b acc')
            ≡ some t)
        × (root X s ≡ some r)
        × (root X t ≡ some r)
        × ((get t (leaf_of text pairs a acc)).balance ≡ b)
  unfolding update root get poseidon_total
  update-one_root a b acc acc' low high small held held' =
      let total = poseidon_total text pairs in
      let w : account_word text pairs acc ≡ pair text pairs acc.balance acc.nonce =
        word_of_account acc held in
      let w' : account_word text pairs acc' ≡ pair text pairs acc'.balance acc'.nonce =
        word_of_account acc' held' in
      let fw : account_word text pairs (forged text pairs a acc b acc')
          ≡ pair text pairs b (pair text pairs acc'.balance acc'.nonce) =
        word_of_account (forged text pairs a acc b acc') (λ e. omega (arith, e, high)) in
      let word_held : (x : Account) → x.balance ≢ 0 → account_word text pairs x ≢ 0 =
        λ x h e. nonzero x.balance x.nonce (sym (word_of_account x h) ∙ e) in
      let (t₁, t₂, run₁, run₂, rooted) =
        two_stored total nonzero a b acc acc' low high small (word_held acc held)
          (word_held acc' held') in
      let (u, run, c, at, rooted') =
        one_stored total (leaf_of text pairs a acc) (forged text pairs a acc b acc') (pair-lt _ _)
          (word_held (forged text pairs a acc b acc') (λ e. omega (arith, e, high))) in
      (
        record { inner = t₁ },
        record { inner = t₂ },
        record { inner = u },
        pair text pairs (leaf_of text pairs a acc) (leaf_of text pairs b acc'),
        rw run₁ refl,
        rw run₂ refl,
        rw run refl,
        rooted ∙ rw (w, w') refl,
        rooted' ∙ rw fw refl,
        ground (arith, at (leaf_of text pairs a acc)),
      )
