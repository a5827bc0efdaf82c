-- ===== src/Merkle/History.antt =====
-- A tree as an abstract map: any series of updates and deletions builds the tree of the map that it
-- describes, and the root depends on that map alone.
use fusion_zksnark_circle.Base.{
  ℕ, ◌<◌, ◌≡◌, refl, sym, ap, ◌∙◌, Option, none, some, List, [], ◌∷◌, ite, ◌>>=◌, ℕ_discrete,
  u256_size, arith,
}
use fusion_zksnark_circle.Base.BTreeMap
use fusion_zksnark_circle.Merkle.Tree.{
  Hasher, Value, MerkleTree, get, empty, root_hash, update, delete,
}
use fusion_zksnark_circle.Merkle.Sparse.{Total, stored, IsConsistent}
use fusion_zksnark_circle.Merkle.Operations.{update-IsConsistent, empty-IsConsistent}
use fusion_zksnark_circle.Merkle.Delete.{delete-IsConsistent}
use fusion_zksnark_circle.Merkle.Roots.{root_hash-ext}

pub data Change (T : Type 0) : Type 0 where
  put : ℕ → T → Change T
  clear : ℕ → Change T

module _ {T : Type 0} where
  abbrev pub AllSmall : List (Change T) → Type 0
  AllSmall [] = Unit
  AllSmall (put k v ∷ cs) = (k < u256_size) × AllSmall cs
  AllSmall (clear k ∷ cs) = (k < u256_size) × AllSmall cs

  -- The map that a series of changes makes of a map, the first change first.
  unfoldable pub described : List (Change T) → (ℕ → Option T) → ℕ → Option T
  described [] m = m
  described (put k v ∷ cs) m = described cs (λ j. ite (ℕ_discrete j k) (some v) (m j))
  described (clear k ∷ cs) m = described cs (λ j. ite (ℕ_discrete j k) none (m j))

  described-congr :
      (cs : List (Change T)) (m m' : ℕ → Option T)
      → ((k : ℕ) → m k ≡ m' k)
      → (k : ℕ) → described cs m k ≡ described cs m' k
  unfolding described
  described-congr [] m m' e = e
  described-congr (put j v ∷ cs) m m' e =
      described-congr cs _ _ (λ k. ap (ite (ℕ_discrete k j) (some v)) (e k))
  described-congr (clear j ∷ cs) m m' e =
      described-congr cs _ _ (λ k. ap (ite (ℕ_discrete k j) none) (e k))

module _ {S T : Type 0} (H : Hasher S) (V : Value T) where
  unfoldable pub replay : List (Change T) → MerkleTree T → Option (MerkleTree T)
  replay [] t = some t
  replay (put k v ∷ cs) t = update H V t k v >>= replay cs
  replay (clear k ∷ cs) t = delete H t k >>= replay cs

module _ {S T : Type 0} {H : Hasher S} {V : Value T} (total : Total H V) where
  -- No series of changes at keys of 256 bits panics on a consistent tree; the tree that it leaves is
  -- consistent and holds what the series describes.
  pub replay-described :
      (cs : List (Change T)) (t : MerkleTree T)
      → AllSmall cs
      → IsConsistent total t
      → (t' : MerkleTree T) × (replay H V cs t ≡ some t')
        × IsConsistent total t'
        × ((k : ℕ) → get t' k ≡ described cs (get t) k)
  unfolding replay described
  replay-described [] t small c = (t, refl, c, λ k. refl)
  replay-described (put j v ∷ cs) t small c =
      let (u, step, cu, at) = update-IsConsistent total t j v small.0 c in
      let (t', run, ct, all) = replay-described cs u small.1 cu in
      (t', rw step run, ct, λ k. all k ∙ described-congr cs _ _ at k)
  replay-described (clear j ∷ cs) t small c =
      let (u, step, cu, at) = delete-IsConsistent total t j small.0 c in
      let (t', run, ct, all) = replay-described cs u small.1 cu in
      (t', rw step run, ct, λ k. all k ∙ described-congr cs _ _ at k)

  -- The word of what a key holds, 0 if it holds nothing.
  unfoldable pub word : Option T → ℕ
  word none = 0
  word (some v) = total.value v

  stored-word :
      (t t' : MerkleTree T) (k : ℕ)
      → word (get t k) ≡ word (get t' k)
      → stored total t k ≡ stored total t' k
  unfolding stored word
  stored-word t t' k e = ground arith

  -- Where hashing two words and reading a value as a word do not panic: two series of changes from
  -- the tree of `Default`, at keys of 256 bits, lead to trees with the same root if the maps that
  -- they describe have the same word at every key of 256 bits, where an absent key counts as 0.
  pub root_hash-described :
      (cs ds : List (Change T))
      → AllSmall cs
      → AllSmall ds
      → ((k : ℕ)
          → k < u256_size
          → word (described cs (λ _. none) k) ≡ word (described ds (λ _. none) k))
      → (t u : MerkleTree T) × (replay H V cs empty ≡ some t)
        × (replay H V ds empty ≡ some u)
        × (root_hash H t ≡ root_hash H u)
  unfolding get BTreeMap.get
  root_hash-described cs ds small small' same =
      let (t, run, c, at) = replay-described cs empty small (empty-IsConsistent total) in
      let (u, run', c', at') = replay-described ds empty small' (empty-IsConsistent total) in
      (
        t,
        u,
        run,
        run',
        root_hash-ext total t u c c'
            (λ k l. stored-word t u k (ap word (at k) ∙ same k l ∙ ap word (sym (at' k)))),
      )
