-- ===== src/Merkle/Tree.antt =====
-- `MerkleTree` and its traits (fusion-prover/src/merkle_tree.rs). A `U256` is a number; `none` is a
-- panic. A method that changes the tree returns the tree it leaves.
use mathlib.Core.List.{tail}
use fusion_zksnark_circle.Base.{
  ℕ, Bool, false, not, Option, none, some, List, [], ◌∷◌, ◌==◌, if◌then◌else◌, ◌>>=◌, ◌&&◌, length,
  replicate, unwrap, ℕ_discrete,
}
use fusion_zksnark_circle.Base.BTreeMap
use fusion_zksnark_circle.Base.BTreeMap.{BTreeMap}
use fusion_zksnark_circle.Merkle.BranchKey.{
  BranchKey, BranchKey-discrete, new, for_leaf, sibling, left_child, right_child, is_left_child,
  path_to_root,
}

pub record Hasher (S : Type 0) : Type 0 where
  pub default : S
  pub write_h256 : S → ℕ → Option S
  pub finish : S → Option ℕ

pub record Value (T : Type 0) : Type 0 where
  pub to_u256 : T → Option ℕ
  pub zero : T

abbrev pub BranchNode : Type 0
BranchNode = ℕ

-- The phantom field has no content.
pub record MerkleTree (T : Type 0) : Type 0 where
  pub leaves : BTreeMap ℕ T
  pub branches : BTreeMap BranchKey BranchNode

module _ {T : Type 0} where
  unfoldable pub get : MerkleTree T → ℕ → Option T
  get t key = BTreeMap.get ℕ_discrete key t.leaves

  unfoldable pub branch_hash : MerkleTree T → BranchKey → ℕ
  branch_hash t key = elim (BTreeMap.get BranchKey-discrete key t.branches) [
    | some value ↦ value
    | none ↦ 0
  ]

  unfoldable pub set_branch : MerkleTree T → BranchKey → BranchNode → MerkleTree T
  set_branch t key value =
      if value == 0
      then record t { branches = BTreeMap.remove BranchKey-discrete key t.branches }
      else record t { branches = BTreeMap.insert BranchKey-discrete key value t.branches }

-- The derived `Default`.
abbrev pub empty : {T : Type 0} → MerkleTree T
empty = record { leaves = []; branches = [] }

module _ {S : Type 0} (H : Hasher S) where
  -- A fresh hasher that is fed two words.
  unfoldable pub hash_words : ℕ → ℕ → Option ℕ
  hash_words v1 v2 = do h1 ← H.write_h256 H.default v1; h2 ← H.write_h256 h1 v2; H.finish h2

  unfoldable pub merge_hashes : ℕ → ℕ → Option ℕ
  merge_hashes v1 v2 =
      if v1 == 0 && v2 == 0
      then some 0
      else if v1 == 0
      then some v2
      else if v2 == 0
      then some v1
      else hash_words v1 v2

  -- The loop of `verify_proof`, over the zipped proof and path.
  unfoldable pub climb : ℕ → List ℕ → List BranchKey → Option ℕ
  climb hash [] path = some hash
  climb hash (item ∷ proof) [] = some hash
  climb hash (item ∷ proof) (node ∷ path) = do
    above ← if is_left_child node then merge_hashes hash item else merge_hashes item hash
    climb above proof path

module _ {S T : Type 0} (H : Hasher S) where
  unfoldable pub merge_nodes : MerkleTree T → BranchKey → BranchKey → Option ℕ
  merge_nodes t key1 key2 = merge_hashes H (branch_hash t key1) (branch_hash t key2)

  unfoldable pub root_hash : MerkleTree T → Option ℕ
  root_hash t = do
    left ← new 255 (replicate 256 false)
    right ← sibling left
    merge_nodes t left right

  -- The loop of `update_parents`, over the keys above the one that changed.
  unfoldable pub refresh : List BranchKey → MerkleTree T → Option (MerkleTree T)
  refresh [] t = some t
  refresh (parent ∷ parents) t = do
    left? ← left_child parent
    left ← unwrap left?
    right? ← right_child parent
    right ← unwrap right?
    value ← merge_nodes t left right
    refresh parents (set_branch t parent value)

  unfoldable pub update_parents : MerkleTree T → BranchKey → Option (MerkleTree T)
  update_parents t branch_key = do path ← path_to_root branch_key; refresh (tail path) t

  unfoldable pub delete : MerkleTree T → ℕ → Option (MerkleTree T)
  delete t key = do
    branch_key ← for_leaf key
    update_parents
        (record {
          leaves = BTreeMap.remove ℕ_discrete key t.leaves;
          branches = BTreeMap.remove BranchKey-discrete branch_key t.branches;
        })
        branch_key

module _ {T : Type 0} where
  -- The closure that `proof` maps over the path.
  unfoldable pub sibling_hashes : MerkleTree T → List BranchKey → Option (List ℕ)
  sibling_hashes t [] = some []
  sibling_hashes t (item ∷ path) = do
    s ← sibling item
    rest ← sibling_hashes t path
    some (branch_hash t s ∷ rest)

  unfoldable pub proof : MerkleTree T → ℕ → Option (List ℕ)
  proof t key = do leaf ← for_leaf key; path ← path_to_root leaf; sibling_hashes t path

module _ {S T : Type 0} (H : Hasher S) (V : Value T) where
  unfoldable pub leaf_hash : ℕ → T → Option ℕ
  leaf_hash key value = do v ← V.to_u256 value; if v == 0 then some 0 else hash_words H key v

  unfoldable pub update : MerkleTree T → ℕ → T → Option (MerkleTree T)
  update t key value = do
    branch_key ← for_leaf key
    node ← leaf_hash key value
    update_parents H
        (record {
          leaves = BTreeMap.insert ℕ_discrete key value t.leaves;
          branches = BTreeMap.insert BranchKey-discrete branch_key node t.branches;
        })
        branch_key

  unfoldable pub verify_proof : ℕ → ℕ → T → List ℕ → Option Bool
  verify_proof root_hash key value proof = if not (length proof == 256) then some false else do
    hash ← leaf_hash key value
    leaf ← for_leaf key
    path ← path_to_root leaf
    top ← climb H hash proof path
    some (top == root_hash)
