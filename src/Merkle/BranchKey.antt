-- ===== src/Merkle/BranchKey.antt =====
-- `BranchKey` and its iterator (fusion-prover/src/merkle_tree.rs). A `Bitmap<256>` is the list of
-- its 256 bits, index 0 first; the methods of the code that can panic return `none` then.
use fusion_zksnark_circle.Base.{
  ℕ, zero, suc, ◌+◌, ◌-◌, ◌/◌, ◌%◌, ◌^◌, Bool, true, false, not, Option, none, some, List, [], ◌∷◌,
  ◌++◌, leb, ◌==◌, if◌then◌else◌, ◌>>=◌, bits, get_or, set, ℕ_discrete,
}
use mathlib.Core.Option

abbrev pub Bitmap : Type 0
Bitmap = List Bool

-- `Bitmap::first_index`: the lowest index that is set.
unfoldable pub first_index : Bitmap → Option ℕ
first_index [] = none
first_index (true ∷ b) = some 0
first_index (false ∷ b) = Option.map suc (first_index b)

-- `U256::to_bitmap`, from the two halves of 128 bits.
unfoldable pub to_bitmap : ℕ → Bitmap
to_bitmap key =
    let x1 = key % 2 ^ 128 in let x2 = key / 2 ^ 128 % 2 ^ 128 in bits 128 x1 ++ bits 128 x2

pub record BranchKey : Type 0 where
  pub height : ℕ
  pub bitmap : Bitmap

unfoldable pub BranchKey-discrete : Discrete BranchKey
BranchKey-discrete = hlevel ℕ_discrete

-- `BranchKey::new`, with its `assert!`.
unfoldable pub new : ℕ → Bitmap → Option BranchKey
new height bitmap =
    let result : BranchKey = record { height = height; bitmap = bitmap } in
    elim (first_index bitmap) [
      | none ↦ some result
      | some index ↦ if leb height index then some result else none
    ]

unfoldable pub for_leaf : ℕ → Option BranchKey
for_leaf key = new 0 (to_bitmap key)

unfoldable pub parent : BranchKey → Option (Option BranchKey)
parent k =
    if k.height == 255
    then some none
    else do p ← new (k.height + 1) (set k.bitmap k.height false); some (some p)

unfoldable pub sibling : BranchKey → Option BranchKey
sibling k = new k.height (set k.bitmap k.height (not (get_or k.bitmap k.height false)))

unfoldable pub left_child : BranchKey → Option (Option BranchKey)
left_child k =
    if k.height == 0
    then some none
    else do l ← new (k.height - 1) (set k.bitmap (k.height - 1) false); some (some l)

unfoldable pub right_child : BranchKey → Option (Option BranchKey)
right_child k = do
  l ← left_child k
  elim l [ none ↦ some none | some node ↦ Option.map some (sibling node) ]

unfoldable pub is_left_child : BranchKey → Bool
is_left_child k = not (get_or k.bitmap k.height false)

-- `BranchKeyIterator::next`: the item, and the iterator that is left.
unfoldable pub next : Option BranchKey → Option (Option BranchKey × Option BranchKey)
next none = some (none, none)
next (some k) = do rest ← parent k; some (some k, rest)

-- All the items of the iterator; `none` if the fuel runs out, or at a panic.
unfoldable pub drain : ℕ → Option BranchKey → Option (List BranchKey)
drain zero it = none
drain (suc fuel) it = do
  (item, rest) ← next it
  elim item [ none ↦ some [] | some k ↦ do ks ← drain fuel rest; some (k ∷ ks) ]

-- The heights go up to 255, so 256 items and the end of the iterator take 257 calls of `next`.
unfoldable pub path_to_root : BranchKey → Option (List BranchKey)
path_to_root k = drain 257 (some k)
