-- ===== src/Merkle/Paths.antt =====
-- Branch keys as paths: the node at height `h` whose path from its own level up to the root is `p`
-- has the bitmap `pad h p`. The methods of `BranchKey` work on such paths one step at a time.
use fusion_zksnark_circle.Base.{
  cons_of_length, Option-cases, inl, inr, ◌==◌, ℕ, zero, suc, ◌+◌, ◌-◌, ◌/◌, ◌%◌, ◌^◌, ◌<◌, ◌≡◌,
  refl, sym, ap, ◌∙◌, Bool, true, false, not, none, some, List, [], ◌∷◌, ◌++◌, arith, bits, of_bits,
  get_or, set, replicate, length, length-append, length-bits, of_bits-append, of_bits-bits,
  of_bits_injective, of_bits-lt,
}
use mathlib.Core.Option
use fusion_zksnark_circle.Merkle.BranchKey.{
  Bitmap, first_index, to_bitmap, BranchKey, new, for_leaf, parent, sibling, left_child,
  right_child, is_left_child, next, drain, path_to_root,
}

abbrev pub pad : ℕ → List Bool → Bitmap
pad h p = replicate h false ++ p

abbrev pub key : ℕ → List Bool → BranchKey
key h p = record { height = h; bitmap = pad h p }

-- The keys from a node up to the last one below the root.
abbrev pub keys : ℕ → List Bool → List BranchKey
keys h [] = []
keys h (b ∷ p) = key h (b ∷ p) ∷ keys (suc h) p

pub pad-false : (h : ℕ) (p : List Bool) → pad h (false ∷ p) ≡ pad (suc h) p
pad-false zero p = refl
pad-false (suc h) p = ap (λ b. false ∷ b) (pad-false h p)

pub set-pad : (h : ℕ) (b v : Bool) (p : List Bool) → set (pad h (b ∷ p)) h v ≡ pad h (v ∷ p)
set-pad zero b v p = refl
set-pad (suc h) b v p = ap (λ l. false ∷ l) (set-pad h b v p)

pub get_or-pad : (h : ℕ) (b : Bool) (p : List Bool) → get_or (pad h (b ∷ p)) h false ≡ b
get_or-pad zero b p = refl
get_or-pad (suc h) b p = get_or-pad h b p

pub pad_injective : (h : ℕ) (p q : List Bool) → pad h p ≡ pad h q → p ≡ q
pad_injective zero p q e = e
pad_injective (suc h) p q e = pad_injective h p q (cc)

first_index-pad :
    (h : ℕ) (p : List Bool) → first_index (pad h p) ≡ Option.map (λ i. h + i) (first_index p)
unfolding first_index
first_index-pad zero p = elim (Option-cases (first_index p)) [
  | inl e ↦ rw e
  | inr (i, e) ↦ rw e (ap some (omega arith))
]
first_index-pad (suc h) p = elim (Option-cases (first_index p)) [
  | inl e ↦ rw (first_index-pad h p, e)
  | inr (i, e) ↦ rw (first_index-pad h p, e) (ap some (omega arith))
]

-- The assertion of `new` holds of every padded bitmap.
pub new-pad : (h : ℕ) (p : List Bool) → new h (pad h p) ≡ some (key h p)
unfolding new
new-pad h p = elim (Option-cases (first_index p)) [
  | inl e ↦ ground (arith, first_index-pad h p)
  | inr (i, e) ↦ ground (arith, first_index-pad h p)
]

pub for_leaf-key : (k : ℕ) → for_leaf k ≡ some (key 0 (to_bitmap k))
unfolding for_leaf
for_leaf-key k = new-pad 0 (to_bitmap k)

pub parent-key :
    (h : ℕ) (b : Bool) (p : List Bool)
    → h < 255
    → parent (key h (b ∷ p)) ≡ some (some (key (suc h) p))
unfolding parent
parent-key h b p l =
    let below : (h == 255) ≡ false = ground arith in
    let next : h + 1 ≡ suc h = omega arith in
    rw (below, next, set-pad h b false p, pad-false h p, new-pad (suc h) p)

pub parent-last : (b : Bool) (p : List Bool) → parent (key 255 (b ∷ p)) ≡ some none
unfolding parent
parent-last b p = refl

pub sibling-key :
    (h : ℕ) (b : Bool) (p : List Bool) → sibling (key h (b ∷ p)) ≡ some (key h (not b ∷ p))
unfolding sibling
sibling-key h b p = rw (get_or-pad h b p, set-pad h b (not b) p) (new-pad h (not b ∷ p))

pub left_child-key :
    (h : ℕ) (p : List Bool) → left_child (key (suc h) p) ≡ some (some (key h (false ∷ p)))
unfolding left_child
left_child-key h p =
    let above : (suc h == 0) ≡ false = ground arith in
    let below : suc h - 1 ≡ h = omega arith in
    let cleared : set (pad (suc h) p) h false ≡ pad h (false ∷ p) =
      ap (λ b. set b h false) (sym (pad-false h p)) ∙ set-pad h false false p in
    rw (above, below, cleared, new-pad h (false ∷ p))

pub right_child-key :
    (h : ℕ) (p : List Bool) → right_child (key (suc h) p) ≡ some (some (key h (true ∷ p)))
unfolding right_child
right_child-key h p = rw (left_child-key h p, sibling-key h false p)

pub is_left_child-key : (h : ℕ) (b : Bool) (p : List Bool) → is_left_child (key h (b ∷ p)) ≡ not b
unfolding is_left_child
is_left_child-key h b p = rw (get_or-pad h b p)

-- The iterator ends after the last key below the root, with fuel to spare.
pub drain-keys :
    (fuel h : ℕ) (b : Bool) (p : List Bool)
    → h + length (b ∷ p) ≡ 256
    → length (b ∷ p) < fuel
    → drain fuel (some (key h (b ∷ p))) ≡ some (keys h (b ∷ p))
unfolding drain next
drain-keys zero h b p e l = elim l [ ]
drain-keys (suc zero) h b p e l = absurd (omega arith)
drain-keys (suc (suc fuel)) h b [] e l =
    let last : h ≡ 255 = omega arith in rw (last, parent-last b [])
drain-keys (suc fuel) h b (c ∷ p) e l =
    rw (
      parent-key h b (c ∷ p) (omega arith),
      drain-keys fuel (suc h) c p (omega arith) (omega arith),
    )

-- From a node below the root, `path_to_root` does not panic or run out of fuel: it yields one key for
-- each bit of the node's path, from the node itself to the last one below the root.
pub path_to_root-key :
    (h : ℕ) (b : Bool) (p : List Bool)
    → h + length (b ∷ p) ≡ 256
    → path_to_root (key h (b ∷ p)) ≡ some (keys h (b ∷ p))
unfolding path_to_root
path_to_root-key h b p e = drain-keys 257 h b p e (omega arith)

pub length-to_bitmap : (k : ℕ) → length (to_bitmap k) ≡ 256
unfolding to_bitmap
length-to_bitmap k =
    let (low, high) : List Bool × List Bool =
      (bits 128 (k % 2 ^ 128), bits 128 (k / 2 ^ 128 % 2 ^ 128)) in
    omega (
      arith,
      length-append low high,
      length-bits 128 (k % 2 ^ 128),
      length-bits 128 (k / 2 ^ 128 % 2 ^ 128),
    )

pub path_to_root-leaf : (k : ℕ) → path_to_root (key 0 (to_bitmap k)) ≡ some (keys 0 (to_bitmap k))
path_to_root-leaf k =
    let (b, q, e) = cons_of_length 255 (to_bitmap k) (length-to_bitmap k) in
    rw e (path_to_root-key 0 b q (omega (arith, length-to_bitmap k, ap length e)))

pub of_bits-to_bitmap : (k : ℕ) → k < 2 ^ 256 → of_bits (to_bitmap k) ≡ k
unfolding to_bitmap
of_bits-to_bitmap k l =
    let low = k % 2 ^ 128 in
    let high = k / 2 ^ 128 % 2 ^ 128 in
    rw
      (
        of_bits-append (bits 128 low) (bits 128 high),
        length-bits 128 low,
        of_bits-bits 128 low (omega arith),
        of_bits-bits 128 high (omega arith),
      )
      (omega arith)

pub to_bitmap-of_bits : (p : List Bool) → length p ≡ 256 → to_bitmap (of_bits p) ≡ p
to_bitmap-of_bits p e =
    of_bits_injective (to_bitmap (of_bits p)) p (length-to_bitmap (of_bits p) ∙ sym e)
      (of_bits-to_bitmap (of_bits p) (rw e at (of_bits-lt p)))
