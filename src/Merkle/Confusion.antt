-- ===== src/Merkle/Confusion.antt =====
-- Leaves and inner nodes are hashed alike, so that a tree of two leaves has the root of a tree of one
-- (fusion-prover/src/merkle_tree.rs).
use mathlib.Core.List.{reverse, reverse_aux, reverse-reverse}
use fusion_zksnark_circle.Base.{
  ℕ, zero, suc, ◌+◌, ◌*◌, ◌≤◌, ◌<◌, ◌^◌, ◌≡◌, ◌≢◌, refl, sym, ap, ◌∙◌, Bool, true, false, some,
  List, [], ◌∷◌, ◌++◌, length, of_bits, of_bits-lt, of_bits-append, u256_size, arith,
  cons_of_length,
}
use fusion_zksnark_circle.Merkle.BranchKey.{to_bitmap}
use fusion_zksnark_circle.Merkle.Paths.{length-to_bitmap, of_bits-to_bitmap, to_bitmap-of_bits}
use fusion_zksnark_circle.Merkle.Tree.{Hasher, Value, MerkleTree, root_hash}
use fusion_zksnark_circle.Merkle.Sparse.{
  Total, merge, subtree, subtree-leaf, subtree-suc, stored, IsConsistent,
}
use fusion_zksnark_circle.Merkle.Operations.{root_hash-subtree}
use fusion_zksnark_circle.Merkle.Focus.{length-reverse_aux, reverse_aux_cancel, subtree-focus}

reverse_aux-append :
    (r acc : List Bool) (x : Bool) → reverse_aux r (acc ++ x ∷ []) ≡ reverse_aux r acc ++ x ∷ []
reverse_aux-append [] acc x = refl
reverse_aux-append (b ∷ r) acc x = reverse_aux-append r (b ∷ acc) x

-- The path to a key, from the root down.
abbrev pub descent : ℕ → List Bool
descent k = reverse (to_bitmap k)

length-descent : (k : ℕ) → length (descent k) ≡ 256
length-descent k = length-reverse_aux (to_bitmap k) [] ∙ omega (arith, length-to_bitmap k)

descent-back : (k : ℕ) → reverse_aux (descent k) [] ≡ to_bitmap k
descent-back k = reverse-reverse (to_bitmap k)

-- The first step is the highest bit.
halves :
    (k : ℕ) (c : Bool) (r : List Bool)
    → k < u256_size
    → descent k ≡ c ∷ r
    → (length r ≡ 255)
      × (reverse_aux r (c ∷ []) ≡ to_bitmap k)
      × (k < 2 ^ 255 → c ≡ false)
      × (2 ^ 255 ≤ k → c ≡ true)
halves k c r small e =
    let long : length r ≡ 255 = omega (arith, ap length e, length-descent k) in
    let back : reverse_aux r (c ∷ []) ≡ to_bitmap k =
      ap (λ l. reverse_aux l []) (sym e) ∙ descent-back k in
    let low = reverse_aux r [] in
    let wide : length low ≡ 255 = length-reverse_aux r [] ∙ omega (arith, long) in
    let sum : k ≡ of_bits low + 2 ^ 255 * of_bits (c ∷ []) =
      sym (of_bits-to_bitmap k small)
      ∙ ap of_bits (sym back ∙ reverse_aux-append r [] c)
      ∙ of_bits-append low (c ∷ [])
      ∙ ap (λ n. of_bits low + 2 ^ n * of_bits (c ∷ [])) wide in
    let bound : of_bits low < 2 ^ 255 = rw wide at (of_bits-lt low) in
    (long, back, λ h. ground (arith, sum, bound, h), λ h. ground (arith, sum, bound, h))

module _ {S T : Type 0} {H : Hasher S} {V : Value T} (total : Total H V) (t : MerkleTree T)
    (c : IsConsistent total t) where
  abbrev leaves : List Bool → ℕ
  leaves p = stored total t (of_bits p)

  -- The node above all leaves but one that are zero.
  above :
      (k : ℕ) (r p : List Bool)
      → k < u256_size
      → reverse_aux r p ≡ to_bitmap k
      → length r + length p ≡ 256
      → ((s : List Bool)
          → length s ≡ length r
          → of_bits (reverse_aux s p) < u256_size
          → of_bits (reverse_aux s p) ≢ k
          → stored total t (of_bits (reverse_aux s p)) ≡ 0)
      → subtree total.hash leaves (length r) p ≡ stored total t k
  above k r p small e l off =
      let same : length r + zero ≡ length r = omega arith in
      let one = subtree-focus total.hash leaves 0 r p (λ s m ne.
        subtree-leaf total.hash leaves (reverse_aux s p)
        ∙ off s m
            (let long : length (reverse_aux s p) ≡ 256 =
                length-reverse_aux s p ∙ omega (arith, m, l) in
              rw long at (of_bits-lt (reverse_aux s p)))
            (λ k'.
              let long : length (reverse_aux s p) ≡ 256 =
                length-reverse_aux s p ∙ omega (arith, m, l) in
              ne (sym (to_bitmap-of_bits (reverse_aux s p) long) ∙ ap to_bitmap k' ∙ sym e))) in
      ap (λ n. subtree total.hash leaves n p) (sym same)
      ∙ one
      ∙ subtree-leaf total.hash leaves (reverse_aux r p)
      ∙ ap leaves e
      ∙ ap (stored total t) (of_bits-to_bitmap k small)

  -- A tree of one leaf has that leaf's hash for its root.
  pub root_hash-one_leaf :
      (k : ℕ)
      → k < u256_size
      → ((j : ℕ) → j < u256_size → j ≢ k → stored total t j ≡ 0)
      → root_hash H t ≡ some (stored total t k)
  root_hash-one_leaf k small others =
      root_hash-subtree total t c
      ∙ ap some (
          ap (λ n. subtree total.hash leaves n []) (sym (length-descent k))
          ∙ above k (descent k) [] small (descent-back k) (omega (arith, length-descent k))
              (λ s m b ne. others (of_bits (reverse_aux s [])) b ne))

  -- The half of the tree that has one of two leaves.
  half :
      (k j : ℕ) (b d : Bool) (r r' : List Bool)
      → b ≢ d
      → k < u256_size
      → (length r ≡ 255) × (reverse_aux r (b ∷ []) ≡ to_bitmap k)
      → (length r' ≡ 255) × (reverse_aux r' (d ∷ []) ≡ to_bitmap j)
      → ((i : ℕ) → i < u256_size → i ≢ k → i ≢ j → stored total t i ≡ 0)
      → subtree total.hash leaves 255 (b ∷ []) ≡ stored total t k
  half k j b d r r' ne small (l, e) (l', e') others =
      ap (λ n. subtree total.hash leaves n (b ∷ [])) (sym l)
      ∙ above k r (b ∷ []) small e (omega (arith, l)) (λ s m low out.
        let long : length (reverse_aux s (b ∷ [])) ≡ 256 =
          length-reverse_aux s (b ∷ []) ∙ omega (arith, m, l) in
        others (of_bits (reverse_aux s (b ∷ []))) low out (λ q.
          let same : reverse_aux s (b ∷ []) ≡ reverse_aux r' (d ∷ []) =
            sym (to_bitmap-of_bits (reverse_aux s (b ∷ [])) long) ∙ ap to_bitmap q ∙ sym e' in
          let tops : b ∷ [] ≡ d ∷ [] =
            reverse_aux_cancel s r' (b ∷ []) (d ∷ []) (omega (arith, m, l, l')) same in
          ne cc))

  -- A tree of two leaves in different halves has the hash of the two leaves for its root.
  pub root_hash-two_leaves :
      (k j : ℕ)
      → k < 2 ^ 255
      → 2 ^ 255 ≤ j
      → j < u256_size
      → ((i : ℕ) → i < u256_size → i ≢ k → i ≢ j → stored total t i ≡ 0)
      → root_hash H t ≡ some (merge total.hash (stored total t k) (stored total t j))
  root_hash-two_leaves k j low high small others =
      let k_small : k < u256_size = omega (arith, low) in
      let (b, r, e) = cons_of_length 255 (descent k) (length-descent k) in
      let (d, r', e') = cons_of_length 255 (descent j) (length-descent j) in
      let (l, back, lo, hi) = halves k b r k_small e in
      let (l', back', lo', hi') = halves j d r' small e' in
      let left =
        half k j false true r r' (λ q. cc) k_small (l, rw (lo low) at back)
          (l', rw (hi' high) at back') others in
      let right =
        half j k true false r' r (λ q. cc) small (l', rw (hi' high) at back')
          (l, rw (lo low) at back) (λ i m n o. others i m o n) in
      root_hash-subtree total t c
      ∙ ap some (subtree-suc total.hash leaves 255 [] ∙ rw (left, right) refl)

  -- A tree of two sibling leaves has the hash of the two for its root.
  pub root_hash-siblings :
      (q : List Bool)
      → length q ≡ 255
      → ((p : List Bool)
          → length p ≡ 256
          → p ≢ false ∷ q
          → p ≢ true ∷ q
          → stored total t (of_bits p) ≡ 0)
      → root_hash H t
        ≡ some (
            merge total.hash
              (stored total t (of_bits (false ∷ q)))
              (stored total t (of_bits (true ∷ q))))
  unfolding subtree merge
  root_hash-siblings q l off =
      let r = reverse q in
      let long : length r ≡ 255 = length-reverse_aux q [] ∙ omega (arith, l) in
      let up : length r + 1 ≡ 256 = omega (arith, long) in
      let back : reverse_aux r [] ≡ q = reverse-reverse q in
      let one = subtree-focus total.hash leaves 1 r [] (λ s m ne.
        let wide : length (reverse_aux s []) ≡ 255 =
          length-reverse_aux s [] ∙ omega (arith, m, long) in
        let apart : reverse_aux s [] ≢ q = λ e. ne (e ∙ sym back) in
        rw
          (
            off (false ∷ reverse_aux s []) (ap suc wide) (λ e. apart cc) (λ e. cc),
            off (true ∷ reverse_aux s []) (ap suc wide) (λ e. cc) (λ e. apart cc),
          )
          refl) in
      root_hash-subtree total t c
      ∙ ap some (
          ap (λ n. subtree total.hash leaves n []) (sym up)
          ∙ one
          ∙ ap (λ n. subtree total.hash leaves 1 n) back
          ∙ subtree-suc total.hash leaves 0 q)
