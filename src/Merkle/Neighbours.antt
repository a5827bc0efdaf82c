-- ===== src/Merkle/Neighbours.antt =====
-- The sibling of an even key's leaf is the leaf of the odd key after it
-- (fusion-prover/src/merkle_tree.rs).
use fusion_zksnark_circle.Base.{
  ℕ, ◌+◌, ◌*◌, ◌/◌, ◌%◌, ◌<◌, ◌^◌, ◌≡◌, refl, sym, ap, ◌∙◌, true, false, some, ◌∷◌, bits,
  length-bits, of_bits-bits, of_bits_injective, u256_size, ◌==◌, arith,
}
use fusion_zksnark_circle.Merkle.BranchKey.{to_bitmap, for_leaf, sibling}
use fusion_zksnark_circle.Merkle.Paths.{
  key, sibling-key, for_leaf-key, length-to_bitmap, of_bits-to_bitmap,
}

to_bitmap-bits : (k : ℕ) → k < u256_size → to_bitmap k ≡ bits 256 k
to_bitmap-bits k small =
    of_bits_injective (to_bitmap k) (bits 256 k) (length-to_bitmap k ∙ sym (length-bits 256 k))
      (of_bits-to_bitmap k small ∙ sym (of_bits-bits 256 k small))

module _ (m : ℕ) (small : m < 2 ^ 255) where
  even : to_bitmap (2 * m) ≡ false ∷ bits 255 m
  unfolding bits
  even =
      let low : (2 * m % 2 == 1) ≡ false = ground arith in
      let high : 2 * m / 2 ≡ m = ground arith in
      to_bitmap-bits (2 * m) (omega (arith, small)) ∙ rw (low, high) refl

  odd : to_bitmap (2 * m + 1) ≡ true ∷ bits 255 m
  unfolding bits
  odd =
      let low : ((2 * m + 1) % 2 == 1) ≡ true = ground arith in
      let high : (2 * m + 1) / 2 ≡ m = ground arith in
      to_bitmap-bits (2 * m + 1) (omega (arith, small)) ∙ rw (low, high) refl

  -- The leaves of an even number and of the number after it are each other's siblings.
  pub sibling-for_leaf :
      (for_leaf (2 * m) ≡ some (key 0 (false ∷ bits 255 m)))
      × (for_leaf (2 * m + 1) ≡ some (key 0 (true ∷ bits 255 m)))
      × (sibling (key 0 (false ∷ bits 255 m)) ≡ some (key 0 (true ∷ bits 255 m)))
      × (sibling (key 0 (true ∷ bits 255 m)) ≡ some (key 0 (false ∷ bits 255 m)))
  sibling-for_leaf = (
    for_leaf-key (2 * m) ∙ ap (λ p. some (key 0 p)) even,
    for_leaf-key (2 * m + 1) ∙ ap (λ p. some (key 0 p)) odd,
    sibling-key 0 false (bits 255 m),
    sibling-key 0 true (bits 255 m),
  )
