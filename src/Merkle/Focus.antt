-- ===== src/Merkle/Focus.antt =====
-- The root of a tree whose leaves all lie below one node is that node's hash.
use mathlib.Core.List.{reverse_aux}
use fusion_zksnark_circle.Base.{
  ℕ, zero, suc, ◌+◌, ◌≡◌, ◌≢◌, refl, ap, Bool, true, false, List, [], ◌∷◌, length, arith,
}
use fusion_zksnark_circle.Merkle.Sparse.{merge, subtree}

pub length-reverse_aux : (xs acc : List Bool) → length (reverse_aux xs acc) ≡ length xs + length acc
length-reverse_aux [] acc = omega arith
length-reverse_aux (x ∷ xs) acc = omega (arith, length-reverse_aux xs (x ∷ acc))

pub reverse_aux_cancel :
    (s r x y : List Bool) → length s ≡ length r → reverse_aux s x ≡ reverse_aux r y → x ≡ y
reverse_aux_cancel [] [] x y l e = e
reverse_aux_cancel [] (b ∷ r) x y l e = absurd (omega (arith, l))
reverse_aux_cancel (a ∷ s) [] x y l e = absurd (omega (arith, l))
reverse_aux_cancel (a ∷ s) (b ∷ r) x y l e =
    let under : a ∷ x ≡ b ∷ y = reverse_aux_cancel s r (a ∷ x) (b ∷ y) (omega (arith, l)) e in cc

pub merge-left : (hash : ℕ → ℕ → ℕ) (a : ℕ) → merge hash 0 a ≡ a
unfolding merge
merge-left hash a = ground arith

pub merge-right : (hash : ℕ → ℕ → ℕ) (a : ℕ) → merge hash a 0 ≡ a
unfolding merge
merge-right hash a = ground arith

module _ (hash : ℕ → ℕ → ℕ) (f : List Bool → ℕ) (h : ℕ) where
  -- Nodes of hash zero on one height give the hash zero above.
  pub subtree-off :
      (g : ℕ) (p : List Bool)
      → ((r : List Bool) → length r ≡ g → subtree hash f h (reverse_aux r p) ≡ 0)
      → subtree hash f (g + h) p ≡ 0
  unfolding subtree merge
  subtree-off zero p off = let same : zero + h ≡ h = omega arith in rw same (off [] refl)
  subtree-off (suc g) p off =
      let up : suc g + h ≡ suc (g + h) = omega arith in
      rw
        (
          up,
          subtree-off g (false ∷ p) (λ r l. off (false ∷ r) (ap suc l)),
          subtree-off g (true ∷ p) (λ r l. off (true ∷ r) (ap suc l)),
        )
        refl

  beside :
      (r p : List Bool) (b c : Bool)
      → b ≢ c
      → ((s : List Bool)
          → length s ≡ length (c ∷ r)
          → reverse_aux s p ≢ reverse_aux (c ∷ r) p
          → subtree hash f h (reverse_aux s p) ≡ 0)
      → subtree hash f (length r + h) (b ∷ p) ≡ 0
  beside r p b c ne off = subtree-off (length r) (b ∷ p) (λ s l.
      off (b ∷ s) (ap suc l) (λ e. let under = reverse_aux_cancel s r (b ∷ p) (c ∷ p) l e in ne cc))

  -- If all nodes on one height below a node have hash zero but one, the node has that one's hash.
  pub subtree-focus :
      (r p : List Bool)
      → ((s : List Bool)
          → length s ≡ length r
          → reverse_aux s p ≢ reverse_aux r p
          → subtree hash f h (reverse_aux s p) ≡ 0)
      → subtree hash f (length r + h) p ≡ subtree hash f h (reverse_aux r p)
  unfolding subtree merge
  subtree-focus [] p off = let same : zero + h ≡ h = omega arith in rw same refl
  subtree-focus (true ∷ r) p off =
      let up : suc (length r) + h ≡ suc (length r + h) = omega arith in
      rw
        (
          up,
          beside r p false true (λ e. cc) off,
          subtree-focus r (true ∷ p) (λ s l. off (true ∷ s) (ap suc l)),
        )
        (merge-left hash _)
  subtree-focus (false ∷ r) p off =
      let up : suc (length r) + h ≡ suc (length r + h) = omega arith in
      rw
        (
          up,
          beside r p true false (λ e. cc) off,
          subtree-focus r (false ∷ p) (λ s l. off (false ∷ s) (ap suc l)),
        )
        (merge-right hash _)
