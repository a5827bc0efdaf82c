-- ===== src/Examples/Cantor.antt =====
-- A hash of two numbers without collisions, and the tree of numbers that it makes.
use fusion_zksnark_circle.Base.{
  ℕ, ◌+◌, ◌*◌, ◌≤◌, ◌<◌, ◌≡◌, ◌≢◌, refl, Option, some, List, [], ◌∷◌, ◌++◌, arith,
}
use fusion_zksnark_circle.Merkle.Tree.{Hasher, Value, hash_words}
use fusion_zksnark_circle.Merkle.Sparse.{Total}
use fusion_zksnark_circle.Merkle.Binding.{CollisionFree}

unfoldable pub cantor : ℕ → ℕ → ℕ
cantor a b = (a + b) * (a + b) + a + 1

square-lt : (s t : ℕ) → s < t → s * s + s < t * t
square-lt s t h = grind arith

sums_equal : (s t a c : ℕ) → a ≤ s → c ≤ t → s * s + a ≡ t * t + c → s ≡ t
sums_equal s t a c la lc e = ground (arith, square-lt s t, square-lt t s)

unfoldable pub cantor_of : List ℕ → Option ℕ
unfolding cantor
cantor_of [] = some 0
cantor_of (a ∷ []) = some a
cantor_of (a ∷ b ∷ rest) = some (cantor a b)

unfoldable pub cantor_hasher : Hasher (List ℕ)
unfolding cantor_of
cantor_hasher = record { default = []; write_h256 = λ l n. some (l ++ n ∷ []); finish = cantor_of }

-- `impl Value for U256`
unfoldable pub u256_value : Value ℕ
u256_value = record { to_u256 = some; zero = 0 }

unfoldable pub cantor_total : Total cantor_hasher u256_value
unfolding hash_words cantor_hasher u256_value
cantor_total = record {
  hash = cantor;
  hash_words-hash = λ a b. refl;
  value = λ n. n;
  to_u256-value = λ n. refl;
}

cantor_sum : (a b c d : ℕ) → cantor a b ≡ cantor c d → a + b ≡ c + d
unfolding cantor
cantor_sum a b c d e = sums_equal (a + b) (c + d) a c (omega arith) (omega arith) (omega (arith, e))

cantor_nonzero : (a b : ℕ) → cantor a b ≢ 0
unfolding cantor
cantor_nonzero a b e = omega (arith, e)

cantor_left : (a b c d : ℕ) → cantor a b ≡ cantor c d → a ≡ c
unfolding cantor
cantor_left a b c d e = let s = cantor_sum a b c d e in omega (arith, rw s at e)

pub cantor-CollisionFree : (l m : List (ℕ × ℕ)) → CollisionFree cantor l m
cantor-CollisionFree l m = record {
  injective = λ a b c d p q e.
      (cantor_left a b c d e, omega (arith, cantor_sum a b c d e, cantor_left a b c d e));
  nonzero_left = λ a b p. cantor_nonzero a b;
  nonzero_right = λ a b p. cantor_nonzero a b;
}
