-- ===== src/Base/Bits.antt =====
-- The bits of a number, lowest first, and the number that a list of bits stands for.
use Prim.Native.Nat.{ℕ, zero, suc, ◌+◌, ◌*◌, ◌/◌, ◌%◌, ◌^◌, ◌<◌}
use mathlib.Core.Path.{◌≡◌, refl, sym, ap, ◌∙◌}
use mathlib.Core.Bool.{Bool}
use mathlib.Core.List.{List, [], ◌∷◌, ◌++◌}
use native.Mathlib.Omega.{arith}
use native.Mathlib.Nat.{pow-suc}
use fusion_zksnark_circle.Base.Tests.{◌==◌, if◌then◌else◌}
use fusion_zksnark_circle.Base.Lists.{length}

unfoldable pub bits : ℕ → ℕ → List Bool
bits zero x = []
bits (suc n) x = (x % 2 == 1) ∷ bits n (x / 2)

abbrev pub of_bits : List Bool → ℕ
of_bits [] = 0
of_bits (b ∷ p) = (if b then 1 else 0) + 2 * of_bits p

pub length-bits : (n x : ℕ) → length (bits n x) ≡ n
unfolding bits
length-bits zero x = refl
length-bits (suc n) x = ap suc (length-bits n (x / 2))

pub of_bits-lt : (p : List Bool) → of_bits p < 2 ^ length p
of_bits-lt [] = omega arith
of_bits-lt (b ∷ p) = ground (arith, of_bits-lt p, pow-suc 2 (length p))

pub of_bits-bits : (n x : ℕ) → x < 2 ^ n → of_bits (bits n x) ≡ x
unfolding bits
of_bits-bits zero x h = omega arith
of_bits-bits (suc n) x h = ground (arith, of_bits-bits n (x / 2), pow-suc 2 n)

pub bits-of_bits : (p : List Bool) → bits (length p) (of_bits p) ≡ p
unfolding bits
bits-of_bits [] = refl
bits-of_bits (b ∷ p) =
    let low : (((if b then 1 else 0) + 2 * of_bits p) % 2 == 1) ≡ b = ground arith in
    let high : ((if b then 1 else 0) + 2 * of_bits p) / 2 ≡ of_bits p = ground arith in
    rw (low, high, bits-of_bits p)

pub of_bits_injective : (p q : List Bool) → length p ≡ length q → of_bits p ≡ of_bits q → p ≡ q
of_bits_injective p q l e = sym (bits-of_bits p) ∙ (rw (l, e) (bits-of_bits q))

pub of_bits-append : (p q : List Bool) → of_bits (p ++ q) ≡ of_bits p + 2 ^ length p * of_bits q
of_bits-append [] q = omega arith
of_bits-append (b ∷ p) q =
    omega (arith, of_bits-append p q, ap (λ t. t * of_bits q) (pow-suc 2 (length p)))
