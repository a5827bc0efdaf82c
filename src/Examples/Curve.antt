-- ===== src/Examples/Curve.antt =====
-- A small monoid of points, in which the sum of any two points but infinity is (0, 0), and the theorems
-- on the signature circuit and on the whole circuit over it.
use mathlib.Core.List.{reverse, tail, reverse-reverse}
use fusion_zksnark_circle.Base.{
  ℕ, ◌*◌, ◌%◌, ◌<◌, [], not, ==_refl, ◌≡◌, ◌↔◌, refl, sym, ap, ◌∙◌, inl, inr, Bool, true, false,
  Bool-cases, some, List, ◌∷◌, ◌==◌, ◌&&◌, if◌then◌else◌, of_bits, arith,
}
use fusion_zksnark_circle.Base.{bits, of_bits-bits}
use fusion_zksnark_circle.Types.PublicKey.{Point}
use fusion_zksnark_circle.Circuits.Signature.{infinity, base, verify_signature}
use fusion_zksnark_circle.Circuits.Scalar.{
  IsCurve, Unpacks, exponent, times, verify_signature-equation,
}

abbrev pub is_infinity : Point → Bool
is_infinity p = p.x == 0 && p.y == 1

unfoldable pub add : Point → Point → Point
add p q = if is_infinity p then q else if is_infinity q then p else record { x = 0; y = 0 }

is_infinity-true : (p : Point) → is_infinity p ≡ true → p ≡ infinity
is_infinity-true p e =
    let same : (p.x ≡ 0) × (p.y ≡ 1) = ground (arith, e) in
    ap {A = ℕ} {B = Point} (λ n. record { x = n; y = p.y }) same.0
    ∙ ap {A = ℕ} {B = Point} (λ n. record { x = 0; y = n }) same.1

add-infinity : (p : Point) → add p infinity ≡ p
unfolding add
add-infinity p = elim (Bool-cases (is_infinity p)) [
  | inl t ↦ rw t (sym (is_infinity-true p t))
  | inr f ↦ rw f refl
]

add_assoc : (p q r : Point) → add (add p q) r ≡ add p (add q r)
unfolding add
add_assoc p q r = elim (Bool-cases (is_infinity p)) [
  | inl t ↦ rw t refl
  | inr f ↦ elim (Bool-cases (is_infinity q)) [
    | inl t ↦ rw (f, t) (rw f refl)
    | inr g ↦ elim (Bool-cases (is_infinity r)) [
      | inl t ↦ rw (f, g, t) (rw g refl)
      | inr h ↦ rw (f, g, h) refl
    ]
  ]
]

abbrev pub everywhere : Point → Bool
everywhere p = true

pub curve : IsCurve add everywhere
unfolding add
curve = record {
  infinity_on = refl;
  closed = λ p q e f. refl;
  assoc = λ p q r e f g. add_assoc p q r;
  neutral_left = λ p e. refl;
  neutral_right = λ p e. add-infinity p;
}

-- In the field of 101 elements, the bits of a number that is the element modulo 101 are taken.
unfoldable pub unpacks : ℕ → List Bool → Bool
unpacks n [] = false
unpacks n (a ∷ []) = false
unpacks n (a ∷ b ∷ low) = not a && not b && of_bits (reverse low) % 101 == n % 101

abbrev pub own : ℕ → List Bool
own n = false ∷ false ∷ reverse (bits 7 n)

own-value : (n : ℕ) → n < 101 → of_bits (reverse (reverse (bits 7 n))) ≡ n
own-value n h = ap of_bits (reverse-reverse (bits 7 n)) ∙ of_bits-bits 7 n (omega (arith, h))

high_bits : (n : ℕ) (l : List Bool) → unpacks n l ≡ true → l ≡ false ∷ false ∷ tail (tail l)
unfolding unpacks
high_bits n [] e = absurd (ground (arith, e))
high_bits n (a ∷ []) e = absurd (ground (arith, e))
high_bits n (false ∷ false ∷ low) e = refl
high_bits n (false ∷ true ∷ low) e = absurd (ground (arith, e))
high_bits n (true ∷ b ∷ low) e = absurd (ground (arith, e))

congruent : (n : ℕ) (l : List Bool) → unpacks n l ≡ true → exponent l % 101 ≡ n % 101
unfolding unpacks
congruent n [] e = absurd (ground (arith, e))
congruent n (a ∷ []) e = absurd (ground (arith, e))
congruent n (a ∷ b ∷ low) e = ground (arith, e)

own-unpacks : (n : ℕ) → n < 101 → unpacks n (own n) ≡ true
unfolding unpacks
own-unpacks n h = rw (own-value n h) (==_refl (n % 101))

pub unpacking : Unpacks 101 unpacks
unpacking = record {
  high_bits = high_bits;
  congruent = congruent;
  own_bits = λ n h. (own n, own-unpacks n h, own-value n h);
}

-- The number 5 has the bits of 5 and those of 106.
verify_signature-equation_example :
    (verdict : Bool) × (verify_signature add everywhere everywhere
        (λ l. 5)
        unpacks
        (own 106)
        (own 7)
        (record { x = 1; y = 0 })
        1
        (record { r = record { x = 0; y = 0 }; s = 7 })
      ≡ some verdict)
    × ((verdict ≡ true) ↔ (
        times add (exponent (own 7)) base
        ≡ add
            (record { x = 0; y = 0 })
            (times add (8 * exponent (own 106)) (record { x = 1; y = 0 }))))
    × (exponent (own 7) % 101 ≡ 7 % 101)
    × (exponent (own 106) % 101 ≡ 5 % 101)
unfolding unpacks bits
verify_signature-equation_example =
    verify_signature-equation curve everywhere (λ l. 5) unpacking (own 106) (own 7)
      (record { x = 1; y = 0 }) 1 (record { r = record { x = 0; y = 0 }; s = 7 }) refl refl refl
      refl refl refl
