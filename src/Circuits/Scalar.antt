-- ===== src/Circuits/Scalar.antt =====
-- Double-and-add is repeated addition, and the signature circuit tests the signature's equation.
use mathlib.Core.List.{reverse, tail, reverse-append}
use fusion_zksnark_circle.Base.{
  ℕ, zero, suc, ◌+◌, ◌*◌, ◌%◌, ◌<◌, ◌≡◌, ◌↔◌, refl, sym, ap, ◌∙◌, Bool, true, false, some, List, [],
  ◌∷◌, ◌++◌, ◌==◌, ◌&&◌, of_bits, arith,
}
use fusion_zksnark_circle.Types.PublicKey.{Point}
use fusion_zksnark_circle.Prover.CircuitInput.{CircuitTxSignature}
use fusion_zksnark_circle.Circuits.Signature.{
  infinity, base, scalar_loop, scalar_mult, verify_signature,
}

-- On the points of the curve the sum is associative, and the point at infinity is its neutral element.
pub record IsCurve (add : Point → Point → Point) (on_curve : Point → Bool) : Type 0 where
  pub infinity_on : on_curve infinity ≡ true
  pub closed : (p q : Point) → on_curve p ≡ true → on_curve q ≡ true → on_curve (add p q) ≡ true
  pub assoc :
      (p q r : Point)
      → on_curve p ≡ true
      → on_curve q ≡ true
      → on_curve r ≡ true
      → add (add p q) r ≡ add p (add q r)
  pub neutral_left : (p : Point) → on_curve p ≡ true → add infinity p ≡ p
  pub neutral_right : (p : Point) → on_curve p ≡ true → add p infinity ≡ p

module _ (add : Point → Point → Point) where
  -- The sum of a number of copies of a point.
  unfoldable pub times : ℕ → Point → Point
  times zero p = infinity
  times (suc n) p = add p (times n p)

module _ {add : Point → Point → Point} {on_curve : Point → Bool}
    (curve : IsCurve add on_curve) where
  times-on : (n : ℕ) (p : Point) → on_curve p ≡ true → on_curve (times add n p) ≡ true
  unfolding times
  times-on zero p h = curve.infinity_on
  times-on (suc n) p h = curve.closed p (times add n p) h (times-on n p h)

  times-double :
      (n : ℕ) (p : Point) → on_curve p ≡ true → times add n (add p p) ≡ times add (2 * n) p
  unfolding times
  times-double zero p h = refl
  times-double (suc n) p h =
      let two : 2 * suc n ≡ suc (suc (2 * n)) = omega arith in
      rw two (
        ap (add (add p p)) (times-double n p h)
        ∙ curve.assoc p p (times add (2 * n) p) h h (times-on (2 * n) p h))

  scalar_loop-times :
      (bits : List Bool) (doubled accumulated : Point)
      → on_curve doubled ≡ true
      → on_curve accumulated ≡ true
      → scalar_loop add bits doubled accumulated
        ≡ add accumulated (times add (of_bits bits) doubled)
  unfolding scalar_loop times
  scalar_loop-times [] d a hd ha = sym (curve.neutral_right a ha)
  scalar_loop-times (false ∷ bits) d a hd ha =
      scalar_loop-times bits (add d d) a (curve.closed d d hd hd) ha
      ∙ ap (add a) (times-double (of_bits bits) d hd ∙ ap (λ n. times add n d) (omega arith))
  scalar_loop-times (true ∷ bits) d a hd ha =
      let odd : 1 + 2 * of_bits bits ≡ suc (2 * of_bits bits) = omega arith in
      scalar_loop-times bits (add d d) (add a d) (curve.closed d d hd hd) (curve.closed a d ha hd)
      ∙ ap (add (add a d)) (times-double (of_bits bits) d hd)
      ∙ curve.assoc a d (times add (2 * of_bits bits) d) ha hd (times-on (2 * of_bits bits) d hd)
      ∙ ap (add a) (sym (ap (λ n. times add n d) odd))

  -- On a point of the curve, the loop over the bits of an exponent returns the sum of as many
  -- copies of the point as the bits are the number of.
  pub scalar_mult-times :
      (exponent : List Bool) (p : Point)
      → on_curve p ≡ true
      → scalar_mult add on_curve exponent p ≡ some (times add (of_bits (reverse exponent)) p)
  unfolding scalar_mult
  scalar_mult-times exponent p h =
      let e = scalar_loop-times (reverse exponent) p infinity h curve.infinity_on in
      let on = times-on (of_bits (reverse exponent)) p h in
      let same = e ∙ curve.neutral_left (times add (of_bits (reverse exponent)) p) on in
      rw (same, on)

of_bits-zeros : (p q : List Bool) → of_bits q ≡ 0 → of_bits (p ++ q) ≡ of_bits p
of_bits-zeros [] q e = e
of_bits-zeros (b ∷ p) q e = omega (arith, of_bits-zeros p q e)

-- The number of the bits below the two highest.
abbrev pub exponent : List Bool → ℕ
exponent bits = of_bits (reverse (tail (tail bits)))

-- How field elements are unpacked into 256 bits, highest first: the two highest bits are clear, and the
-- others are those of a number that is the element modulo the field's size. The element's own bits
-- are one such unpacking.
pub record Unpacks (p : ℕ) (unpacks : ℕ → List Bool → Bool) : Type 0 where
  pub high_bits :
      (n : ℕ) (bits : List Bool) → unpacks n bits ≡ true → bits ≡ false ∷ false ∷ tail (tail bits)
  pub congruent : (n : ℕ) (bits : List Bool) → unpacks n bits ≡ true → exponent bits % p ≡ n % p
  pub own_bits :
      (n : ℕ) → n < p → (bits : List Bool) × (unpacks n bits ≡ true) × (exponent bits ≡ n)

module _ {p : ℕ} {unpacks : ℕ → List Bool → Bool} (u : Unpacks p unpacks) (n : ℕ) (bits : List Bool)
    (chosen : unpacks n bits ≡ true) where
  bits-exponent : of_bits (reverse bits) ≡ exponent bits
  bits-exponent =
      let low = tail (tail bits) in
      ap (λ l. of_bits (reverse l)) (u.high_bits n bits chosen)
      ∙ ap of_bits (reverse-append (false ∷ false ∷ []) low)
      ∙ of_bits-zeros (reverse low) (false ∷ false ∷ []) refl

eightfold :
    (low : List Bool)
    → of_bits (reverse (low ++ false ∷ false ∷ false ∷ [])) ≡ 8 * of_bits (reverse low)
eightfold low = ap of_bits (reverse-append low (false ∷ false ∷ false ∷ [])) ∙ omega arith

module _ {add : Point → Point → Point} {on_curve : Point → Bool} (curve : IsCurve add on_curve)
    (order_check : Point → Bool) (poseidon : List ℕ → ℕ) {unpacks : ℕ → List Bool → Bool} {p : ℕ}
    (u : Unpacks p unpacks) where
  -- For a signature whose point is on the curve and passes the order check, a sender's key on the
  -- curve, and any unpackings of the hash and of the signature's number that the circuit takes: the
  -- signature circuit fails no assertion, and its verdict is true exactly if as many copies of the
  -- base point as the signature's bits say are the signature's point plus eight times as many copies
  -- of the key as the hash's bits say. The numbers of the bits are the signature's number and the
  -- hash modulo the field's size, and no more than that is assumed of them. The curve's sum is
  -- assumed associative with a neutral element.
  pub verify_signature-equation :
      (hm_bits s_bits : List Bool) (sender : Point) (msg : ℕ) (sig : CircuitTxSignature)
      → on_curve base ≡ true
      → on_curve sender ≡ true
      → on_curve sig.r ≡ true
      → order_check sig.r ≡ true
      → unpacks (poseidon (sig.r.x ∷ sig.r.y ∷ sender.x ∷ sender.y ∷ msg ∷ [])) hm_bits ≡ true
      → unpacks sig.s s_bits ≡ true
      → (verdict : Bool) × (verify_signature add on_curve order_check poseidon unpacks hm_bits
            s_bits sender msg sig
          ≡ some verdict)
        × ((verdict ≡ true) ↔ (
            times add (exponent s_bits) base ≡ add sig.r (times add (8 * exponent hm_bits) sender)))
        × (exponent s_bits % p ≡ sig.s % p)
        × (exponent hm_bits % p ≡ poseidon (sig.r.x ∷ sig.r.y ∷ sender.x ∷ sender.y ∷ msg ∷ []) % p)
  unfolding verify_signature
  verify_signature-equation hm_bits s_bits sender msg sig on_base on_sender on_r order hm_chosen
        s_chosen =
      let hm = poseidon (sig.r.x ∷ sig.r.y ∷ sender.x ∷ sender.y ∷ msg ∷ []) in
      let low = tail (tail hm_bits) in
      let lhs = times add (exponent s_bits) base in
      let rhs = add sig.r (times add (8 * exponent hm_bits) sender) in
      (
        lhs.x == rhs.x && lhs.y == rhs.y,
        rw (
          on_r,
          order,
          hm_chosen,
          s_chosen,
          scalar_mult-times curve s_bits base on_base,
          bits-exponent u sig.s s_bits s_chosen,
          scalar_mult-times curve (low ++ false ∷ false ∷ false ∷ []) sender on_sender,
          eightfold low,
        ),
        (λ e. ground (arith, e), λ e. ground (arith, ap Point.x e, ap Point.y e)),
        u.congruent sig.s s_bits s_chosen,
        u.congruent hm hm_bits hm_chosen,
      )
