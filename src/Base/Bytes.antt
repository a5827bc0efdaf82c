-- ===== src/Base/Bytes.antt =====
-- Fixed-width words as lists of bytes.
use Prim.Native.Nat.{ℕ, zero, suc, ◌+◌, ◌*◌, ◌/◌, ◌%◌, ◌^◌, ◌<◌}
use mathlib.Core.Path.{◌≡◌, refl, ap, ◌∙◌}
use mathlib.Core.List.{List, [], ◌∷◌, reverse, reverse_aux, reverse-reverse}
use native.Mathlib.Omega.{arith}
use native.Mathlib.Nat.{pow-suc}
use fusion_zksnark_circle.Base.Lists.{length}

-- The `w` bytes of a word, lowest first.
unfoldable pub to_little_endian : ℕ → ℕ → List ℕ
to_little_endian zero n = []
to_little_endian (suc w) n = n % 256 ∷ to_little_endian w (n / 256)

unfoldable pub from_little_endian : List ℕ → ℕ
from_little_endian [] = 0
from_little_endian (b ∷ bs) = b + 256 * from_little_endian bs

unfoldable pub to_big_endian : ℕ → ℕ → List ℕ
unfolding to_little_endian
to_big_endian w n = reverse (to_little_endian w n)

unfoldable pub from_big_endian : List ℕ → ℕ
unfolding from_little_endian
from_big_endian bs = from_little_endian (reverse bs)

pub from_little_endian-to_little_endian :
    (w n : ℕ) → n < 256 ^ w → from_little_endian (to_little_endian w n) ≡ n
unfolding from_little_endian to_little_endian
from_little_endian-to_little_endian zero n h = omega arith
from_little_endian-to_little_endian (suc w) n h =
    ground (arith, from_little_endian-to_little_endian w (n / 256), pow-suc 256 w)

pub from_big_endian-to_big_endian :
    (w n : ℕ) → n < 256 ^ w → from_big_endian (to_big_endian w n) ≡ n
unfolding from_big_endian to_big_endian
from_big_endian-to_big_endian w n h =
    ap from_little_endian (reverse-reverse (to_little_endian w n))
    ∙ from_little_endian-to_little_endian w n h

-- Lists of `w` numbers below 256.
abbrev pub AreBytes : ℕ → List ℕ → Type 0
AreBytes zero [] = Unit {0}
AreBytes zero (b ∷ bs) = ⊥
AreBytes (suc w) [] = ⊥
AreBytes (suc w) (b ∷ bs) = (b < 256) × AreBytes w bs

pub from_little_endian-lt : (w : ℕ) (bs : List ℕ) → AreBytes w bs → from_little_endian bs < 256 ^ w
unfolding from_little_endian
from_little_endian-lt zero [] h = omega arith
from_little_endian-lt zero (b ∷ bs) h = absurd h
from_little_endian-lt (suc w) [] h = absurd h
from_little_endian-lt (suc w) (b ∷ bs) h =
    ground (arith, from_little_endian-lt w bs h.1, pow-suc 256 w)

pub to_little_endian-from_little_endian :
    (w : ℕ) (bs : List ℕ) → AreBytes w bs → to_little_endian w (from_little_endian bs) ≡ bs
unfolding from_little_endian to_little_endian
to_little_endian-from_little_endian zero [] h = refl
to_little_endian-from_little_endian zero (b ∷ bs) h = absurd h
to_little_endian-from_little_endian (suc w) [] h = absurd h
to_little_endian-from_little_endian (suc w) (b ∷ bs) h =
    let low : (b + 256 * from_little_endian bs) % 256 ≡ b = omega (arith, h.0) in
    let high : (b + 256 * from_little_endian bs) / 256 ≡ from_little_endian bs =
      omega (arith, h.0) in
    rw (low, high, to_little_endian-from_little_endian w bs h.1)

-- The same for the other byte order, whose lists are read from the end.
pub to_big_endian-from_big_endian :
    (w : ℕ) (bs : List ℕ) → AreBytes w (reverse bs) → to_big_endian w (from_big_endian bs) ≡ bs
unfolding from_big_endian to_big_endian
to_big_endian-from_big_endian w bs h =
    ap reverse (to_little_endian-from_little_endian w (reverse bs) h) ∙ reverse-reverse bs

length-to_little_endian : (w n : ℕ) → length (to_little_endian w n) ≡ w
unfolding to_little_endian
length-to_little_endian zero n = refl
length-to_little_endian (suc w) n = ap suc (length-to_little_endian w (n / 256))

length-reverse_aux : (xs acc : List ℕ) → length (reverse_aux xs acc) ≡ length xs + length acc
length-reverse_aux [] acc = omega arith
length-reverse_aux (x ∷ xs) acc = omega (arith, length-reverse_aux xs (x ∷ acc))

pub length-to_big_endian : (w n : ℕ) → length (to_big_endian w n) ≡ w
unfolding to_big_endian
length-to_big_endian w n =
    omega (arith, length-reverse_aux (to_little_endian w n) [], length-to_little_endian w n)
