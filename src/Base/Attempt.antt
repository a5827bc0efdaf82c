-- ===== src/Base/Attempt.antt =====
-- Calls that return a value, return an error with a message, or panic (`none`).
use Prim.Native.String.{String, ◌++◌}
use mathlib.Core.Path.{◌≡◌, refl}
use mathlib.Core.Option.{Option, none, some}
use fusion_zksnark_circle.Base.Tests.{Result, ok, err}

abbrev pub Attempt {ℓ} : Type ℓ → Type ℓ
Attempt A = Option (Result A)

-- The operator `?` ends a function with an error.
infixl 5 ◌>>=◌
abbrev pub ◌>>=◌ {ℓ κ} : {A : Type ℓ} {B : Type κ} → Attempt A → (A → Attempt B) → Attempt B
none >>= f = none
some (err e) >>= f = some (err e)
some (ok a) >>= f = f a

-- `unwrap`
abbrev pub unwrapped {ℓ} : {A : Type ℓ} → Option A → Attempt A
unwrapped none = none
unwrapped (some a) = some (ok a)

-- `map_err` with a text before the error's
abbrev pub explained {ℓ} : {A : Type ℓ} → String → Result A → Attempt A
explained context (ok a) = some (ok a)
explained context (err why) = some (err (context ++ why))

pub >>=-ok {ℓ κ} :
    {A : Type ℓ} {B : Type κ} (m : Attempt A) (f : A → Attempt B) {b : B}
    → (m >>= f) ≡ some (ok b)
    → (a : A) × (m ≡ some (ok a)) × (f a ≡ some (ok b))
>>=-ok none f e = cc
>>=-ok (some (err why)) f e = cc
>>=-ok (some (ok a)) f e = (a, refl, e)

pub unwrapped-ok {ℓ} : {A : Type ℓ} (o : Option A) {a : A} → unwrapped o ≡ some (ok a) → o ≡ some a
unwrapped-ok none e = cc
unwrapped-ok (some b) e = cc

pub explained-ok {ℓ} :
    {A : Type ℓ} (context : String) (r : Result A) {a : A}
    → explained context r ≡ some (ok a)
    → r ≡ ok a
explained-ok context (ok b) e = cc
explained-ok context (err why) e = cc
