-- ===== src/Base/BTreeMap.antt =====
-- `BTreeMap` as an association list: only lookups are observed, so the order is left out.
use mathlib.Core.Path.{◌≡◌}
use mathlib.Core.Logic.{ite}
use mathlib.Core.List.{List, [], ◌∷◌}
use mathlib.Core.Option.{Option, none, some}
use native.Mathlib.Omega.{arith}

abbrev pub BTreeMap : Type 0 → Type 0 → Type 0
BTreeMap K V = List (K × V)

module _ {K V : Type 0} (eq : Discrete K) where
  unfoldable pub get : K → BTreeMap K V → Option V
  get k [] = none
  get k ((j, v) ∷ m) = ite (eq k j) (some v) (get k m)

  unfoldable pub remove : K → BTreeMap K V → BTreeMap K V
  remove k [] = []
  remove k ((j, v) ∷ m) = let rest = remove k m in ite (eq k j) rest ((j, v) ∷ rest)

  unfoldable pub insert : K → V → BTreeMap K V → BTreeMap K V
  unfolding remove
  insert k v m = (k, v) ∷ remove k m

  pub get-remove : (k j : K) (m : BTreeMap K V) → get j (remove k m) ≡ ite (eq j k) none (get j m)
  unfolding get remove
  get-remove k j [] = ground arith
  get-remove k j ((i, v) ∷ m) = ground (arith, get-remove k j m)

  pub get-insert :
      (k j : K) (v : V) (m : BTreeMap K V) → get j (insert k v m) ≡ ite (eq j k) (some v) (get j m)
  unfolding get insert
  get-insert k j v m = ground (arith, get-remove k j m)
