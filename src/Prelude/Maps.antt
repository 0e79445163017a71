-- ===== src/Prelude/Maps.antt =====
-- `HashMap` as an association list. Iteration follows the list; the order of a `HashMap` is
-- unspecified, and the theorems hold for every list.
pub mod Loop
pub mod Visited
use svlopp.Prelude.Tests.{if◌then◌else◌, Bool-cases}
use svlopp.Prelude.Equality.{Eq, ◌==◌}
use mathlib.Core.Path.{◌≡◌, refl}
use mathlib.Core.Logic.{inl, inr}
use mathlib.Core.Bool.{Bool, true, false}
use mathlib.Core.Option.{Option, none, some}
use mathlib.Core.List.{List, [], ◌∷◌}
use native.Mathlib.Omega.{arith}

abbrev pub Map {ℓ κ} : Type ℓ → Type κ → Type (ℓ ⊔ κ)
Map K V = List (K × V)

module _ {ℓ κ} {K : Type ℓ} {V : Type κ} ⦃e : Eq K⦄ where
  unfoldable pub get : K → Map K V → Option V
  get j [] = none
  get j ((k, v) ∷ m) = if k == j then some v else get j m

  unfoldable pub contains_key : K → Map K V → Bool
  contains_key j [] = false
  contains_key j ((k, v) ∷ m) = if k == j then true else contains_key j m

  -- An old entry is replaced in place.
  unfoldable pub insert : K → V → Map K V → Map K V
  insert k v [] = (k, v) ∷ []
  insert k v ((j, w) ∷ m) = if j == k then (k, v) ∷ m else (j, w) ∷ insert k v m

  unfoldable pub remove : K → Map K V → Map K V
  remove k [] = []
  remove k ((j, w) ∷ m) = let rest = remove k m in if j == k then rest else (j, w) ∷ rest

  pub get-insert :
      (j k : K) (v : V) (m : Map K V) → get j (insert k v m) ≡ (if k == j then some v else get j m)
  unfolding get insert
  get-insert j k v [] = refl
  get-insert j k v ((i, w) ∷ m) =
      ground (arith, e.beq_iff k j, e.beq_iff i k, e.beq_iff i j, get-insert j k v m)

  pub get-remove : (j k : K) (m : Map K V) → get j (remove k m) ≡ (if k == j then none else get j m)
  unfolding get remove
  get-remove j k [] = ground arith
  get-remove j k ((i, w) ∷ m) =
      ground (arith, e.beq_iff k j, e.beq_iff i k, e.beq_iff i j, get-remove j k m)

  -- No key stands twice.
  abbrev pub Distinct : Map K V → Type 0
  Distinct [] = Unit {0}
  Distinct ((k, v) ∷ m) = (contains_key k m ≡ false) × Distinct m

  pub contains_key-get : (k : K) (m : Map K V) → contains_key k m ≡ false → get k m ≡ none
  unfolding contains_key get
  contains_key-get k [] h = refl
  contains_key-get k ((j, w) ∷ m) h = ground (arith, contains_key-get k m)

  contains_key-insert :
      (j k : K) (v : V) (m : Map K V)
      → contains_key j (insert k v m) ≡ (if k == j then true else contains_key j m)
  unfolding contains_key insert
  contains_key-insert j k v [] = refl
  contains_key-insert j k v ((i, w) ∷ m) =
      ground (arith, e.beq_iff k j, e.beq_iff i k, e.beq_iff i j, contains_key-insert j k v m)

  contains_key-remove :
      (j k : K) (m : Map K V) → contains_key j m ≡ false → contains_key j (remove k m) ≡ false
  unfolding contains_key remove
  contains_key-remove j k [] h = refl
  contains_key-remove j k ((i, w) ∷ m) h = ground (arith, contains_key-remove j k m)

  pub insert-Distinct : (k : K) (v : V) (m : Map K V) → Distinct m → Distinct (insert k v m)
  unfolding insert contains_key
  insert-Distinct k v [] d = (refl, tt)
  insert-Distinct k v ((j, w) ∷ m) d =
      ground
        (arith, contains_key-insert j k v m, insert-Distinct k v m, e.beq_iff j k, e.beq_iff k j)

  pub remove-Distinct : (k : K) (m : Map K V) → Distinct m → Distinct (remove k m)
  unfolding remove
  remove-Distinct k [] d = tt
  remove-Distinct k ((j, w) ∷ m) d = ground (arith, contains_key-remove j k m, remove-Distinct k m)

  pub contains_key-cons_self : (k : K) (v : V) (m : Map K V) → contains_key k ((k, v) ∷ m) ≡ true
  unfolding contains_key
  contains_key-cons_self k v m = ground (arith, e.beq_iff k k)
