-- ===== src/Common/Maps.antt =====
-- Go's built-in map, as a list of entries in which no key stands twice.
use mathlib.Core.Path.{◌≡◌, refl}
use mathlib.Core.Bool.{Bool, true, false}
use mathlib.Core.Option.{Option, none, some}
use mathlib.Core.Logic.{◌↔◌, ◌⊎◌}
use mathlib.Core.List.{List, [], ◌∷◌}
use native.Mathlib.Omega.{arith}
use application_gateway_kube.Common.Tests.{Comparable, ◌==◌, if◌then◌else◌}

abbrev pub GoMap {ℓ κ} : Type ℓ → Type κ → Type (ℓ ⊔ κ)
GoMap K V = List (K × V)

-- `map[K]interface{}` with nil values.
abbrev pub GoSet : Type 0 → Type 0
GoSet K = GoMap {0, 0} K Unit

abbrev pub is_some {ℓ} : {A : Type ℓ} → Option A → Bool
is_some none = false
is_some (some a) = true

module _ {ℓ κ} {K : Type ℓ} {V : Type κ} where
  abbrev pub values : GoMap K V → List V
  values [] = []
  values ((k, v) ∷ m) = v ∷ values m

module _ {ℓ κ} {K : Type ℓ} {V : Type κ} ⦃e : Comparable K⦄ where
  -- `v, ok := m[key]`
  unfoldable pub lookup : K → GoMap K V → Option V
  lookup key [] = none
  lookup key (entry ∷ m) = if entry.0 == key then some entry.1 else lookup key m

  -- `_, ok := m[k]`
  abbrev pub member : K → GoMap K V → Bool
  member k m = is_some (lookup k m)

  -- `m[key] = value`
  unfoldable pub insert : K → V → GoMap K V → GoMap K V
  insert key value [] = (key, value) ∷ []
  insert key value (entry ∷ m) =
      let rest = insert key value m in if entry.0 == key then (entry.0, value) ∷ m else entry ∷ rest

  pub lookup-insert :
      (key other : K) (value : V) (m : GoMap K V)
      → lookup other (insert key value m) ≡ (if key == other then some value else lookup other m)
  unfolding insert lookup
  lookup-insert key other value [] = refl
  lookup-insert key other value (entry ∷ m) = ground (
    arith,
    lookup-insert key other value m,
    e.same_iff entry.0 key,
    e.same_iff key other,
    e.same_iff entry.0 other,
  )

  -- A key is there after an insertion exactly if it is the new one or was there before.
  pub member-insert :
      (k j : K) (v : V) (m : GoMap K V)
      → (member j (insert k v m) ≡ true) ↔ ((k ≡ j) ⊎ (member j m ≡ true))
  member-insert k j v m = rw (lookup-insert k j v m) (ground (arith, e.same_iff k j))
