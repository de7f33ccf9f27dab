-- ===== src/Utils/Multimap.antt =====
-- pkg/utils/threadsafemultimap.go: a multimap behind a lock, which makes each operation one step.
-- The sets are those of the library golang-set, a parameter with the laws of its documentation.
pub mod Relation
pub mod Invariant
use application_gateway_kube.Common.{
  List, [], ◌∷◌, Option, none, some, Bool, true, false, not, ◌&&◌, ◌||◌, ◌==◌, Comparable, GoMap,
  lookup, insert, if◌then◌else◌, ◌≡◌,
}

pub record SetLibrary (V : Type 0) ⦃c : Comparable V⦄ : Type 1 where
  pub Set : Type 0
  pub new_set : Set
  pub add : V → Set → Set
  pub remove : V → Set → Set
  pub clear : Set → Set
  pub contains : Set → V → Bool
  pub contains-new_set : (w : V) → contains new_set w ≡ false
  pub contains-add : (v w : V) (s : Set) → contains (add v s) w ≡ (v == w || contains s w)
  pub contains-remove :
      (v w : V) (s : Set) → contains (remove v s) w ≡ (not (v == w) && contains s w)
  pub contains-clear : (w : V) (s : Set) → contains (clear s) w ≡ false

module _ {V : Type 0} ⦃c : Comparable V⦄ (lib : SetLibrary V) where
  abbrev pub set_or_new : Option lib.Set → lib.Set
  set_or_new none = lib.new_set
  set_or_new (some s) = s

  abbrev pub holds : Option lib.Set → V → Bool
  holds none value = false
  holds (some s) value = lib.contains s value

module _ {K V : Type 0} ⦃e : Comparable K⦄ ⦃c : Comparable V⦄ (lib : SetLibrary V) where
  -- `Insert`
  unfoldable pub insert_pair : K → V → GoMap K lib.Set → GoMap K lib.Set
  insert_pair key value m = insert key (lib.add value (set_or_new lib (lookup key m))) m

  abbrev pub clear_found : K → GoMap K lib.Set → Option lib.Set → GoMap K lib.Set
  clear_found key m none = m
  clear_found key m (some s) = insert key (lib.clear s) m

  -- `Clear`
  unfoldable pub clear : K → GoMap K lib.Set → GoMap K lib.Set
  clear key m = clear_found key m (lookup key m)

  -- `delete(m.v, key)`
  unfoldable pub delete : K → GoMap K lib.Set → GoMap K lib.Set
  delete key [] = []
  delete key (entry ∷ m) = let rest = delete key m in if entry.0 == key then rest else entry ∷ rest

  abbrev pub erase_found : K → GoMap K lib.Set → Option lib.Set → GoMap K lib.Set × Bool
  erase_found key m none = (m, false)
  erase_found key m (some s) = (delete key m, true)

  -- `Erase`
  unfoldable pub erase : K → GoMap K lib.Set → GoMap K lib.Set × Bool
  erase key m = erase_found key m (lookup key m)

  -- `EraseValue`
  unfoldable pub erase_value : V → GoMap K lib.Set → GoMap K lib.Set × Bool
  erase_value value [] = ([], false)
  erase_value value (entry ∷ m) =
      let rest = erase_value value m in
      if lib.contains entry.1 value
      then ((entry.0, lib.remove value entry.1) ∷ rest.0, true)
      else (entry ∷ rest.0, rest.1)

  -- `ContainsPair`
  unfoldable pub contains_pair : K → V → GoMap K lib.Set → Bool
  contains_pair key value m = holds lib (lookup key m) value

  -- `ContainsValue`
  unfoldable pub contains_value : V → GoMap K lib.Set → Bool
  contains_value value [] = false
  contains_value value (entry ∷ m) = lib.contains entry.1 value || contains_value value m
