-- ===== src/Utils/Multimap/Relation.antt =====
-- The multimap as a relation between keys and values.
use application_gateway_kube.Common.{
  [], ◌∷◌, Option, none, some, not, ◌&&◌, ◌||◌, ◌==◌, Comparable, GoMap, lookup, lookup-insert,
  if◌then◌else◌, ◌≡◌, refl, arith, Option-cases, inl, inr,
}
use application_gateway_kube.Utils.Multimap.{
  SetLibrary, set_or_new, insert_pair, clear, delete, erase, erase_value, holds, contains_pair,
}

module _ {V : Type 0} ⦃c : Comparable V⦄ (lib : SetLibrary V) where
  contains-set_or_new :
      (o : Option lib.Set) (w : V) → lib.contains (set_or_new lib o) w ≡ holds lib o w
  contains-set_or_new none w = lib.contains-new_set w
  contains-set_or_new (some s) w = refl

module _ {K V : Type 0} ⦃e : Comparable K⦄ ⦃c : Comparable V⦄ (lib : SetLibrary V) where
  pub contains_pair-insert_pair :
      (key j : K) (value w : V) (m : GoMap K lib.Set)
      → contains_pair lib j w (insert_pair lib key value m)
        ≡ ((key == j && value == w) || contains_pair lib j w m)
  unfolding contains_pair insert_pair
  contains_pair-insert_pair key j value w m = ground (
    arith,
    lookup-insert key j (lib.add value (set_or_new lib (lookup key m))) m,
    lib.contains-add value w (set_or_new lib (lookup key m)),
    contains-set_or_new lib (lookup key m) w,
    e.same_iff key j,
  )

  pub lookup-delete :
      (key j : K) (m : GoMap K lib.Set)
      → lookup j (delete lib key m) ≡ (if key == j then none else lookup j m)
  unfolding lookup delete
  lookup-delete key j [] = ground arith
  lookup-delete key j (entry ∷ m) =
      ground (
        arith,
        lookup-delete key j m,
        e.same_iff entry.0 key,
        e.same_iff key j,
        e.same_iff entry.0 j,
      )

  pub contains_pair-clear :
      (key j : K) (w : V) (m : GoMap K lib.Set)
      → contains_pair lib j w (clear lib key m) ≡ (not (key == j) && contains_pair lib j w m)
  unfolding contains_pair clear
  contains_pair-clear key j w m = elim (Option-cases (lookup key m)) [
    | inl nothing ↦ ground (arith, e.same_iff key j)
    | inr (s, found) ↦
        ground
          (arith, lookup-insert key j (lib.clear s) m, lib.contains-clear w s, e.same_iff key j)
  ]

  pub contains_pair-erase :
      (key j : K) (w : V) (m : GoMap K lib.Set)
      → contains_pair lib j w (erase lib key m).0 ≡ (not (key == j) && contains_pair lib j w m)
  unfolding contains_pair erase
  contains_pair-erase key j w m = elim (Option-cases (lookup key m)) [
    | inl nothing ↦ ground (arith, e.same_iff key j)
    | inr (s, found) ↦ ground (arith, lookup-delete key j m)
  ]

  contains_pair-erase_value :
      (value w : V) (j : K) (m : GoMap K lib.Set)
      → contains_pair lib j w (erase_value lib value m).0
        ≡ (not (value == w) && contains_pair lib j w m)
  unfolding contains_pair erase_value lookup
  contains_pair-erase_value value w j [] = ground arith
  contains_pair-erase_value value w j (entry ∷ m) = ground (
    arith,
    contains_pair-erase_value value w j m,
    lib.contains-remove value w entry.1,
    c.same_iff value w,
  )

  -- The operations as operations on the relation: inserting adds one pair, clearing or erasing a
  -- key takes its pairs away, and erasing a value takes its pairs away.
  pub contains_pair-operations :
      (key j : K) (value w : V) (m : GoMap K lib.Set)
      → (contains_pair lib j w (insert_pair lib key value m)
          ≡ ((key == j && value == w) || contains_pair lib j w m))
        × (contains_pair lib j w (clear lib key m) ≡ (not (key == j) && contains_pair lib j w m))
        × (contains_pair lib j w (erase lib key m).0 ≡ (not (key == j) && contains_pair lib j w m))
        × (contains_pair lib j w (erase_value lib value m).0
            ≡ (not (value == w) && contains_pair lib j w m))
  contains_pair-operations key j value w m = (
    contains_pair-insert_pair key j value w m,
    contains_pair-clear key j w m,
    contains_pair-erase key j w m,
    contains_pair-erase_value value w j m,
  )
