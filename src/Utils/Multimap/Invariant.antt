-- ===== src/Utils/Multimap/Invariant.antt =====
-- The multimap keeps one entry for each key, so its values are those of its pairs.
use application_gateway_kube.Common.{
  [], ◌∷◌, Option, none, some, true, ◌==◌, Comparable, GoMap, lookup, insert, lookup-insert, ◌≡◌,
  refl, ◌↔◌, arith, Bool-cases, inl, inr, beq_refl,
}
use application_gateway_kube.Utils.Multimap.{
  SetLibrary, set_or_new, insert_pair, clear_found, clear, delete, erase_found, erase, erase_value,
  contains_pair, contains_value,
}
use application_gateway_kube.Utils.Multimap.Relation.{lookup-delete}

module _ {K V : Type 0} ⦃e : Comparable K⦄ ⦃c : Comparable V⦄ (lib : SetLibrary V) where
  -- No key has two entries.
  abbrev pub IsMap : GoMap K lib.Set → Type 0
  IsMap [] = Unit
  IsMap (entry ∷ m) = (lookup entry.0 m ≡ none) × IsMap m

  insert-IsMap : (key : K) (s : lib.Set) (m : GoMap K lib.Set) → IsMap m → IsMap (insert key s m)
  unfolding insert lookup
  insert-IsMap key s [] h = (refl, tt)
  insert-IsMap key s (entry ∷ m) h = elim (Bool-cases (entry.0 == key)) [
    | inl same ↦ rw same h
    | inr off ↦ rw off (
      rw (lookup-insert key entry.0 s m)
          (ground (arith, h.0, e.same_iff entry.0 key, e.same_iff key entry.0)),
      insert-IsMap key s m h.1,
    )
  ]

  delete-IsMap : (key : K) (m : GoMap K lib.Set) → IsMap m → IsMap (delete lib key m)
  unfolding delete
  delete-IsMap key [] h = tt
  delete-IsMap key (entry ∷ m) h = elim (Bool-cases (entry.0 == key)) [
    | inl same ↦ rw same (delete-IsMap key m h.1)
    | inr off ↦
        rw off (rw (lookup-delete lib key entry.0 m) (ground (arith, h.0)), delete-IsMap key m h.1)
  ]

  lookup-erase_value :
      (value : V) (j : K) (m : GoMap K lib.Set)
      → lookup j m ≡ none
      → lookup j (erase_value lib value m).0 ≡ none
  unfolding erase_value lookup
  lookup-erase_value value j [] h = refl
  lookup-erase_value value j (entry ∷ m) h = ground (arith, lookup-erase_value value j m)

  erase_value-IsMap :
      (value : V) (m : GoMap K lib.Set) → IsMap m → IsMap (erase_value lib value m).0
  unfolding erase_value
  erase_value-IsMap value [] h = tt
  erase_value-IsMap value (entry ∷ m) h = elim (Bool-cases (lib.contains entry.1 value)) [
    | inl y ↦ rw y (lookup-erase_value value entry.0 m h.0, erase_value-IsMap value m h.1)
    | inr n ↦ rw n (lookup-erase_value value entry.0 m h.0, erase_value-IsMap value m h.1)
  ]

  clear_found-IsMap :
      (key : K) (m : GoMap K lib.Set) (o : Option lib.Set)
      → IsMap m
      → IsMap (clear_found lib key m o)
  clear_found-IsMap key m none h = h
  clear_found-IsMap key m (some s) h = insert-IsMap key (lib.clear s) m h

  erase_found-IsMap :
      (key : K) (m : GoMap K lib.Set) (o : Option lib.Set)
      → IsMap m
      → IsMap (erase_found lib key m o).0
  erase_found-IsMap key m none h = h
  erase_found-IsMap key m (some s) h = delete-IsMap key m h

  -- Every operation on a multimap with one entry for each key leaves one entry for each key.
  pub operations-IsMap :
      (key : K) (value : V) (m : GoMap K lib.Set)
      → IsMap m
      → IsMap (insert_pair lib key value m)
        × IsMap (clear lib key m)
        × IsMap (erase lib key m).0
        × IsMap (erase_value lib value m).0
  unfolding insert_pair clear erase
  operations-IsMap key value m h = (
    insert-IsMap key (lib.add value (set_or_new lib (lookup key m))) m h,
    clear_found-IsMap key m (lookup key m) h,
    erase_found-IsMap key m (lookup key m) h,
    erase_value-IsMap value m h,
  )

  -- A value is found exactly if some key has it.
  pub contains_value_iff :
      (value : V) (m : GoMap K lib.Set)
      → IsMap m
      → (contains_value lib value m ≡ true) ↔ ((key : K) × (contains_pair lib key value m ≡ true))
  unfolding contains_value contains_pair lookup
  contains_value_iff value [] h = (λ p. absurd (cc), λ p. absurd (let q = p.1 in cc))
  contains_value_iff value (entry ∷ m) h =
      let ih = contains_value_iff value m h.1 in
      (
        λ p. elim (Bool-cases (lib.contains entry.1 value)) [
          | inl here ↦ (entry.0, rw (beq_refl entry.0) here)
          | inr off ↦
              let (k, q) = ih.0 (rw off at p) in
              (
                k,
                elim (Bool-cases (entry.0 == k)) [
                  | inl same ↦ absurd (ground (arith, h.0, q, e.same_iff entry.0 k))
                  | inr other ↦ rw other q
                ],
              )
        ],
        λ p. elim (Bool-cases (entry.0 == p.0)) [
          | inl same ↦ ground (arith, rw same at p.1)
          | inr other ↦ ground (arith, ih.1 (p.0, rw other at p.1))
        ],
      )
