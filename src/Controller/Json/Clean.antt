-- ===== src/Controller/Json/Clean.antt =====
-- pkg/controller/helpers.go: what is left after the deletion of keys.
use application_gateway_kube.Common.{
  Text, List, [], ◌∷◌, false, ◌≡◌, refl, ap, Bool-cases, inl, inr, All,
}
use application_gateway_kube.Controller.Json.{
  Json, atom, slice, object, Items, empty_slice, item, Fields, empty_object, field, same_key,
  delete_key, delete_below, delete_items, delete_item, delete_keys,
}

-- No map that the deletion enters has a field of the key: not the map itself, nor a map that is a
-- value, nor one that is an item of a slice that is a value.
unfoldable mutual
  pub IsClean : Text → Fields → Type 0
  IsClean key empty_object = Unit
  IsClean key (field k v fields) =
      (same_key k key ≡ false) × IsCleanBelow key v × IsClean key fields

  pub IsCleanBelow : Text → Json → Type 0
  IsCleanBelow key (atom a) = Unit
  IsCleanBelow key (object fields) = IsClean key fields
  IsCleanBelow key (slice items) = AreClean key items

  pub AreClean : Text → Items → Type 0
  AreClean key empty_slice = Unit
  AreClean key (item v items) = IsCleanItem key v × AreClean key items

  pub IsCleanItem : Text → Json → Type 0
  IsCleanItem key (atom a) = Unit
  IsCleanItem key (object fields) = IsClean key fields
  IsCleanItem key (slice items) = Unit

mutual
  unfolding delete_key IsClean

  delete_key-IsClean : (key : Text) (fields : Fields) → IsClean key (delete_key key fields)
  delete_key-IsClean key empty_object = tt
  delete_key-IsClean key (field k v fields) = elim (Bool-cases (same_key k key)) [
    | inl same ↦ rw same (delete_key-IsClean key fields)
    | inr other ↦ rw other (other, delete_below-IsClean key v, delete_key-IsClean key fields)
  ]

  delete_below-IsClean : (key : Text) (v : Json) → IsCleanBelow key (delete_below key v)
  delete_below-IsClean key (atom a) = tt
  delete_below-IsClean key (object fields) = delete_key-IsClean key fields
  delete_below-IsClean key (slice items) = delete_items-AreClean key items

  delete_items-AreClean : (key : Text) (items : Items) → AreClean key (delete_items key items)
  delete_items-AreClean key empty_slice = tt
  delete_items-AreClean key (item v items) =
      (delete_item-IsClean key v, delete_items-AreClean key items)

  delete_item-IsClean : (key : Text) (v : Json) → IsCleanItem key (delete_item key v)
  delete_item-IsClean key (atom a) = tt
  delete_item-IsClean key (object fields) = delete_key-IsClean key fields
  delete_item-IsClean key (slice items) = tt

-- Another deletion keeps what is clean.
mutual
  unfolding delete_key IsClean

  keep-IsClean :
      (key other : Text) (fields : Fields)
      → IsClean key fields
      → IsClean key (delete_key other fields)
  keep-IsClean key other empty_object h = tt
  keep-IsClean key other (field k v fields) h = elim (Bool-cases (same_key k other)) [
    | inl same ↦ rw same (keep-IsClean key other fields h.2)
    | inr off ↦ rw off (h.0, keep_below-IsClean key other v h.1, keep-IsClean key other fields h.2)
  ]

  keep_below-IsClean :
      (key other : Text) (v : Json) → IsCleanBelow key v → IsCleanBelow key (delete_below other v)
  keep_below-IsClean key other (atom a) h = tt
  keep_below-IsClean key other (object fields) h = keep-IsClean key other fields h
  keep_below-IsClean key other (slice items) h = keep-AreClean key other items h

  keep-AreClean :
      (key other : Text) (items : Items)
      → AreClean key items
      → AreClean key (delete_items other items)
  keep-AreClean key other empty_slice h = tt
  keep-AreClean key other (item v items) h =
      (keep_item-IsClean key other v h.0, keep-AreClean key other items h.1)

  keep_item-IsClean :
      (key other : Text) (v : Json) → IsCleanItem key v → IsCleanItem key (delete_item other v)
  keep_item-IsClean key other (atom a) h = tt
  keep_item-IsClean key other (object fields) h = keep-IsClean key other fields h
  keep_item-IsClean key other (slice items) h = tt

-- What is clean stays as it is.
mutual
  unfolding delete_key IsClean

  delete_key_clean :
      (key : Text) (fields : Fields) → IsClean key fields → delete_key key fields ≡ fields
  delete_key_clean key empty_object h = refl
  delete_key_clean key (field k v fields) h =
      rw (h.0, delete_below_clean key v h.1, delete_key_clean key fields h.2) refl

  delete_below_clean : (key : Text) (v : Json) → IsCleanBelow key v → delete_below key v ≡ v
  delete_below_clean key (atom a) h = refl
  delete_below_clean key (object fields) h = ap object (delete_key_clean key fields h)
  delete_below_clean key (slice items) h = ap slice (delete_items_clean key items h)

  delete_items_clean :
      (key : Text) (items : Items) → AreClean key items → delete_items key items ≡ items
  delete_items_clean key empty_slice h = refl
  delete_items_clean key (item v items) h =
      rw (delete_item_clean key v h.0, delete_items_clean key items h.1) refl

  delete_item_clean : (key : Text) (v : Json) → IsCleanItem key v → delete_item key v ≡ v
  delete_item_clean key (atom a) h = refl
  delete_item_clean key (object fields) h = ap object (delete_key_clean key fields h)
  delete_item_clean key (slice items) h = refl

keep_all-IsClean :
    (key : Text) (keys : List Text) (fields : Fields)
    → IsClean key fields
    → IsClean key (delete_keys keys fields)
unfolding delete_keys
keep_all-IsClean key [] fields h = h
keep_all-IsClean key (other ∷ keys) fields h =
    keep_all-IsClean key keys (delete_key other fields) (keep-IsClean key other fields h)

-- After the deletion of some keys the document is clean of each of them, in any case of its letters.
pub delete_keys-IsClean :
    (keys : List Text) (fields : Fields) → All (λ key. IsClean key (delete_keys keys fields)) keys
unfolding delete_keys
delete_keys-IsClean [] fields = tt
delete_keys-IsClean (key ∷ keys) fields = (
  keep_all-IsClean key keys (delete_key key fields) (delete_key-IsClean key fields),
  delete_keys-IsClean keys (delete_key key fields),
)

clean-delete_keys :
    (keys : List Text) (fields : Fields)
    → All (λ key. IsClean key fields) keys
    → delete_keys keys fields ≡ fields
unfolding delete_keys
clean-delete_keys [] fields h = refl
clean-delete_keys (key ∷ keys) fields h =
    rw (delete_key_clean key fields h.0) (clean-delete_keys keys fields h.1)

-- Deleting the same keys once more changes nothing.
pub delete_keys_idem :
    (keys : List Text) (fields : Fields)
    → delete_keys keys (delete_keys keys fields) ≡ delete_keys keys fields
delete_keys_idem keys fields =
    clean-delete_keys keys (delete_keys keys fields) (delete_keys-IsClean keys fields)
