-- ===== src/Controller/Json.antt =====
-- pkg/controller/helpers.go: the deletion of keys from a JSON document. What `json.Unmarshal` makes of
-- the document is a value here, in which each map has its fields in some order.
pub mod Clean
use application_gateway_kube.Common.{
  Text, List, [], ◌∷◌, Option, none, some, Bool, true, false, ◌==◌, text_eq, to_lower,
  if◌then◌else◌,
}

mutual
  -- `atom` is any value that is neither a map nor a slice.
  pub data Json : Type 0 where
    atom : Text → Json
    slice : Items → Json
    object : Fields → Json

  pub data Items : Type 0 where
    empty_slice : Items
    item : Json → Items → Items

  pub data Fields : Type 0 where
    empty_object : Fields
    field : Text → Json → Fields → Fields

abbrev pub same_key : Text → Text → Bool
same_key k key_to_delete = to_lower k == to_lower key_to_delete

unfoldable mutual
  -- `deleteKey` on the fields of a map.
  pub delete_key : Text → Fields → Fields
  delete_key key empty_object = empty_object
  delete_key key (field k v fields) =
      let rest = delete_key key fields in
      let kept = field k (delete_below key v) rest in if same_key k key then rest else kept

  -- What the loop does with a value: a map is entered, and each map that is an item of a slice.
  pub delete_below : Text → Json → Json
  delete_below key (atom a) = atom a
  delete_below key (object fields) = object (delete_key key fields)
  delete_below key (slice items) = slice (delete_items key items)

  pub delete_items : Text → Items → Items
  delete_items key empty_slice = empty_slice
  delete_items key (item v items) = item (delete_item key v) (delete_items key items)

  pub delete_item : Text → Json → Json
  delete_item key (atom a) = atom a
  delete_item key (object fields) = object (delete_key key fields)
  delete_item key (slice items) = slice items

-- The loop of `deleteKeyFromJSON` over the keys.
unfoldable pub delete_keys : List Text → Fields → Fields
delete_keys [] fields = fields
delete_keys (key ∷ keys) fields = delete_keys keys (delete_key key fields)
