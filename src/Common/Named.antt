-- ===== src/Common/Named.antt =====
-- Go maps in which items stand under their names, from which their IDs are made.
use application_gateway_kube.Common.Tests.{◌==◌, beq_refl, Option-cases}
use application_gateway_kube.Common.Strings.{Text, text_eq}
use application_gateway_kube.Common.Maps.{GoMap, lookup, insert, member, values, member-insert}
use application_gateway_kube.Common.Keyed.{All, any, any-perm}
use application_gateway_kube.Common.Uniq.{
  values-perm, All-insert_entry, All-lookup_entry, any-values,
}
use application_gateway_kube.Common.Order.{MapOrder}
use mathlib.Core.Path.{◌≡◌, refl, ◌∙◌, sym}
use mathlib.Core.Logic.{inl, inr}
use mathlib.Core.Bool.{Bool, true}
use mathlib.Core.List.{List, ◌∷◌}

-- An item with the ID.
abbrev pub has_item : {A : Type 0} → (A → Text) → Text → List A → Bool
has_item id_of id xs = any (λ a. id_of a == id) xs

module _ {A : Type 0} (name_of id_of : A → Text) (make_id : Text → Text) where
  abbrev pub IsNamed : GoMap Text A → Type 0
  IsNamed m =
      All (λ (entry : Text × A). (name_of entry.1 ≡ entry.0) × (id_of entry.1 ≡ make_id entry.0)) m

  pub insert-IsNamed :
      (n : Text) (a : A) (m : GoMap Text A)
      → name_of a ≡ n
      → id_of a ≡ make_id n
      → IsNamed m
      → IsNamed (insert n a m)
  insert-IsNamed n a m e f h = All-insert_entry _ n a m (e, f) h

  -- The values of the map have the ID of every name that is a key.
  pub has_item-values :
      (order : MapOrder) (n : Text) (m : GoMap Text A)
      → IsNamed m
      → member n m ≡ true
      → has_item id_of (make_id n) (values (order.iterate (Text × A) m)) ≡ true
  has_item-values order n m h k = elim (Option-cases (lookup n m)) [
    | inl absent ↦ absurd (let e = rw absent at k in cc)
    | inr (a, found) ↦
        let named = All-lookup_entry _ n m h found in
        sym (any-perm _ (values-perm (order.iterate_perm (Text × A) m)))
        ∙ any-values (λ (x : A). id_of x == make_id n) n m found (rw named.1 (beq_refl (make_id n)))
  ]

-- A key that is there stays there.
pub member-keeps :
    {A : Type 0} (n k : Text) (a : A) (m : GoMap Text A)
    → member n m ≡ true
    → member n (insert k a m) ≡ true
member-keeps n k a m h = (member-insert k n a m).1 (inr h)

pub member-own : {A : Type 0} (n : Text) (a : A) (m : GoMap Text A) → member n (insert n a m) ≡ true
member-own n a m = (member-insert n n a m).1 (inl refl)

pub member-head : {A : Type 0} (n : Text) (a : A) (m : GoMap Text A) → member n ((n, a) ∷ m) ≡ true
unfolding lookup
member-head n a m = rw (beq_refl n) refl
