-- ===== src/Common/Ranged.antt =====
-- Keys of Go maps as Boolean tests, also of the entries in the order in which a map is ranged over.
use application_gateway_kube.Common.Tests.{◌==◌, Comparable, Bool-cases, beq_refl}
use application_gateway_kube.Common.Maps.{GoMap, lookup, insert, member, lookup-insert}
use application_gateway_kube.Common.Keyed.{any, any-perm, All, All-map}
use application_gateway_kube.Common.Order.{MapOrder}
use mathlib.Core.Path.{◌≡◌, refl, ◌∙◌, sym}
use mathlib.Core.Logic.{inl, inr}
use mathlib.Core.Bool.{Bool, true, ◌||◌}
use mathlib.Core.List.{List, [], ◌∷◌, ◌++◌}
use native.Mathlib.Omega.{arith}

pub any-append :
    {A : Type 0} (test : A → Bool) (xs ys : List A)
    → any test (xs ++ ys) ≡ (any test xs || any test ys)
any-append test [] ys = refl
any-append test (x ∷ xs) ys = rw (any-append test xs ys) (ground arith)

module _ {K V : Type 0} ⦃e : Comparable K⦄ where
  -- One of the entries has the key.
  abbrev pub has_key : K → List (K × V) → Bool
  has_key k entries = any (λ (entry : K × V). entry.0 == k) entries

  pub has_key-member : (k : K) (m : GoMap K V) → has_key k m ≡ member k m
  unfolding lookup
  has_key-member k [] = refl
  has_key-member k ((j, v) ∷ m) = elim (Bool-cases (j == k)) [
    | inl same ↦ rw same refl
    | inr off ↦ rw off (has_key-member k m)
  ]

  pub has_key-iterate :
      (order : MapOrder) (k : K) (m : GoMap K V) → has_key k (order.iterate (K × V) m) ≡ member k m
  has_key-iterate order k m = sym (any-perm _ (order.iterate_perm (K × V) m)) ∙ has_key-member k m

  pub member-insert_eq :
      (k j : K) (v : V) (m : GoMap K V) → member j (insert k v m) ≡ (k == j || member j m)
  member-insert_eq k j v m = rw (lookup-insert k j v m) (ground arith)

  has_key-All : (m : GoMap K V) → All (λ (entry : K × V). has_key entry.0 m ≡ true) m
  has_key-All [] = tt
  has_key-All ((k, v) ∷ m) =
      (rw (beq_refl k) refl, All-map _ _ (λ entry h. ground arith) m (has_key-All m))

  -- The key of every entry is a member.
  pub member-All : (m : GoMap K V) → All (λ (entry : K × V). member entry.0 m ≡ true) m
  member-All m = All-map _ _ (λ entry h. sym (has_key-member entry.0 m) ∙ h) m (has_key-All m)
