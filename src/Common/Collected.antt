-- ===== src/Common/Collected.antt =====
-- What a loop over a Go map collects for one key.
use application_gateway_kube.Common.Tests.{◌==◌, Comparable, Bool-cases, if◌then◌else◌}
use application_gateway_kube.Common.Maps.{GoMap, lookup}
use application_gateway_kube.Common.Keyed.{find_key, UniqueKeys, SameByKey-perm}
use application_gateway_kube.Common.Order.{MapOrder}
use mathlib.Core.Path.{◌≡◌, refl, ◌∙◌, ap}
use mathlib.Core.Logic.{inl, inr}
use mathlib.Core.Option.{Option, none, some}
use mathlib.Core.List.{List, [], ◌∷◌, ◌++◌, append-nil}

abbrev pub of_option : {V B : Type 0} → (V → List B) → Option V → List B
of_option f none = []
of_option f (some v) = f v

module _ {K V B : Type 0} ⦃e : Comparable K⦄ (f : V → List B) (k : K) where
  abbrev key_of : K × V → K
  key_of entry = entry.0

  -- The parts of the entries with the key.
  abbrev pub collect : List (K × V) → List B
  collect [] = []
  collect (entry ∷ entries) = (if entry.0 == k then f entry.1 else []) ++ collect entries

  collect-find_key :
      (entries : List (K × V))
      → UniqueKeys key_of entries
      → collect entries ≡ of_option (λ (entry : K × V). f entry.1) (find_key key_of k entries)
  unfolding find_key
  collect-find_key [] u = refl
  collect-find_key (entry ∷ entries) (u, us) = elim (Bool-cases (entry.0 == k)) [
    | inl here ↦
        let same : entry.0 ≡ k = (e.same_iff entry.0 k).0 here in
        let absent : find_key key_of k entries ≡ none = rw same at u in
        rw (here, collect-find_key entries us, absent) (append-nil (f entry.1))
    | inr off ↦ rw off (collect-find_key entries us)
  ]

  find_key-lookup :
      (m : GoMap K V)
      → of_option (λ (entry : K × V). f entry.1) (find_key key_of k m) ≡ of_option f (lookup k m)
  unfolding find_key lookup
  find_key-lookup [] = refl
  find_key-lookup (entry ∷ m) = elim (Bool-cases (entry.0 == k)) [
    | inl here ↦ rw here refl
    | inr off ↦ rw off (find_key-lookup m)
  ]

  -- However a map is ranged over, the loop collects the parts of the value of the key.
  pub collect-iterate :
      (order : MapOrder) (m : GoMap K V)
      → UniqueKeys key_of m
      → collect (order.iterate (K × V) m) ≡ of_option f (lookup k m)
  collect-iterate order m u =
      let ranged = SameByKey-perm key_of (order.iterate_perm (K × V) m) in
      collect-find_key (order.iterate (K × V) m) (ranged.unique u)
      ∙ (ap (of_option (λ (entry : K × V). f entry.1)) (ranged.finds u k) ∙ find_key-lookup m)
