-- ===== src/K8scontext/Listing/Sorted.antt =====
-- pkg/k8scontext/context.go: the list of ingresses does not depend on the order of the cache.
use application_gateway_kube.Common.{
  Text, List, [], ◌∷◌, Option, none, some, Bool, ◌==◌, text_eq, Comparable, if◌then◌else◌, ◌≡◌,
  refl, arith, Bool-cases, inl, inr, Permᴰ, find_key, UniqueKeys, SameByKey-perm,
}
use application_gateway_kube.Common.Order.{Sort, sort_unique}
use application_gateway_kube.Gateway.{Ingress}
use application_gateway_kube.Sorter.{get_ingress_name, by_ingress_name_less}
use application_gateway_kube.K8scontext.Listing.{
  Caches, keep, in_scope, is_http_ingress, filter_and_sort, list_http_ingresses,
}

abbrev if_kept : {A : Type 0} → (A → Bool) → Option A → Option A
if_kept test none = none
if_kept test (some x) = if test x then some x else none

module _ {A K : Type 0} ⦃e : Comparable K⦄ (key : A → K) (test : A → Bool) where
  -- Of items with distinct keys, a filter keeps the one with a key exactly if it passes the test.
  pub find_key-keep :
      (k : K) (xs : List A)
      → UniqueKeys key xs
      → find_key key k (keep test xs) ≡ if_kept test (find_key key k xs)
  unfolding keep find_key
  find_key-keep k [] u = refl
  find_key-keep k (x ∷ xs) u = elim (Bool-cases (key x == k)) [
    | inl same ↦ ground (arith, find_key-keep k xs u.1, (e.same_iff (key x) k).0 same)
    | inr off ↦ ground (arith, find_key-keep k xs u.1)
  ]

  pub UniqueKeys-keep : (xs : List A) → UniqueKeys key xs → UniqueKeys key (keep test xs)
  unfolding keep find_key
  UniqueKeys-keep [] u = tt
  UniqueKeys-keep (x ∷ xs) u = elim (Bool-cases (test x)) [
    | inl yes' ↦ rw yes' (rw (find_key-keep (key x) xs u.1, u.0) refl, UniqueKeys-keep xs u.1)
    | inr no' ↦ rw no' (UniqueKeys-keep xs u.1)
  ]

-- However the cache and the sorting order ingresses of different names, `ListHTTPIngresses` returns
-- one and the same list.
pub list_http_ingresses_unique :
    (s t : Sort) (c d : Caches)
    → c.namespaces ≡ d.namespaces
    → Permᴰ c.ingresses.list d.ingresses.list
    → UniqueKeys get_ingress_name c.ingresses.list
    → list_http_ingresses s c ≡ list_http_ingresses t d
unfolding list_http_ingresses filter_and_sort by_ingress_name_less
list_http_ingresses_unique s t c d same p u =
    let scope = λ (ns : List Text) (ing : Ingress). in_scope ns ing.namespace in
    let r = SameByKey-perm get_ingress_name p in
    let v = UniqueKeys-keep get_ingress_name (scope c.namespaces) c.ingresses.list u in
    let w = UniqueKeys-keep get_ingress_name (scope c.namespaces) d.ingresses.list (r.unique u) in
    rw (← same) (
      sort_unique get_ingress_name s t _ _ (UniqueKeys-keep get_ingress_name is_http_ingress _ v)
        (UniqueKeys-keep get_ingress_name is_http_ingress _ w)
        λ k.
          rw
            (
              find_key-keep get_ingress_name is_http_ingress k _ v,
              find_key-keep get_ingress_name is_http_ingress k _ w,
              find_key-keep get_ingress_name (scope c.namespaces) k c.ingresses.list u,
              find_key-keep get_ingress_name (scope c.namespaces) k d.ingresses.list (r.unique u),
              r.finds u k,
            )
            refl)
