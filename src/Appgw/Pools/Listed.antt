-- ===== src/Appgw/Pools/Listed.antt =====
-- pkg/appgw/backendaddresspools.go: the pool of a backend is among the pools that are created.
use application_gateway_kube.Common.{
  ℕ, Text, List, [], ◌∷◌, Option, none, some, true, text_eq, nat_eq, GoMap, lookup, member, is_some,
  ◌≡◌, refl, sym, ap, ◌∙◌, subst, All, Option-cases, Bool-cases, inl, inr,
}
use application_gateway_kube.Common.Order.{MapOrder, Sort}
use application_gateway_kube.Common.Uniq.{All-insert, All-lookup_entry}
use application_gateway_kube.Common.Named.{
  IsNamed, insert-IsNamed, has_item, has_item-values, member-keeps, member-own, member-head,
}
use application_gateway_kube.Gateway.{BackendAddressPool}
use application_gateway_kube.Kubernetes.{EndpointSubset, Endpoints}
use application_gateway_kube.K8scontext.Listing.{Caches, EndpointsError, get_endpoints_by_service}
use application_gateway_kube.Appgw.Identifier.{address_pool_id}
use application_gateway_kube.Appgw.Frontend.{FrontendBuilder}
use application_gateway_kube.Appgw.Backends.{
  Place, place_eq, BackendIdentifier, PortPair, service_key,
}
use application_gateway_kube.Appgw.Pools.{
  get_unique_tcp_ports, default_backend_address_pool_name, default_backend_address_pool,
  pool_or_new, pool_name, pool_of_subsets, pool_of_endpoints, get_backend_address_pool, add_pool,
  add_pools, default_pools, created_pools, pool_or_default, pools_by_backend, new_backend_pool_map,
}

module _ (order : MapOrder) (s : Sort) (b : FrontendBuilder) (c : Caches) where
  abbrev ArePools : GoMap Text BackendAddressPool → Type 0
  ArePools m =
      IsNamed (λ (p : BackendAddressPool). p.name) (λ (p : BackendAddressPool). p.id)
        (address_pool_id b.agw) m

  -- The pool has the name, and the ID that belongs to it.
  abbrev IsPool : Text → BackendAddressPool → Type 0
  IsPool name pool = (pool.name ≡ name) × (pool.id ≡ address_pool_id b.agw name)

  default_pools-ArePools : ArePools (default_pools order s b c)
  default_pools-ArePools = ((refl, refl), tt)

  pool_or_new-IsPool :
      (name : Text) (subset : EndpointSubset) (m : GoMap Text BackendAddressPool)
      → ArePools m
      → IsPool name (pool_or_new order s b c name subset (lookup name m))
  pool_or_new-IsPool name subset m h = elim (Option-cases (lookup name m)) [
    | inl absent ↦ rw absent (refl, refl)
    | inr (pool, found) ↦ rw found (All-lookup_entry _ name m h found)
  ]

  pool_of_subsets-IsPool :
      (name : Text) (port : ℕ) (subsets : List EndpointSubset) (m : GoMap Text BackendAddressPool)
      {pool : BackendAddressPool}
      → ArePools m
      → pool_of_subsets order s b c name port subsets m ≡ some pool
      → IsPool name pool
  unfolding pool_of_subsets
  pool_of_subsets-IsPool name port [] m h e = absurd (cc)
  pool_of_subsets-IsPool name port (subset ∷ subsets) m {pool} h e =
      elim (Bool-cases (member port (get_unique_tcp_ports subset.ports []))) [
        | inl here ↦
            let same : pool_or_new order s b c name subset (lookup name m) ≡ pool =
              let d = rw here at e in cc in
            subst (IsPool name) same (pool_or_new-IsPool name subset m h)
        | inr off ↦ pool_of_subsets-IsPool name port subsets m h (rw off at e)
      ]

  -- Whether there is a pool does not depend on those that were made.
  pool_of_subsets_there :
      (name : Text) (port : ℕ) (subsets : List EndpointSubset) (m n : GoMap Text BackendAddressPool)
      → is_some (pool_of_subsets order s b c name port subsets m)
        ≡ is_some (pool_of_subsets order s b c name port subsets n)
  unfolding pool_of_subsets
  pool_of_subsets_there name port [] m n = refl
  pool_of_subsets_there name port (subset ∷ subsets) m n =
      elim (Bool-cases (member port (get_unique_tcp_ports subset.ports []))) [
        | inl here ↦ rw here refl
        | inr off ↦ rw off (pool_of_subsets_there name port subsets m n)
      ]

  pool_of_endpoints-IsPool :
      (name : Text) (port : ℕ) (found : Option EndpointsError × Option Endpoints)
      (m : GoMap Text BackendAddressPool) {pool : BackendAddressPool}
      → ArePools m
      → pool_of_endpoints order s b c name port found m ≡ some pool
      → IsPool name pool
  pool_of_endpoints-IsPool name port (some err, endpoints) m h e = absurd (cc)
  pool_of_endpoints-IsPool name port (none, none) m h e = absurd (cc)
  pool_of_endpoints-IsPool name port (none, some endpoints) m h e =
      pool_of_subsets-IsPool name port endpoints.subsets m h e

  pool_of_endpoints_there :
      (name : Text) (port : ℕ) (found : Option EndpointsError × Option Endpoints)
      (m n : GoMap Text BackendAddressPool)
      → is_some (pool_of_endpoints order s b c name port found m)
        ≡ is_some (pool_of_endpoints order s b c name port found n)
  pool_of_endpoints_there name port (some err, endpoints) m n = refl
  pool_of_endpoints_there name port (none, none) m n = refl
  pool_of_endpoints_there name port (none, some endpoints) m n =
      pool_of_subsets_there name port endpoints.subsets m n

  get_backend_address_pool-IsPool :
      (be : BackendIdentifier) (pair : PortPair) (m : GoMap Text BackendAddressPool)
      {pool : BackendAddressPool}
      → ArePools m
      → get_backend_address_pool order s b c be pair m ≡ some pool
      → IsPool (pool_name order s b c be pair) pool
  unfolding get_backend_address_pool
  get_backend_address_pool-IsPool be pair m h e =
      pool_of_endpoints-IsPool _ _ (get_endpoints_by_service c (service_key be)) m h e

  pool_there :
      (be : BackendIdentifier) (pair : PortPair) (m n : GoMap Text BackendAddressPool)
      → is_some (get_backend_address_pool order s b c be pair m)
        ≡ is_some (get_backend_address_pool order s b c be pair n)
  unfolding get_backend_address_pool
  pool_there be pair m n =
      pool_of_endpoints_there _ _ (get_endpoints_by_service c (service_key be)) m n

  -- One round of the loop: the names that were there stay, and that of the pool is there.
  record Adds (be : BackendIdentifier) (pair : PortPair) (m : GoMap Text BackendAddressPool)
      : Type 0 where
    pub named : ArePools (add_pool order s b c (get_backend_address_pool order s b c be pair m) m)
    pub keeps :
        (n : Text)
        → member n m ≡ true
        → member n (add_pool order s b c (get_backend_address_pool order s b c be pair m) m) ≡ true
    pub adds :
        is_some (get_backend_address_pool order s b c be pair m) ≡ true
        → member
            (pool_name order s b c be pair)
            (add_pool order s b c (get_backend_address_pool order s b c be pair m) m)
          ≡ true

  add_pool-Adds :
      (be : BackendIdentifier) (pair : PortPair) (m : GoMap Text BackendAddressPool)
      → ArePools m
      → Adds be pair m
  add_pool-Adds be pair m h = elim (Option-cases (get_backend_address_pool order s b c be pair m)) [
    | inl absent ↦ record {
      named = rw absent h;
      keeps = λ n k. rw absent k;
      adds = λ k. absurd (let e = rw absent at k in cc);
    }
    | inr (pool, made) ↦
        let own = get_backend_address_pool-IsPool be pair m h made in
        record {
          named = rw made (
              insert-IsNamed _ _ _ pool.name pool m refl
                (own.1 ∙ ap (address_pool_id b.agw) (sym own.0)) h);
          keeps = λ n k. rw made (member-keeps n pool.name pool m k);
          adds = λ k. rw (made, ← own.0) (member-own pool.name pool m);
        }
  ]

  record Collects (pairs : List (BackendIdentifier × PortPair)) (m : GoMap Text BackendAddressPool)
      : Type 0 where
    pub named : ArePools (add_pools order s b c pairs m)
    pub keeps : (n : Text) → member n m ≡ true → member n (add_pools order s b c pairs m) ≡ true
    pub collects :
        All
          (λ (entry : BackendIdentifier × PortPair).
            is_some
                (get_backend_address_pool order s b c entry.0 entry.1 (default_pools order s b c))
              ≡ true
            → member (pool_name order s b c entry.0 entry.1) (add_pools order s b c pairs m) ≡ true)
          pairs

  add_pools-Collects :
      (pairs : List (BackendIdentifier × PortPair)) (m : GoMap Text BackendAddressPool)
      → ArePools m
      → Collects pairs m
  unfolding add_pools
  add_pools-Collects [] m h = record { named = h; keeps = λ n k. k; collects = tt }
  add_pools-Collects ((be, pair) ∷ pairs) m h =
      let one = add_pool-Adds be pair m h in
      let rest = add_pools-Collects pairs _ one.named in
      record {
        named = rest.named;
        keeps = λ n k. rest.keeps n (one.keeps n k);
        collects = (
          λ k. rest.keeps _ (one.adds (pool_there be pair m (default_pools order s b c) ∙ k)),
          rest.collects,
        );
      }

  -- The pool with the ID is created.
  abbrev pub IsCreated : List (BackendIdentifier × PortPair) → BackendAddressPool → Type 0
  IsCreated pairs pool =
      has_item (λ (p : BackendAddressPool). p.id) pool.id (created_pools order s b c pairs) ≡ true

  module _ (pairs : List (BackendIdentifier × PortPair)) where
    ranged : List (BackendIdentifier × PortPair)
    ranged = order.iterate (BackendIdentifier × PortPair) pairs

    collected : Collects ranged (default_pools order s b c)
    collected = add_pools-Collects ranged (default_pools order s b c) default_pools-ArePools

    member-IsCreated :
        (n : Text) (pool : BackendAddressPool)
        → pool.id ≡ address_pool_id b.agw n
        → member n (add_pools order s b c ranged (default_pools order s b c)) ≡ true
        → IsCreated pairs pool
    unfolding created_pools ranged
    member-IsCreated n pool e h = rw e (
        has_item-values (λ (p : BackendAddressPool). p.name) (λ (p : BackendAddressPool). p.id)
          (address_pool_id b.agw) order n
          (add_pools order s b c (order.iterate (BackendIdentifier × PortPair) pairs)
            (default_pools order s b c))
          collected.named h)

    default-IsCreated : IsCreated pairs (default_backend_address_pool order s b c)
    default-IsCreated =
        member-IsCreated (default_backend_address_pool_name order s b c)
          (default_backend_address_pool order s b c) refl
          (collected.keeps (default_backend_address_pool_name order s b c) (
            member-head (default_backend_address_pool_name order s b c)
              (default_backend_address_pool order s b c) []))

    pool_or_default-IsCreated :
        (be : BackendIdentifier) (pair : PortPair)
        → (is_some (get_backend_address_pool order s b c be pair (default_pools order s b c)) ≡ true
            → member
                (pool_name order s b c be pair)
                (add_pools order s b c ranged (default_pools order s b c))
              ≡ true)
        → IsCreated pairs (
            pool_or_default order s b c
              (get_backend_address_pool order s b c be pair (default_pools order s b c)))
    pool_or_default-IsCreated be pair h =
        elim (Option-cases
          (get_backend_address_pool order s b c be pair (default_pools order s b c))) [
            | inl absent ↦ rw absent default-IsCreated
            | inr (pool, made) ↦ rw made (
                member-IsCreated (pool_name order s b c be pair) pool
                  (get_backend_address_pool-IsPool be pair (default_pools order s b c)
                    default_pools-ArePools made).1
                  (h (ap is_some made)))
          ]

    pools_by_backend-AreCreated :
        (entries : List (BackendIdentifier × PortPair)) (m : GoMap Place BackendAddressPool)
        → All
            (λ (entry : BackendIdentifier × PortPair).
              is_some
                  (get_backend_address_pool order s b c entry.0 entry.1 (default_pools order s b c))
                ≡ true
              → member
                  (pool_name order s b c entry.0 entry.1)
                  (add_pools order s b c ranged (default_pools order s b c))
                ≡ true)
            entries
        → All (λ (entry : Place × BackendAddressPool). IsCreated pairs entry.1) m
        → All
            (λ (entry : Place × BackendAddressPool). IsCreated pairs entry.1)
            (pools_by_backend order s b c entries m)
    unfolding pools_by_backend
    pools_by_backend-AreCreated [] m h g = g
    pools_by_backend-AreCreated ((be, pair) ∷ entries) m h g =
        pools_by_backend-AreCreated entries _ h.1
          (All-insert (IsCreated pairs) be.place _ m (pool_or_default-IsCreated be pair h.0) g)

    -- The pool of every backend is among those that are created.
    pub new_backend_pool_map-AreCreated :
        All
          (λ (entry : Place × BackendAddressPool). IsCreated pairs entry.1)
          (new_backend_pool_map order s b c pairs)
    unfolding new_backend_pool_map ranged
    new_backend_pool_map-AreCreated =
        pools_by_backend-AreCreated (order.iterate (BackendIdentifier × PortPair) pairs) []
          collected.collects tt
