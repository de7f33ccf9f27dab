-- ===== src/Examples/Appgw.antt =====
-- Examples for pkg/appgw: two ranges over the maps, two orders of the created items.
use application_gateway_kube.Common.{
  Text, bytes, List, [], ◌∷◌, none, some, ◌≡◌, refl, returns, Permᴰ, UniqueKeys, text_eq, find_key,
}
use application_gateway_kube.Common.Sorting.{as_listed, by_insertion}
use application_gateway_kube.Gateway.{
  http, BackendAddressPool, BackendHttpSettings, Probe, RedirectConfiguration,
}
use application_gateway_kube.Brownfield.Existing.{new_existing_resources}
use application_gateway_kube.Brownfield.Blacklisted.{get_blacklisted_pools}
use application_gateway_kube.Appgw.Collections.{backend_address_pools}
use application_gateway_kube.Appgw.Collections.Determinism.{backend_address_pools_unique}
use application_gateway_kube.Appgw.Collections.Retained.{
  IsPoolList, backend_address_pools_brownfield,
}
use application_gateway_kube.Common.Split.{Lacks}
use application_gateway_kube.Examples.Brownfield.{existing_pools_split}
use application_gateway_kube.Examples.Samples.{pool, http_settings, gateway, context, existing}

abbrev created : List BackendAddressPool
created = pool (bytes "b") ∷ pool (bytes "a") ∷ []

abbrev created' : List BackendAddressPool
created' = pool (bytes "a") ∷ pool (bytes "b") ∷ []

swapped : {A : Type 0} (x y : A) → Permᴰ (x ∷ y ∷ []) (y ∷ x ∷ [])
swapped x y = Permᴰ.swap refl refl

distinct : UniqueKeys (λ (p : BackendAddressPool). p.name) created
unfolding find_key
distinct = (refl, (refl, tt))

backend_address_pools_unique_example :
    backend_address_pools as_listed by_insertion context gateway (pool (bytes "d")) created
    ≡ backend_address_pools as_listed by_insertion context gateway (pool (bytes "d")) created'
backend_address_pools_unique_example =
    backend_address_pools_unique as_listed as_listed by_insertion by_insertion context gateway
      (pool (bytes "d")) created created' distinct (swapped (pool (bytes "b")) (pool (bytes "a")))

abbrev probe : Text → Probe
probe name = record {
  name = name;
  id = name;
  protocol = http;
  host = none;
  path = none;
  port = none;
  interval = 30;
  timeout = 30;
  unhealthy_threshold = 3;
}

distinct_probes : UniqueKeys (λ (p : Probe). p.name) (probe (bytes "b") ∷ probe (bytes "a") ∷ [])
unfolding find_key
distinct_probes = (refl, (refl, tt))

distinct_settings :
    UniqueKeys
      (λ (s : BackendHttpSettings). s.name)
      (http_settings (bytes "b") ∷ http_settings (bytes "a") ∷ [])
unfolding find_key
distinct_settings = (refl, (refl, tt))

abbrev redirect : Text → RedirectConfiguration
redirect name = record { name = name; id = name; target_listener = none }

distinct_redirects :
    UniqueKeys
      (λ (r : RedirectConfiguration). r.name)
      (redirect (bytes "b") ∷ redirect (bytes "a") ∷ [])
unfolding find_key
distinct_redirects = (refl, (refl, tt))

same_resources :
    new_existing_resources gateway context.prohibited_targets (some (pool (bytes "d"))) ≡ existing
unfolding new_existing_resources
same_resources = refl

pools_split :
    get_blacklisted_pools
      (new_existing_resources gateway context.prohibited_targets (some (pool (bytes "d"))))
    ≡ returns (pool (bytes "p") ∷ pool (bytes "q") ∷ [], pool (bytes "z") ∷ [])
pools_split = rw same_resources existing_pools_split

backend_address_pools_brownfield_example :
    (pools : List BackendAddressPool) × (backend_address_pools as_listed by_insertion context
        gateway
        (pool (bytes "d"))
        created
      ≡ returns (record gateway { backend_address_pools = some pools }))
    × IsPoolList (pool (bytes "p") ∷ pool (bytes "q") ∷ []) created pools
backend_address_pools_brownfield_example =
    backend_address_pools_brownfield as_listed by_insertion context gateway (pool (bytes "d"))
      created (pool (bytes "p") ∷ pool (bytes "q") ∷ [], pool (bytes "z") ∷ []) refl pools_split
      distinct

lacks : Lacks b'/' (bytes "c")
lacks = (λ e. cc, tt)
