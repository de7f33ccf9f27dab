-- ===== src/Appgw/Collections/Determinism.antt =====
-- A configuration does not depend on the order in which Go ranges over a map, nor on what sorting
-- does with items that compare equal.
use application_gateway_kube.Common.{
  Text, List, [], ◌∷◌, append-nil, none, some, Bool, true, false, ◌≡◌, refl, sym, ap, ◌∙◌, Run,
  returns, panics, ◌>>=◌, Permᴰ, find_key, last_key, last_key-append, last_key-eq-find_key, later,
  UniqueKeys, SameByKey-perm, text_eq, if◌then◌else◌,
}
use application_gateway_kube.Common.Order.{MapOrder, Sort, less_by, sort_unique}
use application_gateway_kube.Common.Uniq.{concat}
use application_gateway_kube.Gateway.{
  BackendAddressPool, BackendHttpSettings, Probe, RedirectConfiguration, ApplicationGateway,
}
use application_gateway_kube.Sorter.{
  by_backend_pool_name_less, by_settings_name_less, by_health_probe_name_less,
  by_redirect_name_less,
}
use application_gateway_kube.Brownfield.Existing.{new_existing_resources}
use application_gateway_kube.Brownfield.Blacklisted.{get_blacklisted_pools}
use application_gateway_kube.Brownfield.HttpSettings.{
  get_blacklisted_http_settings, get_blacklisted_probes,
}
use application_gateway_kube.Brownfield.Redirects.{get_blacklisted_redirects}
use application_gateway_kube.Brownfield.Merge.{
  merge_pools, merge_http_settings, merge_probes, merge_redirects,
}
use application_gateway_kube.Brownfield.Merge.Laws.{
  LastOfEachName, merge_pools-LastOfEachName, merge-LastOfEachName,
}
use application_gateway_kube.Appgw.Collections.{
  BuilderContext, backend_address_pools, health_probes_collection, backend_http_settings_collection,
  redirect_configurations,
}

-- The common shape of the functions that build a collection.
abbrev collected :
    {A B : Type 0}
    → Bool
    → Run (List A × List A)
    → (List (List A) → List A)
    → List A
    → (List A → B)
    → Run B
collected brownfield parts merge made out =
    (if brownfield then (parts >>= λ p. returns (merge (p.0 ∷ made ∷ []))) else returns made)
    >>= λ xs. returns (out xs)

module _ {A : Type 0} (name : A → Text) where
  pub last_of_two :
      (kept created : List A) (k : Text)
      → UniqueKeys name created
      → last_key name k (concat (kept ∷ created ∷ []))
        ≡ later (find_key name k created) (last_key name k kept)
  last_of_two kept created k u = rw (append-nil created) (
      last_key-append name k kept created
      ∙ ap (λ o. later o (last_key name k kept)) (last_key-eq-find_key name k created u))

  module _ (s t : Sort) (created created' : List A) (u : UniqueKeys name created)
      (p : Permᴰ created created') where
    sort_created : s.sort A (less_by name) created ≡ t.sort A (less_by name) created'
    sort_created =
        let same = SameByKey-perm name p in
        sort_unique name s t created created' u (same.unique u) (λ k. sym (same.finds u k))

    sort_merged :
        (kept out out' : List A)
        → LastOfEachName name (kept ∷ created ∷ []) out
        → LastOfEachName name (kept ∷ created' ∷ []) out'
        → s.sort A (less_by name) out ≡ t.sort A (less_by name) out'
    sort_merged kept out out' h h' =
        let same = SameByKey-perm name p in
        sort_unique name s t out out' h.0 h'.0 (λ k.
          h.1 k
          ∙ last_of_two kept created k u
          ∙ ap (λ o. later o (last_key name k kept)) (sym (same.finds u k))
          ∙ sym (last_of_two kept created' k (same.unique u))
          ∙ sym (h'.1 k))

    collected_unique :
        {B : Type 0} (brownfield : Bool) (parts : Run (List A × List A))
        (merge merge' : List (List A) → List A) (out : List A → B)
        → ((bs : List (List A)) → LastOfEachName name bs (merge bs))
        → ((bs : List (List A)) → LastOfEachName name bs (merge' bs))
        → collected brownfield parts merge created (λ xs. out (s.sort A (less_by name) xs))
          ≡ collected brownfield parts merge' created' (λ xs. out (t.sort A (less_by name) xs))
    collected_unique false parts merge merge' out h h' = ap (λ xs. returns (out xs)) sort_created
    collected_unique true panics merge merge' out h h' = refl
    collected_unique true (returns p) merge merge' out h h' =
        ap (λ xs. returns (out xs))
          (sort_merged p.0 (merge (p.0 ∷ created ∷ [])) (merge' (p.0 ∷ created' ∷ []))
            (h (p.0 ∷ created ∷ [])) (h' (p.0 ∷ created' ∷ [])))

module _ (order order' : MapOrder) (s t : Sort) (ctx : BuilderContext)
    (app_gw : ApplicationGateway) where
  -- The pools of the gateway are the same for every order in which the maps are ranged over, for
  -- every sort, and for every order of the pools that were created, whose names are distinct.
  pub backend_address_pools_unique :
      (default_pool : BackendAddressPool) (created created' : List BackendAddressPool)
      → UniqueKeys (λ p. p.name) created
      → Permᴰ created created'
      → backend_address_pools order s ctx app_gw default_pool created
        ≡ backend_address_pools order' t ctx app_gw default_pool created'
  unfolding backend_address_pools by_backend_pool_name_less
  backend_address_pools_unique default_pool created created' u p =
      collected_unique (λ q. q.name) s t created created' u p ctx.enable_brownfield_deployment
        (get_blacklisted_pools
          (new_existing_resources app_gw ctx.prohibited_targets (some default_pool)))
        (merge_pools order) (merge_pools order')
        (λ pools. record app_gw { backend_address_pools = some pools })
        (merge_pools-LastOfEachName order) (merge_pools-LastOfEachName order')

  -- The probes are the same for every order in which the maps are ranged over, for every
  -- sort, and for every order of the probes that were created, whose names are distinct.
  pub health_probes_collection_unique :
      (created created' : List Probe)
      → UniqueKeys (λ p. p.name) created
      → Permᴰ created created'
      → health_probes_collection order s ctx app_gw created
        ≡ health_probes_collection order' t ctx app_gw created'
  unfolding health_probes_collection by_health_probe_name_less
  health_probes_collection_unique created created' u p =
      collected_unique (λ q. q.name) s t created created' u p ctx.enable_brownfield_deployment
        (get_blacklisted_probes (new_existing_resources app_gw ctx.prohibited_targets none))
        (merge_probes order) (merge_probes order')
        (λ probes. record app_gw { probes = some probes })
        (λ bs. (merge-LastOfEachName order [] bs [] []).1)
        (λ bs. (merge-LastOfEachName order' [] bs [] []).1)

  -- The HTTP settings are the same for every order in which the maps are ranged over, for every
  -- sort, and for every order of the HTTP settings that were created, whose names are distinct.
  pub backend_http_settings_collection_unique :
      (created created' : List BackendHttpSettings)
      → UniqueKeys (λ p. p.name) created
      → Permᴰ created created'
      → backend_http_settings_collection order s ctx app_gw created
        ≡ backend_http_settings_collection order' t ctx app_gw created'
  unfolding backend_http_settings_collection by_settings_name_less
  backend_http_settings_collection_unique created created' u p =
      collected_unique (λ q. q.name) s t created created' u p ctx.enable_brownfield_deployment
        (get_blacklisted_http_settings (new_existing_resources app_gw ctx.prohibited_targets none))
        (merge_http_settings order) (merge_http_settings order')
        (λ settings. record app_gw { backend_http_settings_collection = some settings })
        (λ bs. (merge-LastOfEachName order bs [] [] []).0)
        (λ bs. (merge-LastOfEachName order' bs [] [] []).0)

  -- The redirects are the same for every order in which the maps are ranged over, for every
  -- sort, and for every order of the redirects that were created, whose names are distinct.
  pub redirect_configurations_unique :
      (created created' : List RedirectConfiguration)
      → UniqueKeys (λ p. p.name) created
      → Permᴰ created created'
      → redirect_configurations order s ctx app_gw created
        ≡ redirect_configurations order' t ctx app_gw created'
  unfolding redirect_configurations by_redirect_name_less
  redirect_configurations_unique created created' u p =
      collected_unique (λ q. q.name) s t created created' u p ctx.enable_brownfield_deployment
        (get_blacklisted_redirects (new_existing_resources app_gw ctx.prohibited_targets none))
        (merge_redirects order) (merge_redirects order') (λ redirects. redirects)
        (λ bs. (merge-LastOfEachName order [] [] bs []).2)
        (λ bs. (merge-LastOfEachName order' [] [] bs []).2)
