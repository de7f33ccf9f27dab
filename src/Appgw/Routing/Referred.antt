-- ===== src/Appgw/Routing/Referred.antt =====
-- pkg/appgw/requestroutingrules.go: the path rules refer to pools and settings that are created.
use application_gateway_kube.Common.{
  ℕ, ◌+◌, Text, List, [], ◌∷◌, Option, none, some, true, text_eq, lookup, ◌≡◌, refl, All,
  All-append, ◌⊎◌, Bool-cases, inl, inr, arith,
}
use application_gateway_kube.Common.Order.{MapOrder, Sort}
use application_gateway_kube.Common.Named.{has_item}
use application_gateway_kube.Common.Uniq.{All-lookup_value}
use application_gateway_kube.Gateway.{
  BackendAddressPool, BackendHttpSettings, RedirectConfiguration, PathRule, UrlPathMap,
  HttpIngressPath, Ingress,
}
use application_gateway_kube.Utils.Multimap.{SetLibrary}
use application_gateway_kube.K8scontext.Listing.{Caches, Subsets}
use application_gateway_kube.Appgw.Identifier.{resource_ref}
use application_gateway_kube.Appgw.Names.{ListenerIdentifier}
use application_gateway_kube.Appgw.Listeners.{ListenerAzConfig}
use application_gateway_kube.Appgw.Frontend.{FrontendBuilder}
use application_gateway_kube.Appgw.Backends.{Place, place_eq, at_path}
use application_gateway_kube.Appgw.Settings.{get_backends_and_settings_map}
use application_gateway_kube.Appgw.Settings.Listed.{get_backends_and_settings_map-AreCreated}
use application_gateway_kube.Appgw.Pools.{created_pools, new_backend_pool_map}
use application_gateway_kube.Appgw.Pools.Listed.{new_backend_pool_map-AreCreated}
use application_gateway_kube.Appgw.PathMaps.{
  Built, is_default_path, has_redirect, redirect_of, new_path_rule, pool_and_settings, with_backend,
  path_rule, get_path_rules,
}
use application_gateway_kube.Appgw.Routing.{get_path_maps}
use application_gateway_kube.Appgw.Routing.Merged.{get_path_maps-AllHold}
use application_gateway_kube.Appgw.Routing.Sound.{IsSound, keep-IsSound}

-- A redirection that is there, or a pool and settings that are.
abbrev pub IsReferred :
    List RedirectConfiguration
    → List BackendAddressPool
    → List BackendHttpSettings
    → PathRule
    → Type 0
IsReferred redirects pools settings rule =
    ((id : Text) × (rule.redirect_configuration ≡ resource_ref id)
      × (has_redirect id redirects ≡ true))
    ⊎ ((pool : Text) × (t : Text) × (rule.backend_address_pool ≡ resource_ref pool)
        × (has_item (λ (p : BackendAddressPool). p.id) pool pools ≡ true)
        × (rule.backend_http_settings ≡ resource_ref t)
        × (has_item (λ (u : BackendHttpSettings). u.id) t settings ≡ true))

module _ (b : FrontendBuilder) (c : Caches) (order : MapOrder) (k : Built)
    (pools : List BackendAddressPool)
    (pools_ok : All
      (λ (entry : Place × BackendAddressPool).
        has_item (λ (p : BackendAddressPool). p.id) entry.1.id pools ≡ true)
      k.pools)
    (settings_ok : All
      (λ (entry : Place × BackendHttpSettings).
        has_item (λ (u : BackendHttpSettings). u.id) entry.1.id k.settings.collection ≡ true)
      k.settings.by_backend) where
  redirect_of-has_redirect :
      (id : ListenerIdentifier) (config : ListenerAzConfig) (ing : Ingress) {ref : Text}
      → redirect_of b c order k id config ing ≡ some ref
      → has_redirect ref k.redirects ≡ true
  unfolding redirect_of
  redirect_of-has_redirect id config ing e = ground arith

  abbrev Refers : PathRule → Type 0
  Refers rule = IsReferred k.redirects pools k.settings.collection rule

  path_rule-Refers :
      (o : Option Text) (place : Place) (ing : Ingress) (p : ℕ) (path : HttpIngressPath)
      → ((ref : Text) → o ≡ some ref → has_redirect ref k.redirects ≡ true)
      → All Refers (path_rule b c order k o place (new_path_rule b c order k ing p path))
  unfolding resource_ref
  path_rule-Refers (some redirect) place ing p path h = (inl (redirect, refl, h redirect refl), tt)
  path_rule-Refers none place ing p path h =
      of_found (lookup place k.pools) (lookup place k.settings.by_backend) refl refl
    where
      of_found :
          (pool : Option BackendAddressPool) (t : Option BackendHttpSettings)
          → lookup place k.pools ≡ pool
          → lookup place k.settings.by_backend ≡ t
          → All Refers (
              pool_and_settings pool t
                (with_backend b c order k (new_path_rule b c order k ing p path))
                [])
      of_found none t e f = tt
      of_found (some pool) none e f = tt
      of_found (some pool) (some t) e f = (
        inr (
          pool.id,
          t.id,
          refl,
          All-lookup_value
              (λ (q : BackendAddressPool).
                has_item (λ (p : BackendAddressPool). p.id) q.id pools ≡ true)
              place k.pools pools_ok e,
          refl,
          All-lookup_value
              (λ (q : BackendHttpSettings).
                has_item (λ (u : BackendHttpSettings). u.id) q.id k.settings.collection ≡ true)
              place k.settings.by_backend settings_ok f,
        ),
        tt,
      )

  get_path_rules-Refers :
      (id : ListenerIdentifier) (config : ListenerAzConfig) (i : ℕ) (ing : Ingress) (r p : ℕ)
      (paths : List HttpIngressPath)
      → All Refers (get_path_rules b c order k id config i ing r p paths)
  unfolding get_path_rules
  get_path_rules-Refers id config i ing r p [] = tt
  get_path_rules-Refers id config i ing r p (path ∷ paths) =
      elim (Bool-cases (is_default_path path)) [
        | inl skipped ↦ rw skipped (get_path_rules-Refers id config i ing r (p + 1) paths)
        | inr made ↦ rw made (
            All-append Refers
              (path_rule b c order k (redirect_of b c order k id config ing) (at_path i r p)
                (new_path_rule b c order k ing p path))
              _
              (path_rule-Refers (redirect_of b c order k id config ing) (at_path i r p) ing p path
                (λ ref e. redirect_of-has_redirect id config ing e))
              (get_path_rules-Refers id config i ing r (p + 1) paths))
      ]

module _ (sets : SetLibrary Text) (subsets : Subsets sets) (b : FrontendBuilder) (c : Caches)
    (order : MapOrder) (s : Sort) where
  -- Where no backend has more than one pair of ports: every path map that is made of the ingresses has a default
  -- target, and each of its path rules refers to a redirection that was created, or to a pool and to settings
  -- that were.
  pub get_path_maps-AreReferred :
      (ings : List Ingress) (k : Built)
      → get_backends_and_settings_map sets subsets b c order ings ≡ some k.settings
      → k.pools ≡ new_backend_pool_map order s b c k.settings.pairs
      → (pfx : Text → List ℕ) (base64 : List ℕ → Text) (env_use_private_ip : Text)
      → All
          (λ (entry : ListenerIdentifier × UrlPathMap).
            IsSound
              (IsReferred k.redirects
                (created_pools order s b c k.settings.pairs)
                k.settings.collection)
              entry.1)
          (get_path_maps b c order s k pfx base64 env_use_private_ip ings)
  get_path_maps-AreReferred ings k made same pfx base64 env_use_private_ip =
      let pools = created_pools order s b c k.settings.pairs in
      get_path_maps-AllHold b c order s k _
        (keep-IsSound b c order s k (IsReferred k.redirects pools k.settings.collection) (
          get_path_rules-Refers b c order k pools
            (rw same (new_backend_pool_map-AreCreated order s b c k.settings.pairs))
            (get_backends_and_settings_map-AreCreated sets subsets b c order ings made)))
        pfx base64 env_use_private_ip ings
