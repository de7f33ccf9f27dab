-- ===== src/Appgw/Routing/Merged.antt =====
-- pkg/appgw/requestroutingrules.go: what the path maps start with and each merge keeps holds of all of them.
use application_gateway_kube.Common.{
  ℕ, ◌+◌, Text, List, [], ◌∷◌, Option, none, some, lookup, All, Option-cases, inl, inr,
}
use application_gateway_kube.Common.Order.{MapOrder, Sort}
use application_gateway_kube.Common.Uniq.{All-insert, All-lookup_value}
use application_gateway_kube.Gateway.{
  UrlPathMap, IngressBackend, HttpIngressPath, HttpIngressRuleValue, IngressRule, Ingress,
}
use application_gateway_kube.K8scontext.Listing.{Caches, slice}
use application_gateway_kube.Appgw.Names.{ListenerIdentifier}
use application_gateway_kube.Appgw.Keys.{listener_eq}
use application_gateway_kube.Appgw.Listeners.{
  ListenerAzConfig, default_frontend_listener_identifier,
}
use application_gateway_kube.Appgw.Frontend.{FrontendBuilder}
use application_gateway_kube.Appgw.Backends.{
  whole, BackendIdentifier, generate_backend_id, PortPair,
}
use application_gateway_kube.Appgw.PathMaps.{Built, get_path_map, merge_path_map}
use application_gateway_kube.Appgw.Routing.{
  PathMaps, pair_of, default_path_map, put_default, no_rules_ingress, start_path_map, or_start,
  merge_listeners_of_rule, merge_http_rule, merge_rules_of_ingress, add_ingress, path_maps_from,
  or_default_map, get_path_maps,
}

module _ (b : FrontendBuilder) (c : Caches) (order : MapOrder) (s : Sort) (k : Built)
    (Q : UrlPathMap → Type 0) where
  pub record IsKept : Type 0 where
    pub start_holds : (id : ListenerIdentifier) → Q (start_path_map b c order s k id)
    pub default_holds : (pool : Text) → Q (default_path_map b c order s k pool)
    pub merge_holds :
        (pm : UrlPathMap) (id : ListenerIdentifier) (config : ListenerAzConfig) (i : ℕ)
        (ing : Ingress) (r : ℕ) (rule : IngressRule) (paths : List HttpIngressPath)
        → Q pm
        → Q (merge_path_map b c order k pm (get_path_map b c order k id config i ing r rule paths))

  abbrev pub AllHold : PathMaps → Type 0
  AllHold m = All (λ (entry : ListenerIdentifier × UrlPathMap). Q entry.1) m

  module _ (kept : IsKept) where
    put_default-AllHold :
        (be : BackendIdentifier) (pair : Option PortPair) (m : PathMaps)
        → AllHold m
        → AllHold (put_default b c order s k be pair m)
    put_default-AllHold be none m h = h
    put_default-AllHold be (some pair) m h =
        All-insert Q default_frontend_listener_identifier _ m (kept.default_holds _) h

    no_rules_ingress-AllHold :
        (i : ℕ) (ing : Ingress) (backend : Option IngressBackend) (m : PathMaps)
        → AllHold m
        → AllHold (no_rules_ingress b c order s k i ing backend m)
    unfolding no_rules_ingress
    no_rules_ingress-AllHold i ing none m h = h
    no_rules_ingress-AllHold i ing (some backend) m h =
        put_default-AllHold (generate_backend_id (whole i) ing none none backend)
          (pair_of (whole i) k.settings.pairs) m h

    or_start-holds :
        (id : ListenerIdentifier) (m : PathMaps)
        → AllHold m
        → Q (or_start b c order s k id (lookup id m))
    or_start-holds id m h = elim (Option-cases (lookup id m)) [
      | inl absent ↦ rw absent (kept.start_holds id)
      | inr (pm, found) ↦ rw found (All-lookup_value Q id m h found)
    ]

    merge_listeners_of_rule-AllHold :
        (i : ℕ) (ing : Ingress) (r : ℕ) (rule : IngressRule) (value : HttpIngressRuleValue)
        (entries : List (ListenerIdentifier × ListenerAzConfig)) (m : PathMaps)
        → AllHold m
        → AllHold (merge_listeners_of_rule b c order s k i ing r rule value entries m)
    unfolding merge_listeners_of_rule
    merge_listeners_of_rule-AllHold i ing r rule value [] m h = h
    merge_listeners_of_rule-AllHold i ing r rule value ((id, config) ∷ entries) m h =
        merge_listeners_of_rule-AllHold i ing r rule value entries _ (
          All-insert Q id _ m
            (kept.merge_holds _ id config i ing r rule (slice value.paths) (or_start-holds id m h))
            h)

    module _ (pfx : Text → List ℕ) (base64 : List ℕ → Text) (env_use_private_ip : Text) where
      merge_http_rule-AllHold :
          (i : ℕ) (ing : Ingress) (r : ℕ) (rule : IngressRule) (value : Option HttpIngressRuleValue)
          (m : PathMaps)
          → AllHold m
          → AllHold
              (merge_http_rule b c order s k pfx base64 env_use_private_ip i ing r rule value m)
      merge_http_rule-AllHold i ing r rule none m h = h
      merge_http_rule-AllHold i ing r rule (some value) m h =
          merge_listeners_of_rule-AllHold i ing r rule value _ m h

      merge_rules_of_ingress-AllHold :
          (i : ℕ) (ing : Ingress) (r : ℕ) (rules : List IngressRule) (m : PathMaps)
          → AllHold m
          → AllHold
              (merge_rules_of_ingress b c order s k pfx base64 env_use_private_ip i ing r rules m)
      unfolding merge_rules_of_ingress
      merge_rules_of_ingress-AllHold i ing r [] m h = h
      merge_rules_of_ingress-AllHold i ing r (rule ∷ rules) m h =
          merge_rules_of_ingress-AllHold i ing (r + 1) rules _
            (merge_http_rule-AllHold i ing r rule rule.http m h)

      add_ingress-AllHold :
          (i : ℕ) (ing : Ingress) (rules : List IngressRule) (m : PathMaps)
          → AllHold m
          → AllHold (add_ingress b c order s k pfx base64 env_use_private_ip i ing rules m)
      add_ingress-AllHold i ing [] m h = no_rules_ingress-AllHold i ing ing.backend m h
      add_ingress-AllHold i ing (rule ∷ rules) m h =
          merge_rules_of_ingress-AllHold i ing 0 (rule ∷ rules) m h

      path_maps_from-AllHold :
          (i : ℕ) (ings : List Ingress) (m : PathMaps)
          → AllHold m
          → AllHold (path_maps_from b c order s k pfx base64 env_use_private_ip i ings m)
      unfolding path_maps_from
      path_maps_from-AllHold i [] m h = h
      path_maps_from-AllHold i (ing ∷ ings) m h =
          path_maps_from-AllHold (i + 1) ings _ (add_ingress-AllHold i ing ing.rules m h)

      or_default_map-AllHold :
          (m : PathMaps)
          → AllHold m
          → AllHold (or_default_map b c order s k pfx base64 env_use_private_ip m)
      or_default_map-AllHold [] h = (kept.default_holds _, tt)
      or_default_map-AllHold (entry ∷ m) h = h

      pub get_path_maps-AllHold :
          (ings : List Ingress)
          → AllHold (get_path_maps b c order s k pfx base64 env_use_private_ip ings)
      unfolding get_path_maps
      get_path_maps-AllHold ings = or_default_map-AllHold _ (path_maps_from-AllHold 0 ings [] tt)
