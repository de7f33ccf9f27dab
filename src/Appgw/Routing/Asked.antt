-- ===== src/Appgw/Routing/Asked.antt =====
-- pkg/appgw/requestroutingrules.go: which listeners there are path maps and rules for.
use application_gateway_kube.Common.{
  ℕ, ◌+◌, Text, List, [], ◌∷◌, Option, none, some, Bool, true, ◌&&◌, ◌||◌, text_eq, is_some, member,
  lookup, any, ◌≡◌, refl, arith, ◌∙◌, Bool-cases,
}
use application_gateway_kube.Common.Order.{MapOrder, Sort}
use application_gateway_kube.Common.Ranged.{has_key, has_key-iterate, member-insert_eq}
use application_gateway_kube.Gateway.{IngressBackend, HttpIngressRuleValue, IngressRule, Ingress}
use application_gateway_kube.K8scontext.Listing.{Caches}
use application_gateway_kube.Appgw.Names.{ListenerIdentifier}
use application_gateway_kube.Appgw.Keys.{listener_eq}
use application_gateway_kube.Appgw.Listeners.{
  ListenerAzConfig, default_frontend_listener_identifier, process_ingress_rule,
}
use application_gateway_kube.Appgw.Listeners.Asked.{asks, is_asked}
use application_gateway_kube.Appgw.Frontend.{FrontendBuilder}
use application_gateway_kube.Appgw.Backends.{
  whole, BackendIdentifier, generate_backend_id, PortPair,
}
use application_gateway_kube.Appgw.PathMaps.{Built}
use application_gateway_kube.Appgw.Routing.{
  PathMaps, pair_of, put_default, no_rules_ingress, merge_listeners_of_rule, merge_http_rule,
  merge_rules_of_ingress, add_ingress, path_maps_from, or_default_map, get_path_maps,
}

module _ (b : FrontendBuilder) (c : Caches) (order : MapOrder) (s : Sort) (k : Built) where
  member-merge_listeners_of_rule :
      (id : ListenerIdentifier) (i : ℕ) (ing : Ingress) (r : ℕ) (rule : IngressRule)
      (value : HttpIngressRuleValue) (entries : List (ListenerIdentifier × ListenerAzConfig))
      (m : PathMaps)
      → member id (merge_listeners_of_rule b c order s k i ing r rule value entries m)
        ≡ (has_key id entries || member id m)
  unfolding merge_listeners_of_rule
  member-merge_listeners_of_rule id i ing r rule value [] m = refl
  member-merge_listeners_of_rule id i ing r rule value ((j, config) ∷ entries) m =
      member-merge_listeners_of_rule id i ing r rule value entries _
      ∙ rw (member-insert_eq j id _ m) (ground arith)

  put_default-keeps :
      (id : ListenerIdentifier) (be : BackendIdentifier) (pair : Option PortPair) (m : PathMaps)
      → member id m ≡ true
      → member id (put_default b c order s k be pair m) ≡ true
  put_default-keeps id be none m h = h
  put_default-keeps id be (some pair) m h =
      rw (member-insert_eq default_frontend_listener_identifier id _ m) (ground arith)

  no_rules_ingress-keeps :
      (id : ListenerIdentifier) (i : ℕ) (ing : Ingress) (o : Option IngressBackend) (m : PathMaps)
      → member id m ≡ true
      → member id (no_rules_ingress b c order s k i ing o m) ≡ true
  unfolding no_rules_ingress
  no_rules_ingress-keeps id i ing none m h = h
  no_rules_ingress-keeps id i ing (some backend) m h =
      put_default-keeps id (generate_backend_id (whole i) ing none none backend)
        (pair_of (whole i) k.settings.pairs) m h

  module _ (pfx : Text → List ℕ) (base64 : List ℕ → Text) (env_use_private_ip : Text) where
    abbrev asks_for : ListenerIdentifier → Ingress → IngressRule → Bool
    asks_for id ing rule =
        asks pfx base64 b.md5_sum b.ag_prefix b.hash_code env_use_private_ip id ing rule

    member-merge_http_rule :
        (id : ListenerIdentifier) (i : ℕ) (ing : Ingress) (r : ℕ) (rule : IngressRule)
        (o : Option HttpIngressRuleValue) (m : PathMaps)
        → member id (merge_http_rule b c order s k pfx base64 env_use_private_ip i ing r rule o m)
          ≡ ((is_some o
                && member id (
                    process_ingress_rule pfx base64 b.md5_sum b.ag_prefix b.hash_code
                      env_use_private_ip rule ing))
              || member id m)
    member-merge_http_rule id i ing r rule none m = refl
    member-merge_http_rule id i ing r rule (some value) m =
        member-merge_listeners_of_rule id i ing r rule value _ m
        ∙ rw
            (has_key-iterate order id (
              process_ingress_rule pfx base64 b.md5_sum b.ag_prefix b.hash_code env_use_private_ip
                rule ing))
            refl

    member-merge_rules_of_ingress :
        (id : ListenerIdentifier) (i : ℕ) (ing : Ingress) (r : ℕ) (rules : List IngressRule)
        (m : PathMaps)
        → member id
            (merge_rules_of_ingress b c order s k pfx base64 env_use_private_ip i ing r rules m)
          ≡ (any (asks_for id ing) rules || member id m)
    unfolding merge_rules_of_ingress
    member-merge_rules_of_ingress id i ing r [] m = refl
    member-merge_rules_of_ingress id i ing r (rule ∷ rules) m =
        member-merge_rules_of_ingress id i ing (r + 1) rules _
        ∙ rw (member-merge_http_rule id i ing r rule rule.http m) (ground arith)

    add_ingress-keeps :
        (id : ListenerIdentifier) (i : ℕ) (ing : Ingress) (rules : List IngressRule) (m : PathMaps)
        → (any (asks_for id ing) rules || member id m) ≡ true
        → member id (add_ingress b c order s k pfx base64 env_use_private_ip i ing rules m) ≡ true
    add_ingress-keeps id i ing [] m h = no_rules_ingress-keeps id i ing ing.backend m h
    add_ingress-keeps id i ing (rule ∷ rules) m h =
        member-merge_rules_of_ingress id i ing 0 (rule ∷ rules) m ∙ h

    path_maps_from-keeps :
        (id : ListenerIdentifier) (i : ℕ) (ings : List Ingress) (m : PathMaps)
        → (is_asked pfx base64 b.md5_sum b.ag_prefix b.hash_code env_use_private_ip id ings
            || member id m)
          ≡ true
        → member id (path_maps_from b c order s k pfx base64 env_use_private_ip i ings m) ≡ true
    unfolding path_maps_from
    path_maps_from-keeps id i [] m h = h
    path_maps_from-keeps id i (ing ∷ ings) m h = path_maps_from-keeps id (i + 1) ings _ (
        ground (
          arith,
          add_ingress-keeps id i ing ing.rules m,
          Bool-cases
              (is_asked pfx base64 b.md5_sum b.ag_prefix b.hash_code env_use_private_ip id ings),
        ))

    or_default_map-keeps :
        (id : ListenerIdentifier) (m : PathMaps)
        → member id m ≡ true
        → member id (or_default_map b c order s k pfx base64 env_use_private_ip m) ≡ true
    unfolding lookup
    or_default_map-keeps id [] h = absurd (cc)
    or_default_map-keeps id (entry ∷ m) h = h

    -- There is a path map for every listener that a rule asks for.
    pub member-get_path_maps :
        (id : ListenerIdentifier) (ings : List Ingress)
        → is_asked pfx base64 b.md5_sum b.ag_prefix b.hash_code env_use_private_ip id ings ≡ true
        → member id (get_path_maps b c order s k pfx base64 env_use_private_ip ings) ≡ true
    unfolding get_path_maps
    member-get_path_maps id ings h =
        or_default_map-keeps id _ (path_maps_from-keeps id 0 ings [] (rw h refl))
