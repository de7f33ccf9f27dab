-- ===== src/Appgw/Routing.antt =====
-- pkg/appgw/requestroutingrules.go: the path maps of all ingresses, and a routing rule for each of them, with
-- the Istio integration off.
pub mod Merged
pub mod Sound
pub mod Accepted
pub mod Referred
pub mod Listened
pub mod Answered
pub mod Asked
pub mod Gathered
pub mod Ordered
pub mod Directed
use application_gateway_kube.Common.{
  ℕ, ◌+◌, Text, List, [], ◌∷◌, ◌++◌, Option, none, some, Bool, true, false, ◌==◌, nat_eq, GoMap,
  lookup, insert, member, if◌then◌else◌, Run, returns, panics, ◌>>=◌, deref,
}
use application_gateway_kube.Common.Order.{MapOrder, Sort}
use application_gateway_kube.Gateway.{
  SubResource, HttpListener, PathRule, UrlPathMap, basic, path_based_routing, RoutingRule,
  IngressBackend, HttpIngressRuleValue, IngressRule, Ingress,
}
use application_gateway_kube.K8scontext.Listing.{Caches, slice}
use application_gateway_kube.Appgw.Identifier.{
  address_pool_id, http_settings_id, url_path_map_id, listener_id, resource_ref,
}
use application_gateway_kube.Appgw.Names.{ListenerIdentifier, generate_request_routing_rule_name}
use application_gateway_kube.Appgw.Keys.{listener_eq}
use application_gateway_kube.Appgw.Listeners.{
  ListenerAzConfig, default_frontend_listener_identifier, process_ingress_rule,
}
use application_gateway_kube.Appgw.Frontend.{FrontendBuilder}
use application_gateway_kube.Appgw.Backends.{
  Place, whole, place_eq, BackendIdentifier, generate_backend_id, PortPair,
}
use application_gateway_kube.Appgw.Settings.{default_backend_http_settings_name}
use application_gateway_kube.Appgw.Pools.{pool_name, default_backend_address_pool_name}
use application_gateway_kube.Appgw.PathMaps.{
  Built, map_name, empty_path_map, get_path_map, merge_path_map,
}

abbrev pub PathMaps : Type 0
PathMaps = GoMap ListenerIdentifier UrlPathMap

-- The pair of a backend in the map by backend.
unfoldable pub pair_of : Place → List (BackendIdentifier × PortPair) → Option PortPair
pair_of place [] = none
pair_of place ((be, pair) ∷ pairs) = if be.place == place then some pair else pair_of place pairs

-- The rules and the path maps that `getRules` returns.
pub record Routing : Type 0 where
  pub rules : List RoutingRule
  pub path_maps : List UrlPathMap

module _ (b : FrontendBuilder) (c : Caches) (order : MapOrder) (s : Sort) (k : Built) where
  -- A path map that is made for the default listener has no ID, which is the empty text here.
  abbrev pub default_path_map : Text → UrlPathMap
  default_path_map pool = record (empty_path_map b c order k default_frontend_listener_identifier) {
    id = [];
    default_backend_address_pool = resource_ref (address_pool_id b.agw pool);
    default_backend_http_settings =
        resource_ref (http_settings_id b.agw (default_backend_http_settings_name b));
    path_rules = some [];
  }

  abbrev pub put_default : BackendIdentifier → Option PortPair → PathMaps → PathMaps
  put_default be none m = m
  put_default be (some pair) m =
      insert default_frontend_listener_identifier (default_path_map (pool_name order s b c be pair))
        m

  -- `noRulesIngress`
  unfoldable pub no_rules_ingress : ℕ → Ingress → Option IngressBackend → PathMaps → PathMaps
  unfolding pair_of generate_backend_id
  no_rules_ingress i ing none m = m
  no_rules_ingress i ing (some backend) m =
      put_default (generate_backend_id (whole i) ing none none backend)
        (pair_of (whole i) k.settings.pairs) m

  -- The path map that a listener starts with.
  abbrev pub start_path_map : ListenerIdentifier → UrlPathMap
  start_path_map id = record (empty_path_map b c order k id) {
    default_backend_address_pool = some (record { id = some k.default_address_pool_id });
    default_backend_http_settings = some (record { id = some k.default_http_settings_id });
  }

  abbrev pub or_start : ListenerIdentifier → Option UrlPathMap → UrlPathMap
  or_start id none = start_path_map id
  or_start id (some pm) = pm

  -- The loop over the listeners of a rule.
  unfoldable pub merge_listeners_of_rule :
      ℕ
      → Ingress
      → ℕ
      → IngressRule
      → HttpIngressRuleValue
      → List (ListenerIdentifier × ListenerAzConfig)
      → PathMaps
      → PathMaps
  merge_listeners_of_rule i ing r rule value [] m = m
  merge_listeners_of_rule i ing r rule value ((id, config) ∷ entries) m =
      merge_listeners_of_rule i ing r rule value entries (
        insert id
          (merge_path_map b c order k (or_start id (lookup id m))
            (get_path_map b c order k id config i ing r rule (slice value.paths)))
          m)

  module _ (pfx : Text → List ℕ) (base64 : List ℕ → Text) (env_use_private_ip : Text) where
    abbrev pub listeners_of : Ingress → IngressRule → List (ListenerIdentifier × ListenerAzConfig)
    listeners_of ing rule = order.iterate (ListenerIdentifier × ListenerAzConfig) (
        process_ingress_rule pfx base64 b.md5_sum b.ag_prefix b.hash_code env_use_private_ip rule
          ing)

    abbrev pub merge_http_rule :
        ℕ → Ingress → ℕ → IngressRule → Option HttpIngressRuleValue → PathMaps → PathMaps
    merge_http_rule i ing r rule none m = m
    merge_http_rule i ing r rule (some value) m =
        merge_listeners_of_rule i ing r rule value (listeners_of ing rule) m

    unfoldable pub merge_rules_of_ingress : ℕ → Ingress → ℕ → List IngressRule → PathMaps → PathMaps
    unfolding merge_listeners_of_rule
    merge_rules_of_ingress i ing r [] m = m
    merge_rules_of_ingress i ing r (rule ∷ rules) m =
        merge_rules_of_ingress i ing (r + 1) rules (merge_http_rule i ing r rule rule.http m)

    -- What an ingress adds to the path maps: that of its default backend, if it has no rules, and otherwise
    -- those of its rules.
    abbrev pub add_ingress : ℕ → Ingress → List IngressRule → PathMaps → PathMaps
    add_ingress i ing [] m = no_rules_ingress i ing ing.backend m
    add_ingress i ing (rule ∷ rules) m = merge_rules_of_ingress i ing 0 (rule ∷ rules) m

    unfoldable pub path_maps_from : ℕ → List Ingress → PathMaps → PathMaps
    unfolding merge_rules_of_ingress no_rules_ingress
    path_maps_from i [] m = m
    path_maps_from i (ing ∷ ings) m = path_maps_from (i + 1) ings (add_ingress i ing ing.rules m)

    abbrev pub or_default_map : PathMaps → PathMaps
    or_default_map [] =
        (
          default_frontend_listener_identifier,
          default_path_map (default_backend_address_pool_name order s b c),
        )
        ∷ []
    or_default_map (entry ∷ m) = entry ∷ m

    -- `getPathMaps`
    unfoldable pub get_path_maps : List Ingress → PathMaps
    unfolding path_maps_from
    get_path_maps ings = or_default_map (path_maps_from 0 ings [])

  abbrev pub new_rule : ListenerIdentifier → HttpListener → RoutingRule
  new_rule id l = record {
    name = generate_request_routing_rule_name b.md5_sum b.ag_prefix b.hash_code id;
    rule_type = basic;
    http_listener = some (record { id = some (listener_id b.agw l.name) });
    backend_address_pool = none;
    backend_http_settings = none;
    url_path_map = none;
    redirect_configuration = none;
    rewrite_rule_set = none;
  }

  -- The message in the log reads the IDs of the default pool and settings.
  abbrev pub basic_rule : UrlPathMap → Option SubResource → RoutingRule → Run RoutingRule
  basic_rule pm (some redirect) rule = do
    id ← deref redirect.id
    returns (record rule { redirect_configuration = some redirect })
  basic_rule pm none rule = do
    pool ← deref pm.default_backend_address_pool
    pool_id ← deref pool.id
    settings ← deref pm.default_backend_http_settings
    settings_id ← deref settings.id
    returns
        (record rule { backend_address_pool = some pool; backend_http_settings = some settings })

  abbrev pub path_based_rule : UrlPathMap → RoutingRule → RoutingRule
  path_based_rule pm rule = record rule {
    rule_type = path_based_routing;
    url_path_map = some (record { id = some (url_path_map_id b.agw pm.name) });
  }

  -- A rule that has no path rules is basic; a path map with path rules is sent.
  abbrev pub route : UrlPathMap → Option (List PathRule) → RoutingRule → Run Routing
  route pm none rule = do
    made ← basic_rule pm pm.default_redirect_configuration rule
    returns (record { rules = made ∷ []; path_maps = [] })
  route pm (some []) rule = do
    made ← basic_rule pm pm.default_redirect_configuration rule
    returns (record { rules = made ∷ []; path_maps = [] })
  route pm (some (path ∷ paths)) rule =
      returns (record { rules = path_based_rule pm rule ∷ []; path_maps = pm ∷ [] })

  abbrev pub route_of : ListenerIdentifier → UrlPathMap → Option HttpListener → Run Routing
  route_of id pm none = returns (record { rules = []; path_maps = [] })
  route_of id pm (some l) = route pm pm.path_rules (new_rule id l)

  abbrev pub beside : Routing → Routing → Routing
  beside x y = record { rules = x.rules ++ y.rules; path_maps = x.path_maps ++ y.path_maps }

  -- The loop of `getRules`.
  unfoldable pub get_rules_of :
      GoMap ListenerIdentifier HttpListener → List (ListenerIdentifier × UrlPathMap) → Run Routing
  get_rules_of listeners [] = returns (record { rules = []; path_maps = [] })
  get_rules_of listeners ((id, pm) ∷ maps) = do
    one ← route_of id pm (lookup id listeners)
    rest ← get_rules_of listeners maps
    returns (beside one rest)

  -- `getRules`, given the listeners and the path maps.
  unfoldable pub get_rules : GoMap ListenerIdentifier HttpListener → PathMaps → Run Routing
  unfolding get_rules_of
  get_rules listeners maps =
      get_rules_of listeners (order.iterate (ListenerIdentifier × UrlPathMap) maps)
