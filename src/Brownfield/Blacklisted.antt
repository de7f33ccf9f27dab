-- ===== src/Brownfield/Blacklisted.antt =====
-- The parts of pkg/brownfield's files that split the existing resources into those that are
-- blacklisted and those that are not (`GetBlacklisted…`).
pub mod References
pub mod Rules
pub mod Pools
pub mod Listeners
use application_gateway_kube.Common.{
  Text, List, [], ◌∷◌, Option, none, some, Run, returns, panics, ◌>>=◌, lookup, member, text_eq,
  Bool, true, false, if◌then◌else◌,
}
use application_gateway_kube.Gateway.{
  BackendAddressPool, BackendHttpSettings, Probe, RedirectConfiguration, HttpListener, PathRule,
  UrlPathMap, RoutingRule,
}
use application_gateway_kube.Utils.{get_last_chunk_of_slashed}
use application_gateway_kube.Brownfield.Targets.{get_target_blacklist}
use application_gateway_kube.Brownfield.Existing.{
  ExistingResources, NameSet, add_name, get_prohibited_hostnames,
}
use application_gateway_kube.Brownfield.Buckets.{split_by, split_by_name, add_reference, has_id}
use application_gateway_kube.Brownfield.RuleTargets.{
  RuleTargets, get_rule_to_targets, targets_at, any_blacklisted, deref_id,
}

-- `GetBlacklistedRoutingRules`
unfoldable pub get_blacklisted_routing_rules :
    ExistingResources → Run (List RoutingRule × List RoutingRule)
get_blacklisted_routing_rules er = do
  st ← get_rule_to_targets er
  split_by
      (λ rule.
        any_blacklisted (get_target_blacklist er.prohibited_targets)
          (targets_at (lookup rule.name st.rule_to_targets)))
      er.routing_rules

-- `GetBlacklistedPathMaps`
unfoldable pub get_blacklisted_path_maps :
    ExistingResources → Run (List UrlPathMap × List UrlPathMap)
get_blacklisted_path_maps er = do
  st ← get_rule_to_targets er
  split_by
      (λ path_map.
        any_blacklisted (get_target_blacklist er.prohibited_targets)
          (targets_at (lookup path_map.name st.path_map_to_targets)))
      er.url_path_maps

abbrev pub host_is_in : NameSet → Option Text → Bool
host_is_in set none = false
host_is_in set (some host) = member host set

unfoldable pub add_listeners_by_host : NameSet → List HttpListener → NameSet → NameSet
add_listeners_by_host hosts [] set = set
add_listeners_by_host hosts (l ∷ ls) set =
    add_listeners_by_host hosts ls
      (if host_is_in hosts l.host_name then add_name l.name set else set)

-- The references of a list of routing rules, by the field that is read.
unfoldable pub add_references : {A : Type 0} → (A → NameSet → NameSet) → List A → NameSet → NameSet
add_references add [] set = set
add_references add (x ∷ xs) set = add_references add xs (add x set)

-- `getBlacklistedListenersSet`
unfoldable pub get_blacklisted_listeners_set : ExistingResources → Run NameSet
get_blacklisted_listeners_set er = do
  rules ← get_blacklisted_routing_rules er
  let by_host = add_listeners_by_host (get_prohibited_hostnames er) er.listeners []
  returns (add_references (λ rule. add_reference rule.http_listener) rules.0 by_host)

-- `GetBlacklistedListeners`
unfoldable pub get_blacklisted_listeners :
    ExistingResources → Run (List HttpListener × List HttpListener)
get_blacklisted_listeners er = do
  set ← get_blacklisted_listeners_set er
  returns (split_by_name (λ l. l.name) set er.listeners)

-- The names that the path rules of a path map refer to; no list of path rules adds nothing.
abbrev pub add_path_rule_references :
    (PathRule → NameSet → NameSet) → Option (List PathRule) → NameSet → NameSet
add_path_rule_references add none set = set
add_path_rule_references add (some rules) set = add_references add rules set

unfoldable pub add_pools_of_path_map : UrlPathMap → NameSet → NameSet
add_pools_of_path_map pm set =
    add_path_rule_references (λ rule. add_reference rule.backend_address_pool) pm.path_rules
      (add_reference pm.default_backend_address_pool set)

-- `getBlacklistedPoolsSet`
unfoldable pub get_blacklisted_pools_set : ExistingResources → Run NameSet
get_blacklisted_pools_set er = do
  rules ← get_blacklisted_routing_rules er
  path_maps ← get_blacklisted_path_maps er
  returns (
      add_references add_pools_of_path_map path_maps.0
        (add_references (λ rule. add_reference rule.backend_address_pool) rules.0 []))

-- `GetBlacklistedPools`
unfoldable pub get_blacklisted_pools :
    ExistingResources → Run (List BackendAddressPool × List BackendAddressPool)
get_blacklisted_pools er = do
  set ← get_blacklisted_pools_set er
  returns (split_by_name (λ p. p.name) set er.backend_pools)
