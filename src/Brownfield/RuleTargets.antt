-- ===== src/Brownfield/RuleTargets.antt =====
-- pkg/brownfield/routing_rules.go: the targets that each routing rule and each path map serves.
pub mod Total
pub mod Served
use application_gateway_kube.Common.{
  Text, List, [], ◌∷◌, ◌++◌, Option, none, some, Bool, true, false, Run, returns, panics, ◌>>=◌,
  deref, GoMap, lookup, insert, text_eq, if◌then◌else◌,
}
use application_gateway_kube.Common.Uniq.{put_all}
use application_gateway_kube.Gateway.{SubResource, HttpListener, PathRule, UrlPathMap, RoutingRule}
use application_gateway_kube.Utils.{get_last_chunk_of_slashed}
use application_gateway_kube.Brownfield.Targets.{Target, is_blacklisted}
use application_gateway_kube.Brownfield.Existing.{ExistingResources}
use application_gateway_kube.Brownfield.Buckets.{has_id}

-- `getListenersByName`
unfoldable pub get_listeners_by_name : ExistingResources → GoMap Text HttpListener
get_listeners_by_name er = put_all (λ l. l.name) [] er.listeners

-- `getURLPathMapsByName`
unfoldable pub get_url_path_maps_by_name : ExistingResources → GoMap Text UrlPathMap
get_url_path_maps_by_name er = put_all (λ pm. pm.name) [] er.url_path_maps

abbrev pub text_or_empty : Option Text → Text
text_or_empty none = []
text_or_empty (some s) = s

-- `*ref.ID` of a reference that may be nil.
abbrev pub deref_id : Option SubResource → Run Text
deref_id ref = do r ← deref ref; deref r.id

abbrev pub host_name_of : Option HttpListener → Option Text
host_name_of none = none
host_name_of (some listener) = some (text_or_empty listener.host_name)

-- `getHostNameForRoutingRule`; `none` is `ErrListenerLookup`.
unfoldable pub get_host_name_for_routing_rule : ExistingResources → RoutingRule → Run (Option Text)
get_host_name_for_routing_rule er rule = do
  id ← deref_id rule.http_listener
  returns (host_name_of (lookup (get_last_chunk_of_slashed id) (get_listeners_by_name er)))

abbrev pub path_rules_of : Text → Option UrlPathMap → Run (Text × List PathRule)
path_rules_of name none = returns (name, [])
path_rules_of name (some path_map) = do rules ← deref path_map.path_rules; returns (name, rules)

-- `getPathRules`
unfoldable pub get_path_rules : ExistingResources → RoutingRule → Run (Text × List PathRule)
get_path_rules er rule = do
  id ← deref_id rule.url_path_map
  let name = get_last_chunk_of_slashed id
  path_rules_of name (lookup name (get_url_path_maps_by_name er))

-- The two maps that the loop fills.
pub record RuleTargets : Type 0 where
  pub rule_to_targets : GoMap Text (List Target)
  pub path_map_to_targets : GoMap Text (List Target)

abbrev pub targets_at : Option (List Target) → List Target
targets_at none = []
targets_at (some ts) = ts

-- `m[name] = append(m[name], target)`
unfoldable pub append_target : Text → Target → GoMap Text (List Target) → GoMap Text (List Target)
append_target name target m = insert name (targets_at (lookup name m) ++ target ∷ []) m

unfoldable pub add_paths : Text → Text → Text → List Text → RuleTargets → RuleTargets
add_paths host rule path_map [] st = st
add_paths host rule path_map (path ∷ paths) st =
    let target : Target = record { hostname = host; path = path } in
    add_paths host rule path_map paths (record {
      rule_to_targets = append_target rule target st.rule_to_targets;
      path_map_to_targets = append_target path_map target st.path_map_to_targets;
    })

abbrev pub paths_of : Option (List Text) → List Text
paths_of none = []
paths_of (some paths) = paths

unfoldable pub add_path_rules : Text → Text → Text → List PathRule → RuleTargets → RuleTargets
add_path_rules host rule path_map [] st = st
add_path_rules host rule path_map (pr ∷ prs) st =
    add_path_rules host rule path_map prs (add_paths host rule path_map (paths_of pr.paths) st)

abbrev pub with_host_target : RoutingRule → Text → RuleTargets → RuleTargets
with_host_target rule host st = record st {
  rule_to_targets =
      append_target rule.name (record { hostname = host; path = [] }) st.rule_to_targets;
}

-- The part under `rule.URLPathMap != nil`.
unfoldable pub follow_path_map :
    ExistingResources → RoutingRule → Text → Option SubResource → RuleTargets → Run RuleTargets
follow_path_map er rule host none st = returns st
follow_path_map er rule host (some ref) st = do
  found ← get_path_rules er rule
  returns (add_path_rules host rule.name found.0 found.1 st)

-- The body of the loop, once the host name is known.
unfoldable pub add_host_targets :
    ExistingResources → RoutingRule → Text → RuleTargets → Run RuleTargets
add_host_targets er rule host st =
    follow_path_map er rule host rule.url_path_map (with_host_target rule host st)

abbrev pub on_host : ExistingResources → RoutingRule → RuleTargets → Option Text → Run RuleTargets
on_host er rule st none = returns st
on_host er rule st (some host) = add_host_targets er rule host st

unfoldable pub add_rule_targets : ExistingResources → RoutingRule → RuleTargets → Run RuleTargets
add_rule_targets er rule st =
    if has_id rule.http_listener
    then (do host ← get_host_name_for_routing_rule er rule; on_host er rule st host)
    else returns st

unfoldable pub rule_targets_from :
    ExistingResources → List RoutingRule → RuleTargets → Run RuleTargets
rule_targets_from er [] st = returns st
rule_targets_from er (rule ∷ rules) st = do
  st' ← add_rule_targets er rule st
  rule_targets_from er rules st'

-- `getRuleToTargets`
unfoldable pub get_rule_to_targets : ExistingResources → Run RuleTargets
get_rule_to_targets er =
    rule_targets_from er er.routing_rules
      (record { rule_to_targets = []; path_map_to_targets = [] })

-- The loop of the two `isBlacklisted` closures.
unfoldable pub any_blacklisted : List Target → List Target → Run Bool
any_blacklisted blacklist [] = returns false
any_blacklisted blacklist (t ∷ ts) =
    let rest = any_blacklisted blacklist ts in
    do listed ← is_blacklisted t blacklist; if listed then returns true else rest
