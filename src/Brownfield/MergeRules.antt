-- ===== src/Brownfield/MergeRules.antt =====
-- pkg/brownfield/pathmaps.go and routing_rules.go: merging path maps and routing rules. Merging two
-- rules of one listener changes the gateway's path maps in place: these are the state.
pub mod OnePerListener
pub mod Basic
use application_gateway_kube.Common.{
  ℕ, zero, suc, Text, List, [], ◌∷◌, Option, none, some, Run, returns, panics, ◌>>=◌, deref, GoMap,
  lookup, insert, text_eq, ◌==◌, if◌then◌else◌, last_or, values,
}
use application_gateway_kube.Common.Order.{MapOrder}
use application_gateway_kube.Common.Uniq.{put_buckets, range_values}
use application_gateway_kube.Gateway.{
  PathRule, UrlPathMap, RuleType, basic, path_based_routing, RoutingRule,
}
use application_gateway_kube.Brownfield.RuleTargets.{deref_id}

-- `*bucket` of each bucket.
abbrev pub deref_all : {A : Type 0} → List (Option A) → Run (List A)
deref_all [] = returns []
deref_all (o ∷ os) = do a ← deref o; rest ← deref_all os; returns (a ∷ rest)

-- `mergePathRules`
unfoldable pub merge_path_rules : MapOrder → List (Option (List PathRule)) → Run (List PathRule)
merge_path_rules order buckets = do
  rules ← deref_all buckets
  returns (range_values (λ r. r.name) order (put_buckets (λ r. r.name) [] rules))

abbrev pub with_path_rules : UrlPathMap → List PathRule → UrlPathMap
with_path_rules pm rules = record pm { path_rules = some rules }

-- One path map of the loop of `MergePathMaps`.
unfoldable pub merge_path_map :
    MapOrder → GoMap Text UrlPathMap → UrlPathMap → Option UrlPathMap → Run (GoMap Text UrlPathMap)
merge_path_map order uniq pm none = returns (insert pm.name pm uniq)
merge_path_map order uniq pm (some existing) = do
  rules ← merge_path_rules order (existing.path_rules ∷ pm.path_rules ∷ [])
  returns (insert pm.name (with_path_rules existing rules) uniq)

unfoldable pub merge_path_map_list :
    MapOrder → GoMap Text UrlPathMap → List UrlPathMap → Run (GoMap Text UrlPathMap)
merge_path_map_list order uniq [] = returns uniq
merge_path_map_list order uniq (pm ∷ pms) = do
  uniq' ← merge_path_map order uniq pm (lookup pm.name uniq)
  merge_path_map_list order uniq' pms

unfoldable pub merge_path_map_buckets :
    MapOrder → GoMap Text UrlPathMap → List (List UrlPathMap) → Run (GoMap Text UrlPathMap)
merge_path_map_buckets order uniq [] = returns uniq
merge_path_map_buckets order uniq (b ∷ bs) = do
  uniq' ← merge_path_map_list order uniq b
  merge_path_map_buckets order uniq' bs

-- `MergePathMaps`
unfoldable pub merge_path_maps : MapOrder → List (List UrlPathMap) → Run (List UrlPathMap)
merge_path_maps order buckets = do
  uniq ← merge_path_map_buckets order [] buckets
  returns (range_values (λ pm. pm.name) order uniq)

-- `mergePathMapsWithBasicRule`
unfoldable pub merge_path_maps_with_basic_rule : UrlPathMap → RoutingRule → UrlPathMap
merge_path_maps_with_basic_rule pm rule = record pm {
  default_backend_address_pool = rule.backend_address_pool;
  default_backend_http_settings = rule.backend_http_settings;
  default_redirect_configuration = rule.redirect_configuration;
  default_rewrite_rule_set = rule.rewrite_rule_set;
}

abbrev pub next_place : Option (ℕ × UrlPathMap) → Option (ℕ × UrlPathMap)
next_place none = none
next_place (some (i, pm)) = some (suc i, pm)

-- `lookupPathMap`: the place of the first path map with the ID, and the path map there.
unfoldable pub lookup_path_map : List UrlPathMap → Option Text → Run (Option (ℕ × UrlPathMap))
lookup_path_map [] resource_id = returns none
lookup_path_map (pm ∷ pms) none = panics
lookup_path_map (pm ∷ pms) (some id) =
    let rest = lookup_path_map pms (some id) >>= λ found. returns (next_place found) in
    if pm.id == id then returns (some (zero, pm)) else rest

-- A write through the pointer to a list's item.
abbrev pub set_at : {A : Type 0} → ℕ → A → List A → List A
set_at i a [] = []
set_at zero a (x ∷ xs) = a ∷ xs
set_at (suc i) a (x ∷ xs) = x ∷ set_at i a xs

-- `xs[:len(xs)-1]`
abbrev pub init : {A : Type 0} → List A → List A
init [] = []
init (x ∷ []) = []
init (x ∷ y ∷ xs) = x ∷ init (y ∷ xs)

-- `deleteIdx`: the last place with the ID.
unfoldable pub delete_index : Text → List UrlPathMap → Option ℕ
delete_index id [] = none
delete_index id (pm ∷ pms) = elim (delete_index id pms) [
  | some i ↦ some (suc i)
  | none ↦ if pm.id == id then some zero else none
]

abbrev pub delete_at : Option ℕ → List UrlPathMap → List UrlPathMap
delete_at none pms = pms
delete_at (some i) [] = []
delete_at (some i) (pm ∷ pms) = init (set_at i (last_or pm pms) (pm ∷ pms))

-- `deletePathMap`
unfoldable pub delete_path_map : List UrlPathMap → Text → List UrlPathMap
delete_path_map pms id = delete_at (delete_index id pms) pms

-- The second rule is basic, or has a path map of its own; the first path map was looked up.
unfoldable pub merge_found :
    MapOrder
    → List UrlPathMap
    → RoutingRule
    → RoutingRule
    → Option (ℕ × UrlPathMap)
    → RuleType
    → Run (List UrlPathMap × RoutingRule)
merge_found order pms first second found basic = do
  place ← deref found
  returns (set_at place.0 (merge_path_maps_with_basic_rule place.1 second) pms, first)
merge_found order pms first second found path_based_routing = do
  second_ref ← deref second.url_path_map
  found' ← lookup_path_map pms second_ref.id
  place ← deref found
  place' ← deref found'
  rules ← merge_path_rules order (place.1.path_rules ∷ place'.1.path_rules ∷ [])
  returns (delete_path_map (set_at place.0 (with_path_rules place.1 rules) pms) place'.1.id, first)

-- `mergeRoutingRules` from where the first rule is a path based one.
unfoldable pub merge_path_based_rule :
    MapOrder → List UrlPathMap → RoutingRule → RoutingRule → Run (List UrlPathMap × RoutingRule)
merge_path_based_rule order pms first second = do
  first_ref ← deref first.url_path_map
  found ← lookup_path_map pms first_ref.id
  merge_found order pms first second found second.rule_type

-- The merge in a gateway that may have no list of path maps.
unfoldable pub merge_in_gateway :
    MapOrder
    → Option (List UrlPathMap)
    → RoutingRule
    → RoutingRule
    → Run (Option (List UrlPathMap) × RoutingRule)
merge_in_gateway order none first second = panics
merge_in_gateway order (some pms) first second = do
  merged ← merge_path_based_rule order pms first second
  returns (some merged.0, merged.1)

-- `mergeRoutingRules` by the types of the two rules; a nil `URLPathMaps` panics where it is looked
-- into.
unfoldable pub merge_by_type :
    MapOrder
    → Option (List UrlPathMap)
    → RoutingRule
    → RoutingRule
    → RuleType
    → RuleType
    → Run (Option (List UrlPathMap) × RoutingRule)
merge_by_type order st first second basic basic = returns (st, first)
merge_by_type order st first second basic path_based_routing =
    merge_in_gateway order st second first
merge_by_type order st first second path_based_routing kind = merge_in_gateway order st first second

-- `mergeRoutingRules`
unfoldable pub merge_routing_rules :
    MapOrder
    → Option (List UrlPathMap)
    → RoutingRule
    → RoutingRule
    → Run (Option (List UrlPathMap) × RoutingRule)
merge_routing_rules order st first second =
    merge_by_type order st first second first.rule_type second.rule_type

-- The gateway's path maps, and the rules by listener.
pub record MergeState : Type 0 where
  pub url_path_maps : Option (List UrlPathMap)
  pub uniq : GoMap Text RoutingRule

-- A rule beside the one that its listener has so far, if any.
unfoldable pub merge_beside :
    MapOrder
    → Option (List UrlPathMap)
    → RoutingRule
    → Option RoutingRule
    → Run (Option (List UrlPathMap) × RoutingRule)
merge_beside order pms rule none = returns (pms, rule)
merge_beside order pms rule (some existing) = merge_routing_rules order pms existing rule

unfoldable pub merge_rule : MapOrder → MergeState → RoutingRule → Run MergeState
merge_rule order st rule = do
  listener ← deref_id rule.http_listener
  merged ← merge_beside order st.url_path_maps rule (lookup listener st.uniq)
  returns (record { url_path_maps = merged.0; uniq = insert listener merged.1 st.uniq })

unfoldable pub merge_rule_list : MapOrder → MergeState → List RoutingRule → Run MergeState
merge_rule_list order st [] = returns st
merge_rule_list order st (rule ∷ rules) = do
  st' ← merge_rule order st rule
  merge_rule_list order st' rules

unfoldable pub merge_rule_buckets : MapOrder → MergeState → List (List RoutingRule) → Run MergeState
merge_rule_buckets order st [] = returns st
merge_rule_buckets order st (b ∷ bs) = do
  st' ← merge_rule_list order st b
  merge_rule_buckets order st' bs

-- The rules that `MergeRules` returns, out of the state that its loop leaves.
abbrev pub merged_rules : MapOrder → MergeState → Option (List UrlPathMap) × List RoutingRule
merged_rules order st = (st.url_path_maps, values (order.iterate (Text × RoutingRule) st.uniq))

-- `MergeRules`
unfoldable pub merge_rules :
    MapOrder
    → Option (List UrlPathMap)
    → List (List RoutingRule)
    → Run (Option (List UrlPathMap) × List RoutingRule)
merge_rules order url_path_maps buckets = do
  st ← merge_rule_buckets order (record { url_path_maps = url_path_maps; uniq = [] }) buckets
  returns (merged_rules order st)
