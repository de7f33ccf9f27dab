-- ===== src/Examples/Merging.antt =====
-- Examples for the functions of pkg/brownfield that merge.
use application_gateway_kube.Common.{Text}
use application_gateway_kube.Gateway.{RoutingRule, UrlPathMap}
use application_gateway_kube.Common.{
  bytes, [], ◌∷◌, none, some, ◌≡◌, ◌↔◌, refl, returns, find_key, UniqueKeys, text_eq, lookup,
  insert,
}
use application_gateway_kube.Common.Uniq.{concat}
use application_gateway_kube.Common.Sorting.{as_listed}
use application_gateway_kube.Brownfield.Merge.{
  UniqueListenerConfig, config_eq, merge_listeners, listener_config,
}
use application_gateway_kube.Brownfield.Merge.Laws.{merge_listeners_first_wins}
use application_gateway_kube.Brownfield.MergeRules.{
  merge_rules, merge_rule_buckets, merge_rule_list, merge_rule, merge_beside, merge_routing_rules,
  merge_by_type, merge_in_gateway, merge_path_based_rule, merge_found,
  merge_path_maps_with_basic_rule, lookup_path_map,
}
use application_gateway_kube.Brownfield.MergeRules.OnePerListener.{
  listener_of, merge_rules_one_per_listener,
}
use application_gateway_kube.Examples.Samples.{ref, listener, path_map, rule, basic_rule}

merge_listeners_first_wins_example :
    UniqueKeys listener_config (
      merge_listeners as_listed
        ((listener (bytes "l") (bytes "a") ∷ []) ∷ (listener (bytes "k") (bytes "a") ∷ []) ∷ []))
    × ((k : UniqueListenerConfig)
        → find_key listener_config k (
            merge_listeners as_listed (
              (listener (bytes "l") (bytes "a") ∷ [])
              ∷ (listener (bytes "k") (bytes "a") ∷ [])
              ∷ []))
          ≡ find_key listener_config k (
              concat (
                (listener (bytes "l") (bytes "a") ∷ [])
                ∷ (listener (bytes "k") (bytes "a") ∷ [])
                ∷ [])))
merge_listeners_first_wins_example =
    merge_listeners_first_wins as_listed
      ((listener (bytes "l") (bytes "a") ∷ []) ∷ (listener (bytes "k") (bytes "a") ∷ []) ∷ [])

abbrev plain_rule : RoutingRule
plain_rule = record basic_rule { http_listener = ref (bytes "/l") }

abbrev merged_path_map : UrlPathMap
merged_path_map = record path_map { default_backend_address_pool = ref (bytes "/z") }

rules_merge :
    merge_rules as_listed (some (path_map ∷ [])) ((rule ∷ []) ∷ (plain_rule ∷ []) ∷ [])
    ≡ returns (some (merged_path_map ∷ []), rule ∷ [])
unfolding merge_rules merge_rule_buckets merge_rule_list merge_rule merge_beside merge_routing_rules
    merge_by_type merge_in_gateway merge_path_based_rule merge_found merge_path_maps_with_basic_rule
    lookup_path_map lookup insert
rules_merge = refl

merge_rules_one_per_listener_example :
    UniqueKeys listener_of (rule ∷ [])
    × ((k : Text)
        → (find_key listener_of k (rule ∷ []) ≡ none)
          ↔ (find_key listener_of k (concat ((rule ∷ []) ∷ (plain_rule ∷ []) ∷ [])) ≡ none))
merge_rules_one_per_listener_example =
    merge_rules_one_per_listener as_listed (some (path_map ∷ []))
      ((rule ∷ []) ∷ (plain_rule ∷ []) ∷ []) (some (merged_path_map ∷ []), rule ∷ []) rules_merge
