-- ===== src/Examples/Brownfield.antt =====
-- Examples for pkg/brownfield.
use application_gateway_kube.Gateway.{HttpListener}
use application_gateway_kube.Brownfield.Blacklisted.{get_blacklisted_listeners}
use application_gateway_kube.Brownfield.Blacklisted.Listeners.{
  ListenerInUse, get_blacklisted_listeners_iff,
}
use application_gateway_kube.Common.{
  bytes, List, [], ◌∷◌, some, ◌≡◌, ◌↔◌, refl, inl, inr, true, returns, text_eq, to_lower, lookup,
  insert, split, trim_right, ends_with, has_byte,
}
use application_gateway_kube.Common.Uniq.{put_all}
use application_gateway_kube.Utils.{get_last_chunk_of_slashed}
use application_gateway_kube.Gateway.{BackendAddressPool, IngressRule}
use application_gateway_kube.Brownfield.Targets.{
  Target, is_blacklisted, get_target_blacklist, targets_of, host_is_blacklisted,
  path_is_blacklisted, contains, chunks_contain,
}
use application_gateway_kube.Brownfield.Targets.Blacklist.{Returns}
use application_gateway_kube.Brownfield.Targets.Prohibited.{NamesHost, prohibited_below}
use application_gateway_kube.Brownfield.Buckets.{split_by, split_by_name, add_reference}
use application_gateway_kube.Brownfield.RuleTargets.{
  get_rule_to_targets, rule_targets_from, add_rule_targets, add_host_targets, follow_path_map,
  add_path_rules, add_paths, append_target, get_path_rules, get_host_name_for_routing_rule,
  get_url_path_maps_by_name, get_listeners_by_name, any_blacklisted,
}
use application_gateway_kube.Brownfield.RuleTargets.Served.{served_host, all_paths, followed}
use application_gateway_kube.Brownfield.RuleTargets.Total.{IsComplete, get_blacklisted-Returns}
use application_gateway_kube.Brownfield.Blacklisted.{
  get_blacklisted_pools_set, add_pools_of_path_map, add_references, get_blacklisted_routing_rules,
  get_blacklisted_path_maps, get_blacklisted_pools,
}
use application_gateway_kube.Brownfield.Blacklisted.References.{In, SplitsBy}
use application_gateway_kube.Brownfield.Blacklisted.Pools.{PoolInUse, get_blacklisted_pools_iff}
use application_gateway_kube.Brownfield.Blacklisted.Rules.{
  ServesListed, get_blacklisted_routing_rules_iff, prohibited_rule_is_blacklisted,
}
use application_gateway_kube.Brownfield.Merge.{config_eq}
use application_gateway_kube.Brownfield.Ingress.{
  prune_ingress_rules, prune_rules, prune_rule, prune_listed, prune_paths,
}
use application_gateway_kube.Brownfield.Ingress.Pruning.{
  routes, allowed_routes, routes-prune_ingress_rules,
}
use application_gateway_kube.Examples.Samples.{
  pool, path_map, rule, basic_rule, prohibited, existing, ingress, pruned,
}

abbrev target : Target
target = record { hostname = bytes "a.B"; path = bytes "/x/y" }

abbrev blacklist : List Target
blacklist = record { hostname = bytes "A.b"; path = bytes "/x/*" } ∷ []

rules_split : get_blacklisted_routing_rules existing ≡ returns (rule ∷ [], basic_rule ∷ [])
unfolding get_blacklisted_routing_rules get_rule_to_targets rule_targets_from add_rule_targets
    add_host_targets follow_path_map add_path_rules add_paths append_target get_path_rules
    get_host_name_for_routing_rule get_url_path_maps_by_name get_listeners_by_name any_blacklisted
    split_by is_blacklisted get_target_blacklist targets_of host_is_blacklisted path_is_blacklisted
    contains chunks_contain get_last_chunk_of_slashed split to_lower trim_right ends_with put_all
    lookup insert has_byte
rules_split = refl

path_maps_split : get_blacklisted_path_maps existing ≡ returns (path_map ∷ [], [])
unfolding get_blacklisted_path_maps get_rule_to_targets rule_targets_from add_rule_targets
    add_host_targets follow_path_map add_path_rules add_paths append_target get_path_rules
    get_host_name_for_routing_rule get_url_path_maps_by_name get_listeners_by_name any_blacklisted
    split_by is_blacklisted get_target_blacklist targets_of host_is_blacklisted path_is_blacklisted
    contains chunks_contain get_last_chunk_of_slashed split to_lower trim_right ends_with put_all
    lookup insert has_byte
path_maps_split = refl

pub existing_pools_split :
    get_blacklisted_pools existing
    ≡ returns (pool (bytes "p") ∷ pool (bytes "q") ∷ [], pool (bytes "z") ∷ [])
unfolding get_blacklisted_pools get_blacklisted_pools_set add_pools_of_path_map add_references
    add_reference split_by_name get_last_chunk_of_slashed split lookup insert
existing_pools_split = rw (rules_split, path_maps_split) refl

serves : served_host existing rule ≡ some (bytes "a.B")
unfolding served_host get_host_name_for_routing_rule get_listeners_by_name get_last_chunk_of_slashed
    split put_all lookup insert
serves = refl

same_host : to_lower (bytes "a.B") ≡ to_lower (bytes "A.b")
unfolding to_lower
same_host = refl

same_path : to_lower (bytes "/X/*") ≡ to_lower (bytes "/x/*")
unfolding to_lower
same_path = refl

path_served : In (bytes "/x/y") (all_paths (followed existing rule rule.url_path_map))
unfolding get_path_rules get_url_path_maps_by_name get_last_chunk_of_slashed split put_all lookup
    insert
path_served = inl refl

complete : IsComplete existing
complete = record { path_maps = (λ e. cc, tt); rules = (inr refl, (inl refl, tt)) }

not_named : ¬ NamesHost prohibited (bytes "c")
unfolding to_lower
not_named (inl e) = cc
not_named (inr e) = cc

prohibited_rule_is_blacklisted_example : In rule (rule ∷ [])
prohibited_rule_is_blacklisted_example =
    prohibited_rule_is_blacklisted existing (rule ∷ [], basic_rule ∷ []) rule (bytes "a.B")
      (bytes "/x") (bytes "y") rules_split (inl refl) serves path_served
      (inl (inr same_host, inr (inl same_path)))

get_blacklisted_routing_rules_iff_example :
    (In basic_rule (rule ∷ [])
      ↔ (In basic_rule existing.routing_rules × ServesListed existing (bytes "s")))
    × (In basic_rule (basic_rule ∷ [])
        ↔ (In basic_rule existing.routing_rules × (¬ ServesListed existing (bytes "s"))))
get_blacklisted_routing_rules_iff_example =
    get_blacklisted_routing_rules_iff existing (rule ∷ [], basic_rule ∷ []) rules_split basic_rule

get_blacklisted_pools_iff_example :
    (pools : List BackendAddressPool × List BackendAddressPool) × (get_blacklisted_pools existing
      ≡ returns pools)
    × SplitsBy (λ p. p.name) (PoolInUse (rule ∷ []) (path_map ∷ [])) existing.backend_pools pools
get_blacklisted_pools_iff_example =
    get_blacklisted_pools_iff existing (rule ∷ [], basic_rule ∷ []) (path_map ∷ [], []) rules_split
      path_maps_split

get_blacklisted-Returns_example :
    Returns (get_blacklisted_routing_rules existing) × Returns (get_blacklisted_path_maps existing)
get_blacklisted-Returns_example = get_blacklisted-Returns existing complete

prohibited_below_example :
    is_blacklisted
      (record { hostname = bytes "a.B"; path = bytes "/x/y" })
      (get_target_blacklist (prohibited ∷ []))
    ≡ returns true
prohibited_below_example =
    prohibited_below (prohibited ∷ []) (bytes "a.B") (bytes "/x") (bytes "y")
      (inl (inr same_host, inr (inl same_path)))

pruned_once : prune_ingress_rules ingress (prohibited ∷ []) ≡ returns pruned
unfolding prune_ingress_rules prune_rules prune_rule prune_listed prune_paths is_blacklisted
    get_target_blacklist targets_of host_is_blacklisted path_is_blacklisted contains chunks_contain
    split to_lower trim_right ends_with has_byte
pruned_once = refl

routes-prune_ingress_rules_example :
    (out : List IngressRule) × (prune_ingress_rules ingress (prohibited ∷ []) ≡ returns out)
    × (routes out ≡ allowed_routes (get_target_blacklist (prohibited ∷ [])) (routes ingress.rules))
routes-prune_ingress_rules_example = routes-prune_ingress_rules ingress (prohibited ∷ [])

get_blacklisted_listeners_iff_example :
    (listeners : List HttpListener × List HttpListener) × (get_blacklisted_listeners existing
      ≡ returns listeners)
    × SplitsBy (λ l. l.name) (ListenerInUse existing (rule ∷ [])) existing.listeners listeners
get_blacklisted_listeners_iff_example =
    get_blacklisted_listeners_iff existing (rule ∷ [], basic_rule ∷ []) rules_split
