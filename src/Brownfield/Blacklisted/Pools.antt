-- ===== src/Brownfield/Blacklisted/Pools.antt =====
-- The pools that the gateway keeps for a prohibited target.
use application_gateway_kube.Common.{
  Text, List, [], true, ◌≡◌, ◌↔◌, ◌⊎◌, inl, inr, member, lookup, text_eq, returns,
}
use application_gateway_kube.Gateway.{BackendAddressPool, UrlPathMap, RoutingRule}
use application_gateway_kube.Brownfield.Targets.Blacklist.{Any}
use application_gateway_kube.Brownfield.Existing.{ExistingResources, NameSet}
use application_gateway_kube.Brownfield.Buckets.{add_reference, split_by_name}
use application_gateway_kube.Brownfield.Blacklisted.{
  get_blacklisted_routing_rules, get_blacklisted_path_maps, get_blacklisted_pools_set,
  get_blacklisted_pools, add_references, add_pools_of_path_map,
}
use application_gateway_kube.Brownfield.Blacklisted.References.{
  Refers, AnyRule, member-add_reference, member-add_references, member-add_path_rule_references,
  SplitsBy, split_by_name-SplitsBy,
}

-- A path map leads to a pool by its default or by one of its path rules.
abbrev pub PathMapUsesPool : UrlPathMap → Text → Type 0
PathMapUsesPool pm name =
    AnyRule (λ rule. Refers rule.backend_address_pool) pm.path_rules name
    ⊎ Refers pm.default_backend_address_pool name

member-add_pools_of_path_map :
    (pm : UrlPathMap) (name : Text) (set : NameSet)
    → (member name (add_pools_of_path_map pm set) ≡ true)
      ↔ (PathMapUsesPool pm name ⊎ (member name set ≡ true))
unfolding add_pools_of_path_map
member-add_pools_of_path_map pm name set =
    let by_rules =
      member-add_path_rule_references (λ rule. rule.backend_address_pool) pm.path_rules name
        (add_reference pm.default_backend_address_pool set) in
    let by_default = member-add_reference pm.default_backend_address_pool name set in
    (
      λ m. elim (by_rules.0 m) [
        | inl a ↦ inl (inl a)
        | inr d ↦ elim (by_default.0 d) [ inl r ↦ inl (inr r) | inr o ↦ inr o ]
      ],
      λ h. elim h [
        | inl (inl a) ↦ by_rules.1 (inl a)
        | inl (inr r) ↦ by_rules.1 (inr (by_default.1 (inl r)))
        | inr o ↦ by_rules.1 (inr (by_default.1 (inr o)))
      ],
    )

-- A blacklisted rule or path map leads to a pool of that name.
abbrev pub PoolInUse : List RoutingRule → List UrlPathMap → Text → Type 0
PoolInUse rules path_maps name =
    Any (λ pm. PathMapUsesPool pm name) path_maps
    ⊎ Any (λ rule. Refers rule.backend_address_pool name) rules

pools_set : List RoutingRule → List UrlPathMap → NameSet
pools_set rules path_maps =
    add_references add_pools_of_path_map path_maps
      (add_references (λ rule. add_reference rule.backend_address_pool) rules [])

member-pools_set :
    (rules : List RoutingRule) (path_maps : List UrlPathMap) (name : Text)
    → (member name (pools_set rules path_maps) ≡ true) ↔ PoolInUse rules path_maps name
unfolding pools_set
member-pools_set rules path_maps name =
    let of_rules =
      member-add_references (λ (rule : RoutingRule). add_reference rule.backend_address_pool)
        (λ rule. Refers rule.backend_address_pool)
        (λ rule. member-add_reference rule.backend_address_pool) rules name [] in
    let of_maps =
      member-add_references add_pools_of_path_map PathMapUsesPool member-add_pools_of_path_map
        path_maps name
        (add_references (λ rule. add_reference rule.backend_address_pool) rules []) in
    (
      λ m. elim (of_maps.0 m) [
        | inl a ↦ inl a
        | inr r ↦ elim (of_rules.0 r) [ inl b ↦ inr b | inr n ↦ absurd (unfold lookup in cc) ]
      ],
      λ h. elim h [ inl a ↦ of_maps.1 (inl a) | inr b ↦ of_maps.1 (inr (of_rules.1 (inl b))) ],
    )

-- Where the rules and path maps of the gateway can be split, so can the pools, and a pool is
-- blacklisted exactly if a blacklisted rule or path map leads to its name.
pub get_blacklisted_pools_iff :
    (er : ExistingResources) (rules : List RoutingRule × List RoutingRule)
    (path_maps : List UrlPathMap × List UrlPathMap)
    → get_blacklisted_routing_rules er ≡ returns rules
    → get_blacklisted_path_maps er ≡ returns path_maps
    → (pools : List BackendAddressPool × List BackendAddressPool) × (get_blacklisted_pools er
        ≡ returns pools)
      × SplitsBy (λ p. p.name) (PoolInUse rules.0 path_maps.0) er.backend_pools pools
unfolding get_blacklisted_pools get_blacklisted_pools_set pools_set
get_blacklisted_pools_iff er rules path_maps hr hp = (
  split_by_name (λ p. p.name) (pools_set rules.0 path_maps.0) er.backend_pools,
  rw (hr, hp),
  split_by_name-SplitsBy (λ p. p.name) (PoolInUse rules.0 path_maps.0)
      (pools_set rules.0 path_maps.0) er.backend_pools (member-pools_set rules.0 path_maps.0),
)
