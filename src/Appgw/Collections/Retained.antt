-- ===== src/Appgw/Collections/Retained.antt =====
-- What the pools of a brownfield deployment are.
use application_gateway_kube.Common.{
  Text, List, [], ◌∷◌, some, true, ◌≡◌, ◌∙◌, returns, find_key, last_key, later, UniqueKeys,
  SameByKey-perm, text_eq,
}
use application_gateway_kube.Common.Order.{MapOrder, Sort, less_by, IsSorted}
use application_gateway_kube.Gateway.{BackendAddressPool, ApplicationGateway}
use application_gateway_kube.Sorter.{by_backend_pool_name_less}
use application_gateway_kube.Brownfield.Existing.{new_existing_resources}
use application_gateway_kube.Brownfield.Blacklisted.{get_blacklisted_pools}
use application_gateway_kube.Brownfield.Merge.{merge_pools}
use application_gateway_kube.Brownfield.Merge.Laws.{merge_pools-LastOfEachName}
use application_gateway_kube.Appgw.Collections.{BuilderContext, backend_address_pools}
use application_gateway_kube.Appgw.Collections.Determinism.{last_of_two}

-- The pools that a configuration has, by name: sorted, each name once, a created pool before an
-- existing one.
pub record IsPoolList (kept created pools : List BackendAddressPool) : Type 0 where
  pub sorted : IsSorted (λ p. p.name) pools
  pub unique : UniqueKeys (λ p. p.name) pools
  pub finds :
      (k : Text)
      → find_key (λ p. p.name) k pools
        ≡ later (find_key (λ p. p.name) k created) (last_key (λ p. p.name) k kept)

-- In a brownfield deployment whose resources can be split, where the created pools have distinct
-- names, the pools are built: sorted, each name once, the created ones with the blacklisted ones
-- whose names no created pool has.
pub backend_address_pools_brownfield :
    (order : MapOrder) (s : Sort) (ctx : BuilderContext) (app_gw : ApplicationGateway)
    (default_pool : BackendAddressPool) (created : List BackendAddressPool)
    (parts : List BackendAddressPool × List BackendAddressPool)
    → ctx.enable_brownfield_deployment ≡ true
    → get_blacklisted_pools
        (new_existing_resources app_gw ctx.prohibited_targets (some default_pool))
      ≡ returns parts
    → UniqueKeys (λ p. p.name) created
    → (pools : List BackendAddressPool) × (backend_address_pools order s ctx app_gw default_pool
          created
        ≡ returns (record app_gw { backend_address_pools = some pools }))
      × IsPoolList parts.0 created pools
unfolding backend_address_pools by_backend_pool_name_less
backend_address_pools_brownfield order s ctx app_gw default_pool created parts on split u =
    let merged = merge_pools order (parts.0 ∷ created ∷ []) in
    let law = merge_pools-LastOfEachName order (parts.0 ∷ created ∷ []) in
    let same =
      SameByKey-perm (λ (p : BackendAddressPool). p.name)
        (s.sort_perm BackendAddressPool (less_by (λ p. p.name)) merged) in
    (
      s.sort BackendAddressPool (less_by (λ p. p.name)) merged,
      rw (on, split),
      record {
        sorted = s.sort_sorted BackendAddressPool (λ p. p.name) merged;
        unique = same.unique law.0;
        finds = λ k. same.finds law.0 k ∙ law.1 k ∙ last_of_two (λ p. p.name) parts.0 created k u;
      },
    )
