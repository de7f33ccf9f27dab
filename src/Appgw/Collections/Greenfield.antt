-- ===== src/Appgw/Collections/Greenfield.antt =====
-- pkg/appgw: the collections of a deployment that is not brownfield, which are what was created, sorted.
use application_gateway_kube.Common.{List, some, false, returns, ◌≡◌, refl}
use application_gateway_kube.Common.Order.{MapOrder, Sort}
use application_gateway_kube.Gateway.{
  BackendAddressPool, BackendHttpSettings, Probe, ApplicationGateway,
}
use application_gateway_kube.Sorter.{
  by_backend_pool_name_less, by_health_probe_name_less, by_settings_name_less,
}
use application_gateway_kube.Appgw.Collections.{
  BuilderContext, backend_address_pools, health_probes_collection, backend_http_settings_collection,
}

module _ (order : MapOrder) (s : Sort) (ctx : BuilderContext)
    (off : ctx.enable_brownfield_deployment ≡ false) (gw : ApplicationGateway) where
  pub backend_address_pools_created :
      (pool : BackendAddressPool) (pools : List BackendAddressPool)
      → backend_address_pools order s ctx gw pool pools
        ≡ returns (record gw {
          backend_address_pools = some (s.sort BackendAddressPool by_backend_pool_name_less pools);
        })
  unfolding backend_address_pools
  backend_address_pools_created pool pools = rw off refl

  pub health_probes_collection_created :
      (probes : List Probe)
      → health_probes_collection order s ctx gw probes
        ≡ returns (record gw { probes = some (s.sort Probe by_health_probe_name_less probes) })
  unfolding health_probes_collection
  health_probes_collection_created probes = rw off refl

  pub backend_http_settings_collection_created :
      (settings : List BackendHttpSettings)
      → backend_http_settings_collection order s ctx gw settings
        ≡ returns (record gw {
          backend_http_settings_collection =
              some (s.sort BackendHttpSettings by_settings_name_less settings);
        })
  unfolding backend_http_settings_collection
  backend_http_settings_collection_created settings = rw off refl
