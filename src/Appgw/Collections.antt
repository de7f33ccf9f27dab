-- ===== src/Appgw/Collections.antt =====
-- The ends of the functions of pkg/appgw that put a collection into the gateway: what AGIC created is
-- an argument; a brownfield deployment adds what exists and is blacklisted; then the list is sorted.
pub mod Determinism
pub mod Retained
pub mod Greenfield
use application_gateway_kube.Common.{
  Text, bytes, List, [], ◌∷◌, Option, none, some, Bool, true, false, Run, returns, panics, ◌>>=◌,
  if◌then◌else◌, ◌++◌,
}
use application_gateway_kube.Common.Order.{MapOrder, Sort}
use application_gateway_kube.Gateway.{
  BackendAddressPool, SslCertificate, BackendHttpSettings, Probe, RedirectConfiguration, UrlPathMap,
  RoutingRule, ApplicationGateway,
}
use application_gateway_kube.Sorter.{
  by_backend_pool_name_less, by_certificate_name_less, by_settings_name_less,
  by_health_probe_name_less, by_redirect_name_less, by_path_map_less,
  by_request_routing_rule_name_less,
}
use application_gateway_kube.Brownfield.Targets.{ProhibitedTarget}
use application_gateway_kube.Brownfield.Existing.{ExistingResources, new_existing_resources}
use application_gateway_kube.Brownfield.Blacklisted.{
  get_blacklisted_routing_rules, get_blacklisted_path_maps, get_blacklisted_pools,
}
use application_gateway_kube.Brownfield.HttpSettings.{
  get_blacklisted_http_settings, get_blacklisted_probes,
}
use application_gateway_kube.Brownfield.Redirects.{get_blacklisted_redirects}
use application_gateway_kube.Brownfield.Merge.{
  merge_pools, merge_certs, merge_http_settings, merge_probes, merge_redirects,
}
use application_gateway_kube.Brownfield.MergeRules.{merge_path_maps, merge_rules}

-- What the builder's context says: `EnableBrownfieldDeployment` and the prohibited targets.
pub record BuilderContext : Type 0 where
  pub enable_brownfield_deployment : Bool
  pub prohibited_targets : List ProhibitedTarget

module _ (order : MapOrder) (s : Sort) (ctx : BuilderContext) where
  abbrev existing : ApplicationGateway → ExistingResources
  existing app_gw = new_existing_resources app_gw ctx.prohibited_targets none

  -- `getPools` from where the pools are listed, with the default pool, and `BackendAddressPools`.
  unfoldable pub backend_address_pools :
      ApplicationGateway → BackendAddressPool → List BackendAddressPool → Run ApplicationGateway
  backend_address_pools app_gw default_pool created =
      let er = new_existing_resources app_gw ctx.prohibited_targets (some default_pool) in
      let merged = get_blacklisted_pools er >>= λ parts.
      returns (merge_pools order (parts.0 ∷ created ∷ [])) in
      do
        pools ← if ctx.enable_brownfield_deployment then merged else returns created
        returns (record app_gw {
          backend_address_pools = some (s.sort BackendAddressPool by_backend_pool_name_less pools);
        })

  -- `HealthProbesCollection`, given the probes of `newProbesMap`.
  unfoldable pub health_probes_collection : ApplicationGateway → List Probe → Run ApplicationGateway
  health_probes_collection app_gw created =
      let merged = get_blacklisted_probes (existing app_gw) >>= λ parts.
      returns (merge_probes order (parts.0 ∷ created ∷ [])) in
      do
        probes ← if ctx.enable_brownfield_deployment then merged else returns created
        returns (record app_gw { probes = some (s.sort Probe by_health_probe_name_less probes) })

  -- `BackendHTTPSettingsCollection` with Istio integration off, given the settings.
  unfoldable pub backend_http_settings_collection :
      ApplicationGateway → List BackendHttpSettings → Run ApplicationGateway
  backend_http_settings_collection app_gw created =
      let merged = get_blacklisted_http_settings (existing app_gw) >>= λ parts.
      returns (merge_http_settings order (parts.0 ∷ created ∷ [])) in
      do
        settings ← if ctx.enable_brownfield_deployment then merged else returns created
        returns (record app_gw {
          backend_http_settings_collection =
              some (s.sort BackendHttpSettings by_settings_name_less settings);
        })

  -- The end of `getRedirectConfigurations`.
  unfoldable pub redirect_configurations :
      ApplicationGateway → List RedirectConfiguration → Run (List RedirectConfiguration)
  redirect_configurations app_gw created =
      let merged = get_blacklisted_redirects (existing app_gw) >>= λ parts.
      returns (merge_redirects order (parts.0 ∷ created ∷ [])) in
      do
        redirects ← if ctx.enable_brownfield_deployment then merged else returns created
        returns (s.sort RedirectConfiguration by_redirect_name_less redirects)

  -- The certificates of a brownfield deployment: all that exist stay.
  abbrev merged_certs : Option (List SslCertificate) → List SslCertificate → List SslCertificate
  merged_certs none created = created
  merged_certs (some certs) created = merge_certs order (certs ∷ created ∷ [])

  -- The end of `getSslCertificates`.
  unfoldable pub ssl_certificates : ApplicationGateway → List SslCertificate → List SslCertificate
  ssl_certificates app_gw created = s.sort SslCertificate by_certificate_name_less (
      if ctx.enable_brownfield_deployment
      then merged_certs app_gw.ssl_certificates created
      else created)

  -- `RequestRoutingRules`, given the rules and path maps of `getRules`.
  unfoldable pub request_routing_rules :
      ApplicationGateway → List RoutingRule → List UrlPathMap → Run ApplicationGateway
  request_routing_rules app_gw rules path_maps =
      let merged = get_blacklisted_path_maps (existing app_gw) >>= λ parts.
      merge_path_maps order (parts.0 ∷ path_maps ∷ []) in
      do
        maps ← if ctx.enable_brownfield_deployment then merged else returns path_maps
        let sorted_maps = some (s.sort UrlPathMap by_path_map_less maps)
        let gw = record app_gw { url_path_maps = sorted_maps }
        let merged_rules = get_blacklisted_routing_rules (existing gw) >>= λ parts.
            merge_rules order sorted_maps (parts.0 ∷ rules ∷ [])
        out ←
            if ctx.enable_brownfield_deployment then merged_rules else returns (sorted_maps, rules)
        returns (record gw {
          url_path_maps = out.0;
          request_routing_rules = some (s.sort RoutingRule by_request_routing_rule_name_less out.1);
        })
