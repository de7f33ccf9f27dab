-- ===== src/Appgw/Build.antt =====
-- pkg/appgw/configbuilder.go and http_listeners.go: how a configuration is built, with the Istio integration
-- off. The version, which the linker fills in, and the clock are parameters.
pub mod Whole
pub mod Completed
pub mod Ready
pub mod Valid
pub mod Answered
pub mod Left
pub mod Directed
pub mod Served
use application_gateway_kube.Common.{
  ℕ, Text, bytes, List, [], Option, none, some, Bool, text_eq, GoMap, insert, Run, returns, ◌>>=◌,
}
use application_gateway_kube.Common.Order.{MapOrder, Sort}
use application_gateway_kube.Gateway.{
  BackendHttpSettings, RedirectConfiguration, FrontendPort, ApplicationGateway, Ingress,
}
use application_gateway_kube.Azure.{ClusterError}
use application_gateway_kube.Utils.Multimap.{SetLibrary}
use application_gateway_kube.K8scontext.Listing.{Caches, Subsets}
use application_gateway_kube.Appgw.Identifier.{address_pool_id, http_settings_id}
use application_gateway_kube.Appgw.Listeners.Configs.{Configs, get_listener_configs}
use application_gateway_kube.Appgw.Certificates.{get_ssl_certificates}
use application_gateway_kube.Appgw.Collections.{
  BuilderContext, backend_address_pools, health_probes_collection, backend_http_settings_collection,
  request_routing_rules,
}
use application_gateway_kube.Appgw.Frontend.{FrontendBuilder, get_listeners}
use application_gateway_kube.Appgw.Probes.{created_probes}
use application_gateway_kube.Appgw.Settings.{
  default_backend_http_settings_name, Settings, get_backends_and_settings_map, or_empty,
}
use application_gateway_kube.Appgw.Pools.{
  default_backend_address_pool_name, default_backend_address_pool, created_pools,
  new_backend_pool_map,
}
use application_gateway_kube.Appgw.Grouping.{
  group_listeners_by_listener_identifier, get_redirect_configurations,
}
use application_gateway_kube.Appgw.PathMaps.{Built}
use application_gateway_kube.Appgw.Routing.{get_path_maps, get_rules}

-- The errors of `Build`; of its steps only the settings return one.
pub data BuildError : Type 0 where
  generating_probes generating_backend_settings creating_backend_pools generating_listeners
        generating_routing_rules :
      BuildError

-- What is built of, beside the gateway: the ingresses that were pruned, the environment, the ports that exist,
-- and the certificates of the secret store.
pub record BuildContext : Type 0 where
  pub builder : BuilderContext
  pub ingresses : List Ingress
  pub env_use_private_ip : Text
  pub attach_waf_policy_to_listener : Bool
  pub existing_ports_by_number : GoMap ℕ FrontendPort
  pub pfx : Text → List ℕ
  pub base64 : List ℕ → Text

-- What the tags say: the version, the resource of the cluster or an error, and the time.
pub record TagValues : Type 0 where
  pub version : Text
  pub cluster : Text × Option ClusterError
  pub now : Text

abbrev pub or_no_tags : Option (GoMap Text Text) → GoMap Text Text
or_no_tags none = []
or_no_tags (some m) = m

abbrev pub tag_cluster : Text × Option ClusterError → GoMap Text Text → GoMap Text Text
tag_cluster (resource, none) m = insert (bytes "ingress-for-aks-cluster-id") resource m
tag_cluster (resource, some err) m = m

-- `addTags`
unfoldable pub add_tags : TagValues → ApplicationGateway → ApplicationGateway
add_tags values gw = record gw {
  tags = some (
      insert (bytes "last-updated-by-k8s-ingress") values.now (
        tag_cluster values.cluster
          (insert (bytes "managed-by-k8s-ingress") values.version (or_no_tags gw.tags))));
}

module _ (sets : SetLibrary Text) (subsets : Subsets sets) (b : FrontendBuilder) (c : Caches)
    (order : MapOrder) (s : Sort) (x : BuildContext) where
  abbrev pub built_settings : Option Settings
  built_settings = get_backends_and_settings_map sets subsets b c order x.ingresses

  abbrev pub used_settings : Settings
  used_settings = or_empty sets subsets b c order x.ingresses built_settings

  abbrev pub configs : Configs
  configs =
      get_listener_configs x.pfx x.base64 b.md5_sum b.ag_prefix b.hash_code order
        x.env_use_private_ip x.attach_waf_policy_to_listener x.ingresses

  abbrev pub built : List RedirectConfiguration → Built
  built redirects = record {
    settings = used_settings;
    pools = new_backend_pool_map order s b c used_settings.pairs;
    redirects = redirects;
    default_address_pool_id = address_pool_id b.agw (default_backend_address_pool_name order s b c);
    default_http_settings_id = http_settings_id b.agw (default_backend_http_settings_name b);
  }

  -- The certificates, the listeners with their ports, the redirections (`Listeners`), and then the path maps
  -- and the rules (`RequestRoutingRules`).
  unfoldable pub build_routing : ApplicationGateway → Run ApplicationGateway
  build_routing gw = do
    let with_certs = record gw {
      ssl_certificates =
          some (get_ssl_certificates x.pfx x.base64 order s x.builder gw x.ingresses);
    }
    (listeners, ports) ←
        get_listeners b order s x.builder with_certs configs x.existing_ports_by_number
    let with_listeners = record with_certs {
      http_listeners = some listeners;
      frontend_ports = some ports;
    }
    grouped ← group_listeners_by_listener_identifier b listeners ports
    redirects ← get_redirect_configurations b order s x.builder with_listeners grouped configs
    let with_redirects = record with_listeners { redirect_configurations = some redirects }
    routing ← get_rules b c order s (built redirects) grouped (
        get_path_maps b c order s (built redirects) x.pfx x.base64 x.env_use_private_ip x.ingresses)
    request_routing_rules order s x.builder with_redirects routing.rules routing.path_maps

  abbrev pub built_collection : Option Settings → List BackendHttpSettings
  built_collection none = []
  built_collection (some settings) = settings.collection

  abbrev pub build_from_settings :
      TagValues
      → Option Settings
      → ApplicationGateway
      → Run (Option BuildError × ApplicationGateway)
  build_from_settings tags none gw = returns (some generating_backend_settings, gw)
  build_from_settings tags (some settings) gw = do
    with_pools ←
        backend_address_pools order s x.builder gw (default_backend_address_pool order s b c)
          (created_pools order s b c settings.pairs)
    routed ← build_routing with_pools
    returns (none, add_tags tags routed)

  -- `Build`: an error, if there is one, and the gateway of the builder afterwards.
  unfoldable pub build :
      TagValues → ApplicationGateway → Run (Option BuildError × ApplicationGateway)
  unfolding add_tags build_routing
  build tags gw = do
    with_probes ←
        health_probes_collection order s x.builder gw
          (created_probes sets subsets b c order x.ingresses)
    with_settings ←
        backend_http_settings_collection order s x.builder with_probes
          (built_collection built_settings)
    build_from_settings tags built_settings with_settings
