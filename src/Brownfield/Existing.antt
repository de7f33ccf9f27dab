-- ===== src/Brownfield/Existing.antt =====
-- pkg/brownfield/types.go: a copy of the existing gateway configuration. The two caches of the
-- struct are written on copies of the receiver and never read again, so the indexes are computed.
use application_gateway_kube.Common.{
  Text, List, [], ◌∷◌, Option, none, some, GoMap, insert, is_nil, text_eq, if◌then◌else◌,
}
use application_gateway_kube.Gateway.{
  BackendAddressPool, SslCertificate, BackendHttpSettings, Probe, RedirectConfiguration,
  FrontendPort, HttpListener, UrlPathMap, RoutingRule, ApplicationGateway,
}
use application_gateway_kube.Brownfield.Targets.{ProhibitedTarget}

pub record ExistingResources : Type 0 where
  pub backend_pools : List BackendAddressPool
  pub certificates : List SslCertificate
  pub routing_rules : List RoutingRule
  pub listeners : List HttpListener
  pub url_path_maps : List UrlPathMap
  pub http_settings : List BackendHttpSettings
  pub ports : List FrontendPort
  pub probes : List Probe
  pub redirects : List RedirectConfiguration
  pub prohibited_targets : List ProhibitedTarget
  pub default_backend_pool : Option BackendAddressPool

-- The list behind a pointer, or the nil slice.
abbrev pub list_or_nil : {A : Type 0} → Option (List A) → List A
list_or_nil none = []
list_or_nil (some xs) = xs

-- `NewExistingResources`
unfoldable pub new_existing_resources :
    ApplicationGateway → List ProhibitedTarget → Option BackendAddressPool → ExistingResources
new_existing_resources app_gw prohibited_targets default_pool = record {
  backend_pools = list_or_nil app_gw.backend_address_pools;
  certificates = list_or_nil app_gw.ssl_certificates;
  routing_rules = list_or_nil app_gw.request_routing_rules;
  listeners = list_or_nil app_gw.http_listeners;
  url_path_maps = list_or_nil app_gw.url_path_maps;
  http_settings = list_or_nil app_gw.backend_http_settings_collection;
  ports = list_or_nil app_gw.frontend_ports;
  probes = list_or_nil app_gw.probes;
  redirects = list_or_nil app_gw.redirect_configurations;
  prohibited_targets = prohibited_targets;
  default_backend_pool = default_pool;
}

-- A set of names: `map[name]interface{}` with nil values.
abbrev pub NameSet : Type 0
NameSet = GoMap Text (Unit {0})

abbrev pub add_name : Text → NameSet → NameSet
add_name name set = insert name tt set

unfoldable pub prohibited_hostnames_from : NameSet → List ProhibitedTarget → NameSet
prohibited_hostnames_from set [] = set
prohibited_hostnames_from set (pt ∷ pts) =
    prohibited_hostnames_from (if is_nil pt.hostname then set else add_name pt.hostname set) pts

-- `getProhibitedHostnames`
unfoldable pub get_prohibited_hostnames : ExistingResources → NameSet
get_prohibited_hostnames er = prohibited_hostnames_from [] er.prohibited_targets
