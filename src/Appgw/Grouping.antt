-- ===== src/Appgw/Grouping.antt =====
-- pkg/appgw/frontend_ipconfigurations.go, frontend_listeners.go and redirects.go: which listener has which
-- identifier, and the redirections to them.
pub mod Returning
pub mod Redirects
pub mod Identified
pub mod Standing
use application_gateway_kube.Common.{
  ℕ, Text, List, [], ◌∷◌, ◌++◌, Option, none, some, Bool, true, false, ◌&&◌, ◌==◌, not, is_nil,
  text_eq, GoMap, lookup, insert, if◌then◌else◌, Run, returns, panics, ◌>>=◌, deref,
}
use application_gateway_kube.Common.Order.{MapOrder, Sort}
use application_gateway_kube.Gateway.{
  SubResource, FrontendIpConfiguration, FrontendIpProperties, FrontendPort, HttpListener,
  RedirectConfiguration, ApplicationGateway,
}
use application_gateway_kube.Appgw.Identifier.{redirect_configuration_id, resource_ref}
use application_gateway_kube.Appgw.Names.{ListenerIdentifier, set_host_names}
use application_gateway_kube.Appgw.Keys.{listener_eq}
use application_gateway_kube.Appgw.Listeners.{ListenerAzConfig}
use application_gateway_kube.Appgw.Listeners.Configs.{Configs}
use application_gateway_kube.Appgw.Collections.{BuilderContext, redirect_configurations}
use application_gateway_kube.Appgw.Frontend.{FrontendBuilder, is_https}

-- `LookupIPConfigurationByID`
unfoldable pub lookup_ip_configuration_by_id :
    List FrontendIpConfiguration → Text → Run (Option FrontendIpConfiguration)
lookup_ip_configuration_by_id [] id = returns none
lookup_ip_configuration_by_id (ip ∷ ips) id = do
  let rest = lookup_ip_configuration_by_id ips id
  own ← deref ip.id
  (if own == id then returns (some ip) else rest)

abbrev pub has_private_address : Option FrontendIpProperties → Bool
has_private_address none = false
has_private_address (some properties) = is_there properties.private_ip_address
  where
    is_there : Option Text → Bool
    is_there none = false
    is_there (some address) = true

-- `IsPrivateIPConfiguration`, which reads a field of its argument.
abbrev pub is_private_ip_configuration : Option FrontendIpConfiguration → Run Bool
is_private_ip_configuration none = panics
is_private_ip_configuration (some ip) = returns (has_private_address ip.properties)

unfoldable pub ports_by_id : List FrontendPort → GoMap Text FrontendPort → GoMap Text FrontendPort
ports_by_id [] m = m
ports_by_id (port ∷ ports) m = ports_by_id ports (insert port.id port m)

-- A Go value of the struct that is not initialized.
abbrev pub zero_identifier : ListenerIdentifier
zero_identifier = record {
  frontend_port = 0;
  host_name = [];
  host_names = [] ∷ [] ∷ [] ∷ [] ∷ [] ∷ [];
  use_private_ip = false;
}

abbrev pub with_host_names :
    Option (List Text) → Option Text → ListenerIdentifier → ListenerIdentifier
with_host_names (some names) name id = set_host_names id names
with_host_names none (some name) id = set_host_names id (name ∷ [])
with_host_names none none id = id

abbrev pub number_of : Option FrontendPort → ℕ
number_of none = 0
number_of (some port) = or_zero port.port
  where
    or_zero : Option ℕ → ℕ
    or_zero none = 0
    or_zero (some number) = number

module _ (b : FrontendBuilder) where
  -- The identifier that the loop of `groupListenersByListenerIdentifier` makes of a listener.
  unfoldable pub identifier_of : GoMap Text FrontendPort → HttpListener → Run ListenerIdentifier
  unfolding lookup_ip_configuration_by_id
  identifier_of ports l = do
    port_ref ← deref l.frontend_port
    port_id ← deref port_ref.id
    ips ← deref b.frontend_ip_configurations
    ip_ref ← deref l.frontend_ip_configuration
    ip_id ← deref ip_ref.id
    ip ← lookup_ip_configuration_by_id ips ip_id
    use_private_ip ← is_private_ip_configuration ip
    returns (record (with_host_names l.host_names l.host_name zero_identifier) {
      use_private_ip = use_private_ip;
      frontend_port = number_of (lookup port_id ports);
    })

  unfoldable pub group_listeners :
      GoMap Text FrontendPort
      → List HttpListener
      → GoMap ListenerIdentifier HttpListener
      → Run (GoMap ListenerIdentifier HttpListener)
  unfolding identifier_of
  group_listeners ports [] m = returns m
  group_listeners ports (l ∷ ls) m = do
    id ← identifier_of ports l
    group_listeners ports ls (insert id l m)

  -- `groupListenersByListenerIdentifier` of the listeners and ports of `getListeners`.
  unfoldable pub group_listeners_by_listener_identifier :
      List HttpListener → List FrontendPort → Run (GoMap ListenerIdentifier HttpListener)
  unfolding group_listeners ports_by_id
  group_listeners_by_listener_identifier listeners ports =
      group_listeners (ports_by_id ports []) listeners []

  -- `newSSLRedirectConfig`
  abbrev pub new_ssl_redirect_config : ListenerAzConfig → Option SubResource → RedirectConfiguration
  new_ssl_redirect_config config target = record {
    name = config.ssl_redirect_configuration_name;
    id = redirect_configuration_id b.agw config.ssl_redirect_configuration_name;
    target_listener = target;
  }

  abbrev pub redirect_to : ListenerAzConfig → Option HttpListener → List RedirectConfiguration
  redirect_to config none = []
  redirect_to config (some l) =
      if is_https b config.protocol && not (is_nil config.ssl_redirect_configuration_name)
      then new_ssl_redirect_config config (resource_ref l.id) ∷ []
      else []

  -- The loop of `getRedirectConfigurations`.
  unfoldable pub created_redirects :
      GoMap ListenerIdentifier HttpListener
      → List (ListenerIdentifier × ListenerAzConfig)
      → List RedirectConfiguration
  created_redirects listeners [] = []
  created_redirects listeners ((id, config) ∷ configs) =
      redirect_to config (lookup id listeners) ++ created_redirects listeners configs

  -- `getRedirectConfigurations`
  unfoldable pub get_redirect_configurations :
      MapOrder
      → Sort
      → BuilderContext
      → ApplicationGateway
      → GoMap ListenerIdentifier HttpListener
      → Configs
      → Run (List RedirectConfiguration)
  unfolding created_redirects
  get_redirect_configurations order s ctx app_gw listeners configs =
      redirect_configurations order s ctx app_gw (
        created_redirects listeners (order.iterate (ListenerIdentifier × ListenerAzConfig) configs))
