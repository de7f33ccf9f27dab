-- ===== src/Appgw/Frontend.antt =====
-- pkg/appgw/frontend_listeners.go: the listeners and ports of the gateway, with the Istio integration off.
-- A port number is written in decimal by a parameter.
pub mod Ports
pub mod Served
pub mod Returning
pub mod Made
pub mod Filled
pub mod Complete
use application_gateway_kube.Common.{
  ℕ, Text, bytes, List, [], ◌∷◌, ◌++◌, Option, none, some, Bool, true, false, not, ◌&&◌, ◌||◌, ◌==◌,
  nat_eq, text_eq, GoMap, lookup, insert, member, values, is_nil, if◌then◌else◌, Run, returns,
  panics, ◌>>=◌, deref,
}
use application_gateway_kube.Common.Order.{MapOrder, Sort}
use application_gateway_kube.Common.Uniq.{range_values}
use application_gateway_kube.Gateway.{
  Protocol, http, https, SubResource, FrontendIpConfiguration, FrontendPort, HttpListener,
  ApplicationGateway,
}
use application_gateway_kube.Sorter.{by_listener_name_less, by_frontend_port_name_less}
use application_gateway_kube.Brownfield.Existing.{new_existing_resources}
use application_gateway_kube.Brownfield.Blacklisted.{get_blacklisted_listeners}
use application_gateway_kube.Brownfield.Merge.{merge_listeners}
use application_gateway_kube.Controller.Prune.{lookup_ip_configuration_by_type}
use application_gateway_kube.Appgw.Identifier.{
  Identifier, frontend_port_id, listener_id, ssl_certificate_id, resource_ref,
}
use application_gateway_kube.Appgw.Names.{
  ListenerIdentifier, format_prop_name, generate_listener_name, get_host_names,
}
use application_gateway_kube.Appgw.Listeners.{ListenerAzConfig, secret_full_name}
use application_gateway_kube.Appgw.Listeners.Configs.{Configs}
use application_gateway_kube.Appgw.Collections.{BuilderContext}

-- What the builder knows: its identifier, the IP configurations of the gateway, whether its tier is one of
-- the first version, and how names are made.
pub record FrontendBuilder : Type 0 where
  pub agw : Identifier
  pub frontend_ip_configurations : Option (List FrontendIpConfiguration)
  -- Whether `Sku.Tier` of the gateway is one of the first version. The code reads it through the pointer
  -- `Sku`, so it panics where that is nil, which is not modelled.
  pub is_v1 : Bool
  pub md5_sum : Text → List ℕ
  pub ag_prefix : Text
  pub hash_code : ListenerIdentifier → Text
  pub decimal : ℕ → Text

-- The listeners, the ports by number, and the listener of each port that public listeners use.
pub record Frontend : Type 0 where
  pub listeners : List HttpListener
  pub ports_by_number : GoMap ℕ FrontendPort
  pub public_ports : GoMap Text Text

module _ (b : FrontendBuilder) where
  -- `generateFrontendPortName`
  unfoldable pub generate_frontend_port_name : ℕ → Text
  generate_frontend_port_name port =
      format_prop_name b.md5_sum (b.ag_prefix ++ (bytes "fp-" ++ b.decimal port))

  abbrev pub new_port : ℕ → FrontendPort
  new_port number =
      let name = generate_frontend_port_name number in
      record { name = name; id = frontend_port_id b.agw name; port = some number }

  abbrev pub port_or_new : ℕ → Option FrontendPort → FrontendPort
  port_or_new number none = new_port number
  port_or_new number (some port) = port

  -- One host name is set as `HostName`, more as `Hostnames`.
  abbrev pub with_hosts : List Text → HttpListener → HttpListener
  with_hosts [] l = l
  with_hosts (host ∷ []) l = record l { host_name = some host }
  with_hosts (host ∷ other ∷ hosts) l = record l { host_names = some (host ∷ other ∷ hosts) }

  abbrev pub is_https : Protocol → Bool
  is_https https = true
  is_https http = false

  -- `newListener`
  unfoldable pub new_listener :
      ListenerIdentifier → Protocol → GoMap ℕ FrontendPort → Run (HttpListener × FrontendPort)
  unfolding generate_frontend_port_name
  new_listener id protocol ports = do
    ips ← deref b.frontend_ip_configurations
    ip ← deref (lookup_ip_configuration_by_type ips id.use_private_ip)
    ip_id ← deref ip.id
    let port = port_or_new id.frontend_port (lookup id.frontend_port ports)
    let name = generate_listener_name b.md5_sum b.ag_prefix b.hash_code id
    returns (
      with_hosts (get_host_names id) (record {
        name = name;
        id = listener_id b.agw name;
        protocol = protocol;
        host_name = none;
        host_names = none;
        frontend_ip_configuration = resource_ref ip_id;
        frontend_port = resource_ref port.id;
        ssl_certificate = none;
        firewall_policy = none;
        require_server_name_indication =
            b.is_v1 && (not (is_nil id.host_name) && is_https protocol);
      }),
      port,
    )

  abbrev pub with_config : ListenerAzConfig → HttpListener → HttpListener
  with_config config l = record l {
    ssl_certificate =
        if is_https config.protocol
        then resource_ref (ssl_certificate_id b.agw (secret_full_name config.secret))
        else none;
    firewall_policy =
        if is_nil config.firewall_policy
        then none
        else some (record { id = some config.firewall_policy });
  }

  abbrev pub note_public : Bool → Text → Text → GoMap Text Text → GoMap Text Text
  note_public true port_name listener_name m = m
  note_public false port_name listener_name m = insert port_name listener_name m

  -- A private listener on a port of a public one is not created.
  abbrev pub add_listener :
      ListenerIdentifier → ListenerAzConfig → HttpListener → FrontendPort → ℕ → Frontend → Frontend
  add_listener id config listener port number s =
      if member port.name s.public_ports && id.use_private_ip then s else record {
        listeners = s.listeners ++ (with_config config listener ∷ []);
        ports_by_number =
            if member number s.ports_by_number
            then s.ports_by_number
            else insert number port s.ports_by_number;
        public_ports = note_public id.use_private_ip port.name listener.name s.public_ports;
      }

  -- The loop of `getListeners`.
  unfoldable pub add_listeners :
      List (ListenerIdentifier × ListenerAzConfig) → Frontend → Run Frontend
  unfolding new_listener
  add_listeners [] s = returns s
  add_listeners ((id, config) ∷ configs) s = do
    (listener, port) ← new_listener id config.protocol s.ports_by_number
    number ← deref port.port
    add_listeners configs (add_listener id config listener port number s)

  abbrev pub port_of : Option SubResource → List Text
  port_of none = []
  port_of (some ref) = id_of ref.id
    where
      id_of : Option Text → List Text
      id_of none = []
      id_of (some id) = id ∷ []

  -- `portIDs`
  unfoldable pub port_ids : List HttpListener → List Text
  port_ids [] = []
  port_ids (l ∷ ls) = port_of l.frontend_port ++ port_ids ls

  abbrev pub is_among : Text → List Text → Bool
  is_among id [] = false
  is_among id (i ∷ ids) = i == id || is_among id ids

  -- The ports that a listener uses.
  unfoldable pub used_ports : List Text → List FrontendPort → List FrontendPort
  used_ports ids [] = []
  used_ports ids (port ∷ ports) =
      let rest = used_ports ids ports in if is_among port.id ids then port ∷ rest else rest

  module _ (order : MapOrder) (s : Sort) (ctx : BuilderContext) (app_gw : ApplicationGateway) where
    abbrev pub merged_listeners : List HttpListener → Run (List HttpListener)
    merged_listeners listeners = do
      (blacklisted, others) ←
          get_blacklisted_listeners (new_existing_resources app_gw ctx.prohibited_targets none)
      returns (merge_listeners order (blacklisted ∷ listeners ∷ []))

    -- `getListeners` of the configurations of `getListenerConfigs` and of the ports that exist.
    unfoldable pub get_listeners :
        Configs → GoMap ℕ FrontendPort → Run (List HttpListener × List FrontendPort)
    unfolding add_listeners port_ids used_ports
    get_listeners configs existing_ports = do
      front ←
          add_listeners (order.iterate (ListenerIdentifier × ListenerAzConfig) configs)
            (record { listeners = []; ports_by_number = existing_ports; public_ports = [] })
      listeners ←
          if ctx.enable_brownfield_deployment
          then merged_listeners front.listeners
          else returns front.listeners
      let ports =
          used_ports (port_ids listeners)
            (values (order.iterate (ℕ × FrontendPort) front.ports_by_number))
      returns (
        s.sort HttpListener by_listener_name_less listeners,
        s.sort FrontendPort by_frontend_port_name_less ports,
      )
