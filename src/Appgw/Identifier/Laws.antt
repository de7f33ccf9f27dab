-- ===== src/Appgw/Identifier/Laws.antt =====
-- A reference that the controller makes leads to the name it was made for.
use application_gateway_kube.Common.{
  Text, bytes, [], ◌∷◌, ◌++◌, append_assoc, ◌≡◌, refl, sym, ap, ◌∙◌,
}
use application_gateway_kube.Common.Split.{Lacks}
use application_gateway_kube.Utils.LastChunk.{get_last_chunk_of_slashed-append}
use application_gateway_kube.Brownfield.Blacklisted.References.{Refers}
use application_gateway_kube.Appgw.Identifier.{
  Identifier, resource_id, gateway_resource_id, address_pool_id, frontend_ip_id, frontend_port_id,
  ssl_certificate_id, http_settings_id, url_path_map_id, listener_id, redirect_configuration_id,
  probe_id, request_routing_rule_id, subnet_id, public_ip_id, resource_ref,
}

-- A text ends in a slash and a name.
abbrev EndsIn : Text → Text → Type 0
EndsIn name t = (prefix : Text) × (t ≡ prefix ++ b'/' ∷ name)

before : {name t : Text} (s : Text) → EndsIn name t → EndsIn name (s ++ t)
before {name} s (prefix, e) =
    (s ++ prefix, ap (λ r. s ++ r) e ∙ sym (append_assoc s prefix (b'/' ∷ name)))

own : (name : Text) → EndsIn name (bytes "/" ++ name)
own name = ([], refl)

resource_id-EndsIn :
    (agw : Identifier) (provider kind path name : Text)
    → EndsIn name (bytes "/" ++ path)
    → EndsIn name (resource_id agw provider kind path)
unfolding resource_id
resource_id-EndsIn agw provider kind path name h = before (bytes "/subscriptions/") (
    before agw.subscription_id (
      before (bytes "/resourceGroups/") (
        before agw.resource_group
          (before (bytes "/providers/") (before provider (before (bytes "/") (before kind h)))))))

gateway_resource_id-EndsIn :
    (agw : Identifier) (kind name : Text) → EndsIn name (gateway_resource_id agw kind name)
unfolding gateway_resource_id
gateway_resource_id-EndsIn agw kind name =
    resource_id-EndsIn agw (bytes "Microsoft.Network") (bytes "applicationGateways") _ name
      (before (bytes "/") (before agw.app_gw_name (before (bytes "/") (before kind (own name)))))

resource_ref-Refers :
    (id name : Text) → Lacks b'/' name → EndsIn name id → Refers (resource_ref id) name
unfolding resource_ref
resource_ref-Refers id name h (prefix, e) = rw e (get_last_chunk_of_slashed-append prefix name h)

-- A reference to the ID of a pool, frontend IP, port, certificate, HTTP settings, path map,
-- listener, redirect, probe or rule leads to its name, if the name has no slash.
pub resource_ref-Refers_all :
    (agw : Identifier) (name : Text)
    → Lacks b'/' name
    → Refers (resource_ref (address_pool_id agw name)) name
      × Refers (resource_ref (frontend_ip_id agw name)) name
      × Refers (resource_ref (frontend_port_id agw name)) name
      × Refers (resource_ref (ssl_certificate_id agw name)) name
      × Refers (resource_ref (http_settings_id agw name)) name
      × Refers (resource_ref (url_path_map_id agw name)) name
      × Refers (resource_ref (listener_id agw name)) name
      × Refers (resource_ref (redirect_configuration_id agw name)) name
      × Refers (resource_ref (probe_id agw name)) name
      × Refers (resource_ref (request_routing_rule_id agw name)) name
unfolding address_pool_id frontend_ip_id frontend_port_id ssl_certificate_id http_settings_id
    url_path_map_id listener_id redirect_configuration_id probe_id request_routing_rule_id
resource_ref-Refers_all agw name h =
    let leads : (kind : Text) → Refers (resource_ref (gateway_resource_id agw kind name)) name =
      λ kind.
        resource_ref-Refers (gateway_resource_id agw kind name) name h
          (gateway_resource_id-EndsIn agw kind name) in
    (
      leads (bytes "backendAddressPools"),
      leads (bytes "frontendIPConfigurations"),
      leads (bytes "frontendPorts"),
      leads (bytes "sslCertificates"),
      leads (bytes "backendHttpSettingsCollection"),
      leads (bytes "urlPathMaps"),
      leads (bytes "httpListeners"),
      leads (bytes "redirectConfigurations"),
      leads (bytes "probes"),
      leads (bytes "requestRoutingRules"),
    )

-- So does a reference to the ID of a subnet or of a public IP.
pub network-Refers :
    (agw : Identifier) (vnet_name name : Text)
    → Lacks b'/' name
    → Refers (resource_ref (subnet_id agw vnet_name name)) name
      × Refers (resource_ref (public_ip_id agw name)) name
unfolding subnet_id public_ip_id
network-Refers agw vnet_name name h = (
  resource_ref-Refers _ name h (
      resource_id-EndsIn agw (bytes "Microsoft.Network") (bytes "virtualNetworks") _ name
        (before (bytes "/") (before vnet_name (bytes "/subnets", refl)))),
  resource_ref-Refers _ name h (
      resource_id-EndsIn agw (bytes "Microsoft.Network") (bytes "publicIPAddresses") _ name
        (own name)),
)
