-- ===== src/Appgw/Identifier.antt =====
-- pkg/appgw/identifier.go: the IDs of the gateway's parts.
pub mod Laws
use application_gateway_kube.Common.{Text, bytes, Option, some, ◌++◌}
use application_gateway_kube.Gateway.{SubResource}

pub record Identifier : Type 0 where
  pub subscription_id : Text
  pub resource_group : Text
  pub app_gw_name : Text

-- `resourceID`
unfoldable pub resource_id : Identifier → Text → Text → Text → Text
resource_id agw provider resource_kind resource_path =
    bytes "/subscriptions/"
    ++ (agw.subscription_id
        ++ (bytes "/resourceGroups/"
            ++ (agw.resource_group
                ++ (bytes "/providers/"
                    ++ (provider
                        ++ (bytes "/" ++ (resource_kind ++ (bytes "/" ++ resource_path))))))))

-- `gatewayResourceID`
unfoldable pub gateway_resource_id : Identifier → Text → Text → Text
gateway_resource_id agw sub_resource_kind resource_name =
    resource_id agw (bytes "Microsoft.Network") (bytes "applicationGateways")
      (agw.app_gw_name ++ (bytes "/" ++ (sub_resource_kind ++ (bytes "/" ++ resource_name))))

module _ (agw : Identifier) where
  -- `AddressPoolID`
  unfoldable pub address_pool_id : Text → Text
  address_pool_id = gateway_resource_id agw (bytes "backendAddressPools")

  -- `frontendIPID`
  unfoldable pub frontend_ip_id : Text → Text
  frontend_ip_id = gateway_resource_id agw (bytes "frontendIPConfigurations")

  -- `frontendPortID`
  unfoldable pub frontend_port_id : Text → Text
  frontend_port_id = gateway_resource_id agw (bytes "frontendPorts")

  -- `sslCertificateID`
  unfoldable pub ssl_certificate_id : Text → Text
  ssl_certificate_id = gateway_resource_id agw (bytes "sslCertificates")

  -- `HTTPSettingsID`
  unfoldable pub http_settings_id : Text → Text
  http_settings_id = gateway_resource_id agw (bytes "backendHttpSettingsCollection")

  -- `urlPathMapID`
  unfoldable pub url_path_map_id : Text → Text
  url_path_map_id = gateway_resource_id agw (bytes "urlPathMaps")

  -- `listenerID`
  unfoldable pub listener_id : Text → Text
  listener_id = gateway_resource_id agw (bytes "httpListeners")

  -- `redirectConfigurationID`
  unfoldable pub redirect_configuration_id : Text → Text
  redirect_configuration_id = gateway_resource_id agw (bytes "redirectConfigurations")

  -- `probeID`
  unfoldable pub probe_id : Text → Text
  probe_id = gateway_resource_id agw (bytes "probes")

  -- `requestRoutingRuleID`
  unfoldable pub request_routing_rule_id : Text → Text
  request_routing_rule_id = gateway_resource_id agw (bytes "requestRoutingRules")

  -- `subnetID`
  unfoldable pub subnet_id : Text → Text → Text
  subnet_id vnet_name subnet_name =
      resource_id agw (bytes "Microsoft.Network") (bytes "virtualNetworks")
        (vnet_name ++ (bytes "/subnets/" ++ subnet_name))

  -- `publicIPID`
  unfoldable pub public_ip_id : Text → Text
  public_ip_id = resource_id agw (bytes "Microsoft.Network") (bytes "publicIPAddresses")

-- `resourceRef`
unfoldable pub resource_ref : Text → Option SubResource
resource_ref id = some (record { id = some id })
