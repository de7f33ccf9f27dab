-- ===== src/Sorter.antt =====
-- pkg/sorter: the `Less` functions by which the lists of a configuration are sorted.
use application_gateway_kube.Common.{Text, bytes, Bool, ◌++◌}
use application_gateway_kube.Common.Order.{less_by}
use application_gateway_kube.Gateway.{
  BackendAddress, BackendAddressPool, SslCertificate, BackendHttpSettings, Probe,
  RedirectConfiguration, FrontendPort, HttpListener, UrlPathMap, RoutingRule, Ingress,
}
use application_gateway_kube.Brownfield.RuleTargets.{text_or_empty}

-- `ByBackendPoolName.Less`
unfoldable pub by_backend_pool_name_less : BackendAddressPool → BackendAddressPool → Bool
by_backend_pool_name_less = less_by (λ p. p.name)

-- `ByCertificateName.Less`
unfoldable pub by_certificate_name_less : SslCertificate → SslCertificate → Bool
by_certificate_name_less = less_by (λ c. c.name)

-- `BySettingsName.Less`
unfoldable pub by_settings_name_less : BackendHttpSettings → BackendHttpSettings → Bool
by_settings_name_less = less_by (λ s. s.name)

-- `ByHealthProbeName.Less`
unfoldable pub by_health_probe_name_less : Probe → Probe → Bool
by_health_probe_name_less = less_by (λ p. p.name)

-- `ByRedirectName.Less`
unfoldable pub by_redirect_name_less : RedirectConfiguration → RedirectConfiguration → Bool
by_redirect_name_less = less_by (λ r. r.name)

-- `ByFrontendPortName.Less`
unfoldable pub by_frontend_port_name_less : FrontendPort → FrontendPort → Bool
by_frontend_port_name_less = less_by (λ p. p.name)

-- `ByListenerName.Less`
unfoldable pub by_listener_name_less : HttpListener → HttpListener → Bool
by_listener_name_less = less_by (λ l. l.name)

-- `ByPathMap.Less`
unfoldable pub by_path_map_less : UrlPathMap → UrlPathMap → Bool
by_path_map_less = less_by (λ pm. pm.name)

-- `ByRequestRoutingRuleName.Less`
unfoldable pub by_request_routing_rule_name_less : RoutingRule → RoutingRule → Bool
by_request_routing_rule_name_less = less_by (λ r. r.name)

-- `getIPFQDNKey`
unfoldable pub get_ip_fqdn_key : BackendAddress → Text
get_ip_fqdn_key a = text_or_empty a.fqdn ++ (bytes "-" ++ text_or_empty a.ip_address)

-- `ByIPFQDN.Less`
unfoldable pub by_ip_fqdn_less : BackendAddress → BackendAddress → Bool
by_ip_fqdn_less = less_by get_ip_fqdn_key

-- `getIngressName`
unfoldable pub get_ingress_name : Ingress → Text
get_ingress_name ing = ing.namespace ++ (bytes "/" ++ ing.name)

-- `ByIngressName.Less`
unfoldable pub by_ingress_name_less : Ingress → Ingress → Bool
by_ingress_name_less = less_by get_ingress_name
