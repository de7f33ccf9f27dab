-- ===== src/Gateway.antt =====
-- The parts of an Application Gateway configuration, and of the Kubernetes objects, that the
-- controller reads: structs of the Azure SDK and of the Kubernetes API, with the fields in use.
-- A pointer that the code tests against nil is an `Option`. `Name`, and the ID of a path map and of a port,
-- which the code dereferences without a test, are values.
use application_gateway_kube.Common.{ℕ, ℤ, Text, Option, List, GoMap, Bool}

-- `ID` may be nil.
pub record SubResource : Type 0 where
  pub id : Option Text

pub data Protocol : Type 0 where
  http https : Protocol

pub record BackendAddress : Type 0 where
  pub fqdn : Option Text
  pub ip_address : Option Text

pub record BackendAddressPool : Type 0 where
  pub name : Text
  pub id : Text
  pub backend_addresses : List BackendAddress

pub record SslCertificate : Type 0 where
  pub name : Text
  pub cert_data : Option Text

-- `ConnectionDraining` is the timeout, where it is enabled; the affinity is `Enabled` or not set.
pub record BackendHttpSettings : Type 0 where
  pub name : Text
  pub id : Text
  pub protocol : Protocol
  pub port : Option ℕ
  pub probe : Option SubResource
  pub path : Option Text
  pub connection_draining : Option ℤ
  pub cookie_based_affinity : Bool
  pub request_timeout : Option ℤ

pub record Probe : Type 0 where
  pub name : Text
  pub id : Text
  pub protocol : Protocol
  pub host : Option Text
  pub path : Option Text
  pub port : Option ℕ
  pub interval : ℕ
  pub timeout : ℕ
  pub unhealthy_threshold : ℕ

pub record RedirectConfiguration : Type 0 where
  pub name : Text
  pub id : Text
  pub target_listener : Option SubResource

pub record FrontendPort : Type 0 where
  pub name : Text
  pub id : Text
  pub port : Option ℕ

pub record HttpListener : Type 0 where
  pub name : Text
  pub id : Text
  pub protocol : Protocol
  pub host_name : Option Text
  pub host_names : Option (List Text)
  pub frontend_ip_configuration : Option SubResource
  pub frontend_port : Option SubResource
  pub ssl_certificate : Option SubResource
  pub firewall_policy : Option SubResource
  pub require_server_name_indication : Bool

pub record PathRule : Type 0 where
  pub name : Text
  pub paths : Option (List Text)
  pub backend_address_pool : Option SubResource
  pub backend_http_settings : Option SubResource
  pub redirect_configuration : Option SubResource
  pub firewall_policy : Option SubResource

pub record UrlPathMap : Type 0 where
  pub name : Text
  pub id : Text
  pub default_backend_address_pool : Option SubResource
  pub default_backend_http_settings : Option SubResource
  pub default_redirect_configuration : Option SubResource
  pub default_rewrite_rule_set : Option SubResource
  pub path_rules : Option (List PathRule)

-- The two fields of the properties of a frontend IP configuration, which may be nil as a whole.
pub record FrontendIpProperties : Type 0 where
  pub private_ip_address : Option Text
  pub public_ip_address : Option SubResource

pub record FrontendIpConfiguration : Type 0 where
  pub id : Option Text
  pub properties : Option FrontendIpProperties

pub data RuleType : Type 0 where
  basic path_based_routing : RuleType

pub record RoutingRule : Type 0 where
  pub name : Text
  pub rule_type : RuleType
  pub http_listener : Option SubResource
  pub backend_address_pool : Option SubResource
  pub backend_http_settings : Option SubResource
  pub url_path_map : Option SubResource
  pub redirect_configuration : Option SubResource
  pub rewrite_rule_set : Option SubResource

pub record ApplicationGateway : Type 0 where
  pub backend_address_pools : Option (List BackendAddressPool)
  pub ssl_certificates : Option (List SslCertificate)
  pub request_routing_rules : Option (List RoutingRule)
  pub http_listeners : Option (List HttpListener)
  pub url_path_maps : Option (List UrlPathMap)
  pub backend_http_settings_collection : Option (List BackendHttpSettings)
  pub frontend_ports : Option (List FrontendPort)
  pub probes : Option (List Probe)
  pub redirect_configurations : Option (List RedirectConfiguration)
  pub tags : Option (GoMap Text Text)

-- `intstr.IntOrString`
pub data IntOrString : Type 0 where
  int_val : ℕ → IntOrString
  str_val : Text → IntOrString

pub record IngressBackend : Type 0 where
  pub service_name : Text
  pub service_port : IntOrString

pub record HttpIngressPath : Type 0 where
  pub path : Text
  pub backend : IngressBackend

-- `Paths` may be a nil slice.
pub record HttpIngressRuleValue : Type 0 where
  pub paths : Option (List HttpIngressPath)

pub record IngressRule : Type 0 where
  pub host : Text
  pub http : Option HttpIngressRuleValue

pub record IngressTls : Type 0 where
  pub hosts : List Text
  pub secret_name : Text

pub record Ingress : Type 0 where
  pub namespace : Text
  pub name : Text
  pub annotations : GoMap Text Text
  pub backend : Option IngressBackend
  pub rules : List IngressRule
  pub tls : List IngressTls
