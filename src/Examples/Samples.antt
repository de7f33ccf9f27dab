-- ===== src/Examples/Samples.antt =====
-- The data of the examples: a gateway that serves "a.b" at "/x/y" and elsewhere, and a prohibited
-- target "A.b" with the paths "/X/*".
use application_gateway_kube.Common.{Text, bytes, List, [], ◌∷◌, Option, none, some, true, false}
use application_gateway_kube.Gateway.{
  SubResource, http, int_val, BackendAddressPool, BackendHttpSettings, HttpListener, PathRule,
  UrlPathMap, basic, path_based_routing, RoutingRule, ApplicationGateway, HttpIngressPath,
  IngressRule, Ingress,
}
use application_gateway_kube.Brownfield.Targets.{ProhibitedTarget}
use application_gateway_kube.Brownfield.Existing.{ExistingResources}
use application_gateway_kube.Appgw.Collections.{BuilderContext}

abbrev pub ref : Text → Option SubResource
ref id = some (record { id = some id })

abbrev pub pool : Text → BackendAddressPool
pool name = record { name = name; id = name; backend_addresses = [] }

abbrev pub http_settings : Text → BackendHttpSettings
http_settings name = record {
  name = name;
  id = name;
  protocol = http;
  port = none;
  probe = none;
  path = none;
  connection_draining = none;
  cookie_based_affinity = false;
  request_timeout = none;
}

abbrev pub listener : Text → Text → HttpListener
listener name host = record {
  name = name;
  id = name;
  protocol = http;
  host_name = some host;
  host_names = none;
  frontend_ip_configuration = none;
  frontend_port = none;
  ssl_certificate = none;
  firewall_policy = none;
  require_server_name_indication = false;
}

abbrev pub path_rule : Text → List Text → PathRule
path_rule name paths = record {
  name = name;
  paths = some paths;
  backend_address_pool = ref (bytes "/p");
  backend_http_settings = none;
  redirect_configuration = none;
  firewall_policy = none;
}

abbrev pub path_map : UrlPathMap
path_map = record {
  name = bytes "m";
  id = bytes "/m";
  default_backend_address_pool = ref (bytes "/q");
  default_backend_http_settings = none;
  default_redirect_configuration = none;
  default_rewrite_rule_set = none;
  path_rules = some (path_rule (bytes "pr") (bytes "/x/y" ∷ []) ∷ []);
}

abbrev pub rule : RoutingRule
rule = record {
  name = bytes "r";
  rule_type = path_based_routing;
  http_listener = ref (bytes "/l");
  backend_address_pool = none;
  backend_http_settings = none;
  url_path_map = ref (bytes "/m");
  redirect_configuration = none;
  rewrite_rule_set = none;
}

abbrev pub basic_rule : RoutingRule
basic_rule = record {
  name = bytes "s";
  rule_type = basic;
  http_listener = ref (bytes "/k");
  backend_address_pool = ref (bytes "/z");
  backend_http_settings = none;
  url_path_map = none;
  redirect_configuration = none;
  rewrite_rule_set = none;
}

abbrev pub prohibited : ProhibitedTarget
prohibited = record { hostname = bytes "A.b"; paths = bytes "/X/*" ∷ [] }

abbrev pub gateway : ApplicationGateway
gateway = record {
  backend_address_pools = some (pool (bytes "p") ∷ pool (bytes "q") ∷ pool (bytes "z") ∷ []);
  ssl_certificates = none;
  request_routing_rules = some (rule ∷ basic_rule ∷ []);
  http_listeners =
      some (listener (bytes "l") (bytes "a.B") ∷ listener (bytes "k") (bytes "c") ∷ []);
  url_path_maps = some (path_map ∷ []);
  backend_http_settings_collection = none;
  frontend_ports = none;
  probes = none;
  redirect_configurations = none;
  tags = none;
}

abbrev pub context : BuilderContext
context = record { enable_brownfield_deployment = true; prohibited_targets = prohibited ∷ [] }

abbrev pub existing : ExistingResources
existing = record {
  backend_pools = pool (bytes "p") ∷ pool (bytes "q") ∷ pool (bytes "z") ∷ [];
  certificates = [];
  routing_rules = rule ∷ basic_rule ∷ [];
  listeners = listener (bytes "l") (bytes "a.B") ∷ listener (bytes "k") (bytes "c") ∷ [];
  url_path_maps = path_map ∷ [];
  http_settings = [];
  ports = [];
  probes = [];
  redirects = [];
  prohibited_targets = prohibited ∷ [];
  default_backend_pool = some (pool (bytes "d"));
}

abbrev pub ingress_path : Text → HttpIngressPath
ingress_path path = record {
  path = path;
  backend = record { service_name = bytes "w"; service_port = int_val 80 };
}

abbrev pub ingress : Ingress
ingress = record {
  namespace = bytes "n";
  name = bytes "i";
  annotations = [];
  backend = none;
  rules =
      record {
        host = bytes "a.b";
        http = some (record {
          paths = some (ingress_path (bytes "/x/1") ∷ ingress_path (bytes "/y") ∷ []);
        });
      }
      ∷ [];
  tls = [];
}

abbrev pub pruned : List IngressRule
pruned =
    record {
      host = bytes "a.b";
      http = some (record { paths = some (ingress_path (bytes "/y") ∷ []) });
    }
    ∷ []
