-- ===== src/Examples/Build.antt =====
-- Examples for pkg/appgw/configbuilder.go.
use application_gateway_kube.Common.{bytes, [], ◌∷◌, Option, none, false, ◌≡◌, refl, returns}
use application_gateway_kube.Common.Sorting.{as_listed, by_insertion}
use application_gateway_kube.Gateway.{ApplicationGateway}
use application_gateway_kube.Appgw.Build.{BuildError, BuildContext, TagValues, build}
use application_gateway_kube.Appgw.Build.Valid.{IsSent, build-IsSent}
use application_gateway_kube.Examples.Samples.{ingress, gateway}
use application_gateway_kube.Examples.K8s.{texts}
use application_gateway_kube.Examples.Listeners.{
  builder, pfx, ips, ports, greenfield, ports-number, has_ip,
}
use application_gateway_kube.Examples.Routing.{subsets, cached}

abbrev built_of : BuildContext
built_of = record {
  builder = greenfield;
  ingresses = ingress ∷ [];
  env_use_private_ip = [];
  attach_waf_policy_to_listener = false;
  existing_ports_by_number = ports;
  pfx = pfx;
  base64 = λ raw. raw;
}

abbrev tags : TagValues
tags = record { version = bytes "v"; cluster = (bytes "/c", none); now = bytes "now" }

build-IsSent_example :
    (out : Option BuildError × ApplicationGateway) × (build texts subsets builder cached as_listed
        by_insertion built_of tags gateway
      ≡ returns out)
    × IsSent texts subsets builder cached as_listed by_insertion built_of out
build-IsSent_example =
    build-IsSent texts subsets builder cached as_listed by_insertion built_of ips refl refl
      ((bytes "/ip", refl), tt) has_ip ports-number tags gateway
