-- ===== src/Examples/Served.antt =====
-- Examples for the listeners that are made for identifiers, found again, and routed: an ingress that asks for "a.b" on
-- the port 80, which exists, and a gateway with a public and a private IP configuration.
use application_gateway_kube.Common.{
  ℕ, Text, bytes, List, [], ◌∷◌, none, some, Bool, true, false, nat_eq, nat_beq_iff, text_eq,
  lookup, ◌==◌, ◌≡◌, refl, sym, ap, ◌∙◌, arith, Bool-cases, inl, inr, returns,
}
use application_gateway_kube.Common.Sorting.{as_listed, by_insertion}
use application_gateway_kube.Gateway.{
  http, FrontendIpConfiguration, FrontendPort, HttpListener, ApplicationGateway,
}
use application_gateway_kube.Controller.Prune.{lookup_ip_configuration_by_type}
use application_gateway_kube.Appgw.Identifier.{resource_id, frontend_port_id, gateway_resource_id}
use application_gateway_kube.Appgw.Names.{
  ListenerIdentifier, format_prop_name, set_names, set_host_names, get_host_names, non_empty,
}
use application_gateway_kube.Appgw.Names.Compact.{IsUsual}
use application_gateway_kube.Appgw.Listeners.{of_protocol}
use application_gateway_kube.Appgw.Frontend.{
  FrontendBuilder, new_port, generate_frontend_port_name, new_listener, with_config,
}
use application_gateway_kube.Appgw.Frontend.Returning.{HasIp}
use application_gateway_kube.Appgw.Frontend.Made.{port_of_number}
use application_gateway_kube.Appgw.Grouping.{
  lookup_ip_configuration_by_id, identifier_of, ports_by_id,
}
use application_gateway_kube.Appgw.Grouping.Identified.{
  IsIdentifying, IsOwn, identifier_of-new_listener,
}
use application_gateway_kube.K8scontext.Listing.{get_service}
use application_gateway_kube.Appgw.Backends.{new_backend_ids_filtered, resolved_backend_ports}
use application_gateway_kube.Appgw.Settings.{resolve_backends, resolved_pairs}
use application_gateway_kube.Appgw.Settings.Bound.{any_ambiguous}
use application_gateway_kube.Appgw.Listeners.{process_ingress_rule}
use application_gateway_kube.Appgw.Listeners.Asked.{is_asked}
use application_gateway_kube.Appgw.Listeners.Plain.{IsPlain}
use application_gateway_kube.Appgw.Frontend.Complete.{AreFound}
use application_gateway_kube.Appgw.Build.{BuildContext, TagValues, build}
use application_gateway_kube.Appgw.Build.Directed.{IsServedBy}
use application_gateway_kube.Appgw.Build.Served.{build-IsServedBy}
use application_gateway_kube.Annotations.{parse_string, parse_bool, use_private_ip}
use application_gateway_kube.Annotations.HostNames.{get_host_name_extensions}
use application_gateway_kube.Examples.K8s.{texts}
use application_gateway_kube.Examples.Routing.{subsets, cached}
use application_gateway_kube.Examples.Samples.{ingress, gateway}
use application_gateway_kube.Examples.Listeners.{
  builder, pfx, greenfield, ports, port, ports-number,
}

abbrev public_ip : FrontendIpConfiguration
public_ip = record {
  id = some (bytes "/public");
  properties = some (record {
    private_ip_address = none;
    public_ip_address = some (record { id = some (bytes "/address") });
  });
}

abbrev private_ip : FrontendIpConfiguration
private_ip = record {
  id = some (bytes "/private");
  properties =
      some (record { private_ip_address = some (bytes "10.0.0.4"); public_ip_address = none });
}

abbrev both_ips : List FrontendIpConfiguration
both_ips = public_ip ∷ private_ip ∷ []

abbrev front : FrontendBuilder
front = record builder {
  frontend_ip_configurations = some both_ips;
  decimal = λ number. number ∷ [];
}

has_both : (is_private : Bool) → HasIp front both_ips is_private
unfolding lookup_ip_configuration_by_type
has_both true = record { ip = private_ip; ip_id = bytes "/private"; found = refl; has_id = refl }
has_both false = record { ip = public_ip; ip_id = bytes "/public"; found = refl; has_id = refl }

abbrev last_of : ℕ → Text → ℕ
last_of n [] = n
last_of n (k ∷ t) = last_of k t

abbrev second_of : Text → ℕ
second_of [] = 0
second_of (n ∷ []) = 0
second_of (n ∷ k ∷ t) = k

new_port-distinct : (n k : ℕ) → (new_port front n).id ≡ (new_port front k).id → n ≡ k
unfolding frontend_port_id gateway_resource_id generate_frontend_port_name format_prop_name
    resource_id
new_port-distinct n k e = ap (last_of 0) e

existing-new_port : (n k : ℕ) → bytes "/p" ≡ (new_port front n).id → k ≡ n
unfolding frontend_port_id gateway_resource_id resource_id
existing-new_port n k e = absurd (let d : 112 ≡ 115 = ap second_of e in omega (arith, d))

ports-distinct :
    (is_private : Bool) (n k : ℕ)
    → (port_of_number front both_ips is_private (has_both is_private) ports n).id
      ≡ (port_of_number front both_ips is_private (has_both is_private) ports k).id
    → n ≡ k
unfolding lookup
ports-distinct is_private n k e = elim (Bool-cases (80 == n)) [
  | inl here ↦ elim (Bool-cases (80 == k)) [
    | inl there ↦ sym ((nat_beq_iff 80 n).0 here) ∙ (nat_beq_iff 80 k).0 there
    | inr off ↦ existing-new_port k n (rw (here, off) at e)
  ]
  | inr away ↦ elim (Bool-cases (80 == k)) [
    | inl there ↦ sym (existing-new_port n k (sym (rw (away, there) at e)))
    | inr off ↦ new_port-distinct n k (rw (away, off) at e)
  ]
]

identifying :
    (is_private : Bool) → IsIdentifying front both_ips is_private (has_both is_private) ports
unfolding lookup_ip_configuration_by_id has_both
identifying true = record {
  configured = refl;
  by_id = refl;
  typed = refl;
  numbered = ports-number;
  distinct = λ n k r t e. ports-distinct true n k e;
}
identifying false = record {
  configured = refl;
  by_id = refl;
  typed = refl;
  numbered = ports-number;
  distinct = λ n k r t e. ports-distinct false n k e;
}

-- Two host names and the private IP, on a new port.
abbrev many_hosts : ListenerIdentifier
many_hosts = record {
  frontend_port = 443;
  host_name = bytes "a.b";
  host_names = bytes "a.b" ∷ bytes "c.d" ∷ [] ∷ [] ∷ [] ∷ [];
  use_private_ip = true;
}

many_hosts-IsUsual : IsUsual true many_hosts
unfolding set_names get_host_names non_empty
many_hosts-IsUsual = (refl, refl, omega arith)

abbrev IsOwnPort : Bool → FrontendPort → Type 0
IsOwnPort is_private p = IsOwn front both_ips is_private (has_both is_private) ports p

port-IsOwn : (is_private : Bool) → IsOwnPort is_private port
unfolding lookup
port-IsOwn is_private = (80, omega arith, refl)

identifier_of-new_listener_example :
    (out : HttpListener × FrontendPort) × (new_listener front many_hosts http ports ≡ returns out)
    × (identifier_of front
          (ports_by_id (out.1 ∷ port ∷ []) [])
          (with_config front (of_protocol http) out.0)
        ≡ returns many_hosts)
identifier_of-new_listener_example =
    identifier_of-new_listener front both_ips true (has_both true) ports many_hosts
      (of_protocol http) (port ∷ []) (identifying true) many_hosts-IsUsual (port-IsOwn true, tt)

-- What the ingress is built of.
abbrev context : BuildContext
context = record {
  builder = greenfield;
  ingresses = ingress ∷ [];
  env_use_private_ip = [];
  attach_waf_policy_to_listener = false;
  existing_ports_by_number = ports;
  pfx = pfx;
  base64 = λ raw. raw;
}

abbrev tags : TagValues
tags = record { version = bytes "v"; cluster = (bytes "/c", none); now = bytes "now" }

abbrev asked : ListenerIdentifier
asked = record {
  frontend_port = 80;
  host_name = bytes "a.b";
  host_names = bytes "a.b" ∷ [] ∷ [] ∷ [] ∷ [] ∷ [];
  use_private_ip = false;
}

ports-AreFound : AreFound front both_ips false (has_both false) ports
unfolding lookup
ports-AreFound = ((omega arith, refl), tt)

ingress-IsPlain :
    IsPlain pfx (λ raw. raw) front.md5_sum front.ag_prefix front.hash_code [] false ingress
unfolding get_host_name_extensions parse_string lookup use_private_ip parse_bool
ingress-IsPlain = record { named = tt; placed = refl }

unambiguous :
    any_ambiguous (resolved_pairs texts subsets front cached as_listed (ingress ∷ [])) ≡ false
unfolding resolve_backends new_backend_ids_filtered resolved_backend_ports get_service
unambiguous = refl

asked_of_ingress :
    is_asked pfx (λ raw. raw) front.md5_sum front.ag_prefix front.hash_code [] asked (ingress ∷ [])
    ≡ true
unfolding process_ingress_rule lookup set_host_names set_names get_host_name_extensions parse_string
    use_private_ip parse_bool
asked_of_ingress = refl

build-IsServedBy_example :
    (out : ApplicationGateway) × (build texts subsets front cached as_listed by_insertion context
        tags gateway
      ≡ returns (none, out))
    × IsServedBy texts subsets front cached as_listed by_insertion context both_ips false
        (has_both false)
        out
        asked
build-IsServedBy_example =
    build-IsServedBy texts subsets front cached as_listed by_insertion context both_ips false
      (has_both false) tags gateway asked refl
      ((bytes "/public", refl), ((bytes "/private", refl), tt)) has_both (identifying false)
      ports-AreFound (ingress-IsPlain, tt) unambiguous asked_of_ingress
