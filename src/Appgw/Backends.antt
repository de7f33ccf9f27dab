-- ===== src/Appgw/Backends.antt =====
-- pkg/appgw/ingress_rules.go, configbuilder.go and backendhttpsettings.go: the backends that the ingresses
-- name, and the ports of their services. The Go struct `backendIdentifier` is compared by its pointers into
-- the list of ingresses, so here a place in that list stands for them.
use application_gateway_kube.Common.{
  ℕ, ◌+◌, Text, bytes, List, [], ◌∷◌, ◌++◌, Option, none, some, Bool, true, false, ◌&&◌, ◌||◌, ◌==◌,
  is_nil, arith, ◌≡◌, ◌↔◌, nat_beq, nat_beq_iff, nat_eq, text_eq, Comparable, GoSet, insert,
  if◌then◌else◌,
}
use application_gateway_kube.Common.Order.{MapOrder}
use application_gateway_kube.Gateway.{
  IntOrString, int_val, str_val, IngressBackend, HttpIngressPath, HttpIngressRuleValue, IngressRule,
  Ingress,
}
use application_gateway_kube.Kubernetes.{
  Service, ServicePort, EndpointPort, EndpointSubset, Endpoints,
}
use application_gateway_kube.K8scontext.Listing.{
  Caches, get_service, get_endpoints_by_service, slice,
}
use application_gateway_kube.Appgw.Frontend.{FrontendBuilder}

-- The default backend of an ingress, or that of a path of a rule, by their numbers.
pub data Place : Type 0 where
  whole : ℕ → Place
  at_path : ℕ → ℕ → ℕ → Place

abbrev same_place : Place → Place → Bool
same_place (whole i) (whole j) = nat_beq i j
same_place (whole i) (at_path j r p) = false
same_place (at_path i r p) (whole j) = false
same_place (at_path i r p) (at_path j s q) = nat_beq i j && (nat_beq r s && nat_beq p q)

pub same_place_iff : (a b : Place) → (same_place a b ≡ true) ↔ (a ≡ b)
same_place_iff (whole i) (whole j) = ground (arith, nat_beq_iff i j)
same_place_iff (whole i) (at_path j r p) = ground arith
same_place_iff (at_path i r p) (whole j) = ground arith
same_place_iff (at_path i r p) (at_path j s q) =
    ground (arith, nat_beq_iff i j, nat_beq_iff r s, nat_beq_iff p q)

instance abbrev pub place_eq : Comparable Place
place_eq = record { same = same_place; same_iff = same_place_iff }

-- `backendIdentifier`
pub record BackendIdentifier : Type 0 where
  pub place : Place
  pub namespace : Text
  pub name : Text
  pub ingress : Ingress
  pub rule : Option IngressRule
  pub path : Option HttpIngressPath
  pub backend : IngressBackend

abbrev pub service_key : BackendIdentifier → Text
service_key be = be.namespace ++ (bytes "/" ++ be.name)

abbrev pub service_full_name : BackendIdentifier → Text
service_full_name be = be.namespace ++ (bytes "-" ++ be.name)

-- `generateBackendID`
unfoldable pub generate_backend_id :
    Place
    → Ingress
    → Option IngressRule
    → Option HttpIngressPath
    → IngressBackend
    → BackendIdentifier
generate_backend_id place ing rule path backend = record {
  place = place;
  namespace = ing.namespace;
  name = backend.service_name;
  ingress = ing;
  rule = rule;
  path = path;
  backend = backend;
}

-- The loops of `newBackendIdsFiltered` over the paths, the rules and the ingresses, from a number on. The map
-- has each identifier once; its filter by the services is switched off in the code.
unfoldable pub path_backends :
    ℕ → Ingress → ℕ → IngressRule → ℕ → List HttpIngressPath → List BackendIdentifier
unfolding generate_backend_id
path_backends i ing r rule p [] = []
path_backends i ing r rule p (path ∷ paths) =
    generate_backend_id (at_path i r p) ing (some rule) (some path) path.backend
    ∷ path_backends i ing r rule (p + 1) paths

abbrev pub http_backends :
    ℕ → Ingress → ℕ → IngressRule → Option HttpIngressRuleValue → List BackendIdentifier
http_backends i ing r rule none = []
http_backends i ing r rule (some value) = path_backends i ing r rule 0 (slice value.paths)

unfoldable pub rule_backends : ℕ → Ingress → ℕ → List IngressRule → List BackendIdentifier
unfolding path_backends
rule_backends i ing r [] = []
rule_backends i ing r (rule ∷ rules) =
    http_backends i ing r rule rule.http ++ rule_backends i ing (r + 1) rules

abbrev pub default_backends : ℕ → Ingress → Option IngressBackend → List BackendIdentifier
default_backends i ing none = []
default_backends i ing (some backend) = generate_backend_id (whole i) ing none none backend ∷ []

unfoldable pub new_backend_ids_from : ℕ → List Ingress → List BackendIdentifier
unfolding rule_backends generate_backend_id
new_backend_ids_from i [] = []
new_backend_ids_from i (ing ∷ ings) =
    default_backends i ing ing.backend
    ++ (rule_backends i ing 0 ing.rules ++ new_backend_ids_from (i + 1) ings)

-- `newBackendIdsFiltered`
unfoldable pub new_backend_ids_filtered : List Ingress → List BackendIdentifier
unfolding new_backend_ids_from
new_backend_ids_filtered ings = new_backend_ids_from 0 ings

-- `serviceBackendPortPair`
pub record PortPair : Type 0 where
  pub service_port : ℕ
  pub backend_port : ℕ

abbrev same_pair : PortPair → PortPair → Bool
same_pair a b = nat_beq a.service_port b.service_port && nat_beq a.backend_port b.backend_port

pub same_pair_iff : (a b : PortPair) → (same_pair a b ≡ true) ↔ (a ≡ b)
same_pair_iff a b =
    ground
      (arith, nat_beq_iff a.service_port b.service_port, nat_beq_iff a.backend_port b.backend_port)

instance abbrev pub pair_eq : Comparable PortPair
pair_eq = record { same = same_pair; same_iff = same_pair_iff }

-- The value of a number, which is 0 for a name, as `IntVal`.
abbrev pub int_of : IntOrString → ℕ
int_of (int_val n) = n
int_of (str_val s) = 0

module _ (b : FrontendBuilder) (c : Caches) (order : MapOrder) where
  -- `IntOrString.String`
  abbrev pub string_of : IntOrString → Text
  string_of (int_val n) = b.decimal n
  string_of (str_val s) = s

  -- The loops of `resolvePortName`.
  unfoldable pub named_ports : Text → List EndpointPort → GoSet ℕ → GoSet ℕ
  named_ports name [] m = m
  named_ports name (port ∷ ports) m =
      named_ports name ports (if port.name == name then insert port.port tt m else m)

  unfoldable pub named_ports_of_subsets : Text → List EndpointSubset → GoSet ℕ → GoSet ℕ
  unfolding named_ports
  named_ports_of_subsets name [] m = m
  named_ports_of_subsets name (subset ∷ subsets) m =
      named_ports_of_subsets name subsets (named_ports name subset.ports m)

  abbrev pub ports_of_endpoints : Text → Option Endpoints → GoSet ℕ
  ports_of_endpoints name none = []
  ports_of_endpoints name (some endpoints) = named_ports_of_subsets name endpoints.subsets []

  -- `resolvePortName`; without endpoints there are no ports.
  unfoldable pub resolve_port_name : Text → BackendIdentifier → GoSet ℕ
  unfolding named_ports_of_subsets
  resolve_port_name name be =
      ports_of_endpoints name (get_endpoints_by_service c (service_key be)).1

  -- The port of a service that a backend names, by its number, its name or its target.
  abbrev pub is_port_of : BackendIdentifier → ServicePort → Bool
  is_port_of be sp =
      let wanted = string_of be.backend.service_port in
      sp.protocol == bytes "TCP"
      && (b.decimal sp.port == wanted || (sp.name == wanted || string_of sp.target_port == wanted))

  unfoldable pub pairs_with : ℕ → GoSet ℕ → GoSet PortPair → GoSet PortPair
  pairs_with service_port [] m = m
  pairs_with service_port ((target, u) ∷ targets) m =
      pairs_with service_port targets
        (insert (record { service_port = service_port; backend_port = target }) tt m)

  abbrev pub pair_at : ℕ → ℕ → GoSet PortPair
  pair_at service_port backend_port =
      (record { service_port = service_port; backend_port = backend_port }, tt) ∷ []

  abbrev pub pairs_of_target : BackendIdentifier → ServicePort → IntOrString → GoSet PortPair
  pairs_of_target be sp (int_val target) = pair_at sp.port target
  pairs_of_target be sp (str_val target) =
      pairs_with sp.port (order.iterate (ℕ × Unit {0}) (resolve_port_name sp.name be)) []

  abbrev pub pairs_of_port : BackendIdentifier → ServicePort → GoSet PortPair
  pairs_of_port be sp =
      if is_nil (string_of sp.target_port)
      then pair_at sp.port sp.port
      else pairs_of_target be sp sp.target_port

  -- The first port that matches.
  unfoldable pub pairs_of_ports : BackendIdentifier → List ServicePort → GoSet PortPair
  unfolding pairs_with resolve_port_name
  pairs_of_ports be [] = []
  pairs_of_ports be (sp ∷ ports) =
      let rest = pairs_of_ports be ports in if is_port_of be sp then pairs_of_port be sp else rest

  abbrev pub pairs_of_service : BackendIdentifier → Option Service → GoSet PortPair
  pairs_of_service be none =
      pair_at (int_of be.backend.service_port) (int_of be.backend.service_port)
  pairs_of_service be (some service) = pairs_of_ports be service.ports

  -- The ports of a backend, as the loop of `getBackendsAndSettingsMap` resolves them.
  unfoldable pub resolved_backend_ports : BackendIdentifier → GoSet PortPair
  unfolding pairs_of_ports
  resolved_backend_ports be = pairs_of_service be (get_service c (service_key be))
