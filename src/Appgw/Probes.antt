-- ===== src/Appgw/Probes.antt =====
-- pkg/appgw/health_probes.go: the health probes of the backends. The list of pods comes from the cache, and
-- what `getProbeForServiceContainer` writes into it is in its result.
pub mod Listed
use application_gateway_kube.Common.{
  ℕ, Text, bytes, List, [], ◌∷◌, ◌++◌, Option, none, some, Bool, true, false, ◌&&◌, ◌||◌, ◌==◌, not,
  is_nil, nat_beq, nat_eq, text_eq, GoMap, GoSet, insert, member, values, trim_right, if◌then◌else◌,
}
use application_gateway_kube.Common.Order.{MapOrder}
use application_gateway_kube.Gateway.{
  Protocol, http, https, Probe, IntOrString, int_val, str_val, HttpIngressPath, IngressRule,
  Ingress,
}
use application_gateway_kube.Kubernetes.{
  Service, ServicePort, ContainerPort, HttpGetAction, ContainerProbe, Container, Pod,
}
use application_gateway_kube.Annotations.{AnnotationError, backend_path_prefix, backend_protocol}
use application_gateway_kube.Utils.Multimap.{SetLibrary}
use application_gateway_kube.K8scontext.Listing.{
  Caches, Subsets, get_service, list_pods_by_service_selector,
}
use application_gateway_kube.Appgw.Identifier.{probe_id}
use application_gateway_kube.Appgw.Names.{generate_probe_name}
use application_gateway_kube.Appgw.Frontend.{FrontendBuilder}
use application_gateway_kube.Appgw.Backends.{
  Place, place_eq, BackendIdentifier, service_key, new_backend_ids_filtered, int_of, string_of,
  is_port_of, resolve_port_name,
}

-- The value of `ApplicationGatewayProtocol`.
abbrev pub protocol_text : Protocol → Text
protocol_text http = bytes "Http"
protocol_text https = bytes "Https"

abbrev pub is_secure : Protocol → Bool
is_secure http = false
is_secure https = true

module _ (b : FrontendBuilder) where
  -- `defaultProbeName`
  abbrev pub default_probe_name : Protocol → Text
  default_probe_name protocol = b.ag_prefix ++ (bytes "defaultprobe-" ++ protocol_text protocol)

  -- `defaultProbe`
  abbrev pub default_probe : Protocol → Probe
  default_probe protocol = record {
    name = default_probe_name protocol;
    id = probe_id b.agw (default_probe_name protocol);
    protocol = protocol;
    host = some (bytes "localhost");
    path = some (bytes "/");
    port = none;
    interval = 30;
    timeout = 30;
    unhealthy_threshold = 3;
  }

-- The path of the annotation, else that of the ingress, else the default.
abbrev pub with_path : Text × Option AnnotationError → Text → Probe → Probe
with_path (prefix, none) path probe = record probe { path = some prefix }
with_path (prefix, some err) path probe =
    if is_nil path then probe else record probe { path = some path }

abbrev pub with_host : Text → Probe → Probe
with_host host probe = if is_nil host then probe else record probe { host = some host }

abbrev pub with_rule : Option IngressRule → Probe → Probe
with_rule none probe = probe
with_rule (some rule) probe = with_host rule.host probe

abbrev pub or_default : ℕ → ℕ → ℕ
or_default n default_value = if nat_beq n 0 then default_value else n

abbrev pub http_probe : Option ContainerProbe → Option (ContainerProbe × HttpGetAction)
http_probe none = none
http_probe (some probe) = with_action probe probe.http_get
  where
    with_action : ContainerProbe → Option HttpGetAction → Option (ContainerProbe × HttpGetAction)
    with_action probe none = none
    with_action probe (some action) = some (probe, action)

abbrev pub readiness_or_liveness :
    Option (ContainerProbe × HttpGetAction)
    → Option (ContainerProbe × HttpGetAction)
    → Option (ContainerProbe × HttpGetAction)
readiness_or_liveness (some probe) liveness = some probe
readiness_or_liveness none liveness = liveness

-- The number of a container's port that has the name.
unfoldable pub number_of_port : Text → List ContainerPort → IntOrString
number_of_port name [] = str_val name
number_of_port name (port ∷ ports) =
    let rest = number_of_port name ports in
    if port.name == name then int_val port.container_port else rest

abbrev pub resolved_port : List ContainerPort → IntOrString → IntOrString
resolved_port ports (int_val n) = int_val n
resolved_port ports (str_val name) = if is_nil name then str_val name else number_of_port name ports

-- A container has a port of the set.
unfoldable pub has_port_of : GoSet ℕ → List ContainerPort → Bool
has_port_of all [] = false
has_port_of all (port ∷ ports) = member port.container_port all || has_port_of all ports

abbrev pub with_resolved_port :
    List ContainerPort
    → Option (ContainerProbe × HttpGetAction)
    → Option (ContainerProbe × HttpGetAction)
with_resolved_port ports none = none
with_resolved_port ports (some (probe, action)) =
    some (probe, record action { port = resolved_port ports action.port })

-- The probe of the first container that has a port of the set.
unfoldable pub probe_of_containers :
    GoSet ℕ → List Container → Option (ContainerProbe × HttpGetAction)
unfolding has_port_of number_of_port
probe_of_containers all [] = none
probe_of_containers all (container ∷ containers) =
    let rest = probe_of_containers all containers in
    if has_port_of all container.ports
    then with_resolved_port container.ports (
        readiness_or_liveness (http_probe container.readiness_probe)
          (http_probe container.liveness_probe))
    else rest

abbrev pub probe_of_pods : GoSet ℕ → List Pod → Option (ContainerProbe × HttpGetAction)
probe_of_pods all [] = none
probe_of_pods all (pod ∷ pods) = probe_of_containers all pod.containers

unfoldable pub put_ports : GoSet ℕ → GoSet ℕ → GoSet ℕ
put_ports [] m = m
put_ports ((port, u) ∷ ports) m = put_ports ports (insert port tt m)

module _ (sets : SetLibrary Text) (subsets : Subsets sets) (b : FrontendBuilder) (c : Caches)
    (order : MapOrder) where
  abbrev pub target_ports : BackendIdentifier → ServicePort → IntOrString → GoSet ℕ → GoSet ℕ
  target_ports be sp (int_val target) m = insert target tt m
  target_ports be sp (str_val target) m =
      if is_nil target
      then insert sp.port tt m
      else put_ports (order.iterate (ℕ × Unit {0}) (resolve_port_name b c order sp.name be)) m

  -- The ports that the matching ports of the service lead to.
  unfoldable pub all_target_ports : BackendIdentifier → List ServicePort → GoSet ℕ → GoSet ℕ
  unfolding put_ports
  all_target_ports be [] m = m
  all_target_ports be (sp ∷ ports) m =
      all_target_ports be ports
        (if is_port_of b c order be sp then target_ports be sp sp.target_port m else m)

  -- `getProbeForServiceContainer`
  unfoldable pub get_probe_for_service_container :
      Service → BackendIdentifier → Option (ContainerProbe × HttpGetAction)
  unfolding all_target_ports probe_of_containers
  get_probe_for_service_container service be =
      probe_of_pods (all_target_ports be service.ports [])
        (list_pods_by_service_selector sets subsets c service)

  -- What the probe of the container overrides.
  abbrev pub with_container_probe : Option (ContainerProbe × HttpGetAction) → Probe → Probe
  with_container_probe none probe = probe
  with_container_probe (some (k8s, action)) probe = record probe {
    host = if is_nil action.host then probe.host else some action.host;
    path = if is_nil action.path then probe.path else some action.path;
    port =
        if is_nil (string_of b c order action.port) then probe.port else some (int_of action.port);
    protocol = if action.scheme == bytes "HTTPS" then https else probe.protocol;
    interval = or_default k8s.period_seconds probe.interval;
    timeout = or_default k8s.timeout_seconds probe.timeout;
    unhealthy_threshold = or_default k8s.failure_threshold probe.unhealthy_threshold;
  }

  abbrev pub without_stars : Option Text → Option Text
  without_stars none = none
  without_stars (some path) = some (trim_right (bytes "*") path)

  -- The end of `generateHealthProbe`: no star at the end of the path, and no port for the first version.
  abbrev pub finished : Probe → Probe
  finished probe = record probe {
    path = without_stars probe.path;
    port = if b.is_v1 then none else probe.port;
  }

  abbrev pub with_protocol : Protocol → Probe → Probe
  with_protocol http probe = probe
  with_protocol https probe = record probe { protocol = https }

  abbrev pub named_probe : BackendIdentifier → HttpIngressPath → Probe
  named_probe be path =
      let name =
        generate_probe_name b.md5_sum b.ag_prefix b.hash_code path.backend.service_name
          (string_of b c order path.backend.service_port) be.ingress in
      record (default_probe b http) { name = name; id = probe_id b.agw name }

  abbrev pub probe_of_service :
      BackendIdentifier → Option Service → Option HttpIngressPath → Option Probe
  probe_of_service be none path = none
  probe_of_service be (some service) none = none
  probe_of_service be (some service) (some path) = some (
      finished (
        with_container_probe (get_probe_for_service_container service be) (
          with_protocol (backend_protocol be.ingress).0 (
            with_path (backend_path_prefix be.ingress) path.path
              (with_rule be.rule (named_probe be path))))))

  -- `generateHealthProbe`. That the code panics for a gateway without a `Sku` is not modelled.
  unfoldable pub generate_health_probe : BackendIdentifier → Option Probe
  unfolding get_probe_for_service_container
  generate_health_probe be = probe_of_service be (get_service c (service_key be)) be.path

  -- The two maps of `newProbesMap`: the probes by name, and that of each backend.
  pub record ProbesMaps : Type 0 where
    pub by_name : GoMap Text Probe
    pub by_backend : GoMap Place Probe

  abbrev pub add_probe : BackendIdentifier → Option Probe → ProbesMaps → ProbesMaps
  add_probe be (some probe) m = record {
    by_name = insert probe.name probe m.by_name;
    by_backend = insert be.place probe m.by_backend;
  }
  add_probe be none m = record m {
    by_backend = insert be.place (default_probe b (backend_protocol be.ingress).0) m.by_backend;
  }

  unfoldable pub add_probes : List BackendIdentifier → ProbesMaps → ProbesMaps
  unfolding generate_health_probe
  add_probes [] m = m
  add_probes (be ∷ bes) m = add_probes bes (add_probe be (generate_health_probe be) m)

  abbrev pub default_probes : ProbesMaps
  default_probes = record {
    by_name =
        insert (default_probe_name b https) (default_probe b https)
          (insert (default_probe_name b http) (default_probe b http) []);
    by_backend = [];
  }

  -- `newProbesMap`
  unfoldable pub new_probes_map : List Ingress → ProbesMaps
  unfolding add_probes
  new_probes_map ings =
      add_probes (order.iterate BackendIdentifier (new_backend_ids_filtered ings)) default_probes

  -- The probes that `HealthProbesCollection` creates.
  unfoldable pub created_probes : List Ingress → List Probe
  created_probes ings = values (order.iterate (Text × Probe) (new_probes_map ings).by_name)
