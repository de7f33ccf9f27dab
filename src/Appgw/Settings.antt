-- ===== src/Appgw/Settings.antt =====
-- pkg/appgw/backendhttpsettings.go: the HTTP settings of the backends. The events that are recorded are left
-- out.
pub mod Listed
pub mod Bound
pub mod Probed
use application_gateway_kube.Common.{
  ℕ, ℤ, pos, Text, bytes, List, [], ◌∷◌, ◌++◌, Option, none, some, Bool, true, false, is_nil, leb,
  text_eq, GoMap, GoSet, lookup, insert, values, length, if◌then◌else◌,
}
use application_gateway_kube.Common.Order.{MapOrder}
use application_gateway_kube.Gateway.{
  Protocol, http, https, SubResource, BackendHttpSettings, Probe, Ingress,
}
use application_gateway_kube.Annotations.{
  AnnotationError, backend_path_prefix, backend_protocol, is_connection_draining,
  connection_draining_timeout, is_cookie_based_affinity, request_timeout,
}
use application_gateway_kube.Utils.Multimap.{SetLibrary}
use application_gateway_kube.K8scontext.Listing.{Caches, Subsets}
use application_gateway_kube.Appgw.Identifier.{http_settings_id, probe_id, resource_ref}
use application_gateway_kube.Appgw.Names.{format_prop_name}
use application_gateway_kube.Appgw.Frontend.{FrontendBuilder}
use application_gateway_kube.Appgw.Backends.{
  Place, place_eq, BackendIdentifier, service_full_name, PortPair, pair_eq,
  new_backend_ids_filtered, string_of, resolved_backend_ports,
}
use application_gateway_kube.Appgw.Probes.{default_probe_name, ProbesMaps, new_probes_map}

-- `map[serviceBackendPortPair]interface{}` by backend. A backend comes once, so its entry is new.
abbrev pub PairsByBackend : Type 0
PairsByBackend = List (BackendIdentifier × GoSet PortPair)

-- The three results of `getBackendsAndSettingsMap`.
pub record Settings : Type 0 where
  pub collection : List BackendHttpSettings
  pub by_backend : GoMap Place BackendHttpSettings
  pub pairs : List (BackendIdentifier × PortPair)

abbrev pub on_success : {A B : Type 0} → (A → B → B) → A × Option AnnotationError → B → B
on_success f (a, none) s = f a s
on_success f (a, some err) s = s

abbrev pub on_true : {B : Type 0} → (B → B) → Bool → B → B
on_true f true s = f s
on_true f false s = s

-- `DefaultConnDrainTimeoutInSec`
abbrev pub default_conn_drain_timeout_in_sec : ℤ
default_conn_drain_timeout_in_sec = pos 30

abbrev pub timeout_or_default : ℤ × Option AnnotationError → ℤ
timeout_or_default (seconds, none) = seconds
timeout_or_default (seconds, some err) = default_conn_drain_timeout_in_sec

abbrev pub with_prefix : Text → BackendHttpSettings → BackendHttpSettings
with_prefix prefix s = record s { path = some prefix }

abbrev pub with_draining : Ingress → BackendHttpSettings → BackendHttpSettings
with_draining ing s = record s {
  connection_draining = some (timeout_or_default (connection_draining_timeout ing));
}

abbrev pub with_affinity : BackendHttpSettings → BackendHttpSettings
with_affinity s = record s { cookie_based_affinity = true }

abbrev pub with_timeout : ℤ → BackendHttpSettings → BackendHttpSettings
with_timeout seconds s = record s { request_timeout = some seconds }

abbrev pub with_protocol : Protocol → BackendHttpSettings → BackendHttpSettings
with_protocol http s = s
with_protocol https s = record s { protocol = https }

-- The annotations of an ingress, in the order in which they are read.
unfoldable pub annotated : Ingress → BackendHttpSettings → BackendHttpSettings
annotated ing s = on_success with_protocol (backend_protocol ing) (
    on_success with_timeout (request_timeout ing) (
      on_success (on_true with_affinity) (is_cookie_based_affinity ing) (
        on_success (on_true (with_draining ing)) (is_connection_draining ing)
          (on_success with_prefix (backend_path_prefix ing) s))))

module _ (b : FrontendBuilder) where
  -- `DefaultBackendHTTPSettingsName`
  abbrev pub default_backend_http_settings_name : Text
  default_backend_http_settings_name = b.ag_prefix ++ bytes "defaulthttpsetting"

  -- `defaultBackendHTTPSettings`
  abbrev pub default_backend_http_settings : Protocol → BackendHttpSettings
  default_backend_http_settings protocol = record {
    name = default_backend_http_settings_name;
    id = http_settings_id b.agw default_backend_http_settings_name;
    protocol = protocol;
    port = some 80;
    probe = resource_ref (probe_id b.agw (default_probe_name b protocol));
    path = none;
    connection_draining = none;
    cookie_based_affinity = false;
    request_timeout = none;
  }

  -- `generateHTTPSettingsName`
  unfoldable pub generate_http_settings_name : Text → Text → ℕ → Text → Text
  generate_http_settings_name service_name service_port backend_port ing =
      format_prop_name b.md5_sum (
        b.ag_prefix
        ++ (bytes "bp-"
            ++ (service_name
                ++ (bytes "-"
                    ++ (service_port
                        ++ (bytes "-" ++ (b.decimal backend_port ++ (bytes "-" ++ ing))))))))

  abbrev pub ref_of_probe : Option Probe → Option SubResource
  ref_of_probe none = none
  ref_of_probe (some probe) = resource_ref (probe_id b.agw probe.name)

-- The loop over the backends that resolves their ports: it ends at the first backend without one.
unfoldable pub resolve_backends :
    (BackendIdentifier → GoSet PortPair) → List BackendIdentifier → PairsByBackend
resolve_backends resolved [] = []
resolve_backends resolved (be ∷ bes) =
    let rest = resolve_backends resolved bes in
    if is_nil (resolved be) then [] else (be, resolved be) ∷ rest

abbrev pub unique_pair : GoSet PortPair → PortPair
unique_pair [] = record { service_port = 0; backend_port = 0 }
unique_pair ((pair, u) ∷ pairs) = pair

-- The maps of the second loop.
pub record SettingsMaps : Type 0 where
  pub by_name : GoMap Text BackendHttpSettings
  pub by_backend : GoMap Place BackendHttpSettings
  pub pairs : List (BackendIdentifier × PortPair)

abbrev pub add_settings :
    BackendIdentifier → PortPair → BackendHttpSettings → SettingsMaps → SettingsMaps
add_settings be pair s m = record {
  by_name = insert s.name s m.by_name;
  by_backend = insert be.place s m.by_backend;
  pairs = m.pairs ++ ((be, pair) ∷ []);
}

-- The second loop: a backend with more than one pair is an error.
unfoldable pub bind_backends :
    (BackendIdentifier → ℕ → BackendHttpSettings)
    → PairsByBackend
    → SettingsMaps
    → Option SettingsMaps
bind_backends generate [] m = some m
bind_backends generate ((be, pairs) ∷ rest) m =
    let pair = unique_pair pairs in
    let bound =
      bind_backends generate rest (add_settings be pair (generate be pair.backend_port) m) in
    if leb (length pairs) 1 then bound else none

module _ (sets : SetLibrary Text) (subsets : Subsets sets) (b : FrontendBuilder) (c : Caches)
    (order : MapOrder) (ings : List Ingress) where
  -- `generateHTTPSettings`
  unfoldable pub generate_http_settings : BackendIdentifier → ℕ → BackendHttpSettings
  unfolding generate_http_settings_name annotated
  generate_http_settings be port =
      let name =
        generate_http_settings_name b (service_full_name be)
          (string_of b c order be.backend.service_port) port be.ingress.name in
      annotated be.ingress (record {
        name = name;
        id = http_settings_id b.agw name;
        protocol = http;
        port = some port;
        probe =
            ref_of_probe b
              (lookup be.place (new_probes_map sets subsets b c order ings).by_backend);
        path = none;
        connection_draining = none;
        cookie_based_affinity = false;
        request_timeout = none;
      })

  abbrev pub start_maps : SettingsMaps
  start_maps = record {
    by_name = (default_backend_http_settings_name b, default_backend_http_settings b http) ∷ [];
    by_backend = [];
    pairs = [];
  }

  abbrev pub settings_from : SettingsMaps → Settings
  settings_from m = record {
    collection = values (order.iterate (Text × BackendHttpSettings) m.by_name);
    by_backend = m.by_backend;
    pairs = m.pairs;
  }

  abbrev pub settings_of : Option SettingsMaps → Option Settings
  settings_of none = none
  settings_of (some m) = some (settings_from m)

  -- The pairs of the backends, in the order of the second loop.
  abbrev pub resolved_pairs : PairsByBackend
  resolved_pairs = order.iterate (BackendIdentifier × GoSet PortPair) (
      resolve_backends (resolved_backend_ports b c order)
        (order.iterate BackendIdentifier (new_backend_ids_filtered ings)))

  -- `getBackendsAndSettingsMap`; none is `ErrMultipleServiceBackendPortBinding`.
  unfoldable pub get_backends_and_settings_map : Option Settings
  unfolding generate_http_settings resolve_backends bind_backends
  get_backends_and_settings_map =
      settings_of (bind_backends generate_http_settings resolved_pairs start_maps)

  abbrev pub or_empty : Option Settings → Settings
  or_empty none = record { collection = []; by_backend = []; pairs = [] }
  or_empty (some s) = s

  -- What the callers use, which go on after the error.
  abbrev pub settings_maps : Settings
  settings_maps = or_empty get_backends_and_settings_map
