-- ===== src/Examples/Routing.antt =====
-- Examples for the path maps, the routing rules and what they refer to, of pkg/appgw: one ingress with a path
-- that leads to the service "n/w", whose port 80 is the port 8080 of its endpoints.
use application_gateway_kube.Common.{
  Text, bytes, List, [], ◌∷◌, ◌++◌, none, some, Bool, true, false, ◌==◌, ◌&&◌, nat_beq, text_eq,
  text_beq_iff, any, All, ◌≡◌, ◌↔◌, refl, arith, Bool-cases, inl, inr, if◌then◌else◌, returns,
}
use application_gateway_kube.Common.Sorting.{as_listed, by_insertion}
use application_gateway_kube.Gateway.{int_val, UrlPathMap}
use application_gateway_kube.Kubernetes.{Service, Endpoints, EndpointSubset, found, absent}
use application_gateway_kube.K8scontext.Listing.{Caches, Subsets, get_service}
use application_gateway_kube.Appgw.Backends.{new_backend_ids_filtered, resolved_backend_ports}
use application_gateway_kube.Appgw.Names.{ListenerIdentifier}
use application_gateway_kube.Appgw.Validators.{validate_url_path_maps}
use application_gateway_kube.Appgw.Frontend.{FrontendBuilder}
use application_gateway_kube.Appgw.Settings.{
  Settings, resolve_backends, resolved_pairs, get_backends_and_settings_map,
}
use application_gateway_kube.Appgw.Settings.Bound.{
  IsBound, any_ambiguous, get_backends_and_settings_map_iff,
}
use application_gateway_kube.Appgw.Pools.{
  created_pools, new_backend_pool_map, get_addresses_for_subset,
}
use application_gateway_kube.Appgw.Pools.Addresses.{
  is_text, names_ip, names_fqdn, get_addresses_for_subset-any,
}
use application_gateway_kube.Appgw.PathMaps.{Built}
use application_gateway_kube.Appgw.Routing.{Routing, get_path_maps, get_rules}
use application_gateway_kube.Appgw.Routing.Sound.{IsSound}
use application_gateway_kube.Appgw.Routing.Referred.{IsReferred, get_path_maps-AreReferred}
use application_gateway_kube.Appgw.Routing.Accepted.{IsRouted, get_rules-IsAccepted}
use application_gateway_kube.Appgw.Keys.{listener_eq}
use application_gateway_kube.Appgw.Routing.Ordered.{
  is_mixed, rules_of_ingresses, get_path_maps_in_order,
}
use application_gateway_kube.Appgw.Routing.Gathered.{rules_in}
use application_gateway_kube.Examples.Samples.{ingress}
use application_gateway_kube.Examples.K8s.{texts, has}
use application_gateway_kube.Examples.Listeners.{builder, pfx}

abbrev pub has_all : List Text → List Text → Bool
has_all [] b = true
has_all (w ∷ a) b = has b w && has_all a b

pub has_all_elim :
    (a b : List Text) → has_all a b ≡ true → (w : Text) → has a w ≡ true → has b w ≡ true
has_all_elim [] b h w k = absurd (cc)
has_all_elim (v ∷ a) b h w k = elim (Bool-cases (v == w)) [
  | inl same ↦ ground (arith, text_beq_iff v w)
  | inr off ↦ has_all_elim a b (ground arith) w (ground arith)
]

pub has_all_intro :
    (a b : List Text) → ((w : Text) → has a w ≡ true → has b w ≡ true) → has_all a b ≡ true
has_all_intro [] b h = refl
has_all_intro (v ∷ a) b h =
    ground (arith, h v, has_all_intro a b (λ w k. h w (ground arith)), text_beq_iff v v)

abbrev pub subsets : Subsets texts
subsets = record {
  is_subset = has_all;
  is_subset_iff = λ a b. (has_all_elim a b, has_all_intro a b);
}

abbrev numbered : FrontendBuilder
numbered = record builder {
  decimal = λ number. if nat_beq number 80 then bytes "80" else bytes "8080";
}

abbrev subset : EndpointSubset
subset = record {
  addresses = record { hostname = []; ip = bytes "10.0.0.1" } ∷ [];
  not_ready_addresses = record { hostname = bytes "h"; ip = [] } ∷ [];
  ports = record { name = []; port = 8080; protocol = bytes "TCP" } ∷ [];
}

abbrev service : Service
service = record {
  namespace = bytes "n";
  name = bytes "w";
  selector = [];
  ports = record { name = []; protocol = bytes "TCP"; port = 80; target_port = int_val 8080 } ∷ [];
}

abbrev endpoints : Endpoints
endpoints = record { namespace = bytes "n"; name = bytes "w"; subsets = subset ∷ [] }

abbrev pub cached : Caches
cached = record {
  namespaces = [];
  services = record {
    list = service ∷ [];
    get_by_key = λ key. if key == bytes "n/w" then found service else absent;
  };
  endpoints = record {
    list = endpoints ∷ [];
    get_by_key = λ key. if key == bytes "n/w" then found endpoints else absent;
  };
  pods = record { list = []; get_by_key = λ key. absent };
  ingresses = record { list = ingress ∷ []; get_by_key = λ key. absent };
  secrets = record { list = []; get_by_key = λ key. absent };
}

unambiguous :
    any_ambiguous (resolved_pairs texts subsets numbered cached as_listed (ingress ∷ [])) ≡ false
unfolding resolve_backends new_backend_ids_filtered resolved_backend_ports get_service
unambiguous = refl

abbrev made :
    IsBound texts subsets numbered cached as_listed
      (ingress ∷ [])
      (get_backends_and_settings_map texts subsets numbered cached as_listed (ingress ∷ []))
made =
    (get_backends_and_settings_map_iff texts subsets numbered cached as_listed (ingress ∷ [])).1.0
      unambiguous

abbrev settings : Settings
settings = made.0

abbrev built : Built
built = record {
  settings = settings;
  pools = new_backend_pool_map as_listed by_insertion numbered cached settings.pairs;
  redirects = [];
  default_address_pool_id = bytes "/pool";
  default_http_settings_id = bytes "/settings";
}

get_backends_and_settings_map_iff_example :
    ((any_ambiguous (resolved_pairs texts subsets numbered cached as_listed (ingress ∷ [])) ≡ true)
      ↔ (get_backends_and_settings_map texts subsets numbered cached as_listed (ingress ∷ [])
          ≡ none))
    × ((any_ambiguous (resolved_pairs texts subsets numbered cached as_listed (ingress ∷ []))
          ≡ false)
        ↔ IsBound texts subsets numbered cached as_listed
            (ingress ∷ [])
            (get_backends_and_settings_map texts subsets numbered cached as_listed (ingress ∷ [])))
get_backends_and_settings_map_iff_example =
    get_backends_and_settings_map_iff texts subsets numbered cached as_listed (ingress ∷ [])

get_path_maps-AreReferred_example :
    All
      (λ (entry : ListenerIdentifier × UrlPathMap).
        IsSound
          (IsReferred built.redirects
            (created_pools as_listed by_insertion numbered cached settings.pairs)
            settings.collection)
          entry.1)
      (get_path_maps numbered cached as_listed by_insertion built pfx
        (λ raw. raw)
        []
        (ingress ∷ []))
get_path_maps-AreReferred_example =
    get_path_maps-AreReferred texts subsets numbered cached as_listed by_insertion (ingress ∷ [])
      built made.1 refl pfx (λ raw. raw) []

get_rules-IsAccepted_example :
    (routing : Routing) × (get_rules numbered cached as_listed by_insertion built [] (
        get_path_maps numbered cached as_listed by_insertion built pfx
          (λ raw. raw)
          []
          (ingress ∷ []))
      ≡ returns routing)
    × (validate_url_path_maps (some routing.path_maps) ≡ returns none)
    × All (IsRouted numbered routing.path_maps) routing.rules
get_rules-IsAccepted_example =
    get_rules-IsAccepted numbered cached as_listed by_insertion built pfx (λ raw. raw) [] []
      (ingress ∷ [])

get_addresses_for_subset-any_example :
    (any
        (λ a. is_text (bytes "h") a.ip_address)
        (get_addresses_for_subset as_listed by_insertion subset)
      ≡ any (names_ip (bytes "h")) (subset.not_ready_addresses ++ subset.addresses))
    × (any
          (λ a. is_text (bytes "h") a.fqdn)
          (get_addresses_for_subset as_listed by_insertion subset)
        ≡ any (names_fqdn (bytes "h")) (subset.not_ready_addresses ++ subset.addresses))
get_addresses_for_subset-any_example =
    get_addresses_for_subset-any as_listed by_insertion subset (bytes "h")

abbrev asked : ListenerIdentifier
asked = record {
  frontend_port = 80;
  host_name = bytes "a.b";
  host_names = bytes "a.b" ∷ [] ∷ [] ∷ [] ∷ [] ∷ [];
  use_private_ip = false;
}

unmixed :
    is_mixed numbered cached as_listed by_insertion built asked pfx
      (λ raw. raw)
      []
      (ingress ∷ ingress ∷ [])
    ≡ false
unmixed = refl

get_path_maps_in_order_example :
    rules_in numbered cached as_listed by_insertion built asked (
      get_path_maps numbered cached as_listed by_insertion built pfx
        (λ raw. raw)
        []
        (ingress ∷ ingress ∷ []))
    ≡ rules_of_ingresses numbered cached as_listed by_insertion built asked pfx
        (λ raw. raw)
        []
        0
        (ingress ∷ ingress ∷ [])
get_path_maps_in_order_example =
    get_path_maps_in_order numbered cached as_listed by_insertion built asked pfx (λ raw. raw) []
      (ingress ∷ ingress ∷ []) unmixed
