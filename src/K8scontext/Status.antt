-- ===== src/K8scontext/Status.antt =====
-- pkg/k8scontext/context.go: the address in the status of an ingress, the lists of the custom
-- resources, and the resource group of the cluster. What the API server answers is a parameter.
use application_gateway_kube.Common.{
  Text, bytes, List, [], ◌∷◌, ◌++◌, Option, none, some, Bool, false, ◌==◌, text_eq, beq_refl,
  is_nil, if◌then◌else◌, GoMap, ◌≡◌, refl, arith, Bool-cases, inl, inr,
}
use application_gateway_kube.Annotations.{is_istio_gateway_ingress}
use application_gateway_kube.Kubernetes.{Endpoints, Store}
use application_gateway_kube.Azure.{parse_resource_id}
use application_gateway_kube.K8scontext.Handlers.{listed_in}
use application_gateway_kube.K8scontext.Listing.{
  Caches, in_scope, keep, get_endpoints_by_service, EndpointsError,
}

pub data StatusError : Type 0 where
  unable_to_get unable_to_update : StatusError

-- The status that is written, if one is.
abbrev pub new_status : Text → List Text
new_status new_ip = if is_nil new_ip then [] else new_ip ∷ []

abbrev pub update_fetched :
    Option (List Text) → Bool → Text → Option StatusError × Option (List Text)
update_fetched none accepted new_ip = (some unable_to_get, none)
update_fetched (some ips) accepted new_ip =
    if listed_in new_ip ips
    then (none, none)
    else (if accepted then none else some unable_to_update, some (new_status new_ip))

-- `UpdateIngressStatus`, of the addresses in the status of the ingress that the API server has, unless
-- it has none, and of whether the server accepts a new status: the error, and the status sent.
unfoldable pub update_ingress_status :
    Option (List Text) → Bool → Text → Option StatusError × Option (List Text)
update_ingress_status fetched accepted new_ip = update_fetched fetched accepted new_ip

-- The addresses that the server has after a status was sent to it.
abbrev pub addresses_after : Option (List Text) → Bool → Option (List Text) → Option (List Text)
addresses_after fetched accepted none = fetched
addresses_after fetched accepted (some sent) = if accepted then some sent else fetched

-- An address that is not empty and that was set without an error is in the status, and setting it once
-- more sends nothing.
pub update_ingress_status_idem :
    (ips : List Text) (accepted again : Bool) (new_ip : Text)
    → is_nil new_ip ≡ false
    → (update_ingress_status (some ips) accepted new_ip).0 ≡ none
    → update_ingress_status
        (addresses_after (some ips) accepted (update_ingress_status (some ips) accepted new_ip).1)
        again
        new_ip
      ≡ (none, none)
unfolding update_ingress_status
update_ingress_status_idem ips accepted again new_ip n h =
    elim (Bool-cases (listed_in new_ip ips)) [
      | inl there ↦ rw (there, there) refl
      | inr missing ↦ elim (Bool-cases accepted) [
        | inl ok ↦ rw (missing, ok, n) (rw (beq_refl new_ip) refl)
        | inr refused ↦ absurd (ground arith)
      ]
    ]

-- A custom resource: its namespace, its name and its annotations.
pub record Resource : Type 0 where
  pub namespace : Text
  pub name : Text
  pub annotations : GoMap Text Text

-- The loop of `ListAzureProhibitedTargets`, `ListIstioGateways` and `ListIstioVirtualServices`.
unfoldable pub list_resources : {A : Type 0} → (A → Text) → List Text → Store A → List A
list_resources namespace_of namespaces store =
    keep (λ r. in_scope namespaces (namespace_of r)) store.list

-- `GetGateways`
unfoldable pub get_gateways : List Text → Store Resource → List Resource
unfolding list_resources
get_gateways namespaces gateways =
    keep (λ g. (is_istio_gateway_ingress g.annotations).0)
      (list_resources (λ (r : Resource). r.namespace) namespaces gateways)

-- A virtual service: its gateways and, by its rules, the hosts of the destinations.
pub record VirtualService : Type 0 where
  pub namespace : Text
  pub name : Text
  pub gateways : List Text
  pub http : List (List Text)

-- `GetVirtualServicesForGateway`
unfoldable pub get_virtual_services_for_gateway :
    List Text → Store VirtualService → Text → List VirtualService
unfolding list_resources
get_virtual_services_for_gateway namespaces services gateway_name =
    keep (λ s. listed_in gateway_name s.gateways)
      (list_resources (λ (s : VirtualService). s.namespace) namespaces services)

abbrev pub without_error : Option EndpointsError × Option Endpoints → List Endpoints
without_error (none, some endpoints) = endpoints ∷ []
without_error (none, none) = []
without_error (some err, endpoints) = []

unfoldable pub endpoints_of_route : Caches → Text → List Text → List Endpoints
endpoints_of_route c namespace [] = []
endpoints_of_route c namespace (host ∷ hosts) =
    without_error (get_endpoints_by_service c (namespace ++ (bytes "/" ++ host)))
    ++ endpoints_of_route c namespace hosts

unfoldable pub endpoints_of_rules : Caches → Text → List (List Text) → List Endpoints
unfolding endpoints_of_route
endpoints_of_rules c namespace [] = []
endpoints_of_rules c namespace (route ∷ routes) =
    endpoints_of_route c namespace route ++ endpoints_of_rules c namespace routes

-- `GetEndpointsForVirtualService`
unfoldable pub get_endpoints_for_virtual_service : Caches → VirtualService → List Endpoints
unfolding endpoints_of_rules
get_endpoints_for_virtual_service c service = endpoints_of_rules c service.namespace service.http

pub data NodeError : Type 0 where
  list_failed no_nodes_found unrecognized_node_provider_prefix : NodeError

-- `strings.TrimPrefix` of a prefix that is there.
unfoldable pub strip_prefix : Text → Text → Option Text
strip_prefix [] s = some s
strip_prefix (c ∷ prefix) [] = none
strip_prefix (c ∷ prefix) (d ∷ s) = if (c ∷ []) == (d ∷ []) then strip_prefix prefix s else none

abbrev pub group_of_node : Option Text → Text × Text × Option NodeError
group_of_node none = ([], [], some unrecognized_node_provider_prefix)
group_of_node (some id) =
    let (subscription, group, name) = parse_resource_id id in (subscription, group, none)

-- `GetInfrastructureResourceGroupID`, of the provider identifiers of the nodes, unless listing fails.
unfoldable pub get_infrastructure_resource_group_id :
    Option (List Text) → Text × Text × Option NodeError
unfolding strip_prefix
get_infrastructure_resource_group_id none = ([], [], some list_failed)
get_infrastructure_resource_group_id (some []) = ([], [], some no_nodes_found)
get_infrastructure_resource_group_id (some (node ∷ nodes)) =
    group_of_node (strip_prefix (bytes "azure://") node)
