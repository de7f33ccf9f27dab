-- ===== src/K8scontext/Listing.antt =====
-- pkg/k8scontext/context.go: what the context reads from the caches of the informers. The caches hold
-- objects of one type each, so the type assertions on what they list succeed.
pub mod Referenced
pub mod Sorted
use application_gateway_kube.Common.{
  ℕ, Text, bytes, List, [], ◌∷◌, ◌++◌, Option, none, some, Bool, true, false, not, ◌&&◌, ◌||◌, ◌==◌,
  text_eq, is_nil, GoMap, if◌then◌else◌, Run, returns, panics, ◌>>=◌, deref, ◌≡◌, ◌↔◌,
}
use application_gateway_kube.Common.Order.{Sort}
use application_gateway_kube.Gateway.{Ingress, IngressRule, HttpIngressPath}
use application_gateway_kube.Kubernetes.{
  Pod, Service, ServicePort, Endpoints, Secret, Store, Fetched, found, absent, unreadable,
}
use application_gateway_kube.Sorter.{by_ingress_name_less}
use application_gateway_kube.Utils.Multimap.{SetLibrary}
use application_gateway_kube.K8scontext.Handlers.{listed_in, is_ingress_application_gateway}

-- `Set.IsSubset` of golang-set, with the law of its documentation.
pub record Subsets (sets : SetLibrary Text) : Type 0 where
  pub is_subset : sets.Set → sets.Set → Bool
  pub is_subset_iff :
      (a b : sets.Set)
      → (is_subset a b ≡ true) ↔ ((w : Text) → sets.contains a w ≡ true → sets.contains b w ≡ true)

-- The caches and the namespaces of `Context`.
pub record Caches : Type 0 where
  pub namespaces : List Text
  pub services : Store Service
  pub endpoints : Store Endpoints
  pub pods : Store Pod
  pub ingresses : Store Ingress
  pub secrets : Store Secret

-- `_, exists := c.namespaces[ns]; len(c.namespaces) > 0 && !exists` does not skip.
abbrev pub in_scope : List Text → Text → Bool
in_scope namespaces ns = is_nil namespaces || listed_in ns namespaces

unfoldable pub has_tcp_port_in : List ServicePort → Bool
has_tcp_port_in [] = false
has_tcp_port_in (port ∷ ports) = port.protocol == bytes "TCP" || has_tcp_port_in ports

-- `hasTCPPort`
abbrev pub has_tcp_port : Service → Bool
has_tcp_port service = has_tcp_port_in service.ports

abbrev pub is_set {ℓ} : {A : Type ℓ} → Option A → Bool
is_set none = false
is_set (some a) = true

unfoldable pub has_http_rule_in : List IngressRule → Bool
has_http_rule_in [] = false
has_http_rule_in (rule ∷ rules) = is_set rule.http || has_http_rule_in rules

-- `hasHTTPRule`
abbrev pub has_http_rule : Ingress → Bool
has_http_rule ing = has_http_rule_in ing.rules

-- A loop that appends the items that pass a test.
unfoldable pub keep {ℓ} : {A : Type ℓ} → (A → Bool) → List A → List A
keep test [] = []
keep test (x ∷ xs) = let rest = keep test xs in if test x then x ∷ rest else rest

-- `ListServices`
unfoldable pub list_services : Caches → List Service
list_services c = keep (λ s. in_scope c.namespaces s.namespace && has_tcp_port s) c.services.list

-- `GetEndpointsByService`: the error of the store, or that there is none.
pub data EndpointsError : Type 0 where
  store_error fetching_endpoints : EndpointsError

unfoldable pub fetched_endpoints : Fetched Endpoints → Option EndpointsError × Option Endpoints
fetched_endpoints (found endpoints) = (none, some endpoints)
fetched_endpoints absent = (some fetching_endpoints, none)
fetched_endpoints unreadable = (some store_error, none)

unfoldable pub get_endpoints_by_service : Caches → Text → Option EndpointsError × Option Endpoints
unfolding fetched_endpoints
get_endpoints_by_service c service_key = fetched_endpoints (c.endpoints.get_by_key service_key)

abbrev pub fetched : {A : Type 0} → Fetched A → Option A
fetched (found a) = some a
fetched absent = none
fetched unreadable = none

-- `GetService`; nil if the store has none or fails.
unfoldable pub get_service : Caches → Text → Option Service
get_service c service_key = fetched (c.services.get_by_key service_key)

-- `GetSecret`
unfoldable pub get_secret : Caches → Text → Option Secret
get_secret c secret_key = fetched (c.secrets.get_by_key secret_key)

-- `filterAndSort`
unfoldable pub is_http_ingress : Ingress → Bool
is_http_ingress ing = is_ingress_application_gateway ing && (is_nil ing.rules || has_http_rule ing)

unfoldable pub filter_and_sort : Sort → List Ingress → List Ingress
unfolding is_http_ingress
filter_and_sort sorter ings = sorter.sort Ingress by_ingress_name_less (keep is_http_ingress ings)

-- `ListHTTPIngresses`
unfoldable pub list_http_ingresses : Sort → Caches → List Ingress
unfolding filter_and_sort
list_http_ingresses sorter c =
    filter_and_sort sorter (keep (λ ing. in_scope c.namespaces ing.namespace) c.ingresses.list)

-- The inner loop of `isServiceReferencedByAnyIngress`: the paths of a rule.
unfoldable pub names_service : Text → List HttpIngressPath → Bool
names_service name [] = false
names_service name (path ∷ paths) = path.backend.service_name == name || names_service name paths

abbrev pub slice {ℓ} : {A : Type ℓ} → Option (List A) → List A
slice none = []
slice (some xs) = xs

-- `rule.HTTP.Paths` is read of every rule up to the first that names the service, and `HTTP` may be nil.
unfoldable pub rules_name_service : Text → List IngressRule → Run Bool
unfolding names_service
rules_name_service name [] = returns false
rules_name_service name (rule ∷ rules) = do
  let rest = rules_name_service name rules
  http ← deref rule.http
  (if names_service name (slice http.paths) then returns true else rest)

unfoldable pub ingresses_name_service : Text → List Ingress → Run Bool
unfolding rules_name_service
ingresses_name_service name [] = returns false
ingresses_name_service name (ing ∷ ings) = do
  let rest = ingresses_name_service name ings
  named ← rules_name_service name ing.rules
  (if named then returns true else rest)

-- `isServiceReferencedByAnyIngress`
unfoldable pub is_service_referenced_by_any_ingress : Sort → Caches → Service → Run Bool
is_service_referenced_by_any_ingress sorter c service =
    ingresses_name_service service.name (list_http_ingresses sorter c)

module _ (sets : SetLibrary Text) (subsets : Subsets sets) where
  -- The set of the texts `key:value` of a map.
  unfoldable pub label_set : GoMap Text Text → sets.Set
  label_set [] = sets.new_set
  label_set ((key, value) ∷ m) = sets.add (key ++ (bytes ":" ++ value)) (label_set m)

  -- `ListPodsByServiceSelector`
  unfoldable pub list_pods_by_service_selector : Caches → Service → List Pod
  list_pods_by_service_selector c service =
      keep
        (λ pod.
          in_scope c.namespaces pod.namespace
          && (subsets.is_subset (label_set service.selector) (label_set pod.labels)
              && pod.namespace == service.namespace))
        c.pods.list

  -- `listServicesByPodSelector`
  unfoldable pub list_services_by_pod_selector : Caches → Pod → List Service
  list_services_by_pod_selector c pod =
      keep (λ service. subsets.is_subset (label_set service.selector) (label_set pod.labels))
        (list_services c)

  unfoldable pub any_referenced : Sort → Caches → List Service → Run Bool
  any_referenced sorter c [] = returns false
  any_referenced sorter c (service ∷ services) = do
    let rest = any_referenced sorter c services
    used ← is_service_referenced_by_any_ingress sorter c service
    (if used then returns true else rest)

  -- `IsPodReferencedByAnyIngress`
  unfoldable pub is_pod_referenced_by_any_ingress : Sort → Caches → Pod → Run Bool
  unfolding any_referenced
  is_pod_referenced_by_any_ingress sorter c pod =
      any_referenced sorter c (list_services_by_pod_selector c pod)

abbrev pub referenced_if_found : Sort → Caches → Option Service → Run Bool
referenced_if_found sorter c none = returns false
referenced_if_found sorter c (some service) = is_service_referenced_by_any_ingress sorter c service

-- `IsEndpointReferencedByAnyIngress`
unfoldable pub is_endpoint_referenced_by_any_ingress : Sort → Caches → Endpoints → Run Bool
is_endpoint_referenced_by_any_ingress sorter c endpoints =
    referenced_if_found sorter c
      (get_service c (endpoints.namespace ++ (bytes "/" ++ endpoints.name)))
