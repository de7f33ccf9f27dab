-- ===== src/Examples/Caches.antt =====
-- Examples for pkg/k8scontext/context.go.
use application_gateway_kube.Common.{
  Text, bytes, List, [], ◌∷◌, none, some, true, text_eq, ◌≡◌, refl, returns, All, Permᴰ, any,
  UniqueKeys, find_key, lookup,
}
use application_gateway_kube.Common.Sorting.{by_insertion, insertion_sort, insert_by}
use application_gateway_kube.Gateway.{Ingress}
use application_gateway_kube.Kubernetes.{Service, absent}
use application_gateway_kube.Sorter.{get_ingress_name}
use application_gateway_kube.Annotations.{is_application_gateway_ingress, parse_string}
use application_gateway_kube.K8scontext.Handlers.{is_ingress_application_gateway}
use application_gateway_kube.K8scontext.Listing.{
  Caches, keep, is_http_ingress, has_http_rule_in, filter_and_sort, list_http_ingresses,
  is_service_referenced_by_any_ingress,
}
use application_gateway_kube.K8scontext.Listing.Referenced.{
  HasHttp, uses, is_service_referenced_any,
}
use application_gateway_kube.K8scontext.Listing.Sorted.{list_http_ingresses_unique}
use application_gateway_kube.K8scontext.Status.{update_ingress_status}
use application_gateway_kube.Examples.Samples.{ingress}

abbrev named : Text → Ingress
named name = record ingress {
  name = name;
  annotations = (bytes "kubernetes.io/ingress.class", bytes "azure/application-gateway") ∷ [];
}

abbrev caches : List Ingress → Caches
caches ings = record {
  namespaces = [];
  services = record { list = []; get_by_key = λ key. absent };
  endpoints = record { list = []; get_by_key = λ key. absent };
  pods = record { list = []; get_by_key = λ key. absent };
  ingresses = record { list = ings; get_by_key = λ key. absent };
  secrets = record { list = []; get_by_key = λ key. absent };
}

abbrev service : Service
service = record { namespace = bytes "n"; name = bytes "w"; selector = []; ports = [] }

listed-All :
    All
      (λ ing. All HasHttp ing.rules)
      (list_http_ingresses by_insertion (caches (named (bytes "i") ∷ [])))
unfolding list_http_ingresses filter_and_sort keep is_http_ingress has_http_rule_in
    is_ingress_application_gateway is_application_gateway_ingress parse_string insertion_sort
    insert_by lookup
listed-All = ((refl, tt), tt)

is_service_referenced_any_example :
    is_service_referenced_by_any_ingress by_insertion (caches (named (bytes "i") ∷ [])) service
    ≡ returns (
        any (uses (bytes "w")) (list_http_ingresses by_insertion (caches (named (bytes "i") ∷ []))))
is_service_referenced_any_example =
    is_service_referenced_any by_insertion (caches (named (bytes "i") ∷ [])) service listed-All

distinct : UniqueKeys get_ingress_name (named (bytes "i") ∷ named (bytes "j") ∷ [])
unfolding find_key get_ingress_name
distinct = (refl, (refl, tt))

list_http_ingresses_unique_example :
    list_http_ingresses by_insertion (caches (named (bytes "i") ∷ named (bytes "j") ∷ []))
    ≡ list_http_ingresses by_insertion (caches (named (bytes "j") ∷ named (bytes "i") ∷ []))
list_http_ingresses_unique_example =
    list_http_ingresses_unique by_insertion by_insertion
      (caches (named (bytes "i") ∷ named (bytes "j") ∷ []))
      (caches (named (bytes "j") ∷ named (bytes "i") ∷ [])) refl (Permᴰ.swap refl refl) distinct

sent : (update_ingress_status (some []) true (bytes "10.0.0.1")).0 ≡ none
unfolding update_ingress_status
sent = refl
