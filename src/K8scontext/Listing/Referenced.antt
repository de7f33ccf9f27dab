-- ===== src/K8scontext/Listing/Referenced.antt =====
-- pkg/k8scontext/context.go: which services the ingresses use.
use application_gateway_kube.Common.{
  Text, List, [], ◌∷◌, Option, none, some, Bool, true, false, ◌||◌, ◌==◌, text_eq, if◌then◌else◌,
  returns, ◌≡◌, refl, arith, All, any, inl, inr, Option-cases,
}
use application_gateway_kube.Common.Order.{Sort}
use application_gateway_kube.Gateway.{Ingress, IngressRule, HttpIngressPath, HttpIngressRuleValue}
use application_gateway_kube.Kubernetes.{Service}
use application_gateway_kube.K8scontext.Listing.{
  Caches, is_set, slice, names_service, rules_name_service, ingresses_name_service,
  list_http_ingresses, is_service_referenced_by_any_ingress,
}

abbrev pub http_paths : Option HttpIngressRuleValue → List HttpIngressPath
http_paths none = []
http_paths (some http) = slice http.paths

-- A path of a rule of the ingress has the service as its backend.
abbrev pub uses : Text → Ingress → Bool
uses name ing =
    any (λ rule. any (λ path. path.backend.service_name == name) (http_paths rule.http)) ing.rules

abbrev pub HasHttp : IngressRule → Type 0
HasHttp rule = is_set rule.http ≡ true

names_service-any :
    (name : Text) (paths : List HttpIngressPath)
    → names_service name paths ≡ any (λ path. path.backend.service_name == name) paths
unfolding names_service
names_service-any name [] = refl
names_service-any name (path ∷ paths) = rw (names_service-any name paths) refl

if_or : (a b : Bool) → (if a then returns true else returns b) ≡ returns (a || b)
if_or true b = refl
if_or false b = refl

rules_name_service-any :
    (name : Text) (rules : List IngressRule)
    → All HasHttp rules
    → rules_name_service name rules
      ≡ returns (
          any
            (λ rule. any (λ path. path.backend.service_name == name) (http_paths rule.http))
            rules)
unfolding rules_name_service
rules_name_service-any name [] h = refl
rules_name_service-any name (rule ∷ rules) h = elim (Option-cases rule.http) [
  | inl nothing ↦ absurd (ground arith)
  | inr (http, e) ↦
      rw (e, rules_name_service-any name rules h.1, names_service-any name (slice http.paths))
        (if_or _ _)
]

ingresses_name_service-any :
    (name : Text) (ings : List Ingress)
    → All (λ ing. All HasHttp ing.rules) ings
    → ingresses_name_service name ings ≡ returns (any (uses name) ings)
unfolding ingresses_name_service
ingresses_name_service-any name [] h = refl
ingresses_name_service-any name (ing ∷ ings) h =
    rw (rules_name_service-any name ing.rules h.0, ingresses_name_service-any name ings h.1)
      (if_or _ _)

-- Where every rule of the listed ingresses has an HTTP part, the test does not panic, and tells
-- whether some path of a listed ingress, in whatever namespace, names the service.
pub is_service_referenced_any :
    (sorter : Sort) (c : Caches) (service : Service)
    → All (λ ing. All HasHttp ing.rules) (list_http_ingresses sorter c)
    → is_service_referenced_by_any_ingress sorter c service
      ≡ returns (any (uses service.name) (list_http_ingresses sorter c))
unfolding is_service_referenced_by_any_ingress
is_service_referenced_any sorter c service h =
    ingresses_name_service-any service.name (list_http_ingresses sorter c) h
