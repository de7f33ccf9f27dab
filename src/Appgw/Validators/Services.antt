-- ===== src/Appgw/Validators/Services.antt =====
-- pkg/appgw/validators.go and configbuilder.go: the validation of the services that ingresses name, and the
-- validations before and after a build. The events that are recorded are an output.
use application_gateway_kube.Common.{
  ℕ, ◌+◌, Text, bytes, List, [], ◌∷◌, ◌++◌, Option, none, some, GoSet, insert, member, text_eq,
  if◌then◌else◌, Run, returns, ◌>>=◌,
}
use application_gateway_kube.Common.Order.{MapOrder}
use application_gateway_kube.Gateway.{IngressBackend, Ingress, UrlPathMap, ApplicationGateway}
use application_gateway_kube.Kubernetes.{Service}
use application_gateway_kube.Appgw.Validators.{ValidationError, validate_url_path_maps}
use application_gateway_kube.Appgw.Backends.{
  BackendIdentifier, service_key, default_backends, rule_backends,
}

-- The event about an ingress that names a service that is not there.
pub record ServiceEvent : Type 0 where
  pub ingress : Ingress
  pub key : Text

-- `newServiceSet`, of which only the keys are read.
unfoldable pub new_service_set : List Service → GoSet Text → GoSet Text
new_service_set [] m = m
new_service_set (service ∷ services) m =
    new_service_set services (insert (service.namespace ++ (bytes "/" ++ service.name)) tt m)

-- The paths of an ingress without a default backend are not looked at.
abbrev pub checked_backends : ℕ → Ingress → Option IngressBackend → List BackendIdentifier
checked_backends i ing none = []
checked_backends i ing (some backend) =
    default_backends i ing (some backend) ++ rule_backends i ing 0 ing.rules

unfoldable pub checked_backends_from : ℕ → List Ingress → List BackendIdentifier
unfolding rule_backends
checked_backends_from i [] = []
checked_backends_from i (ing ∷ ings) =
    checked_backends i ing ing.backend ++ checked_backends_from (i + 1) ings

-- The loop over the backends.
unfoldable pub missing_services : GoSet Text → List BackendIdentifier → List ServiceEvent
missing_services services [] = []
missing_services services (be ∷ bes) =
    let rest = missing_services services bes in
    if member (service_key be) services
    then rest
    else record { ingress = be.ingress; key = service_key be } ∷ rest

-- `validateServiceDefinition`, which has no error.
unfoldable pub validate_service_definition :
    MapOrder → List Ingress → List Service → List ServiceEvent
unfolding checked_backends_from missing_services new_service_set
validate_service_definition order ings services =
    missing_services (new_service_set services [])
      (order.iterate BackendIdentifier (checked_backends_from 0 ings))

-- What a validation records, and its error.
abbrev pub Verdict : Type 0
Verdict = List ServiceEvent × Option ValidationError

abbrev pub and_then : Verdict → Run Verdict → Run Verdict
and_then (events, some err) rest = returns (events, some err)
and_then (events, none) rest = do (more, err) ← rest; returns (events ++ more, err)

-- `runValidationFunctions`: the first error ends it.
unfoldable pub run_validation_functions :
    List (ApplicationGateway → Run Verdict) → ApplicationGateway → Run Verdict
run_validation_functions [] gw = returns ([], none)
run_validation_functions (f ∷ fs) gw = do
  verdict ← f gw
  and_then verdict (run_validation_functions fs gw)

abbrev pub without_events : Option (List UrlPathMap) → Run Verdict
without_events maps = do err ← validate_url_path_maps maps; returns ([], err)

-- `PreBuildValidate`
unfoldable pub pre_build_validate :
    MapOrder → List Ingress → List Service → ApplicationGateway → Run Verdict
unfolding run_validation_functions validate_service_definition
pre_build_validate order ings services gw =
    run_validation_functions
      ((λ config. returns (validate_service_definition order ings services, none)) ∷ []) gw

-- `PostBuildValidate`
unfoldable pub post_build_validate : ApplicationGateway → Run Verdict
unfolding run_validation_functions
post_build_validate gw =
    run_validation_functions ((λ config. without_events config.url_path_maps) ∷ []) gw
