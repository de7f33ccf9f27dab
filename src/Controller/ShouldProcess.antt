-- ===== src/Controller/ShouldProcess.antt =====
-- pkg/controller/should_process.go: which events lead to an update.
use application_gateway_kube.Common.{
  Text, bytes, ◌++◌, Option, none, some, Bool, true, false, ◌&&◌, ◌==◌, text_eq, if◌then◌else◌, Run,
  returns, ◌>>=◌,
}
use application_gateway_kube.Common.Order.{Sort}
use application_gateway_kube.Kubernetes.{Endpoints}
use application_gateway_kube.Utils.Multimap.{SetLibrary}
use application_gateway_kube.K8scontext.Handlers.{
  Object, ingress_object, secret_object, pod_object, endpoints_object, service_object, tombstone,
  Event,
}
use application_gateway_kube.K8scontext.Listing.{
  Caches, Subsets, is_pod_referenced_by_any_ingress, is_endpoint_referenced_by_any_ingress,
}

abbrev pub unused_reason : Text → Text → Text → Text
unused_reason kind namespace name =
    kind
    ++ (bytes " " ++ (namespace ++ (bytes "/" ++ (name ++ bytes " is not used by any Ingress"))))

module _ (sets : SetLibrary Text) (subsets : Subsets sets) (sorter : Sort) (c : Caches) where
  abbrev pub process_endpoints : Endpoints → Run (Bool × Option Text)
  process_endpoints endpoints =
      let used = (do
        referenced ← is_endpoint_referenced_by_any_ingress sorter c endpoints
        returns (
          referenced,
          some (unused_reason (bytes "endpoint") endpoints.namespace endpoints.name),
        )) in
      if endpoints.namespace == bytes "default" && endpoints.name == bytes "aad-pod-identity-mic"
      then returns (false, none)
      else used

  -- The two type tests of `ShouldProcess` on the value of an event.
  unfoldable pub should_process_value : Object → Run (Bool × Option Text)
  should_process_value (pod_object pod) = do
    referenced ← is_pod_referenced_by_any_ingress sets subsets sorter c pod
    returns (referenced, some (unused_reason (bytes "pod") pod.namespace pod.name))
  should_process_value (endpoints_object endpoints) = process_endpoints endpoints
  should_process_value (ingress_object ing) = returns (true, none)
  should_process_value (secret_object sec) = returns (true, none)
  should_process_value (service_object service) = returns (true, none)
  should_process_value (tombstone obj) = returns (true, none)

  -- `ShouldProcess`
  unfoldable pub should_process : Event → Run (Bool × Option Text)
  unfolding should_process_value
  should_process event = should_process_value event.value
