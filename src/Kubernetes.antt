-- ===== src/Kubernetes.antt =====
-- The objects of Kubernetes that the controller reads, beside the ingresses: structs of its API, with
-- the fields in use, and the two stores of the library client-go, which are parameters.
use application_gateway_kube.Common.{
  ℕ, Text, List, Option, none, some, GoMap, ◌==◌, text_eq, if◌then◌else◌, ◌≡◌,
}
use application_gateway_kube.Gateway.{IntOrString}

pub record ServicePort : Type 0 where
  pub name : Text
  pub protocol : Text
  pub port : ℕ
  pub target_port : IntOrString

pub record Service : Type 0 where
  pub namespace : Text
  pub name : Text
  pub selector : GoMap Text Text
  pub ports : List ServicePort

pub record ContainerPort : Type 0 where
  pub name : Text
  pub container_port : ℕ

pub record HttpGetAction : Type 0 where
  pub host : Text
  pub path : Text
  pub port : IntOrString
  pub scheme : Text

-- A probe of a container; `HTTPGet` may be nil.
pub record ContainerProbe : Type 0 where
  pub http_get : Option HttpGetAction
  pub timeout_seconds : ℕ
  pub period_seconds : ℕ
  pub failure_threshold : ℕ

pub record Container : Type 0 where
  pub ports : List ContainerPort
  pub readiness_probe : Option ContainerProbe
  pub liveness_probe : Option ContainerProbe

pub record Pod : Type 0 where
  pub namespace : Text
  pub name : Text
  pub labels : GoMap Text Text
  pub containers : List Container

pub record EndpointAddress : Type 0 where
  pub hostname : Text
  pub ip : Text

pub record EndpointPort : Type 0 where
  pub name : Text
  pub port : ℕ
  pub protocol : Text

pub record EndpointSubset : Type 0 where
  pub addresses : List EndpointAddress
  pub not_ready_addresses : List EndpointAddress
  pub ports : List EndpointPort

pub record Endpoints : Type 0 where
  pub namespace : Text
  pub name : Text
  pub subsets : List EndpointSubset

pub record Secret : Type 0 where
  pub namespace : Text
  pub name : Text
  pub secret_type : Text
  pub data_of : GoMap Text (List ℕ)

-- `cache.Store`: what it lists, and what it has under a key, or that reading it fails.
pub data Fetched (A : Type 0) : Type 0 where
  found : A → Fetched A
  absent : Fetched A
  unreadable : Fetched A

pub record Store (A : Type 0) : Type 0 where
  pub list : List A
  pub get_by_key : Text → Fetched A

-- `cache.ThreadSafeStore`, with the laws of a map.
pub record KeyedStore (V : Type 0) : Type 1 where
  pub State : Type 0
  pub get : Text → State → Option V
  pub add : Text → V → State → State
  pub update : Text → V → State → State
  pub delete : Text → State → State
  pub get-add :
      (key k : Text) (v : V) (s : State)
      → get k (add key v s) ≡ (if key == k then some v else get k s)
  pub get-update :
      (key k : Text) (v : V) (s : State)
      → get k (update key v s) ≡ (if key == k then some v else get k s)
  pub get-delete :
      (key k : Text) (s : State) → get k (delete key s) ≡ (if key == k then none else get k s)
