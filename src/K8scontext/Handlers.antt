-- ===== src/K8scontext/Handlers.antt =====
-- pkg/k8scontext/handlers.go, ingress_handlers.go and secrets_handlers.go: what is done when an
-- informer reports that an object was added, updated or deleted. The object comes as an interface, so
-- it may be of any type, and after a missed deletion it is a tombstone.
pub mod Sent
pub mod Orderly
pub mod Secrets
use application_gateway_kube.Common.{
  ℕ, ◌+◌, Text, bytes, List, [], ◌∷◌, ◌++◌, Option, none, some, Bool, true, false, not, ◌&&◌, ◌||◌,
  ◌==◌, text_eq, is_nil, GoMap, if◌then◌else◌, Run, returns, panics, ◌>>=◌, deref,
}
use application_gateway_kube.Gateway.{Ingress, IngressTls}
use application_gateway_kube.Kubernetes.{
  Pod, Service, Endpoints, Secret, Store, Fetched, found, absent, unreadable, KeyedStore,
}
use application_gateway_kube.Annotations.{is_application_gateway_ingress}
use application_gateway_kube.Utils.{get_resource_key}
use application_gateway_kube.Utils.Multimap.{
  SetLibrary, insert_pair, clear, erase, contains_pair, contains_value,
}
use application_gateway_kube.K8scontext.Secretstore.{Machine, SecretError, convert_secret, delete}

-- `interface{}` with the types that informers give: objects as pointers, or a tombstone with an object.
pub data Object : Type 0 where
  ingress_object : Ingress → Object
  secret_object : Secret → Object
  pod_object : Pod → Object
  endpoints_object : Endpoints → Object
  service_object : Service → Object
  tombstone : Object → Object

pub data EventType : Type 0 where
  create update deletion : EventType

pub record Event : Type 0 where
  pub event_type : EventType
  pub value : Object

abbrev pub as_ingress : Object → Option Ingress
as_ingress (ingress_object ing) = some ing
as_ingress _ = none

abbrev pub as_secret : Object → Option Secret
as_secret (secret_object sec) = some sec
as_secret _ = none

-- `getNamespace`: the value of an interface that is no pointer has no element, which is a panic.
unfoldable pub get_namespace : Object → Run Text
get_namespace (ingress_object ing) = returns ing.namespace
get_namespace (secret_object sec) = returns sec.namespace
get_namespace (pod_object pod) = returns pod.namespace
get_namespace (endpoints_object endpoints) = returns endpoints.namespace
get_namespace (service_object service) = returns service.namespace
get_namespace (tombstone obj) = panics

abbrev pub listed_in : Text → List Text → Bool
listed_in ns [] = false
listed_in ns (n ∷ names) = n == ns || listed_in ns names

-- `namespacesToIgnore`
abbrev pub namespaces_to_ignore : List Text
namespaces_to_ignore = bytes "kube-system" ∷ bytes "kube-public" ∷ []

-- Neither guard of a handler makes it return.
abbrev pub is_watched : List Text → Text → Bool
is_watched namespaces ns =
    not (listed_in ns namespaces_to_ignore) && (is_nil namespaces || listed_in ns namespaces)

-- `IsIngressApplicationGateway`
unfoldable pub is_ingress_application_gateway : Ingress → Bool
is_ingress_application_gateway ing = (is_application_gateway_ingress ing).0

module _ (sets : SetLibrary Text) (certs : KeyedStore (List ℕ)) where
  -- The part of `Context` that the handlers change: the secrets of each ingress, the certificates,
  -- what was sent on the channel `Work`, and the counter of events.
  pub record Watch : Type 0 where
    pub ingress_secrets_map : GoMap Text sets.Set
    pub certificates : certs.State
    pub work : List Event
    pub event_count : ℕ

  -- What the handlers read: the namespaces to watch, the cache of secrets, the machine at the
  -- conversion of a secret, and `reflect.DeepEqual`.
  pub record Surroundings : Type 0 where
    pub namespaces : List Text
    pub secret_cache : Store Secret
    pub machine : Text → Machine
    pub deep_equal : Object → Object → Bool

  module _ (c : Surroundings) where
    -- The sending of an event, and `IncK8sAPIEventCounter`.
    abbrev pub send : EventType → Object → Watch → Watch
    send kind obj s = record s {
      work = s.work ++ (record { event_type = kind; value = obj } ∷ []);
      event_count = s.event_count + 1;
    }

    -- `addFunc`
    unfoldable pub add_func : Object → Watch → Run Watch
    add_func obj s = do
      ns ← get_namespace obj
      returns (if is_watched c.namespaces ns then send create obj s else s)

    -- `updateFunc`
    unfoldable pub update_func : Object → Object → Watch → Run Watch
    update_func old_obj new_obj s = do
      ns ← get_namespace new_obj
      returns (
          if is_watched c.namespaces ns && not (c.deep_equal old_obj new_obj)
          then send update new_obj s
          else s)

    -- `deleteFunc`
    unfoldable pub delete_func : Object → Watch → Run Watch
    delete_func obj s = do
      ns ← get_namespace obj
      returns (if is_watched c.namespaces ns then send deletion obj s else s)

    abbrev pub link : Text → Text → Watch → Watch
    link ing_key sec_key s = record s {
      ingress_secrets_map = insert_pair sets ing_key sec_key s.ingress_secrets_map;
    }

    abbrev pub link_converted : Text → Text → Option SecretError × certs.State → Watch → Watch
    link_converted ing_key sec_key (none, cs) s =
        link ing_key sec_key (record s { certificates = cs })
    link_converted ing_key sec_key (some err, cs) s = record s { certificates = cs }

    -- A secret that is cached and that no ingress uses yet is converted first.
    abbrev pub link_fetched : Text → Text → Fetched Secret → Watch → Watch
    link_fetched ing_key sec_key (found secret) s =
        if contains_value sets sec_key s.ingress_secrets_map
        then link ing_key sec_key s
        else link_converted ing_key sec_key
            (convert_secret certs (c.machine sec_key) sec_key secret s.certificates) s
    link_fetched ing_key sec_key absent s = link ing_key sec_key s
    link_fetched ing_key sec_key unreadable s = link ing_key sec_key s

    -- The loop over the TLS sections.
    unfoldable pub link_secrets : Text → Text → List IngressTls → Watch → Watch
    link_secrets namespace ing_key [] s = s
    link_secrets namespace ing_key (tls ∷ rest) s =
        let sec_key = get_resource_key namespace tls.secret_name in
        link_secrets namespace ing_key rest (
          if contains_pair sets ing_key sec_key s.ingress_secrets_map
          then s
          else link_fetched ing_key sec_key (c.secret_cache.get_by_key sec_key) s)

    abbrev pub ingress_key : Ingress → Text
    ingress_key ing = get_resource_key ing.namespace ing.name

    -- `ingressAdd`
    unfoldable pub ingress_add : Object → Watch → Run Watch
    ingress_add obj s = do
      ing ← deref (as_ingress obj)
      returns (
          if is_watched c.namespaces ing.namespace && is_ingress_application_gateway ing
          then send create obj (link_secrets ing.namespace (ingress_key ing) ing.tls s)
          else s)

    -- `ingressDelete`: the guards read the namespace before the type is tested, so a tombstone is a
    -- nil dereference, and the code that opens a tombstone is never reached.
    unfoldable pub ingress_delete : Object → Watch → Run Watch
    ingress_delete obj s = do
      ing ← deref (as_ingress obj)
      returns (
          if is_watched c.namespaces ing.namespace && is_ingress_application_gateway ing
          then send deletion obj (record s {
            ingress_secrets_map = (erase sets (ingress_key ing) s.ingress_secrets_map).0;
          })
          else s)

    abbrev pub relink : Ingress → Watch → Watch
    relink ing s =
        if is_nil ing.tls
        then s
        else link_secrets ing.namespace (ingress_key ing) ing.tls
            (record s { ingress_secrets_map = clear sets (ingress_key ing) s.ingress_secrets_map })

    abbrev pub update_ingress : Object → Object → Ingress → Watch → Run Watch
    update_ingress old_obj new_obj ing s = do
      old_ing ← deref (as_ingress old_obj)
      returns (
          if is_ingress_application_gateway ing || is_ingress_application_gateway old_ing
          then send update new_obj (relink ing s)
          else s)

    -- `ingressUpdate`
    unfoldable pub ingress_update : Object → Object → Watch → Run Watch
    ingress_update old_obj new_obj s = do
      ing ← deref (as_ingress new_obj)
      let done = update_ingress old_obj new_obj ing s
      (if is_watched c.namespaces ing.namespace && not (c.deep_equal old_obj new_obj)
          then done
          else returns s)

    abbrev pub secret_key : Secret → Text
    secret_key sec = get_resource_key sec.namespace sec.name

    abbrev pub send_converted :
        EventType → Object → Option SecretError × certs.State → Watch → Watch
    send_converted kind obj (none, cs) s = send kind obj (record s { certificates = cs })
    send_converted kind obj (some err, cs) s = record s { certificates = cs }

    -- What `secretAdd` and `secretUpdate` do with a secret that passes their guards.
    abbrev pub convert_used : EventType → Object → Secret → Watch → Watch
    convert_used kind obj sec s =
        if contains_value sets (secret_key sec) s.ingress_secrets_map
        then send_converted kind obj
            (convert_secret certs (c.machine (secret_key sec)) (secret_key sec) sec s.certificates)
            s
        else s

    -- `secretAdd`
    unfoldable pub secret_add : Object → Watch → Run Watch
    secret_add obj s = do
      sec ← deref (as_secret obj)
      returns (if is_watched c.namespaces sec.namespace then convert_used create obj sec s else s)

    -- `secretUpdate`
    unfoldable pub secret_update : Object → Object → Watch → Run Watch
    secret_update old_obj new_obj s = do
      sec ← deref (as_secret new_obj)
      returns (
          if is_watched c.namespaces sec.namespace && not (c.deep_equal old_obj new_obj)
          then convert_used update new_obj sec s
          else s)

    abbrev pub drop_secret : Object → Secret → Watch → Watch
    drop_secret obj sec s =
        let t = record s { certificates = delete certs (secret_key sec) s.certificates } in
        if contains_value sets (secret_key sec) s.ingress_secrets_map
        then send deletion obj t
        else t

    -- `secretDelete`, with the dereference of `ingressDelete`.
    unfoldable pub secret_delete : Object → Watch → Run Watch
    secret_delete obj s = do
      sec ← deref (as_secret obj)
      returns (if is_watched c.namespaces sec.namespace then drop_secret obj sec s else s)
