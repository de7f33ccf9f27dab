-- ===== src/Examples/K8s.antt =====
-- Examples for pkg/k8scontext.
use application_gateway_kube.Common.{
  ℕ, Text, bytes, List, [], ◌∷◌, none, some, Bool, true, false, not, ◌&&◌, ◌||◌, ◌==◌, text_eq,
  text_beq_iff, if◌then◌else◌, ◌≡◌, refl, arith, GoMap, lookup, insert, lookup-insert, returns,
  OnReturn,
}
use application_gateway_kube.Gateway.{Ingress}
use application_gateway_kube.Kubernetes.{KeyedStore, Secret, found}
use application_gateway_kube.Utils.Multimap.{SetLibrary}
use application_gateway_kube.Annotations.{is_application_gateway_ingress, parse_string}
use application_gateway_kube.K8scontext.Secretstore.{Machine, convert_secret, tls_key, tls_crt}
use application_gateway_kube.K8scontext.Secretstore.Conversion.{IsStored, convert_secret-IsStored}
use application_gateway_kube.K8scontext.Handlers.{
  Watch, Surroundings, Object, pod_object, ingress_object, add_func, update_func, delete_func,
  ingress_add, ingress_update, ingress_delete, secret_add, secret_update, secret_delete, is_watched,
  is_ingress_application_gateway,
}
use application_gateway_kube.K8scontext.Handlers.Sent.{IsOrderly}
use application_gateway_kube.K8scontext.Handlers.Orderly.{handlers-IsOrderly}
use application_gateway_kube.K8scontext.Handlers.Secrets.{IsRelinked, ingress_update-IsRelinked}
use application_gateway_kube.Examples.Samples.{ingress}

abbrev pub has : List Text → Text → Bool
has [] w = false
has (v ∷ s) w = v == w || has s w

abbrev without : Text → List Text → List Text
without v [] = []
without v (w ∷ s) = if v == w then without v s else w ∷ without v s

pub has-without : (v w : Text) (s : List Text) → has (without v s) w ≡ (not (v == w) && has s w)
has-without v w [] = ground arith
has-without v w (x ∷ s) =
    ground (arith, has-without v w s, text_beq_iff v x, text_beq_iff v w, text_beq_iff x w)

-- Sets as lists.
abbrev pub texts : SetLibrary Text
texts = record {
  Set = List Text;
  new_set = [];
  add = λ v s. v ∷ s;
  remove = without;
  clear = λ s. [];
  contains = has;
  contains-new_set = λ w. refl;
  contains-add = λ v w s. refl;
  contains-remove = has-without;
  contains-clear = λ w s. refl;
}

abbrev removed : Text → GoMap Text (List ℕ) → GoMap Text (List ℕ)
removed key [] = []
removed key ((k, v) ∷ m) = if key == k then removed key m else (k, v) ∷ removed key m

lookup-removed :
    (key k : Text) (m : GoMap Text (List ℕ))
    → lookup k (removed key m) ≡ (if key == k then none else lookup k m)
unfolding lookup
lookup-removed key k [] = ground arith
lookup-removed key k ((j, v) ∷ m) =
    ground (arith, lookup-removed key k m, text_beq_iff key j, text_beq_iff key k, text_beq_iff j k)

abbrev stored : KeyedStore (List ℕ)
stored = record {
  State = GoMap Text (List ℕ);
  get = λ key s. lookup key s;
  add = λ key v s. insert key v s;
  update = λ key v s. insert key v s;
  delete = removed;
  get-add = λ key k v s. lookup-insert key k v s;
  get-update = λ key k v s. lookup-insert key k v s;
  get-delete = lookup-removed;
}

abbrev secret : Secret
secret = record {
  namespace = bytes "n";
  name = bytes "t";
  secret_type = bytes "kubernetes.io/tls";
  data_of = (tls_key, 1 ∷ []) ∷ (tls_crt, 2 ∷ []) ∷ [];
}

abbrev computer : Machine
computer = record {
  creates_cert_file = true;
  creates_key_file = true;
  writes = λ d. true;
  openssl = λ crt key. some (9 ∷ []);
}

convert_secret-IsStored_example :
    IsStored stored
      (bytes "n/t")
      (some (9 ∷ []))
      []
      (convert_secret stored computer (bytes "n/t") secret []).0
      (convert_secret stored computer (bytes "n/t") secret []).1
convert_secret-IsStored_example = convert_secret-IsStored stored computer (bytes "n/t") secret []

abbrev watch : Watch texts stored
watch = record { ingress_secrets_map = []; certificates = []; work = []; event_count = 0 }

abbrev surroundings : Surroundings texts stored
surroundings = record {
  namespaces = [];
  secret_cache = record { list = []; get_by_key = λ key. found secret };
  machine = λ key. computer;
  deep_equal = λ a b. false;
}

watch-IsOrderly : IsOrderly texts stored surroundings watch
watch-IsOrderly = record { counted = refl; allowed = tt }

abbrev pod : Object
pod = pod_object (record { namespace = bytes "n"; name = bytes "p"; labels = []; containers = [] })

handlers-IsOrderly_example :
    OnReturn (IsOrderly texts stored surroundings) (add_func texts stored surroundings pod watch)
    × OnReturn
        (IsOrderly texts stored surroundings)
        (update_func texts stored surroundings pod pod watch)
    × OnReturn
        (IsOrderly texts stored surroundings)
        (delete_func texts stored surroundings pod watch)
    × OnReturn
        (IsOrderly texts stored surroundings)
        (ingress_add texts stored surroundings pod watch)
    × OnReturn
        (IsOrderly texts stored surroundings)
        (ingress_update texts stored surroundings pod pod watch)
    × OnReturn
        (IsOrderly texts stored surroundings)
        (ingress_delete texts stored surroundings pod watch)
    × OnReturn
        (IsOrderly texts stored surroundings)
        (secret_add texts stored surroundings pod watch)
    × OnReturn
        (IsOrderly texts stored surroundings)
        (secret_update texts stored surroundings pod pod watch)
    × OnReturn
        (IsOrderly texts stored surroundings)
        (secret_delete texts stored surroundings pod watch)
handlers-IsOrderly_example =
    handlers-IsOrderly texts stored surroundings pod pod watch watch-IsOrderly

abbrev with_tls : Ingress
with_tls = record ingress {
  annotations = (bytes "kubernetes.io/ingress.class", bytes "azure/application-gateway") ∷ [];
  tls = record { hosts = []; secret_name = bytes "t" } ∷ [];
}

watched : is_watched surroundings.namespaces with_tls.namespace ≡ true
watched = refl

accepted : is_ingress_application_gateway with_tls ≡ true
unfolding is_ingress_application_gateway is_application_gateway_ingress parse_string lookup
accepted = refl

ingress_update-IsRelinked_example :
    (t : Watch texts stored) × (ingress_update texts stored surroundings
        (ingress_object with_tls)
        (ingress_object with_tls)
        watch
      ≡ returns t)
    × IsRelinked texts stored surroundings with_tls watch.ingress_secrets_map t.ingress_secrets_map
ingress_update-IsRelinked_example =
    ingress_update-IsRelinked texts stored surroundings with_tls with_tls watch watched refl
      accepted refl
