-- ===== src/Examples/Controller.antt =====
-- Examples for the updates of pkg/controller.
use application_gateway_kube.Common.{
  ℕ, Text, bytes, List, [], ◌∷◌, none, some, Option, true, false, ◌≡◌, ◌↔◌, All, OnReturn, GoMap,
  lookup, text_eq,
}
use application_gateway_kube.Environment.{EnvVariables, get_env}
use application_gateway_kube.Gateway.{FrontendIpConfiguration}
use application_gateway_kube.Controller.Json.{
  Fields, atom, slice, object, empty_slice, item, field, empty_object, delete_keys,
}
use application_gateway_kube.Controller.Json.Clean.{IsClean, delete_keys-IsClean}
use application_gateway_kube.Controller.Prune.{PruneFunc}
use application_gateway_kube.Controller.MutateAppGateway.{
  JsonLibrary, ConfigCache, Answers, Outcome, keys_to_delete_for_cache, mutate_app_gateway,
}
use application_gateway_kube.Controller.MutateAppGateway.Cached.{
  IsCached, mutate_app_gateway-IsCached,
}
use application_gateway_kube.Controller.MutateAks.{PublicIps, get_ips_from_app_gateway}
use application_gateway_kube.Controller.MutateAks.Addresses.{
  IsSource, get_ips_from_app_gateway-IsSource,
}

abbrev document : Fields
document = field (bytes "Etag") (atom (bytes "1")) (
    field (bytes "list")
      (slice (item (object (field (bytes "etag") (atom (bytes "2")) empty_object)) empty_slice))
      empty_object)

delete_keys-IsClean_example :
    All
      (λ key. IsClean key (delete_keys keys_to_delete_for_cache document))
      keys_to_delete_for_cache
delete_keys-IsClean_example = delete_keys-IsClean keys_to_delete_for_cache document

abbrev json : JsonLibrary ℕ
json = record { document = λ config. some document; print = λ fields. some (bytes "{}") }

abbrev env : EnvVariables
env = get_env (λ name. none) (λ value. false) (λ value. false)

abbrev public_ip : FrontendIpConfiguration
public_ip = record {
  id = some (bytes "/ip");
  properties = some (record {
    private_ip_address = none;
    public_ip_address = some (record { id = some (bytes "/public") });
  });
}

abbrev answers : Answers ℕ Text
answers = record {
  env = env;
  get_gateway = some 1;
  ports_of = λ config. some [];
  ip_configurations_of = λ config. some (public_ip ∷ []);
  ingresses = [];
  azure_prohibited_targets = [];
  istio_gateways = [];
  istio_virtual_services = [];
  has_agic_pod = false;
  build = λ input config. (none, 2);
  update_gateway = λ config. true;
}

abbrev cache : ConfigCache
cache = record { present = true; content = [] }

mutate_app_gateway-IsCached_example :
    OnReturn
      (λ (out : Option (List PruneFunc) × Outcome ℕ Text). IsCached json answers cache out.1)
      (mutate_app_gateway json answers cache none)
mutate_app_gateway-IsCached_example = mutate_app_gateway-IsCached json answers cache none

-- A configuration with the same ID that has a private address.
abbrev private_ip : FrontendIpConfiguration
private_ip = record {
  id = some (bytes "/ip");
  properties =
      some (record { private_ip_address = some (bytes "10.0.0.4"); public_ip_address = none });
}

-- Azure answers with an error.
abbrev public_ips : PublicIps
public_ips id = none

get_ips_from_app_gateway-IsSource_example :
    OnReturn
      (λ (found : GoMap Text Text).
        (id ip : Text)
        → (lookup id found ≡ some ip) ↔ IsSource public_ips id ip (public_ip ∷ private_ip ∷ []))
      (get_ips_from_app_gateway public_ips (some (public_ip ∷ private_ip ∷ [])))
get_ips_from_app_gateway-IsSource_example =
    get_ips_from_app_gateway-IsSource public_ips (public_ip ∷ private_ip ∷ [])
