-- ===== src/Examples/Utils.antt =====
-- Examples for pkg/utils, pkg/annotations, pkg/controller, and the names of pkg/appgw.
use application_gateway_kube.Common.{
  ℕ, Text, bytes, List, [], ◌∷◌, none, some, Bool, true, false, not, ◌&&◌, ◌||◌, ◌==◌, nat_eq,
  text_eq, nat_eq, if◌then◌else◌, ◌≡◌, ◌↔◌, refl, arith, returns, lookup, GoMap,
}
use application_gateway_kube.Common.Split.{Lacks}
use application_gateway_kube.Utils.Multimap.{SetLibrary}
use application_gateway_kube.Utils.Multimap.Invariant.{IsMap}
use application_gateway_kube.Gateway.{Ingress}
use application_gateway_kube.Annotations.{atoi, digits_value, parse_int32, backend_protocol_key}
use application_gateway_kube.Annotations.Values.{IsRead, parse_int32-IsRead}
use application_gateway_kube.Controller.Prune.{PruneContext, PruneFunc, PruneEvent, prune_ingress}
use application_gateway_kube.Controller.Prune.Accepted.{
  All2, IsPruned, those, accepted, prune_ingress_brownfield,
}
use application_gateway_kube.Appgw.Identifier.{
  Identifier, address_pool_id, frontend_ip_id, frontend_port_id, ssl_certificate_id,
  http_settings_id, url_path_map_id, listener_id, redirect_configuration_id, probe_id,
  request_routing_rule_id, resource_ref,
}
use application_gateway_kube.Appgw.Identifier.Laws.{resource_ref-Refers_all}
use application_gateway_kube.Appgw.Names.{ListenerIdentifier}
use application_gateway_kube.Brownfield.Blacklisted.References.{Refers}
use application_gateway_kube.Common.{All}
use application_gateway_kube.Gateway.{UrlPathMap, FrontendIpConfiguration}
use application_gateway_kube.Appgw.Validators.{validate_url_path_maps}
use application_gateway_kube.Appgw.Validators.Verdicts.{IsValidPathMap, validate_url_path_maps_iff}
use application_gateway_kube.Examples.Samples.{prohibited, ingress, path_map, ref}

abbrev has : List ℕ → ℕ → Bool
has [] w = false
has (v ∷ s) w = v == w || has s w

abbrev without : ℕ → List ℕ → List ℕ
without v [] = []
without v (w ∷ s) = if v == w then without v s else w ∷ without v s

has-without : (v w : ℕ) (s : List ℕ) → has (without v s) w ≡ (not (v == w) && has s w)
has-without v w [] = ground arith
has-without v w (x ∷ s) = ground (arith, has-without v w s)

abbrev lists : SetLibrary ℕ
lists = record {
  Set = List ℕ;
  new_set = [];
  add = λ v s. v ∷ s;
  remove = without;
  clear = λ s. [];
  contains = has;
  contains-new_set = λ w. refl;
  contains-add = λ v w s. refl;
  contains-remove = has-without;
  contains-clear = λ w s. refl;
}

abbrev pairs : GoMap ℕ (List ℕ)
pairs = (1, 5 ∷ []) ∷ (2, 6 ∷ 5 ∷ []) ∷ []

one_entry : IsMap {K = ℕ} lists pairs
unfolding lookup
one_entry = (refl, (refl, tt))

abbrev annotated : Ingress
annotated = record ingress {
  annotations = (bytes "timeout", bytes "-12") ∷ (backend_protocol_key, bytes "HTTPS") ∷ [];
}

parse_int32-IsRead_example :
    IsRead annotated (bytes "timeout") (parse_int32 annotated (bytes "timeout"))
parse_int32-IsRead_example = parse_int32-IsRead annotated (bytes "timeout")

present : lookup (bytes "timeout") annotated.annotations ≡ some (bytes "-12")
unfolding lookup
present = refl

read : atoi (bytes "-12") ≡ some (true, 12)
unfolding atoi digits_value
read = refl

abbrev prune_context : PruneContext
prune_context = record {
  frontend_ip_configurations = some [];
  enable_brownfield_deployment = true;
  use_private_ip = [];
  prohibited_targets = prohibited ∷ [];
  has_agic_pod = true;
}

prune_ingress_brownfield_example :
    (pruned : List Ingress) × All2 (IsPruned (prohibited ∷ [])) (ingress ∷ []) pruned
    × (fs : List PruneFunc) × (events : List PruneEvent) × (prune_ingress prune_context none
          (ingress ∷ [])
        ≡ returns (some fs, those (accepted prune_context []) pruned, events))
prune_ingress_brownfield_example =
    prune_ingress_brownfield prune_context [] (ingress ∷ []) refl refl

abbrev agw : Identifier
agw = record { subscription_id = bytes "s"; resource_group = bytes "g"; app_gw_name = bytes "w" }

no_slash : Lacks b'/' (bytes "p")
no_slash = (λ e. cc, tt)

resource_ref-Refers_all_example :
    Refers (resource_ref (address_pool_id agw (bytes "p"))) (bytes "p")
    × Refers (resource_ref (frontend_ip_id agw (bytes "p"))) (bytes "p")
    × Refers (resource_ref (frontend_port_id agw (bytes "p"))) (bytes "p")
    × Refers (resource_ref (ssl_certificate_id agw (bytes "p"))) (bytes "p")
    × Refers (resource_ref (http_settings_id agw (bytes "p"))) (bytes "p")
    × Refers (resource_ref (url_path_map_id agw (bytes "p"))) (bytes "p")
    × Refers (resource_ref (listener_id agw (bytes "p"))) (bytes "p")
    × Refers (resource_ref (redirect_configuration_id agw (bytes "p"))) (bytes "p")
    × Refers (resource_ref (probe_id agw (bytes "p"))) (bytes "p")
    × Refers (resource_ref (request_routing_rule_id agw (bytes "p"))) (bytes "p")
resource_ref-Refers_all_example = resource_ref-Refers_all agw (bytes "p") no_slash

abbrev zeros : Text → List ℕ
zeros s = 0 ∷ 0 ∷ 0 ∷ 0 ∷ 0 ∷ 0 ∷ 0 ∷ 0 ∷ 0 ∷ 0 ∷ 0 ∷ 0 ∷ 0 ∷ 0 ∷ 0 ∷ 0 ∷ []

abbrev long_name : Text
long_name =
    bytes
      "fl-0123456789012345678901234567890123456789012345678901234567890123456789012345678901234567890"

abbrev fresh : ListenerIdentifier
fresh = record {
  frontend_port = 80;
  host_name = [];
  host_names = [] ∷ [] ∷ [] ∷ [] ∷ [] ∷ [];
  use_private_ip = false;
}

abbrev hosts : List Text
hosts = [] ∷ bytes "a" ∷ bytes "b" ∷ []

abbrev no_target : UrlPathMap
no_target = record path_map { path_rules = some [] }

validate_url_path_maps_iff_example :
    (validate_url_path_maps (some (no_target ∷ [])) ≡ returns none)
    ↔ All IsValidPathMap (no_target ∷ [])
validate_url_path_maps_iff_example = validate_url_path_maps_iff (no_target ∷ [])

abbrev public_ip : FrontendIpConfiguration
public_ip = record {
  id = none;
  properties = some (record { private_ip_address = none; public_ip_address = ref (bytes "/i") });
}
