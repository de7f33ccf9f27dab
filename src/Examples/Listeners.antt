-- ===== src/Examples/Listeners.antt =====
-- Examples for the listeners of pkg/appgw.
use application_gateway_kube.Common.{
  ℕ, Text, bytes, List, [], ◌∷◌, some, true, false, ◌==◌, nat_eq, nat_beq_iff, ◌≡◌, refl, arith,
  Bool-cases, inl, inr, Bool, returns, GoMap, lookup, is_nil, if◌then◌else◌, text_eq,
}
use application_gateway_kube.Common.Sorting.{as_listed, by_insertion}
use application_gateway_kube.Gateway.{FrontendIpConfiguration, FrontendPort, HttpListener, Ingress}
use application_gateway_kube.Controller.Prune.{lookup_ip_configuration_by_type}
use application_gateway_kube.Appgw.Collections.{BuilderContext}
use application_gateway_kube.Appgw.Names.{ListenerIdentifier}
use application_gateway_kube.Appgw.Listeners.Configs.{Configs, get_listener_configs}
use application_gateway_kube.Appgw.Listeners.Provided.{HasCertificate}
use application_gateway_kube.Appgw.Listeners.Secured.{AreSecured, get_listener_configs-AreSecured}
use application_gateway_kube.Appgw.Certificates.Certified.{
  IsCertified, get_listener_configs-AreCertified,
}
use application_gateway_kube.Appgw.Frontend.{FrontendBuilder, get_listeners}
use application_gateway_kube.Appgw.Frontend.Served.{Fits}
use application_gateway_kube.Appgw.Frontend.Returning.{HasIp, get_listeners-Returns}
use application_gateway_kube.Examples.Samples.{ingress, gateway}

abbrev secured_ingress : Ingress
secured_ingress = record ingress {
  annotations = (bytes "appgw.ingress.kubernetes.io/ssl-redirect", bytes "true") ∷ [];
  tls = record { hosts = []; secret_name = bytes "s" } ∷ [];
}

abbrev pub pfx : Text → List ℕ
pfx key = if key == bytes "n/s" then 1 ∷ [] else []

abbrev digest : Text → List ℕ
digest text = []

abbrev hash : ListenerIdentifier → Text
hash id = id.host_name

abbrev configs : Configs
configs =
    get_listener_configs pfx (λ raw. raw) digest [] hash as_listed [] true (secured_ingress ∷ [])

get_listener_configs-AreSecured_example :
    AreSecured pfx (λ raw. raw) (HasCertificate pfx (λ raw. raw)) configs × (is_nil configs ≡ false)
get_listener_configs-AreSecured_example =
    get_listener_configs-AreSecured pfx (λ raw. raw) digest [] hash as_listed [] true
      (secured_ingress ∷ [])

abbrev pub port : FrontendPort
port = record { name = bytes "p"; id = bytes "/p"; port = some 80 }

abbrev pub ports : GoMap ℕ FrontendPort
ports = (80, port) ∷ []

abbrev pub ip : FrontendIpConfiguration
ip = record {
  id = some (bytes "/ip");
  properties = some (record {
    private_ip_address = some (bytes "10.0.0.4");
    public_ip_address = some (record { id = some (bytes "/public") });
  });
}

abbrev pub ips : List FrontendIpConfiguration
ips = ip ∷ []

abbrev pub builder : FrontendBuilder
builder = record {
  agw = record { subscription_id = bytes "s"; resource_group = bytes "r"; app_gw_name = bytes "g" };
  frontend_ip_configurations = some ips;
  is_v1 = false;
  md5_sum = digest;
  ag_prefix = [];
  hash_code = hash;
  decimal = λ number. [];
}

abbrev pub greenfield : BuilderContext
greenfield = record { enable_brownfield_deployment = false; prohibited_targets = [] }

pub ports-number : (n : ℕ) (p : FrontendPort) → lookup n ports ≡ some p → p.port ≡ some n
unfolding lookup
ports-number n p h = elim (Bool-cases (80 == n)) [
  | inl here ↦ ground (arith, nat_beq_iff 80 n)
  | inr off ↦ ground arith
]

pub has_ip : (is_private : Bool) → HasIp builder ips is_private
unfolding lookup_ip_configuration_by_type
has_ip true = record { ip = ip; ip_id = bytes "/ip"; found = refl; has_id = refl }
has_ip false = record { ip = ip; ip_id = bytes "/ip"; found = refl; has_id = refl }

get_listeners-Returns_example :
    (out : List HttpListener × List FrontendPort) × (get_listeners builder as_listed by_insertion
        greenfield gateway configs ports
      ≡ returns out)
    × Fits builder false out
get_listeners-Returns_example =
    get_listeners-Returns builder as_listed by_insertion greenfield gateway configs ports ips refl
      refl has_ip ports-number

get_listener_configs-AreCertified_example :
    AreSecured pfx
      (λ raw. raw)
      (IsCertified pfx
        (λ raw. raw)
        as_listed
        by_insertion
        greenfield
        gateway
        (secured_ingress ∷ []))
      configs
get_listener_configs-AreCertified_example =
    get_listener_configs-AreCertified pfx (λ raw. raw) as_listed by_insertion greenfield gateway
      (secured_ingress ∷ []) digest [] hash [] true refl
