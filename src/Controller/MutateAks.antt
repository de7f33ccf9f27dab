-- ===== src/Controller/MutateAks.antt =====
-- pkg/controller/mutate_aks.go: the addresses of the gateway in the status of the ingresses. The answers
-- of Azure about public addresses are a parameter, as is whether the API server takes a status.
pub mod Sources
pub mod Addresses
use application_gateway_kube.Common.{
  Text, bytes, List, [], ◌∷◌, ◌++◌, Option, none, some, Bool, true, false, ◌&&◌, ◌||◌, ◌==◌,
  text_eq, GoMap, lookup, insert, member, if◌then◌else◌, Run, returns, panics, ◌>>=◌, deref,
}
use application_gateway_kube.Gateway.{Ingress, FrontendIpConfiguration, FrontendIpProperties}
use application_gateway_kube.Annotations.{use_private_ip}
use application_gateway_kube.Controller.Prune.{
  PruneContext, PruneFunc, lookup_ip_configuration_by_type, prune_ingress,
}

-- `GetPublicIP`: an error, or a public address, in which `IPAddress` may be nil.
abbrev pub PublicIps : Type 0
PublicIps = Text → Option (Option Text)

abbrev pub address_of : Option (Option Text) → Run (Option Text)
address_of none = returns none
address_of (some ip) = do address ← deref ip; returns (some address)

-- `getPublicIPAddress`
unfoldable pub get_public_ip_address : PublicIps → Text → Run (Option Text)
get_public_ip_address public_ips id = address_of (public_ips id)

abbrev pub public_id : FrontendIpProperties → Run Text
public_id props = do ref ← deref props.public_ip_address; deref ref.id

abbrev pub resolve : PublicIps → FrontendIpProperties → Option Text → Run (Option Text)
resolve public_ips props (some private_ip) = returns (some private_ip)
resolve public_ips props none = do id ← public_id props; get_public_ip_address public_ips id

abbrev pub note : Text → Option Text → GoMap Text Text → GoMap Text Text
note id none ips = ips
note id (some ip) ips = insert id ip ips

abbrev pub resolve_configuration : PublicIps → FrontendIpConfiguration → Run (Option Text)
resolve_configuration public_ips conf = do
  props ← deref conf.properties
  resolve public_ips props props.private_ip_address

-- The body of the loop of `getIPsFromAppGateway`: an ID that is known is skipped.
abbrev pub collect_one :
    PublicIps → FrontendIpConfiguration → Text → GoMap Text Text → Run (GoMap Text Text)
collect_one public_ips conf id ips =
    let found = (do ip ← resolve_configuration public_ips conf; returns (note id ip ips)) in
    if member id ips then returns ips else found

unfoldable pub collect_ips :
    PublicIps → List FrontendIpConfiguration → GoMap Text Text → Run (GoMap Text Text)
unfolding get_public_ip_address
collect_ips public_ips [] ips = returns ips
collect_ips public_ips (conf ∷ confs) ips = do
  id ← deref conf.id
  next ← collect_one public_ips conf id ips
  collect_ips public_ips confs next

-- `getIPsFromAppGateway`
unfoldable pub get_ips_from_app_gateway :
    PublicIps → Option (List FrontendIpConfiguration) → Run (GoMap Text Text)
unfolding collect_ips
get_ips_from_app_gateway public_ips configs = do
  confs ← deref configs
  collect_ips public_ips confs []

-- An address that is to be set in the status of an ingress.
pub record StatusUpdate : Type 0 where
  pub ingress : Ingress
  pub address : Text

abbrev pub status_of_ip : Ingress → Option Text → List StatusUpdate
status_of_ip ing none = []
status_of_ip ing (some address) = record { ingress = ing; address = address } ∷ []

abbrev pub status_of :
    GoMap Text Text → Ingress → Option FrontendIpConfiguration → Run (List StatusUpdate)
status_of ips ing none = returns []
status_of ips ing (some conf) = do id ← deref conf.id; returns (status_of_ip ing (lookup id ips))

-- `updateIngressStatus`: the call of `UpdateIngressStatus`, if there is one.
unfoldable pub update_ingress_status :
    Text
    → Option (List FrontendIpConfiguration)
    → GoMap Text Text
    → Ingress
    → Run (List StatusUpdate)
update_ingress_status env_use_private_ip configs ips ing = do
  confs ← deref configs
  let wants_private = (use_private_ip ing).0 || env_use_private_ip == bytes "true"
  status_of ips ing (lookup_ip_configuration_by_type confs wants_private)

-- The loop of `MutateAKS` over the ingresses.
unfoldable pub update_all :
    Text
    → Option (List FrontendIpConfiguration)
    → GoMap Text Text
    → List Ingress
    → Run (List StatusUpdate)
update_all env_use_private_ip configs ips [] = returns []
update_all env_use_private_ip configs ips (ing ∷ ings) = do
  first ← update_ingress_status env_use_private_ip configs ips ing
  rest ← update_all env_use_private_ip configs ips ings
  returns (first ++ rest)

-- `MutateAKS` after `getAppGw`: the filters that are fixed, and the updates.
unfoldable pub mutate_aks :
    PublicIps
    → PruneContext
    → Option (List PruneFunc)
    → List Ingress
    → Run (Option (List PruneFunc) × List StatusUpdate)
unfolding get_ips_from_app_gateway update_all
mutate_aks public_ips ctx once ings = do
  ips ← get_ips_from_app_gateway public_ips ctx.frontend_ip_configurations
  (funcs, kept, events) ← prune_ingress ctx once ings
  updates ← update_all ctx.use_private_ip ctx.frontend_ip_configurations ips kept
  returns (funcs, updates)
