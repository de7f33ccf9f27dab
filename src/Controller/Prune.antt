-- ===== src/Controller/Prune.antt =====
-- pkg/controller/prune.go: which ingresses are given to the config builder. The events that are
-- recorded are an output. The list of filters, which `sync.Once` fills, is a state.
pub mod Accepted
use application_gateway_kube.Common.{
  Text, bytes, List, [], ◌∷◌, ◌++◌, Option, none, some, Bool, true, false, not, ◌&&◌, ◌||◌, ◌==◌,
  text_eq, Run, returns, panics, ◌>>=◌, deref, is_nil, if◌then◌else◌,
}
use application_gateway_kube.Gateway.{FrontendIpConfiguration, FrontendIpProperties, Ingress}
use application_gateway_kube.Brownfield.Targets.{ProhibitedTarget}
use application_gateway_kube.Brownfield.Ingress.{prune_ingress_rules}
use application_gateway_kube.Annotations.{use_private_ip, is_ssl_redirect}

abbrev is_set : {A : Type 0} → Option A → Bool
is_set none = false
is_set (some a) = true

abbrev pub has_ip : Bool → Option FrontendIpProperties → Bool
has_ip private_ip none = false
has_ip private_ip (some props) =
    (private_ip && is_set props.private_ip_address)
    || (not private_ip && is_set props.public_ip_address)

-- `LookupIPConfigurationByType`
unfoldable pub lookup_ip_configuration_by_type :
    List FrontendIpConfiguration → Bool → Option FrontendIpConfiguration
lookup_ip_configuration_by_type [] private_ip = none
lookup_ip_configuration_by_type (ip ∷ ips) private_ip =
    let rest = lookup_ip_configuration_by_type ips private_ip in
    if has_ip private_ip ip.properties then some ip else rest

pub data Reason : Type 0 where
  no_private_ip_error redirect_with_no_tls : Reason

pub data PruneEvent : Type 0 where
  on_ingress : Ingress → Reason → PruneEvent
  on_agic_pod : Reason → PruneEvent

pub data PruneFunc : Type 0 where
  prohibited_ingress no_private_ip redirect_without_tls : PruneFunc

-- What the filters read: the gateway's IP configurations, the environment, the prohibited targets,
-- and whether the controller knows its own pod.
pub record PruneContext : Type 0 where
  pub frontend_ip_configurations : Option (List FrontendIpConfiguration)
  pub enable_brownfield_deployment : Bool
  pub use_private_ip : Text
  pub prohibited_targets : List ProhibitedTarget
  pub has_agic_pod : Bool

-- The loop of `pruneProhibitedIngress`. The code writes the remaining rules into the ingresses it was
-- given, which are those of the cache of the informer. Here they are copies, so what a later listing of
-- the cache would then return is not modelled.
unfoldable pub prune_prohibited_ingress : List ProhibitedTarget → List Ingress → Run (List Ingress)
prune_prohibited_ingress pts [] = returns []
prune_prohibited_ingress pts (ing ∷ ings) = do
  rules ← prune_ingress_rules ing pts
  rest ← prune_prohibited_ingress pts ings
  returns (record ing { rules = rules } ∷ rest)

abbrev events_for : PruneContext → Reason → Ingress → List PruneEvent
events_for ctx reason ing =
    on_ingress ing reason ∷ (if ctx.has_agic_pod then on_agic_pod reason ∷ [] else [])

-- The loop that two filters share: an ingress that is refused is reported and left out.
unfoldable pub refuse :
    PruneContext → Reason → (Ingress → Bool) → List Ingress → List Ingress × List PruneEvent
refuse ctx reason test [] = ([], [])
refuse ctx reason test (ing ∷ ings) =
    let rest = refuse ctx reason test ings in
    if test ing then (rest.0, events_for ctx reason ing ++ rest.1) else (ing ∷ rest.0, rest.1)

-- The ingress asks for a private IP, or the environment does.
unfoldable pub wants_private_ip : PruneContext → Ingress → Bool
wants_private_ip ctx ing = (use_private_ip ing).0 || ctx.use_private_ip == bytes "true"

-- `pruneNoPrivateIP`
unfoldable pub prune_no_private_ip :
    PruneContext → List Ingress → Run (List Ingress × List PruneEvent)
prune_no_private_ip ctx ings = do
  ips ← deref ctx.frontend_ip_configurations
  let app_gw_has_private_ip = is_set (lookup_ip_configuration_by_type ips true)
  returns (
      refuse ctx no_private_ip_error (λ ing. wants_private_ip ctx ing && not app_gw_has_private_ip)
        ings)

-- The ingress is annotated for a redirect and has no TLS section.
unfoldable pub redirects_without_tls : Ingress → Bool
redirects_without_tls ing = is_nil ing.tls && (is_ssl_redirect ing).0

-- `pruneRedirectWithNoTLS`
unfoldable pub prune_redirect_with_no_tls :
    PruneContext → List Ingress → List Ingress × List PruneEvent
prune_redirect_with_no_tls ctx ings = refuse ctx redirect_with_no_tls redirects_without_tls ings

unfoldable pub apply_prune :
    PruneContext → PruneFunc → List Ingress → Run (List Ingress × List PruneEvent)
apply_prune ctx prohibited_ingress ings = do
  kept ← prune_prohibited_ingress ctx.prohibited_targets ings
  returns (kept, [])
apply_prune ctx no_private_ip ings = prune_no_private_ip ctx ings
apply_prune ctx redirect_without_tls ings = returns (prune_redirect_with_no_tls ctx ings)

unfoldable pub apply_all :
    PruneContext → List PruneFunc → List Ingress → Run (List Ingress × List PruneEvent)
apply_all ctx [] ings = returns (ings, [])
apply_all ctx (f ∷ fs) ings = do
  out ← apply_prune ctx f ings
  rest ← apply_all ctx fs out.0
  returns (rest.0, out.1 ++ rest.1)

-- `pruneFuncList` after `once.Do`: what the first call put there.
abbrev pub prune_func_list : PruneContext → Option (List PruneFunc) → List PruneFunc
prune_func_list ctx (some fs) = fs
prune_func_list ctx none =
    (if ctx.enable_brownfield_deployment then prohibited_ingress ∷ [] else [])
    ++ (no_private_ip ∷ redirect_without_tls ∷ [])

-- `PruneIngress`
unfoldable pub prune_ingress :
    PruneContext
    → Option (List PruneFunc)
    → List Ingress
    → Run (Option (List PruneFunc) × List Ingress × List PruneEvent)
prune_ingress ctx once ings = do
  let fs = prune_func_list ctx once
  out ← apply_all ctx fs ings
  returns (some fs, out.0, out.1)
