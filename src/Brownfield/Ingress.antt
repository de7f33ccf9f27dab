-- ===== src/Brownfield/Ingress.antt =====
-- pkg/brownfield/ingress.go: the rules of an ingress without the prohibited targets.
pub mod Pruning
pub mod Twice
use application_gateway_kube.Common.{
  Text, List, [], ◌∷◌, ◌++◌, Option, none, some, Bool, true, false, ◌||◌, Run, returns, panics,
  ◌>>=◌, is_nil, if◌then◌else◌,
}
use application_gateway_kube.Gateway.{HttpIngressPath, HttpIngressRuleValue, IngressRule, Ingress}
use application_gateway_kube.Brownfield.Targets.{
  ProhibitedTarget, Target, is_blacklisted, get_target_blacklist,
}

-- The loop over the paths of a rule: those that are not blacklisted.
unfoldable pub prune_paths : List Target → Text → List HttpIngressPath → Run (List HttpIngressPath)
prune_paths blacklist host [] = returns []
prune_paths blacklist host (p ∷ ps) = do
  listed ← is_blacklisted (record { hostname = host; path = p.path }) blacklist
  kept ← prune_paths blacklist host ps
  returns (if listed then kept else p ∷ kept)

abbrev pub rule_with : Text → List HttpIngressPath → IngressRule
rule_with host paths = record { host = host; http = some (record { paths = some paths }) }

-- The two ways of the loop's body, with and without a list of paths.
unfoldable pub prune_listed :
    List Target → IngressRule → Option (List HttpIngressPath) → Run (List IngressRule)
prune_listed blacklist rule none = do
  listed ← is_blacklisted (record { hostname = rule.host; path = [] }) blacklist
  returns (if listed then [] else rule ∷ [])
prune_listed blacklist rule (some paths) = do
  kept ← prune_paths blacklist rule.host paths
  returns (if is_nil kept then [] else rule_with rule.host kept ∷ [])

-- What one rule leaves, by its HTTP part: nothing, or a rule.
unfoldable pub prune_rule :
    List Target → IngressRule → Option HttpIngressRuleValue → Run (List IngressRule)
prune_rule blacklist rule none = returns []
prune_rule blacklist rule (some http) = prune_listed blacklist rule http.paths

unfoldable pub prune_rules : List Target → List IngressRule → Run (List IngressRule)
prune_rules blacklist [] = returns []
prune_rules blacklist (rule ∷ rules) = do
  first ← prune_rule blacklist rule rule.http
  rest ← prune_rules blacklist rules
  returns (first ++ rest)

-- `PruneIngressRules`
unfoldable pub prune_ingress_rules : Ingress → List ProhibitedTarget → Run (List IngressRule)
prune_ingress_rules ing prohibited_targets =
    let blacklist = get_target_blacklist prohibited_targets in
    if is_nil ing.rules || is_nil blacklist
    then returns ing.rules
    else prune_rules blacklist ing.rules
