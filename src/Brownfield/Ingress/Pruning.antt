-- ===== src/Brownfield/Ingress/Pruning.antt =====
-- What pruning keeps of the routes of an ingress.
use application_gateway_kube.Common.{
  Text, List, [], ◌∷◌, ◌++◌, Option, none, some, true, ◌||◌, ◌≡◌, refl, sym, ◌∙◌, append_assoc, ap,
  returns, is_nil, if◌then◌else◌, arith, Bool-cases, inl, inr, append-nil,
}
use mathlib.Core.Path.{ap₂}
use application_gateway_kube.Gateway.{HttpIngressPath, IngressRule, HttpIngressRuleValue, Ingress}
use application_gateway_kube.Brownfield.Targets.{
  ProhibitedTarget, Target, is_blacklisted, get_target_blacklist,
}
use application_gateway_kube.Brownfield.Targets.Blacklist.{answer, is_blacklisted-eq-answer}
use application_gateway_kube.Brownfield.Ingress.{
  prune_paths, rule_with, prune_listed, prune_rule, prune_rules, prune_ingress_rules,
}

abbrev pub target_of : Text → Text → Target
target_of host path = record { hostname = host; path = path }

-- The paths of a host that the blacklist leaves.
abbrev pub allowed_paths : List Target → Text → List HttpIngressPath → List HttpIngressPath
allowed_paths blacklist host [] = []
allowed_paths blacklist host (p ∷ ps) =
    if answer (is_blacklisted (target_of host p.path) blacklist)
    then allowed_paths blacklist host ps
    else p ∷ allowed_paths blacklist host ps

-- The rule for a host that is left with these paths.
abbrev pub rules_with : Text → List HttpIngressPath → List IngressRule
rules_with host [] = []
rules_with host (p ∷ ps) = rule_with host (p ∷ ps) ∷ []

abbrev pub allowed_paths_of :
    List Target → IngressRule → Option (List HttpIngressPath) → List IngressRule
allowed_paths_of blacklist rule none =
    if answer (is_blacklisted (target_of rule.host []) blacklist) then [] else rule ∷ []
allowed_paths_of blacklist rule (some ps) =
    rules_with rule.host (allowed_paths blacklist rule.host ps)

abbrev pub allowed_rule : List Target → IngressRule → Option HttpIngressRuleValue → List IngressRule
allowed_rule blacklist rule none = []
allowed_rule blacklist rule (some http) = allowed_paths_of blacklist rule http.paths

-- Each rule by itself: one with no HTTP part is dropped; one with no list of paths stays if its
-- host is not blacklisted; another stays with its allowed paths, if there are any.
abbrev pub allowed_rules : List Target → List IngressRule → List IngressRule
allowed_rules blacklist [] = []
allowed_rules blacklist (rule ∷ rules) =
    allowed_rule blacklist rule rule.http ++ allowed_rules blacklist rules

prune_paths-eq :
    (blacklist : List Target) (host : Text) (ps : List HttpIngressPath)
    → prune_paths blacklist host ps ≡ returns (allowed_paths blacklist host ps)
unfolding prune_paths
prune_paths-eq blacklist host [] = refl
prune_paths-eq blacklist host (p ∷ ps) = ground (
  arith,
  is_blacklisted-eq-answer (target_of host p.path) blacklist,
  prune_paths-eq blacklist host ps,
)

is_nil-rules_with :
    (host : Text) (ps : List HttpIngressPath)
    → (if is_nil ps then [] else rule_with host ps ∷ []) ≡ rules_with host ps
is_nil-rules_with host [] = refl
is_nil-rules_with host (p ∷ ps) = refl

prune_listed-eq :
    (blacklist : List Target) (rule : IngressRule) (paths : Option (List HttpIngressPath))
    → prune_listed blacklist rule paths ≡ returns (allowed_paths_of blacklist rule paths)
unfolding prune_listed
prune_listed-eq blacklist rule none =
    ground (arith, is_blacklisted-eq-answer (target_of rule.host []) blacklist)
prune_listed-eq blacklist rule (some ps) =
    rw (prune_paths-eq blacklist rule.host ps)
      (ap returns (is_nil-rules_with rule.host (allowed_paths blacklist rule.host ps)))

prune_rule-eq :
    (blacklist : List Target) (rule : IngressRule) (http : Option HttpIngressRuleValue)
    → prune_rule blacklist rule http ≡ returns (allowed_rule blacklist rule http)
unfolding prune_rule
prune_rule-eq blacklist rule none = refl
prune_rule-eq blacklist rule (some http) = prune_listed-eq blacklist rule http.paths

pub prune_rules-eq :
    (blacklist : List Target) (rules : List IngressRule)
    → prune_rules blacklist rules ≡ returns (allowed_rules blacklist rules)
unfolding prune_rules
prune_rules-eq blacklist [] = refl
prune_rules-eq blacklist (rule ∷ rules) =
    rw (prune_rule-eq blacklist rule rule.http, prune_rules-eq blacklist rules)

-- The routes of an ingress: a host with each of the paths that are listed for it.
abbrev pub with_host : Text → List HttpIngressPath → List (Text × HttpIngressPath)
with_host host [] = []
with_host host (p ∷ ps) = (host, p) ∷ with_host host ps

abbrev pub listed_paths : Option HttpIngressRuleValue → List HttpIngressPath
listed_paths none = []
listed_paths (some http) = elim http.paths [ none ↦ [] | some ps ↦ ps ]

abbrev pub routes : List IngressRule → List (Text × HttpIngressPath)
routes [] = []
routes (rule ∷ rules) = with_host rule.host (listed_paths rule.http) ++ routes rules

abbrev pub allowed_routes :
    List Target → List (Text × HttpIngressPath) → List (Text × HttpIngressPath)
allowed_routes blacklist [] = []
allowed_routes blacklist ((host, p) ∷ rs) =
    if answer (is_blacklisted (target_of host p.path) blacklist)
    then allowed_routes blacklist rs
    else (host, p) ∷ allowed_routes blacklist rs

allowed_routes-append :
    (blacklist : List Target) (xs ys : List (Text × HttpIngressPath))
    → allowed_routes blacklist (xs ++ ys)
      ≡ allowed_routes blacklist xs ++ allowed_routes blacklist ys
allowed_routes-append blacklist [] ys = refl
allowed_routes-append blacklist ((host, p) ∷ xs) ys =
    elim (Bool-cases (answer (is_blacklisted (target_of host p.path) blacklist))) [
      | inl e ↦ rw e (allowed_routes-append blacklist xs ys)
      | inr e ↦ rw e (ap (λ r. (host, p) ∷ r) (allowed_routes-append blacklist xs ys))
    ]

allowed_routes-with_host :
    (blacklist : List Target) (host : Text) (ps : List HttpIngressPath)
    → allowed_routes blacklist (with_host host ps)
      ≡ with_host host (allowed_paths blacklist host ps)
allowed_routes-with_host blacklist host [] = refl
allowed_routes-with_host blacklist host (p ∷ ps) =
    elim (Bool-cases (answer (is_blacklisted (target_of host p.path) blacklist))) [
      | inl e ↦ rw e (allowed_routes-with_host blacklist host ps)
      | inr e ↦ rw e (ap (λ r. (host, p) ∷ r) (allowed_routes-with_host blacklist host ps))
    ]

routes-append : (xs ys : List IngressRule) → routes (xs ++ ys) ≡ routes xs ++ routes ys
routes-append [] ys = refl
routes-append (x ∷ xs) ys =
    rw (routes-append xs ys)
      (sym (append_assoc (with_host x.host (listed_paths x.http)) (routes xs) (routes ys)))

routes-rules_with :
    (host : Text) (ps : List HttpIngressPath) → routes (rules_with host ps) ≡ with_host host ps
routes-rules_with host [] = refl
routes-rules_with host (p ∷ ps) = append-nil (with_host host (p ∷ ps))

routes-allowed_paths_of :
    (blacklist : List Target) (host : Text) (paths : Option (List HttpIngressPath))
    → routes (
        allowed_paths_of blacklist
          (record { host = host; http = some (record { paths = paths }) })
          paths)
      ≡ allowed_routes blacklist (with_host host (listed_paths (some (record { paths = paths }))))
routes-allowed_paths_of blacklist host none = ground arith
routes-allowed_paths_of blacklist host (some ps) =
    routes-rules_with host (allowed_paths blacklist host ps)
    ∙ sym (allowed_routes-with_host blacklist host ps)

routes-allowed_rule :
    (blacklist : List Target) (host : Text) (http : Option HttpIngressRuleValue)
    → routes (allowed_rule blacklist (record { host = host; http = http }) http)
      ≡ allowed_routes blacklist (with_host host (listed_paths http))
routes-allowed_rule blacklist host none = refl
routes-allowed_rule blacklist host (some http) = routes-allowed_paths_of blacklist host http.paths

routes-allowed_rules :
    (blacklist : List Target) (rules : List IngressRule)
    → routes (allowed_rules blacklist rules) ≡ allowed_routes blacklist (routes rules)
routes-allowed_rules blacklist [] = refl
routes-allowed_rules blacklist (rule ∷ rules) =
    routes-append (allowed_rule blacklist rule rule.http) (allowed_rules blacklist rules)
    ∙ ap₂ ◌++◌ (routes-allowed_rule blacklist rule.host rule.http)
        (routes-allowed_rules blacklist rules)
    ∙ sym (
        allowed_routes-append blacklist (with_host rule.host (listed_paths rule.http))
          (routes rules))

allowed_routes-nil : (rs : List (Text × HttpIngressPath)) → allowed_routes [] rs ≡ rs
unfolding is_blacklisted
allowed_routes-nil [] = refl
allowed_routes-nil (r ∷ rs) = ap (λ t. r ∷ t) (allowed_routes-nil rs)

-- The shortcut for no rules or no blacklist.
nothing_to_prune :
    (blacklist : List Target) (rules : List IngressRule)
    → (is_nil rules || is_nil blacklist) ≡ true
    → routes rules ≡ allowed_routes blacklist (routes rules)
nothing_to_prune blacklist [] h = refl
nothing_to_prune [] (r ∷ rules) h = sym (allowed_routes-nil (routes (r ∷ rules)))
nothing_to_prune (bl ∷ blacklist) (r ∷ rules) h = absurd (cc)

-- Pruning returns, and what it returns has exactly the routes of the ingress that are not
-- blacklisted, in their order.
pub routes-prune_ingress_rules :
    (ing : Ingress) (pts : List ProhibitedTarget)
    → (out : List IngressRule) × (prune_ingress_rules ing pts ≡ returns out)
      × (routes out ≡ allowed_routes (get_target_blacklist pts) (routes ing.rules))
unfolding prune_ingress_rules
routes-prune_ingress_rules ing pts =
    let blacklist = get_target_blacklist pts in
    elim (Bool-cases (is_nil ing.rules || is_nil blacklist)) [
      | inl e ↦ (ing.rules, rw e, nothing_to_prune blacklist ing.rules e)
      | inr e ↦ (
        allowed_rules blacklist ing.rules,
        rw e (prune_rules-eq blacklist ing.rules),
        routes-allowed_rules blacklist ing.rules,
      )
    ]
