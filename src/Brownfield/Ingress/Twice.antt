-- ===== src/Brownfield/Ingress/Twice.antt =====
-- Pruning a pruned ingress.
use application_gateway_kube.Common.{
  Text, List, [], ◌∷◌, ◌++◌, Option, none, some, ◌||◌, ◌≡◌, refl, sym, ◌∙◌, append_assoc, ap,
  returns, is_nil, arith, Bool-cases, inl, inr, append-nil,
}
use mathlib.Core.Path.{ap₂}
use application_gateway_kube.Gateway.{HttpIngressPath, IngressRule, HttpIngressRuleValue, Ingress}
use application_gateway_kube.Brownfield.Targets.{
  ProhibitedTarget, Target, is_blacklisted, get_target_blacklist,
}
use application_gateway_kube.Brownfield.Targets.Blacklist.{answer}
use application_gateway_kube.Brownfield.Ingress.{prune_ingress_rules}
use application_gateway_kube.Brownfield.Ingress.Pruning.{
  target_of, allowed_paths, rules_with, allowed_paths_of, allowed_rule, allowed_rules,
  prune_rules-eq,
}

module _ (blacklist : List Target) where
  allowed_paths_idem :
      (host : Text) (ps : List HttpIngressPath)
      → allowed_paths blacklist host (allowed_paths blacklist host ps)
        ≡ allowed_paths blacklist host ps
  allowed_paths_idem host [] = refl
  allowed_paths_idem host (p ∷ ps) =
      elim (Bool-cases (answer (is_blacklisted (target_of host p.path) blacklist))) [
        | inl e ↦ rw e (allowed_paths_idem host ps)
        | inr e ↦ rw (e, e) (ap (λ r. p ∷ r) (allowed_paths_idem host ps))
      ]

  allowed_rules-append :
      (xs ys : List IngressRule)
      → allowed_rules blacklist (xs ++ ys)
        ≡ allowed_rules blacklist xs ++ allowed_rules blacklist ys
  allowed_rules-append [] ys = refl
  allowed_rules-append (x ∷ xs) ys = rw (allowed_rules-append xs ys) (
      sym (
        append_assoc (allowed_rule blacklist x x.http) (allowed_rules blacklist xs)
          (allowed_rules blacklist ys)))

  allowed_rules-rules_with :
      (host : Text) (ps : List HttpIngressPath)
      → allowed_rules blacklist (rules_with host ps)
        ≡ rules_with host (allowed_paths blacklist host ps)
  allowed_rules-rules_with host [] = refl
  allowed_rules-rules_with host (p ∷ ps) =
      append-nil (rules_with host (allowed_paths blacklist host (p ∷ ps)))

  allowed_paths_of_idem :
      (host : Text) (paths : Option (List HttpIngressPath))
      → allowed_rules blacklist (
          allowed_paths_of blacklist
            (record { host = host; http = some (record { paths = paths }) })
            paths)
        ≡ allowed_paths_of blacklist
            (record { host = host; http = some (record { paths = paths }) })
            paths
  allowed_paths_of_idem host none = ground arith
  allowed_paths_of_idem host (some ps) =
      allowed_rules-rules_with host (allowed_paths blacklist host ps)
      ∙ ap (rules_with host) (allowed_paths_idem host ps)

  allowed_rule_idem :
      (host : Text) (http : Option HttpIngressRuleValue)
      → allowed_rules blacklist (allowed_rule blacklist (record { host = host; http = http }) http)
        ≡ allowed_rule blacklist (record { host = host; http = http }) http
  allowed_rule_idem host none = refl
  allowed_rule_idem host (some http) = allowed_paths_of_idem host http.paths

  allowed_rules_idem :
      (rules : List IngressRule)
      → allowed_rules blacklist (allowed_rules blacklist rules) ≡ allowed_rules blacklist rules
  allowed_rules_idem [] = refl
  allowed_rules_idem (r ∷ rules) =
      allowed_rules-append (allowed_rule blacklist r r.http) (allowed_rules blacklist rules)
      ∙ ap₂ ◌++◌ (allowed_rule_idem r.host r.http) (allowed_rules_idem rules)

abbrev pub with_rules : Ingress → List IngressRule → Ingress
with_rules ing rules = record ing { rules = rules }

-- Pruning the rules that a pruning returned changes nothing.
pub prune_ingress_rules_idem :
    (ing : Ingress) (pts : List ProhibitedTarget) (out : List IngressRule)
    → prune_ingress_rules ing pts ≡ returns out
    → prune_ingress_rules (with_rules ing out) pts ≡ returns out
unfolding prune_ingress_rules
prune_ingress_rules_idem ing pts out h =
    let blacklist = get_target_blacklist pts in
    elim (Bool-cases (is_nil ing.rules || is_nil blacklist)) [
      | inl e ↦ ground arith
      | inr e ↦ ground (
        arith,
        prune_rules-eq blacklist ing.rules,
        prune_rules-eq blacklist out,
        allowed_rules_idem blacklist ing.rules,
      )
    ]
