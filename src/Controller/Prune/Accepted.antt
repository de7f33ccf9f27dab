-- ===== src/Controller/Prune/Accepted.antt =====
-- Which ingresses a brownfield deployment keeps, and with which routes.
use application_gateway_kube.Common.{
  List, [], ◌∷◌, ◌++◌, none, some, Bool, true, not, ◌&&◌, ◌≡◌, refl, ap, ◌∙◌, returns, Bool-cases,
  inl, inr, arith, if◌then◌else◌,
}
use application_gateway_kube.Gateway.{FrontendIpConfiguration, Ingress, IngressRule}
use application_gateway_kube.Brownfield.Targets.{ProhibitedTarget, get_target_blacklist}
use application_gateway_kube.Brownfield.Ingress.Pruning.{
  routes, allowed_routes, routes-prune_ingress_rules,
}
use application_gateway_kube.Controller.Prune.{
  PruneContext, PruneFunc, PruneEvent, Reason, prohibited_ingress, no_private_ip,
  redirect_without_tls, no_private_ip_error, redirect_with_no_tls, is_set,
  lookup_ip_configuration_by_type, prune_prohibited_ingress, refuse, wants_private_ip,
  prune_no_private_ip, redirects_without_tls, prune_redirect_with_no_tls, apply_prune, apply_all,
  prune_ingress,
}

-- The ingresses that pass a test.
abbrev pub those : (Ingress → Bool) → List Ingress → List Ingress
those test [] = []
those test (ing ∷ ings) = if test ing then ing ∷ those test ings else those test ings

refuse-those :
    (ctx : PruneContext) (reason : Reason) (test : Ingress → Bool) (ings : List Ingress)
    → (refuse ctx reason test ings).0 ≡ those (λ ing. not (test ing)) ings
unfolding refuse
refuse-those ctx reason test [] = refl
refuse-those ctx reason test (ing ∷ ings) = elim (Bool-cases (test ing)) [
  | inl e ↦ rw e (refuse-those ctx reason test ings)
  | inr e ↦ rw e (ap (λ r. ing ∷ r) (refuse-those ctx reason test ings))
]

-- An ingress with the rules that pruning leaves: the routes that are not blacklisted, in order.
abbrev pub IsPruned : List ProhibitedTarget → Ingress → Ingress → Type 0
IsPruned pts ing out =
    (rules : List IngressRule) × (out ≡ record ing { rules = rules })
    × (routes rules ≡ allowed_routes (get_target_blacklist pts) (routes ing.rules))

abbrev pub All2 : (Ingress → Ingress → Type 0) → List Ingress → List Ingress → Type 0
All2 P [] [] = Unit
All2 P [] (y ∷ ys) = ⊥
All2 P (x ∷ xs) [] = ⊥
All2 P (x ∷ xs) (y ∷ ys) = P x y × All2 P xs ys

prune_prohibited_ingress-IsPruned :
    (pts : List ProhibitedTarget) (ings : List Ingress)
    → (out : List Ingress) × (prune_prohibited_ingress pts ings ≡ returns out)
      × All2 (IsPruned pts) ings out
unfolding prune_prohibited_ingress
prune_prohibited_ingress-IsPruned pts [] = ([], refl, tt)
prune_prohibited_ingress-IsPruned pts (ing ∷ ings) =
    let (rules, e, law) = routes-prune_ingress_rules ing pts in
    let (rest, e', law') = prune_prohibited_ingress-IsPruned pts ings in
    (record ing { rules = rules } ∷ rest, rw (e, e'), ((rules, refl, law), law'))

-- An ingress is accepted if it does not want a private IP that the gateway lacks, and does not
-- redirect without TLS.
abbrev pub accepted : PruneContext → List FrontendIpConfiguration → Ingress → Bool
accepted ctx ips ing =
    not (wants_private_ip ctx ing && not (is_set (lookup_ip_configuration_by_type ips true)))
    && not (redirects_without_tls ing)

those-those :
    (p q : Ingress → Bool) (ings : List Ingress)
    → those q (those p ings) ≡ those (λ ing. p ing && q ing) ings
those-those p q [] = refl
those-those p q (ing ∷ ings) = ground (arith, those-those p q ings)

-- The first call in a brownfield deployment, where the gateway has a list of IP configurations,
-- keeps the accepted ones among the ingresses without their blacklisted routes.
pub prune_ingress_brownfield :
    (ctx : PruneContext) (ips : List FrontendIpConfiguration) (ings : List Ingress)
    → ctx.enable_brownfield_deployment ≡ true
    → ctx.frontend_ip_configurations ≡ some ips
    → (pruned : List Ingress) × All2 (IsPruned ctx.prohibited_targets) ings pruned
      × (fs : List PruneFunc) × (events : List PruneEvent) × (prune_ingress ctx none ings
          ≡ returns (some fs, those (accepted ctx ips) pruned, events))
unfolding prune_ingress apply_all apply_prune prune_no_private_ip prune_redirect_with_no_tls
prune_ingress_brownfield ctx ips ings on gateway =
    let (pruned, e, law) = prune_prohibited_ingress-IsPruned ctx.prohibited_targets ings in
    let unserved : Ingress → Bool =
      λ ing. wants_private_ip ctx ing && not (is_set (lookup_ip_configuration_by_type ips true)) in
    let first = refuse ctx no_private_ip_error unserved pruned in
    let second = refuse ctx redirect_with_no_tls redirects_without_tls first.0 in
    let kept : second.0 ≡ those (accepted ctx ips) pruned =
      refuse-those ctx redirect_with_no_tls redirects_without_tls first.0
      ∙ ap (those (λ ing. not (redirects_without_tls ing)))
          (refuse-those ctx no_private_ip_error unserved pruned)
      ∙ those-those (λ ing. not (unserved ing)) (λ ing. not (redirects_without_tls ing)) pruned in
    let runs : prune_ingress ctx none ings
        ≡ returns (
          some (prohibited_ingress ∷ no_private_ip ∷ redirect_without_tls ∷ []),
          second.0,
          first.1 ++ (second.1 ++ []),
        ) =
      simp (on, gateway, e) in
    (
      pruned,
      law,
      prohibited_ingress ∷ no_private_ip ∷ redirect_without_tls ∷ [],
      first.1 ++ (second.1 ++ []),
      runs
          ∙ ap
              (λ ks. returns (
                some (prohibited_ingress ∷ no_private_ip ∷ redirect_without_tls ∷ []),
                ks,
                first.1 ++ (second.1 ++ []),
              ))
              kept,
    )
