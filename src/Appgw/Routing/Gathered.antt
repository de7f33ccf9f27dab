-- ===== src/Appgw/Routing/Gathered.antt =====
-- pkg/appgw/requestroutingrules.go: the path rules that one rule adds for a listener.
use application_gateway_kube.Common.{
  ℕ, List, [], ◌∷◌, ◌++◌, append-nil, append_assoc, Option, none, some, ◌==◌, text_eq, lookup,
  insert, lookup-insert, if◌then◌else◌, ◌≡◌, refl, sym, ap, ◌∙◌, subst, Bool-cases, beq_refl, inl,
  inr,
}
use application_gateway_kube.Common.Order.{MapOrder, Sort}
use application_gateway_kube.Common.Collected.{collect}
use application_gateway_kube.Gateway.{
  PathRule, UrlPathMap, HttpIngressRuleValue, IngressRule, Ingress,
}
use application_gateway_kube.K8scontext.Listing.{Caches, slice}
use application_gateway_kube.Appgw.Names.{ListenerIdentifier}
use application_gateway_kube.Appgw.Keys.{listener_eq}
use application_gateway_kube.Appgw.Listeners.{ListenerAzConfig}
use application_gateway_kube.Appgw.Frontend.{FrontendBuilder}
use application_gateway_kube.Appgw.PathMaps.{
  Built, append_rules, get_path_rules, get_path_map, merge_path_map,
}
use application_gateway_kube.Appgw.Routing.{PathMaps, or_start, merge_listeners_of_rule}
use application_gateway_kube.Appgw.Routing.Sound.{listed_rules}

listed_rules-append :
    (old new : Option (List PathRule))
    → listed_rules (append_rules old new) ≡ listed_rules old ++ listed_rules new
listed_rules-append old none = sym (append-nil (listed_rules old))
listed_rules-append old (some []) = sym (append-nil (listed_rules old))
listed_rules-append none (some (rule ∷ rules)) = refl
listed_rules-append (some existing) (some (rule ∷ rules)) = refl

pub then_rest :
    {xs : List PathRule} (ys zs rest : List PathRule)
    → xs ≡ ys ++ zs
    → xs ++ rest ≡ ys ++ (zs ++ rest)
then_rest ys zs rest e = ap (λ made. made ++ rest) e ∙ append_assoc ys zs rest

module _ (b : FrontendBuilder) (c : Caches) (order : MapOrder) (s : Sort) (k : Built)
    (id : ListenerIdentifier) where
  abbrev pub rules_of_map : Option UrlPathMap → List PathRule
  rules_of_map none = []
  rules_of_map (some pm) = listed_rules pm.path_rules

  -- The path rules for the listener.
  abbrev pub rules_in : PathMaps → List PathRule
  rules_in m = rules_of_map (lookup id m)

  or_start-rules :
      (o : Option UrlPathMap)
      → listed_rules (or_start b c order s k id o).path_rules ≡ rules_of_map o
  or_start-rules none = refl
  or_start-rules (some pm) = refl

  merged-rules :
      (o : Option UrlPathMap) (config : ListenerAzConfig) (i : ℕ) (ing : Ingress) (r : ℕ)
      (rule : IngressRule) (value : HttpIngressRuleValue)
      → listed_rules
          (merge_path_map b c order k
            (or_start b c order s k id o)
            (get_path_map b c order k id config i ing r rule (slice value.paths))).path_rules
        ≡ rules_of_map o ++ get_path_rules b c order k id config i ing r 0 (slice value.paths)
  unfolding merge_path_map get_path_map
  merged-rules o config i ing r rule value =
      listed_rules-append _
        (some (get_path_rules b c order k id config i ing r 0 (slice value.paths)))
      ∙ rw (or_start-rules o) refl

  -- What one listener of a rule adds.
  insert-rules :
      (j : ListenerIdentifier) (config : ListenerAzConfig) (i : ℕ) (ing : Ingress) (r : ℕ)
      (rule : IngressRule) (value : HttpIngressRuleValue) (m : PathMaps)
      → rules_in (
          insert j
            (merge_path_map b c order k
              (or_start b c order s k j (lookup j m))
              (get_path_map b c order k j config i ing r rule (slice value.paths)))
            m)
        ≡ rules_in m
          ++ (if j == id
              then get_path_rules b c order k id config i ing r 0 (slice value.paths)
              else [])
  insert-rules j config i ing r rule value m = elim (Bool-cases (j == id)) [
    | inl here ↦ rw here (
        subst
          (λ j.
            rules_in (
              insert j
                (merge_path_map b c order k (or_start b c order s k j (lookup j m))
                  (get_path_map b c order k j config i ing r rule (slice value.paths)))
                m)
            ≡ rules_in m ++ get_path_rules b c order k id config i ing r 0 (slice value.paths))
          (sym ((listener_eq.same_iff j id).0 here))
          (rw (lookup-insert id id _ m, beq_refl id)
            (merged-rules (lookup id m) config i ing r rule value)))
    | inr off ↦ rw (lookup-insert j id _ m, off) (sym (append-nil (rules_in m)))
  ]

  pub merge_listeners_of_rule-rules :
      (i : ℕ) (ing : Ingress) (r : ℕ) (rule : IngressRule) (value : HttpIngressRuleValue)
      (entries : List (ListenerIdentifier × ListenerAzConfig)) (m : PathMaps)
      → rules_in (merge_listeners_of_rule b c order s k i ing r rule value entries m)
        ≡ rules_in m
          ++ collect
              (λ config. get_path_rules b c order k id config i ing r 0 (slice value.paths))
              id
              entries
  unfolding merge_listeners_of_rule
  merge_listeners_of_rule-rules i ing r rule value [] m = sym (append-nil (rules_in m))
  merge_listeners_of_rule-rules i ing r rule value ((j, config) ∷ entries) m =
      merge_listeners_of_rule-rules i ing r rule value entries _
      ∙ then_rest (rules_in m) _ _ (insert-rules j config i ing r rule value m)
