-- ===== src/Brownfield/RuleTargets/Total.antt =====
-- When the targets of the routing rules can be collected without a nil dereference.
use application_gateway_kube.Common.{
  Text, List, [], ◌∷◌, Option, none, some, Bool, true, false, ◌≡◌, ◌≢◌, refl, ◌⊎◌, inl, inr, Run,
  returns, panics, ◌>>=◌, deref, lookup, text_eq, All, arith, Bool-cases, if◌then◌else◌,
  All-last_key,
}
use application_gateway_kube.Common.Uniq.{lookup-index}
use application_gateway_kube.Gateway.{SubResource, UrlPathMap, RoutingRule}
use application_gateway_kube.Utils.{get_last_chunk_of_slashed}
use application_gateway_kube.Brownfield.Targets.{Target, is_blacklisted}
use application_gateway_kube.Brownfield.Targets.Blacklist.{Returns, is_blacklisted-Returns}
use application_gateway_kube.Brownfield.Existing.{ExistingResources}
use application_gateway_kube.Brownfield.Buckets.{has_id, split_by}
use application_gateway_kube.Brownfield.RuleTargets.{
  get_url_path_maps_by_name, host_name_of, get_listeners_by_name, get_host_name_for_routing_rule,
  path_rules_of, get_path_rules, RuleTargets, with_host_target, follow_path_map, add_path_rules,
  add_host_targets, on_host, add_rule_targets, rule_targets_from, get_rule_to_targets,
  any_blacklisted, deref_id,
}
use application_gateway_kube.Brownfield.Blacklisted.{
  get_blacklisted_routing_rules, get_blacklisted_path_maps,
}

-- Every path map has a list of path rules, and a reference to a path map has an ID.
abbrev pub HasPathRules : UrlPathMap → Type 0
HasPathRules pm = pm.path_rules ≢ none

abbrev pub HasPathMapId : RoutingRule → Type 0
HasPathMapId rule = (rule.url_path_map ≡ none) ⊎ (has_id rule.url_path_map ≡ true)

pub record IsComplete (er : ExistingResources) : Type 0 where
  pub path_maps : All HasPathRules er.url_path_maps
  pub rules : All HasPathMapId er.routing_rules

deref-Returns : {A : Type 0} (o : Option A) → o ≢ none → Returns (deref o)
deref-Returns none h = absurd (h refl)
deref-Returns (some a) h = (a, refl)

bind-Returns :
    {A B : Type 0} (m : Run A) (f : A → Run B)
    → Returns m
    → ((a : A) → Returns (f a))
    → Returns (m >>= f)
bind-Returns (returns a) f r k = k a
bind-Returns panics f r k = absurd (let e = r.1 in cc)

deref_id-Returns : (ref : Option SubResource) → has_id ref ≡ true → Returns (deref_id ref)
deref_id-Returns none h = absurd (cc)
deref_id-Returns (some ref) h = deref-Returns ref.id (λ e. ground arith)

path_rules_of-Returns :
    (name : Text) (o : Option UrlPathMap)
    → ((pm : UrlPathMap) → o ≡ some pm → HasPathRules pm)
    → Returns (path_rules_of name o)
path_rules_of-Returns name none h = ((name, []), refl)
path_rules_of-Returns name (some pm) h =
    bind-Returns (deref pm.path_rules) (λ rules. returns (name, rules))
      (deref-Returns pm.path_rules (h pm refl)) (λ rules. ((name, rules), refl))

module _ (er : ExistingResources) (complete : IsComplete er) where
  get_path_rules-Returns :
      (rule : RoutingRule) → has_id rule.url_path_map ≡ true → Returns (get_path_rules er rule)
  unfolding get_path_rules get_url_path_maps_by_name
  get_path_rules-Returns rule h =
      bind-Returns (deref_id rule.url_path_map) _ (deref_id-Returns rule.url_path_map h) λ id.
        path_rules_of-Returns (get_last_chunk_of_slashed id) _ λ pm found.
          All-last_key (λ (p : UrlPathMap). p.name) HasPathRules (get_last_chunk_of_slashed id)
            er.url_path_maps complete.path_maps (rw lookup-index at found)

  get_host_name-Returns :
      (rule : RoutingRule)
      → has_id rule.http_listener ≡ true
      → Returns (get_host_name_for_routing_rule er rule)
  unfolding get_host_name_for_routing_rule
  get_host_name-Returns rule h =
      bind-Returns (deref_id rule.http_listener) _ (deref_id-Returns rule.http_listener h) (λ id.
        (host_name_of (lookup (get_last_chunk_of_slashed id) (get_listeners_by_name er)), refl))

  follow_path_map-Returns :
      (rule : RoutingRule) (st : RuleTargets) (host : Text)
      → HasPathMapId rule
      → Returns (follow_path_map er rule host rule.url_path_map st)
  follow_path_map-Returns rule st host (inl absent) =
      rw absent (unfold follow_path_map in (st, refl))
  follow_path_map-Returns rule st host (inr present) = go rule.url_path_map present
    where
      go :
          (ref : Option SubResource)
          → has_id ref ≡ true
          → Returns (follow_path_map er rule host ref st)
      go none e = absurd (cc)
      go (some ref) e =
          unfold follow_path_map in
          bind-Returns (get_path_rules er rule) _ (get_path_rules-Returns rule present)
            (λ found. (add_path_rules host rule.name found.0 found.1 st, refl))

  on_host-Returns :
      (rule : RoutingRule) (st : RuleTargets) (host : Option Text)
      → HasPathMapId rule
      → Returns (on_host er rule st host)
  on_host-Returns rule st none h = (st, refl)
  on_host-Returns rule st (some host) h =
      unfold add_host_targets in follow_path_map-Returns rule (with_host_target rule host st) host h

  add_rule_targets-Returns :
      (rule : RoutingRule) (st : RuleTargets)
      → HasPathMapId rule
      → Returns (add_rule_targets er rule st)
  unfolding add_rule_targets
  add_rule_targets-Returns rule st h = elim (Bool-cases (has_id rule.http_listener)) [
    | inl e ↦ rw e (
        bind-Returns (get_host_name_for_routing_rule er rule) (on_host er rule st)
          (get_host_name-Returns rule e) (λ host. on_host-Returns rule st host h))
    | inr e ↦ rw e (st, refl)
  ]

  rule_targets_from-Returns :
      (rules : List RoutingRule) (st : RuleTargets)
      → All HasPathMapId rules
      → Returns (rule_targets_from er rules st)
  unfolding rule_targets_from
  rule_targets_from-Returns [] st h = (st, refl)
  rule_targets_from-Returns (rule ∷ rules) st h =
      bind-Returns (add_rule_targets er rule st) (rule_targets_from er rules)
        (add_rule_targets-Returns rule st h.0) (λ st'. rule_targets_from-Returns rules st' h.1)

  pub get_rule_to_targets-Returns : Returns (get_rule_to_targets er)
  unfolding get_rule_to_targets
  get_rule_to_targets-Returns =
      rule_targets_from-Returns er.routing_rules
        (record { rule_to_targets = []; path_map_to_targets = [] }) complete.rules

any_blacklisted-Returns : (blacklist ts : List Target) → Returns (any_blacklisted blacklist ts)
unfolding any_blacklisted
any_blacklisted-Returns blacklist [] = (false, refl)
any_blacklisted-Returns blacklist (t ∷ ts) =
    bind-Returns (is_blacklisted t blacklist) _ (is_blacklisted-Returns t blacklist) λ listed.
      elim listed as (λ b. Returns (if b then returns true else any_blacklisted blacklist ts)) [
        | true ↦ (true, refl)
        | false ↦ any_blacklisted-Returns blacklist ts
      ]

split_by-Returns :
    {A : Type 0} (test : A → Run Bool) (xs : List A)
    → ((a : A) → Returns (test a))
    → Returns (split_by test xs)
unfolding split_by
split_by-Returns test [] h = (([], []), refl)
split_by-Returns test (x ∷ xs) h = bind-Returns (test x) _ (h x) λ listed.
    bind-Returns (split_by test xs) _ (split_by-Returns test xs h)
      (λ rest. (if listed then (x ∷ rest.0, rest.1) else (rest.0, x ∷ rest.1), refl))

-- If every path map has a list of path rules, and every reference of a rule to a path map has an ID,
-- the routing rules and the path maps are split without a panic.
pub get_blacklisted-Returns :
    (er : ExistingResources)
    → IsComplete er
    → Returns (get_blacklisted_routing_rules er) × Returns (get_blacklisted_path_maps er)
unfolding get_blacklisted_routing_rules get_blacklisted_path_maps
get_blacklisted-Returns er h = (
  bind-Returns (get_rule_to_targets er) _ (get_rule_to_targets-Returns er h)
      (λ st. split_by-Returns _ er.routing_rules (λ rule. any_blacklisted-Returns _ _)),
  bind-Returns (get_rule_to_targets er) _ (get_rule_to_targets-Returns er h)
      (λ st. split_by-Returns _ er.url_path_maps (λ pm. any_blacklisted-Returns _ _)),
)
