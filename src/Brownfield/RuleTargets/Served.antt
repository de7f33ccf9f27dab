-- ===== src/Brownfield/RuleTargets/Served.antt =====
-- The targets that the loop of `getRuleToTargets` collects under the name of a rule.
use application_gateway_kube.Common.{
  Text, List, [], ◌∷◌, ◌++◌, map, append-nil, append_assoc, Option, none, some, Bool, true, false,
  ◌≡◌, refl, sym, ap, ◌∙◌, inl, inr, Run, returns, panics, >>=-eq-returns, lookup, lookup-insert,
  GoMap, ◌==◌, text_eq, text_beq_iff, Bool-cases, if◌then◌else◌,
}
use application_gateway_kube.Gateway.{SubResource, RoutingRule, PathRule}
use application_gateway_kube.Brownfield.Targets.{Target}
use application_gateway_kube.Brownfield.Existing.{ExistingResources}
use application_gateway_kube.Brownfield.Buckets.{has_id}
use application_gateway_kube.Brownfield.RuleTargets.{
  get_host_name_for_routing_rule, get_path_rules, RuleTargets, targets_at, append_target, add_paths,
  paths_of, add_path_rules, with_host_target, follow_path_map, add_host_targets, on_host,
  add_rule_targets, rule_targets_from, get_rule_to_targets,
}

-- The targets under a name.
abbrev pub named : Text → GoMap Text (List Target) → List Target
named n m = targets_at (lookup n m)

abbrev pub only : {A : Type 0} → Bool → List A → List A
only b ts = if b then ts else []

named-append_target :
    (n rule : Text) (t : Target) (m : GoMap Text (List Target))
    → named n (append_target rule t m) ≡ named n m ++ only (rule == n) (t ∷ [])
unfolding append_target
named-append_target n rule t m =
    rw (lookup-insert rule n (named rule m ++ t ∷ []) m) (elim (Bool-cases (rule == n)) [
      | inl e ↦ let same = (text_beq_iff rule n).0 e in rw (e, same)
      | inr e ↦ rw e (sym (append-nil (named n m)))
    ])

abbrev pub targets_for : Text → List Text → List Target
targets_for host paths = map (λ path. record { hostname = host; path = path }) paths

only-append :
    {A : Type 0} (b : Bool) (xs ys zs : List A)
    → (zs ++ only b xs) ++ only b ys ≡ zs ++ only b (xs ++ ys)
only-append true xs ys zs = append_assoc zs xs ys
only-append false xs ys zs = append-nil (zs ++ [])

named-add_paths :
    (n host rule pm : Text) (paths : List Text) (st : RuleTargets)
    → named n (add_paths host rule pm paths st).rule_to_targets
      ≡ named n st.rule_to_targets ++ only (rule == n) (targets_for host paths)
unfolding add_paths
named-add_paths n host rule pm [] st = elim (Bool-cases (rule == n)) [
  | inl e ↦ rw e (sym (append-nil (named n st.rule_to_targets)))
  | inr e ↦ rw e (sym (append-nil (named n st.rule_to_targets)))
]
named-add_paths n host rule pm (p ∷ ps) st =
    let t : Target = record { hostname = host; path = p } in
    named-add_paths n host rule pm ps (record {
      rule_to_targets = append_target rule t st.rule_to_targets;
      path_map_to_targets = append_target pm t st.path_map_to_targets;
    })
    ∙ ap (λ r. r ++ only (rule == n) (targets_for host ps))
        (named-append_target n rule t st.rule_to_targets)
    ∙ only-append (rule == n) (t ∷ []) (targets_for host ps) (named n st.rule_to_targets)

only-nil : {A : Type 0} (b : Bool) (zs : List A) → zs ++ only b [] ≡ zs
only-nil true zs = append-nil zs
only-nil false zs = append-nil zs

returns-injective : {A : Type 0} {a b : A} → returns a ≡ returns b → a ≡ b
returns-injective h = cc

-- The paths of a list of path rules.
abbrev pub all_paths : List PathRule → List Text
all_paths [] = []
all_paths (pr ∷ prs) = paths_of pr.paths ++ all_paths prs

targets_for-append :
    (host : Text) (xs ys : List Text)
    → targets_for host (xs ++ ys) ≡ targets_for host xs ++ targets_for host ys
targets_for-append host [] ys = refl
targets_for-append host (x ∷ xs) ys =
    ap (λ r. record { hostname = host; path = x } ∷ r) (targets_for-append host xs ys)

named-add_path_rules :
    (n host rule pm : Text) (prs : List PathRule) (st : RuleTargets)
    → named n (add_path_rules host rule pm prs st).rule_to_targets
      ≡ named n st.rule_to_targets ++ only (rule == n) (targets_for host (all_paths prs))
unfolding add_path_rules
named-add_path_rules n host rule pm [] st = sym (only-nil (rule == n) (named n st.rule_to_targets))
named-add_path_rules n host rule pm (pr ∷ prs) st =
    let ps = paths_of pr.paths in
    named-add_path_rules n host rule pm prs (add_paths host rule pm ps st)
    ∙ ap (λ r. r ++ only (rule == n) (targets_for host (all_paths prs)))
        (named-add_paths n host rule pm ps st)
    ∙ only-append (rule == n) (targets_for host ps) (targets_for host (all_paths prs))
        (named n st.rule_to_targets)
    ∙ ap (λ r. named n st.rule_to_targets ++ only (rule == n) r)
        (sym (targets_for-append host ps (all_paths prs)))

abbrev pub rules_found : Run (Text × List PathRule) → List PathRule
rules_found (returns found) = found.1
rules_found panics = []

abbrev pub followed : ExistingResources → RoutingRule → Option SubResource → List PathRule
followed er rule none = []
followed er rule (some ref) = rules_found (get_path_rules er rule)

abbrev host_found : Run (Option Text) → Option Text
host_found (returns host) = host
host_found panics = none

-- The host that a rule serves, if its listener is found.
unfoldable pub served_host : ExistingResources → RoutingRule → Option Text
served_host er rule =
    if has_id rule.http_listener then host_found (get_host_name_for_routing_rule er rule) else none

abbrev pub serves_at : ExistingResources → RoutingRule → Option Text → List Target
serves_at er rule none = []
serves_at er rule (some host) =
    targets_for host ([] ∷ all_paths (followed er rule rule.url_path_map))

-- The targets of one rule: its host with no path, and with each path of its path map.
unfoldable pub rule_serves : ExistingResources → RoutingRule → List Target
rule_serves er rule = serves_at er rule (served_host er rule)

module _ (er : ExistingResources) (n : Text) where
  named-follow_path_map :
      (rule : RoutingRule) (host : Text) (ref : Option SubResource) (st out : RuleTargets)
      → follow_path_map er rule host ref st ≡ returns out
      → named n out.rule_to_targets
        ≡ named n st.rule_to_targets
          ++ only (rule.name == n) (targets_for host (all_paths (followed er rule ref)))
  unfolding follow_path_map
  named-follow_path_map rule host none st out h =
      let e : st ≡ out = cc in
      rw (← e) (sym (only-nil (rule.name == n) (named n st.rule_to_targets)))
  named-follow_path_map rule host (some ref) st out h =
      let (found, eq, h') = >>=-eq-returns (get_path_rules er rule) _ h in
      let e : add_path_rules host rule.name found.0 found.1 st ≡ out = cc in
      rw (← e, eq) (named-add_path_rules n host rule.name found.0 found.1 st)

  named-on_host :
      (rule : RoutingRule) (host : Option Text) (st out : RuleTargets)
      → on_host er rule st host ≡ returns out
      → named n out.rule_to_targets
        ≡ named n st.rule_to_targets ++ only (rule.name == n) (serves_at er rule host)
  unfolding add_host_targets
  named-on_host rule none st out h =
      let e : st ≡ out = cc in
      rw (← e) (sym (only-nil (rule.name == n) (named n st.rule_to_targets)))
  named-on_host rule (some host) st out h =
      let t : Target = record { hostname = host; path = [] } in
      let followed_targets = targets_for host (all_paths (followed er rule rule.url_path_map)) in
      named-follow_path_map rule host rule.url_path_map (with_host_target rule host st) out h
      ∙ ap (λ r. r ++ only (rule.name == n) followed_targets)
          (named-append_target n rule.name t st.rule_to_targets)
      ∙ only-append (rule.name == n) (t ∷ []) followed_targets (named n st.rule_to_targets)

  named-add_rule_targets :
      (rule : RoutingRule) (st out : RuleTargets)
      → add_rule_targets er rule st ≡ returns out
      → named n out.rule_to_targets
        ≡ named n st.rule_to_targets ++ only (rule.name == n) (rule_serves er rule)
  unfolding add_rule_targets rule_serves served_host
  named-add_rule_targets rule st out h = elim (Bool-cases (has_id rule.http_listener)) [
    | inl e ↦
        let (host, eq, h') =
          >>=-eq-returns (get_host_name_for_routing_rule er rule) (on_host er rule st)
            (rw e at h) in
        rw (e, eq) (named-on_host rule host st out h')
    | inr e ↦
        let same : st ≡ out = returns-injective (rw e at h) in
        rw (e, ← same) (sym (only-nil (rule.name == n) (named n st.rule_to_targets)))
  ]

  -- The targets of the rules of one name.
  abbrev pub served_by : List RoutingRule → List Target
  served_by [] = []
  served_by (rule ∷ rules) = only (rule.name == n) (rule_serves er rule) ++ served_by rules

  named-rule_targets_from :
      (rules : List RoutingRule) (st out : RuleTargets)
      → rule_targets_from er rules st ≡ returns out
      → named n out.rule_to_targets ≡ named n st.rule_to_targets ++ served_by rules
  unfolding rule_targets_from
  named-rule_targets_from [] st out h =
      let e : st ≡ out = cc in rw (← e) (sym (append-nil (named n st.rule_to_targets)))
  named-rule_targets_from (rule ∷ rules) st out h =
      let (st', eq, h') =
        >>=-eq-returns (add_rule_targets er rule st) (rule_targets_from er rules) h in
      named-rule_targets_from rules st' out h'
      ∙ ap (λ r. r ++ served_by rules) (named-add_rule_targets rule st st' eq)
      ∙ append_assoc (named n st.rule_to_targets) (only (rule.name == n) (rule_serves er rule))
          (served_by rules)

  -- What is collected under a name is what the rules of that name serve.
  pub named-get_rule_to_targets :
      (out : RuleTargets)
      → get_rule_to_targets er ≡ returns out
      → named n out.rule_to_targets ≡ served_by er.routing_rules
  unfolding get_rule_to_targets lookup
  named-get_rule_to_targets out h =
      named-rule_targets_from er.routing_rules
        (record { rule_to_targets = []; path_map_to_targets = [] }) out h
