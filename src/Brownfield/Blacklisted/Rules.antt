-- ===== src/Brownfield/Blacklisted/Rules.antt =====
-- Which routing rules are blacklisted.
use application_gateway_kube.Common.{
  Text, List, [], ◌∷◌, ◌++◌, some, Bool, true, false, ◌≡◌, refl, ap, ◌↔◌, inl, inr, Run, returns,
  >>=-eq-returns, lookup, ◌==◌, text_eq, text_beq_iff, arith, Bool-cases, if◌then◌else◌,
}
use application_gateway_kube.Gateway.{RoutingRule}
use application_gateway_kube.Brownfield.Targets.{Target, is_blacklisted, get_target_blacklist}
use application_gateway_kube.Brownfield.Targets.Blacklist.{
  Any, Any-append_left, Any-append_right, Returns, is_blacklisted-Returns,
}
use application_gateway_kube.Brownfield.Targets.Prohibited.{
  NamesHost, NamesDirectory, prohibited_below,
}
use application_gateway_kube.Brownfield.Existing.{ExistingResources}
use application_gateway_kube.Brownfield.Buckets.{split_by}
use application_gateway_kube.Brownfield.RuleTargets.{
  RuleTargets, targets_at, get_rule_to_targets, any_blacklisted,
}
use application_gateway_kube.Brownfield.RuleTargets.Served.{
  named, only, targets_for, all_paths, followed, served_host, serves_at, rule_serves, served_by,
  named-get_rule_to_targets,
}
use application_gateway_kube.Brownfield.Blacklisted.{get_blacklisted_routing_rules}
use application_gateway_kube.Brownfield.Blacklisted.References.{In}

abbrev Listed : List Target → Target → Type 0
Listed blacklist t = is_blacklisted t blacklist ≡ returns true

any_blacklisted_iff :
    (blacklist ts : List Target)
    → (any_blacklisted blacklist ts ≡ returns true) ↔ Any (Listed blacklist) ts
unfolding any_blacklisted
any_blacklisted_iff blacklist [] = (λ h. absurd (cc), λ h. absurd h)
any_blacklisted_iff blacklist (t ∷ ts) =
    let (listed, e) = is_blacklisted-Returns t blacklist in
    ground (arith, e, any_blacklisted_iff blacklist ts)

any_blacklisted_total : (blacklist ts : List Target) → Returns (any_blacklisted blacklist ts)
unfolding any_blacklisted
any_blacklisted_total blacklist [] = (false, refl)
any_blacklisted_total blacklist (t ∷ ts) =
    let (listed, e) = is_blacklisted-Returns t blacklist in
    let rest = any_blacklisted_total blacklist ts in
    elim (Bool-cases listed) [ inl h ↦ (true, rw (e, h)) | inr h ↦ (rest.0, rw (e, h) rest.1) ]

module _ {A : Type 0} (test : A → Run Bool) where
  abbrev Parts : A → List A → List A × List A → Type 0
  Parts a xs out =
      (In a out.0 ↔ (In a xs × (test a ≡ returns true)))
      × (In a out.1 ↔ (In a xs × (test a ≡ returns false)))

  Parts-cons :
      (a x : A) (xs : List A) (listed : Bool) (rest : List A × List A)
      → test x ≡ returns listed
      → Parts a xs rest
      → Parts a (x ∷ xs) (if listed then (x ∷ rest.0, rest.1) else (rest.0, x ∷ rest.1))
  Parts-cons a x xs true rest e ih = ground arith
  Parts-cons a x xs false rest e ih = ground arith

  In-split_by :
      (a : A) (xs : List A) (out : List A × List A)
      → split_by test xs ≡ returns out
      → Parts a xs out
  unfolding split_by
  In-split_by a [] out h =
      let e : ([], []) ≡ out = cc in
      rw (← e) ((λ n. absurd n, λ p. absurd p.0), (λ n. absurd n, λ p. absurd p.0))
  In-split_by a (x ∷ xs) out h =
      let (listed, e, h') = >>=-eq-returns (test x) _ h in
      let (rest, e', h'') = >>=-eq-returns (split_by test xs) _ h' in
      let same : (if listed then (x ∷ rest.0, rest.1) else (rest.0, x ∷ rest.1)) ≡ out = cc in
      rw (← same) (Parts-cons a x xs listed rest e (In-split_by a xs rest e'))

-- A rule of that name serves a target on the blacklist.
abbrev pub ServesListed : ExistingResources → Text → Type 0
ServesListed er n =
    Any (Listed (get_target_blacklist er.prohibited_targets)) (served_by er n er.routing_rules)

false_iff_not :
    (blacklist ts : List Target)
    → (any_blacklisted blacklist ts ≡ returns false)
      ↔ (¬ (any_blacklisted blacklist ts ≡ returns true))
false_iff_not blacklist ts =
    let (b, e) = any_blacklisted_total blacklist ts in
    (λ h k. cc, λ h. elim (Bool-cases b) [ inl y ↦ absurd (h (rw y at e)) | inr n ↦ rw n at e ])

iff_test :
    (er : ExistingResources) (st : RuleTargets) (n : Text)
    → get_rule_to_targets er ≡ returns st
    → (any_blacklisted (get_target_blacklist er.prohibited_targets) (named n st.rule_to_targets)
        ≡ returns true)
      ↔ ServesListed er n
iff_test er st n e =
    rw (← named-get_rule_to_targets er n st e) (
      any_blacklisted_iff (get_target_blacklist er.prohibited_targets) (named n st.rule_to_targets))

-- Where the routing rules can be split, a rule is blacklisted exactly if a rule of its name serves a
-- target on the blacklist; the other rules are the rest.
pub get_blacklisted_routing_rules_iff :
    (er : ExistingResources) (out : List RoutingRule × List RoutingRule)
    → get_blacklisted_routing_rules er ≡ returns out
    → (rule : RoutingRule)
    → (In rule out.0 ↔ (In rule er.routing_rules × ServesListed er rule.name))
      × (In rule out.1 ↔ (In rule er.routing_rules × (¬ ServesListed er rule.name)))
unfolding get_blacklisted_routing_rules
get_blacklisted_routing_rules_iff er out h rule =
    let (st, e, h') = >>=-eq-returns (get_rule_to_targets er) _ h in
    let bl = get_target_blacklist er.prohibited_targets in
    let parts =
      In-split_by (λ r. any_blacklisted bl (targets_at (lookup r.name st.rule_to_targets))) rule
        er.routing_rules out h' in
    let test = iff_test er st rule.name e in
    let neg = false_iff_not bl (named rule.name st.rule_to_targets) in
    (
      (λ i. let (m, t) = parts.0.0 i in (m, test.0 t), λ p. parts.0.1 (p.0, test.1 p.1)),
      (
        λ i. let (m, f) = parts.1.0 i in (m, λ s. neg.0 f (test.1 s)),
        λ p. parts.1.1 (p.0, neg.1 (λ t. p.1 (test.0 t))),
      ),
    )

Any-of_In : {A : Type 0} (P : A → Type 0) (a : A) (xs : List A) → In a xs → P a → Any P xs
Any-of_In P a [] i p = absurd i
Any-of_In P a (x ∷ xs) (inl e) p = inl (rw e at p)
Any-of_In P a (x ∷ xs) (inr i) p = inr (Any-of_In P a xs i p)

served_by_own :
    (er : ExistingResources) (P : Target → Type 0) (rule : RoutingRule) (rules : List RoutingRule)
    → In rule rules
    → Any P (rule_serves er rule)
    → Any P (served_by er rule.name rules)
served_by_own er P rule [] i h = absurd i
served_by_own er P rule (r ∷ rules) (inl e) h =
    Any-append_left P (only (r.name == rule.name) (rule_serves er r)) (served_by er rule.name rules)
      (rw (← e, (text_beq_iff rule.name rule.name).1 refl) h)
served_by_own er P rule (r ∷ rules) (inr i) h =
    Any-append_right P (only (r.name == rule.name) (rule_serves er r))
      (served_by er rule.name rules) (served_by_own er P rule rules i h)

In-targets_for :
    (host path : Text) (paths : List Text)
    → In path paths
    → In (record { hostname = host; path = path }) (targets_for host paths)
In-targets_for host path [] i = absurd i
In-targets_for host path (p ∷ ps) (inl e) = inl (ap (λ q. record { hostname = host; path = q }) e)
In-targets_for host path (p ∷ ps) (inr i) = inr (In-targets_for host path ps i)

-- Where the routing rules can be split, a rule of the gateway is blacklisted if its listener is found
-- and one prohibited target names the listener's host and a directory above one of the paths of the
-- rule's path map.
pub prohibited_rule_is_blacklisted :
    (er : ExistingResources) (out : List RoutingRule × List RoutingRule) (rule : RoutingRule)
    (host base rest : Text)
    → get_blacklisted_routing_rules er ≡ returns out
    → In rule er.routing_rules
    → served_host er rule ≡ some host
    → In (base ++ b'/' ∷ rest) (all_paths (followed er rule rule.url_path_map))
    → Any (λ pt. NamesHost pt host × NamesDirectory pt base) er.prohibited_targets
    → In rule out.0
prohibited_rule_is_blacklisted er out rule host base rest h i served path named_by =
    let bl = get_target_blacklist er.prohibited_targets in
    let t : Target = record { hostname = host; path = base ++ b'/' ∷ rest } in
    let at_host : In t (serves_at er rule (some host)) =
      In-targets_for host (base ++ b'/' ∷ rest)
        ([] ∷ all_paths (followed er rule rule.url_path_map)) (inr path) in
    (get_blacklisted_routing_rules_iff er out h rule).0.1 (
      i,
      served_by_own er (Listed bl) rule er.routing_rules i (
          unfold rule_serves in
          rw served (
            Any-of_In (Listed bl) t (serves_at er rule (some host)) at_host
              (prohibited_below er.prohibited_targets host base rest named_by))),
    )
