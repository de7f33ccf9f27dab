-- ===== src/Brownfield/MergeRules/OnePerListener.antt =====
-- Merging leaves one routing rule for each listener.
use application_gateway_kube.Common.{
  ℕ, Text, List, [], ◌∷◌, ◌++◌, Option, none, some, ◌≡◌, refl, sym, ap, ◌∙◌, ◌⊎◌, ◌↔◌, inl, inr,
  arith, Bool-cases, returns, >>=-eq-returns, deref, GoMap, lookup, insert, lookup-insert, text_eq,
  text_beq_iff, ◌==◌, find_key, UniqueKeys,
}
use application_gateway_kube.Common.Order.{MapOrder}
use application_gateway_kube.Common.Uniq.{
  concat, range_values, IsKeyed, insert-IsKeyed, UniqueKeys-range_values, find_key-range_values,
}
use application_gateway_kube.Gateway.{
  SubResource, UrlPathMap, RuleType, basic, path_based_routing, RoutingRule,
}
use application_gateway_kube.Brownfield.RuleTargets.{deref_id}
use application_gateway_kube.Brownfield.Merge.{id_or_empty}
use application_gateway_kube.Brownfield.MergeRules.{
  merge_found, merge_by_type, merge_path_rules, lookup_path_map, merge_path_based_rule,
  merge_in_gateway, merge_routing_rules, MergeState, merge_beside, merge_rule, merge_rule_list,
  merge_rule_buckets, merge_rules,
}

-- The ID of the listener of a rule.
abbrev pub listener_of : RoutingRule → Text
listener_of rule = id_or_empty rule.http_listener

pub deref_id-id_or_empty :
    (ref : Option SubResource) (id : Text) → deref_id ref ≡ returns id → id_or_empty ref ≡ id
deref_id-id_or_empty none id h = absurd (cc)
deref_id-id_or_empty (some ref) id h = go ref.id h
  where
    go : (o : Option Text) → deref o ≡ returns id → id_or_empty (some (record { id = o })) ≡ id
    go none e = absurd (cc)
    go (some i) e = cc

returned : {A : Type 0} {a b : A} → returns a ≡ returns b → a ≡ b
returned h = cc

module _ (order : MapOrder) where
  merge_found_keeps :
      (pms : List UrlPathMap) (first second : RoutingRule) (found : Option (ℕ × UrlPathMap))
      (kind : RuleType) (out : List UrlPathMap × RoutingRule)
      → merge_found order pms first second found kind ≡ returns out
      → out.1 ≡ first
  unfolding merge_found
  merge_found_keeps pms first second found basic out h =
      let (place, e, h1) = >>=-eq-returns (deref found) _ h in cc
  merge_found_keeps pms first second found path_based_routing out h =
      let (ref, e, h1) = >>=-eq-returns (deref second.url_path_map) _ h in
      let (found', e', h2) = >>=-eq-returns (lookup_path_map pms ref.id) _ h1 in
      let (place, e2, h3) = >>=-eq-returns (deref found) _ h2 in
      let (place', e3, h4) = >>=-eq-returns (deref found') _ h3 in
      let (rules, e4, h5) =
        >>=-eq-returns (merge_path_rules order (place.1.path_rules ∷ place'.1.path_rules ∷ [])) _
          h4 in
      cc

  -- A path based rule stays when another rule is merged into it.
  merge_in_gateway_keeps :
      (st : Option (List UrlPathMap)) (first second : RoutingRule)
      (out : Option (List UrlPathMap) × RoutingRule)
      → merge_in_gateway order st first second ≡ returns out
      → out.1 ≡ first
  unfolding merge_in_gateway merge_path_based_rule
  merge_in_gateway_keeps none first second out h = cc
  merge_in_gateway_keeps (some pms) first second out h =
      let (merged, e, h1) = >>=-eq-returns (merge_path_based_rule order pms first second) _ h in
      let (ref, e1, h2) = >>=-eq-returns (deref first.url_path_map) _ e in
      let (found, e2, h3) = >>=-eq-returns (lookup_path_map pms ref.id) _ h2 in
      let kept = merge_found_keeps pms first second found second.rule_type merged h3 in
      cc (kept, h1)

  -- Merging two rules keeps one of them.
  merge_by_type_keeps :
      (st : Option (List UrlPathMap)) (first second : RoutingRule) (kind kind' : RuleType)
      (out : Option (List UrlPathMap) × RoutingRule)
      → merge_by_type order st first second kind kind' ≡ returns out
      → (out.1 ≡ first) ⊎ (out.1 ≡ second)
  unfolding merge_by_type
  merge_by_type_keeps st first second basic basic out h = inl (cc)
  merge_by_type_keeps st first second basic path_based_routing out h =
      inr (merge_in_gateway_keeps st second first out h)
  merge_by_type_keeps st first second path_based_routing kind' out h =
      inl (merge_in_gateway_keeps st first second out h)

  lookup-listener_of :
      (k : Text) (m : GoMap Text RoutingRule) (rule : RoutingRule)
      → IsKeyed listener_of m
      → lookup k m ≡ some rule
      → listener_of rule ≡ k
  unfolding lookup
  lookup-listener_of k [] rule h e = absurd (cc)
  lookup-listener_of k (entry ∷ m) rule h e = elim (Bool-cases (entry.0 == k)) [
    | inl same ↦
        let hit : some entry.1 ≡ some rule = rw same at e in
        let is : entry.1 ≡ rule = cc in rw (← is) (sym h.0 ∙ (text_beq_iff entry.0 k).0 same)
    | inr off ↦ lookup-listener_of k m rule h.2 (rw off at e)
  ]

  merge_beside_keeps :
      (st : Option (List UrlPathMap)) (m : GoMap Text RoutingRule) (rule : RoutingRule) (k : Text)
      (o : Option RoutingRule) (out : Option (List UrlPathMap) × RoutingRule)
      → listener_of rule ≡ k
      → ((r : RoutingRule) → o ≡ some r → listener_of r ≡ k)
      → merge_beside order st rule o ≡ returns out
      → listener_of out.1 ≡ k
  unfolding merge_beside merge_routing_rules
  merge_beside_keeps st m rule k none out own found h = let e : out.1 ≡ rule = cc in rw e own
  merge_beside_keeps st m rule k (some r) out own found h =
      elim (merge_by_type_keeps st r rule r.rule_type rule.rule_type out h) [
        | inl e ↦ rw e (found r refl)
        | inr e ↦ rw e own
      ]

  -- What a loop over rules does to the rules by listener.
  pub record Merges (st out : MergeState) (rules : List RoutingRule) : Type 0 where
    pub keyed : IsKeyed listener_of out.uniq
    pub missing :
        (k : Text)
        → (lookup k out.uniq ≡ none)
          ↔ ((lookup k st.uniq ≡ none) × (find_key listener_of k rules ≡ none))

  merge_rule-Merges :
      (st out : MergeState) (rule : RoutingRule)
      → IsKeyed listener_of st.uniq
      → merge_rule order st rule ≡ returns out
      → Merges st out (rule ∷ [])
  unfolding merge_rule find_key
  merge_rule-Merges st out rule h e =
      let (listener, e1, h1) = >>=-eq-returns (deref_id rule.http_listener) _ e in
      let (merged, e2, h2) =
        >>=-eq-returns (merge_beside order st.url_path_maps rule (lookup listener st.uniq)) _ h1 in
      let own = deref_id-id_or_empty rule.http_listener listener e1 in
      let kept : listener_of merged.1 ≡ listener =
        merge_beside_keeps st.url_path_maps st.uniq rule listener (lookup listener st.uniq) merged
          own (λ r found. lookup-listener_of listener st.uniq r h found) e2 in
      let same : insert (listener_of merged.1) merged.1 st.uniq ≡ out.uniq =
        rw kept (ap (λ s. s.uniq) (returned h2)) in
      record {
        keyed = rw (← same) (insert-IsKeyed listener_of merged.1 st.uniq h);
        missing = λ k.
            rw (← same, lookup-insert (listener_of merged.1) k merged.1 st.uniq, kept, own)
              (ground (arith, text_beq_iff listener k));
      }

  merge_rule_list-Merges :
      (st out : MergeState) (rules : List RoutingRule)
      → IsKeyed listener_of st.uniq
      → merge_rule_list order st rules ≡ returns out
      → Merges st out rules
  unfolding merge_rule_list find_key
  merge_rule_list-Merges st out [] h e =
      let same : st ≡ out = returned e in
      rw (← same) (record { keyed = h; missing = λ k. ground arith })
  merge_rule_list-Merges st out (rule ∷ rules) h e =
      let (st', e1, e2) = >>=-eq-returns (merge_rule order st rule) _ e in
      let first = merge_rule-Merges st st' rule h e1 in
      let rest = merge_rule_list-Merges st' out rules first.keyed e2 in
      record { keyed = rest.keyed; missing = λ k. ground (arith, first.missing k, rest.missing k) }

  find_key-append_none :
      (k : Text) (xs ys : List RoutingRule)
      → (find_key listener_of k (xs ++ ys) ≡ none)
        ↔ ((find_key listener_of k xs ≡ none) × (find_key listener_of k ys ≡ none))
  unfolding find_key
  find_key-append_none k [] ys = ground arith
  find_key-append_none k (x ∷ xs) ys = ground (arith, find_key-append_none k xs ys)

  pub merge_rule_buckets-Merges :
      (st out : MergeState) (buckets : List (List RoutingRule))
      → IsKeyed listener_of st.uniq
      → merge_rule_buckets order st buckets ≡ returns out
      → Merges st out (concat buckets)
  unfolding merge_rule_buckets find_key
  merge_rule_buckets-Merges st out [] h e =
      let same : st ≡ out = returned e in
      rw (← same) (record { keyed = h; missing = λ k. ground arith })
  merge_rule_buckets-Merges st out (b ∷ bs) h e =
      let (st', e1, e2) = >>=-eq-returns (merge_rule_list order st b) _ e in
      let first = merge_rule_list-Merges st st' b h e1 in
      let rest = merge_rule_buckets-Merges st' out bs first.keyed e2 in
      record {
        keyed = rest.keyed;
        missing = λ k.
            ground (arith, first.missing k, rest.missing k, find_key-append_none k b (concat bs));
      }

  -- Where merging the rules does not panic, a listener has one rule exactly if it had one or more
  -- before, and none otherwise.
  pub merge_rules_one_per_listener :
      (path_maps : Option (List UrlPathMap)) (buckets : List (List RoutingRule))
      (out : Option (List UrlPathMap) × List RoutingRule)
      → merge_rules order path_maps buckets ≡ returns out
      → UniqueKeys listener_of out.1
        × ((k : Text)
            → (find_key listener_of k out.1 ≡ none)
              ↔ (find_key listener_of k (concat buckets) ≡ none))
  unfolding merge_rules lookup
  merge_rules_one_per_listener path_maps buckets out h =
      let start : MergeState = record { url_path_maps = path_maps; uniq = [] } in
      let (st, e, h1) = >>=-eq-returns (merge_rule_buckets order start buckets) _ h in
      let merges = merge_rule_buckets-Merges start st buckets tt e in
      let same : range_values listener_of order st.uniq ≡ out.1 = ap (λ o. o.1) (returned h1) in
      (
        rw (← same) (UniqueKeys-range_values listener_of order st.uniq merges.keyed),
        λ k.
            let finds = find_key-range_values listener_of order st.uniq merges.keyed k in
            rw (← same, finds) (ground (arith, merges.missing k)),
      )
