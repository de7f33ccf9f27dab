-- ===== src/Brownfield/MergeRules/Basic.antt =====
-- Merging basic rules.
use application_gateway_kube.Common.{
  Text, List, [], ◌∷◌, ◌++◌, Option, none, some, ◌≡◌, refl, ◌∙◌, arith, returns, deref, GoMap,
  lookup, insert, lookup-insert, text_eq, text_beq_iff, find_key, later, true, All, UniqueKeys,
}
use application_gateway_kube.Common.Order.{MapOrder}
use application_gateway_kube.Common.Uniq.{concat, range_values, find_key-range_values}
use application_gateway_kube.Gateway.{SubResource, UrlPathMap, basic, RoutingRule}
use application_gateway_kube.Brownfield.Buckets.{has_id}
use application_gateway_kube.Brownfield.RuleTargets.{deref_id}
use application_gateway_kube.Brownfield.Merge.{id_or_empty}
use application_gateway_kube.Brownfield.MergeRules.{
  merge_by_type, merge_routing_rules, MergeState, merge_beside, merge_rule, merge_rule_list,
  merge_rule_buckets, merge_rules,
}
use application_gateway_kube.Brownfield.MergeRules.OnePerListener.{
  listener_of, merge_rules_one_per_listener, merge_rule_buckets-Merges,
}

-- A rule that forwards one listener to one place.
abbrev pub IsBasic : RoutingRule → Type 0
IsBasic rule = (rule.rule_type ≡ basic) × (has_id rule.http_listener ≡ true)

abbrev HasBasic : GoMap Text RoutingRule → Type 0
HasBasic m = (k : Text) (rule : RoutingRule) → lookup k m ≡ some rule → rule.rule_type ≡ basic

deref_id-has_id :
    (ref : Option SubResource) → has_id ref ≡ true → deref_id ref ≡ returns (id_or_empty ref)
deref_id-has_id none h = absurd (cc)
deref_id-has_id (some ref) h = go ref.id h
  where
    go :
        (o : Option Text)
        → has_id (some (record { id = o })) ≡ true
        → deref o ≡ returns (id_or_empty (some (record { id = o })))
    go none e = absurd (cc)
    go (some i) e = refl

module _ (order : MapOrder) (pms : Option (List UrlPathMap)) where
  abbrev at : GoMap Text RoutingRule → MergeState
  at m = record { url_path_maps = pms; uniq = m }

  -- The rules by listener after basic rules were merged: the first of each listener.
  abbrev FirstOf : GoMap Text RoutingRule → List RoutingRule → GoMap Text RoutingRule → Type 0
  FirstOf m rules out =
      HasBasic out × ((k : Text) → lookup k out ≡ later (lookup k m) (find_key listener_of k rules))

  merge_beside_basic :
      (rule : RoutingRule) (o : Option RoutingRule)
      → rule.rule_type ≡ basic
      → ((r : RoutingRule) → o ≡ some r → r.rule_type ≡ basic)
      → (kept : RoutingRule) × (merge_beside order pms rule o ≡ returns (pms, kept))
        × (later o (some rule) ≡ some kept)
        × (kept.rule_type ≡ basic)
  unfolding merge_beside merge_routing_rules merge_by_type
  merge_beside_basic rule none b h = (rule, refl, refl, b)
  merge_beside_basic rule (some r) b h = (r, rw (h r refl, b) refl, refl, h r refl)

  merge_rule_basic :
      (m : GoMap Text RoutingRule) (rule : RoutingRule)
      → HasBasic m
      → IsBasic rule
      → (out : GoMap Text RoutingRule) × (merge_rule order (at m) rule ≡ returns (at out))
        × FirstOf m (rule ∷ []) out
  unfolding merge_rule find_key
  merge_rule_basic m rule h b =
      let k = listener_of rule in
      let (kept, e, first, t) = merge_beside_basic rule (lookup k m) b.0 (λ r found. h k r found) in
      (
        insert k kept m,
        rw (deref_id-has_id rule.http_listener b.1, e) refl,
        (
          λ j r found. ground (arith, lookup-insert k j kept m, h j r, t),
          λ j. ground (arith, lookup-insert k j kept m, first, text_beq_iff k j),
        ),
      )

  merge_rule_list_basic :
      (m : GoMap Text RoutingRule) (rules : List RoutingRule)
      → HasBasic m
      → All IsBasic rules
      → (out : GoMap Text RoutingRule) × (merge_rule_list order (at m) rules ≡ returns (at out))
        × FirstOf m rules out
  unfolding merge_rule_list find_key
  merge_rule_list_basic m [] h b = (m, refl, (h, λ k. ground arith))
  merge_rule_list_basic m (rule ∷ rules) h b =
      let (m', e, law) = merge_rule_basic m rule h b.0 in
      let (out, e', law') = merge_rule_list_basic m' rules law.0 b.1 in
      (out, rw e e', (law'.0, λ k. ground (arith, law.1 k, law'.1 k)))

  find_key-append_later :
      (k : Text) (xs ys : List RoutingRule)
      → find_key listener_of k (xs ++ ys)
        ≡ later (find_key listener_of k xs) (find_key listener_of k ys)
  unfolding find_key
  find_key-append_later k [] ys = refl
  find_key-append_later k (x ∷ xs) ys = ground (arith, find_key-append_later k xs ys)

  merge_rule_buckets_basic :
      (m : GoMap Text RoutingRule) (buckets : List (List RoutingRule))
      → HasBasic m
      → All (All IsBasic) buckets
      → (out : GoMap Text RoutingRule) × (merge_rule_buckets order (at m) buckets
          ≡ returns (at out))
        × FirstOf m (concat buckets) out
  unfolding merge_rule_buckets find_key
  merge_rule_buckets_basic m [] h b = (m, refl, (h, λ k. ground arith))
  merge_rule_buckets_basic m (rules ∷ buckets) h b =
      let (m', e, law) = merge_rule_list_basic m rules h b.0 in
      let (out, e', law') = merge_rule_buckets_basic m' buckets law.0 b.1 in
      (
        out,
        rw e e',
        (
          law'.0,
          λ k. ground (arith, law.1 k, law'.1 k, find_key-append_later k rules (concat buckets)),
        ),
      )

  -- Basic rules with a listener are merged without a panic, the path maps stay as they are, and the
  -- first rule of each listener is kept, once.
  pub merge_rules_basic :
      (buckets : List (List RoutingRule))
      → All (All IsBasic) buckets
      → (out : List RoutingRule) × (merge_rules order pms buckets ≡ returns (pms, out))
        × UniqueKeys listener_of out
        × ((k : Text) → find_key listener_of k out ≡ find_key listener_of k (concat buckets))
  unfolding merge_rules lookup
  merge_rules_basic buckets b =
      let (m, e, law) =
        merge_rule_buckets_basic [] buckets (λ k rule found. absurd (let f = found in cc)) b in
      let runs : merge_rules order pms buckets ≡ returns (pms, range_values listener_of order m) =
        rw e refl in
      let keyed = (merge_rule_buckets-Merges order (at []) (at m) buckets tt e).keyed in
      (
        range_values listener_of order m,
        runs,
        (merge_rules_one_per_listener order pms buckets (pms, range_values listener_of order m)
            runs).0,
        λ k. find_key-range_values listener_of order m keyed k ∙ law.1 k,
      )
