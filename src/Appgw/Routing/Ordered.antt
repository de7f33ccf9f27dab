-- ===== src/Appgw/Routing/Ordered.antt =====
-- pkg/appgw/requestroutingrules.go: which path rules the path map of a listener has, and in which order.
use application_gateway_kube.Common.{
  arith, any, is_nil, is_some, ◌&&◌, ℕ, ◌+◌, Text, List, [], ◌∷◌, ◌++◌, append-nil, Option, none,
  some, Bool, true, false, ◌==◌, text_eq, lookup, insert, lookup-insert, UniqueKeys, find_key, ◌≡◌,
  refl, sym, ap, ◌∙◌, Bool-cases, beq_comm, inl, inr,
}
use application_gateway_kube.Common.Order.{MapOrder, Sort}
use application_gateway_kube.Common.Collected.{of_option, collect-iterate}
use application_gateway_kube.Gateway.{
  Protocol, http, https, PathRule, HttpIngressRuleValue, IngressRule, IngressBackend, Ingress,
}
use application_gateway_kube.K8scontext.Listing.{Caches, slice}
use application_gateway_kube.Appgw.Names.{ListenerIdentifier}
use application_gateway_kube.Appgw.Keys.{SecretIdentifier, listener_eq}
use application_gateway_kube.Appgw.Listeners.{
  ListenerAzConfig, default_frontend_listener_identifier, process_ingress_rule, rule_listeners,
  id_of_rule,
}
use application_gateway_kube.Appgw.Frontend.{FrontendBuilder}
use application_gateway_kube.Appgw.Backends.{
  whole, BackendIdentifier, generate_backend_id, PortPair,
}
use application_gateway_kube.Appgw.PathMaps.{Built, get_path_rules}
use application_gateway_kube.Appgw.Routing.{
  PathMaps, pair_of, put_default, no_rules_ingress, merge_http_rule, merge_rules_of_ingress,
  add_ingress, path_maps_from, or_default_map, get_path_maps,
}
use application_gateway_kube.Appgw.Routing.Gathered.{
  rules_in, then_rest, merge_listeners_of_rule-rules,
}

module _ (b : FrontendBuilder) (c : Caches) (order : MapOrder) (s : Sort) (k : Built)
    (id : ListenerIdentifier) where
  -- The path rules that a rule of an ingress asks for at the listener.
  module _ (pfx : Text → List ℕ) (base64 : List ℕ → Text) (env_use_private_ip : Text) where
    abbrev pub rules_asked :
        ℕ → Ingress → ℕ → IngressRule → Option HttpIngressRuleValue → List PathRule
    rules_asked i ing r rule none = []
    rules_asked i ing r rule (some value) =
        of_option (λ config. get_path_rules b c order k id config i ing r 0 (slice value.paths))
          (lookup id (
            process_ingress_rule pfx base64 b.md5_sum b.ag_prefix b.hash_code env_use_private_ip
              rule ing))

    -- Those of the rules of an ingress, from the rule `r` on.
    abbrev pub rules_of_ingress : ℕ → Ingress → ℕ → List IngressRule → List PathRule
    rules_of_ingress i ing r [] = []
    rules_of_ingress i ing r (rule ∷ rules) =
        rules_asked i ing r rule rule.http ++ rules_of_ingress i ing (r + 1) rules

    -- Those of all ingresses, from the ingress `i` on.
    abbrev pub rules_of_ingresses : ℕ → List Ingress → List PathRule
    rules_of_ingresses i [] = []
    rules_of_ingresses i (ing ∷ ings) =
        rules_of_ingress i ing 0 ing.rules ++ rules_of_ingresses (i + 1) ings

    UniqueKeys-rule_listeners :
        (ids : Protocol → ListenerIdentifier) (o : Option (Text × SecretIdentifier))
        (redirect : Bool)
        → UniqueKeys
            (λ (entry : ListenerIdentifier × ListenerAzConfig). entry.0)
            (rule_listeners pfx base64 b.md5_sum b.ag_prefix b.hash_code ids o redirect)
    unfolding insert find_key
    UniqueKeys-rule_listeners ids none redirect = (refl, tt)
    UniqueKeys-rule_listeners ids (some (cert, secret)) false = (refl, tt)
    UniqueKeys-rule_listeners ids (some (cert, secret)) true =
        elim (Bool-cases (ids https == ids http)) [
          | inl same ↦ rw same (refl, tt)
          | inr off ↦
              let away : (ids http == ids https) ≡ false = beq_comm (ids http) (ids https) ∙ off in
              rw (off, away) (refl, (refl, tt))
        ]

    merge_http_rule-rules :
        (i : ℕ) (ing : Ingress) (r : ℕ) (rule : IngressRule) (o : Option HttpIngressRuleValue)
        (m : PathMaps)
        → rules_in b c order s k id
            (merge_http_rule b c order s k pfx base64 env_use_private_ip i ing r rule o m)
          ≡ rules_in b c order s k id m ++ rules_asked i ing r rule o
    unfolding process_ingress_rule
    merge_http_rule-rules i ing r rule none m = sym (append-nil (rules_in b c order s k id m))
    merge_http_rule-rules i ing r rule (some value) m =
        let f = λ (config : ListenerAzConfig).
          get_path_rules b c order k id config i ing r 0 (slice value.paths) in
        merge_listeners_of_rule-rules b c order s k id i ing r rule value _ m
        ∙ ap (λ rules. rules_in b c order s k id m ++ rules)
            (collect-iterate f id order
              (process_ingress_rule pfx base64 b.md5_sum b.ag_prefix b.hash_code env_use_private_ip
                rule ing)
              (UniqueKeys-rule_listeners
                (id_of_rule pfx base64 b.md5_sum b.ag_prefix b.hash_code env_use_private_ip rule
                  ing)
                _ _))

    merge_rules_of_ingress-rules :
        (i : ℕ) (ing : Ingress) (r : ℕ) (rules : List IngressRule) (m : PathMaps)
        → rules_in b c order s k id
            (merge_rules_of_ingress b c order s k pfx base64 env_use_private_ip i ing r rules m)
          ≡ rules_in b c order s k id m ++ rules_of_ingress i ing r rules
    unfolding merge_rules_of_ingress
    merge_rules_of_ingress-rules i ing r [] m = sym (append-nil (rules_in b c order s k id m))
    merge_rules_of_ingress-rules i ing r (rule ∷ rules) m =
        merge_rules_of_ingress-rules i ing (r + 1) rules _
        ∙ then_rest (rules_in b c order s k id m) _ _
            (merge_http_rule-rules i ing r rule rule.http m)

    put_default-rules :
        (be : BackendIdentifier) (pair : Option PortPair) (m : PathMaps)
        → (default_frontend_listener_identifier == id) ≡ false
        → rules_in b c order s k id (put_default b c order s k be pair m)
          ≡ rules_in b c order s k id m
    put_default-rules be none m off = refl
    put_default-rules be (some pair) m off =
        rw (lookup-insert default_frontend_listener_identifier id _ m, off) refl

    no_rules_ingress-rules :
        (i : ℕ) (ing : Ingress) (o : Option IngressBackend) (m : PathMaps)
        → (default_frontend_listener_identifier == id && is_some o) ≡ false
        → rules_in b c order s k id (no_rules_ingress b c order s k i ing o m)
          ≡ rules_in b c order s k id m
    unfolding no_rules_ingress
    no_rules_ingress-rules i ing none m off = refl
    no_rules_ingress-rules i ing (some backend) m off =
        put_default-rules (generate_backend_id (whole i) ing none none backend)
          (pair_of (whole i) k.settings.pairs) m
          (ground (arith, Bool-cases (default_frontend_listener_identifier == id)))

    add_ingress-rules :
        (i : ℕ) (ing : Ingress) (rules : List IngressRule) (m : PathMaps)
        → (default_frontend_listener_identifier == id && (is_nil rules && is_some ing.backend))
          ≡ false
        → rules_in b c order s k id
            (add_ingress b c order s k pfx base64 env_use_private_ip i ing rules m)
          ≡ rules_in b c order s k id m ++ rules_of_ingress i ing 0 rules
    add_ingress-rules i ing [] m off =
        no_rules_ingress-rules i ing ing.backend m off
        ∙ sym (append-nil (rules_in b c order s k id m))
    add_ingress-rules i ing (rule ∷ rules) m off =
        merge_rules_of_ingress-rules i ing 0 (rule ∷ rules) m

    -- An ingress has a backend and no rules, and the listener is the default one.
    abbrev pub is_mixed : List Ingress → Bool
    is_mixed ings =
        default_frontend_listener_identifier == id
        && any (λ (ing : Ingress). is_nil ing.rules && is_some ing.backend) ings

    path_maps_from-rules :
        (i : ℕ) (ings : List Ingress) (m : PathMaps)
        → is_mixed ings ≡ false
        → rules_in b c order s k id
            (path_maps_from b c order s k pfx base64 env_use_private_ip i ings m)
          ≡ rules_in b c order s k id m ++ rules_of_ingresses i ings
    unfolding path_maps_from
    path_maps_from-rules i [] m off = sym (append-nil (rules_in b c order s k id m))
    path_maps_from-rules i (ing ∷ ings) m off =
        path_maps_from-rules (i + 1) ings _
          (ground (arith, Bool-cases (default_frontend_listener_identifier == id)))
        ∙ then_rest (rules_in b c order s k id m) _ _ (
            add_ingress-rules i ing ing.rules m
              (ground (arith, Bool-cases (default_frontend_listener_identifier == id))))

    or_default_map-rules :
        (m : PathMaps)
        → rules_in b c order s k id (or_default_map b c order s k pfx base64 env_use_private_ip m)
          ≡ rules_in b c order s k id m
    unfolding lookup
    or_default_map-rules [] = elim (Bool-cases (default_frontend_listener_identifier == id)) [
      | inl same ↦ rw same refl
      | inr off ↦ rw off refl
    ]
    or_default_map-rules (entry ∷ m) = refl

    -- Unless the listener is the default one and an ingress without rules has a backend, the path rules of the listener's path map are those that are
    -- made of the paths of the rules that ask for the listener, in the order of the ingresses, of their rules and of the paths, however the maps are ranged over.
    pub get_path_maps_in_order :
        (ings : List Ingress)
        → is_mixed ings ≡ false
        → rules_in b c order s k id (get_path_maps b c order s k pfx base64 env_use_private_ip ings)
          ≡ rules_of_ingresses 0 ings
    unfolding get_path_maps lookup
    get_path_maps_in_order ings off = or_default_map-rules _ ∙ path_maps_from-rules 0 ings [] off
