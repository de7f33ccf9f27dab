-- ===== src/Appgw/Listeners/Asked.antt =====
-- pkg/appgw/ingress_rules.go and frontend_listeners.go: which listeners there are configurations for.
use application_gateway_kube.Common.{
  ℕ, Text, List, [], ◌∷◌, Option, none, some, Bool, true, ◌&&◌, ◌||◌, is_some, insert, member,
  lookup, any, ◌≡◌, refl, arith, ◌∙◌, sym, subst, All, All-map,
}
use application_gateway_kube.Common.Order.{MapOrder}
use application_gateway_kube.Common.Ranged.{has_key, has_key-iterate, member-insert_eq, member-All}
use application_gateway_kube.Gateway.{Ingress, IngressRule, HttpIngressRuleValue}
use application_gateway_kube.Appgw.Names.{ListenerIdentifier}
use application_gateway_kube.Appgw.Keys.{listener_eq}
use application_gateway_kube.Appgw.Listeners.{ListenerAzConfig, process_ingress_rule}
use application_gateway_kube.Appgw.Listeners.Configs.{
  Configs, put_entries, add_rule, listeners_of_rules, get_listeners_from_ingress, attach_policy,
  configs_of_ingresses, or_default_listener, get_listener_configs,
}

member-put_entries :
    (f : ListenerAzConfig → ListenerAzConfig) (id : ListenerIdentifier)
    (entries : List (ListenerIdentifier × ListenerAzConfig)) (m : Configs)
    → member id (put_entries f entries m) ≡ (has_key id entries || member id m)
unfolding put_entries
member-put_entries f id [] m = refl
member-put_entries f id ((k, v) ∷ entries) m =
    rw (member-put_entries f id entries (insert k (f v) m), member-insert_eq k id (f v) m)
      (ground arith)

module _ (pfx : Text → List ℕ) (base64 : List ℕ → Text) (md5_sum : Text → List ℕ) (ag_prefix : Text)
    (hash_code : ListenerIdentifier → Text) (env_use_private_ip : Text) where
  -- The rule has an HTTP part, and asks for the listener.
  abbrev pub asks : ListenerIdentifier → Ingress → IngressRule → Bool
  asks id ing rule =
      is_some rule.http
      && member id
          (process_ingress_rule pfx base64 md5_sum ag_prefix hash_code env_use_private_ip rule ing)

  -- A rule of one of the ingresses asks for the listener.
  abbrev pub is_asked : ListenerIdentifier → List Ingress → Bool
  is_asked id ings = any (λ (ing : Ingress). any (asks id ing) ing.rules) ings

  module _ (order : MapOrder) (attach : Bool) where
    member-add_rule :
        (id : ListenerIdentifier) (ing : Ingress) (rule : IngressRule)
        (o : Option HttpIngressRuleValue) (m : Configs)
        → member id (
            add_rule pfx base64 md5_sum ag_prefix hash_code order env_use_private_ip attach ing rule
              o m)
          ≡ ((is_some o
                && member id (
                    process_ingress_rule pfx base64 md5_sum ag_prefix hash_code env_use_private_ip
                      rule ing))
              || member id m)
    member-add_rule id ing rule none m = refl
    member-add_rule id ing rule (some part) m =
        member-put_entries _ id _ m
        ∙ rw
            (has_key-iterate order id (
              process_ingress_rule pfx base64 md5_sum ag_prefix hash_code env_use_private_ip rule
                ing))
            refl

    member-listeners_of_rules :
        (id : ListenerIdentifier) (ing : Ingress) (rules : List IngressRule) (m : Configs)
        → member id (
            listeners_of_rules pfx base64 md5_sum ag_prefix hash_code order env_use_private_ip
              attach ing rules m)
          ≡ (any (asks id ing) rules || member id m)
    unfolding listeners_of_rules
    member-listeners_of_rules id ing [] m = refl
    member-listeners_of_rules id ing (rule ∷ rules) m =
        rw
          (
            member-listeners_of_rules id ing rules (
                add_rule pfx base64 md5_sum ag_prefix hash_code order env_use_private_ip attach ing
                  rule rule.http m),
            member-add_rule id ing rule rule.http m,
          )
          (ground arith)

    member-configs_of_ingresses :
        (id : ListenerIdentifier) (all ings : List Ingress) (m : Configs)
        → member id (
            configs_of_ingresses pfx base64 md5_sum ag_prefix hash_code order env_use_private_ip
              attach all ings m)
          ≡ (is_asked id ings || member id m)
    unfolding configs_of_ingresses get_listeners_from_ingress lookup
    member-configs_of_ingresses id all [] m = refl
    member-configs_of_ingresses id all (ing ∷ ings) m =
        member-configs_of_ingresses id all ings _
        ∙ rw
            (
              member-put_entries
                  (attach_policy pfx base64 md5_sum ag_prefix hash_code order env_use_private_ip
                    attach all (some ing))
                  id
                  (order.iterate (ListenerIdentifier × ListenerAzConfig) (
                    get_listeners_from_ingress pfx base64 md5_sum ag_prefix hash_code order
                      env_use_private_ip attach ing))
                  m,
              has_key-iterate order id (
                  get_listeners_from_ingress pfx base64 md5_sum ag_prefix hash_code order
                    env_use_private_ip attach ing),
              member-listeners_of_rules id ing ing.rules [],
            )
            (ground arith)

    member-or_default_listener :
        (id : ListenerIdentifier) (all : List Ingress) (m : Configs)
        → member id m ≡ true
        → member id (
            or_default_listener pfx base64 md5_sum ag_prefix hash_code order env_use_private_ip
              attach all m)
          ≡ true
    unfolding lookup
    member-or_default_listener id all [] h = absurd (cc)
    member-or_default_listener id all (entry ∷ m) h = h

    -- There is a configuration for every listener that a rule asks for.
    pub member-get_listener_configs :
        (id : ListenerIdentifier) (ings : List Ingress)
        → is_asked id ings ≡ true
        → member id (
            get_listener_configs pfx base64 md5_sum ag_prefix hash_code order env_use_private_ip
              attach ings)
          ≡ true
    unfolding get_listener_configs
    member-get_listener_configs id ings h =
        member-or_default_listener id ings _
          (rw (member-configs_of_ingresses id ings ings [], h) refl)

    or_default_listener_lem :
        (id : ListenerIdentifier) (all : List Ingress) (m : Configs)
        → member id m ≡ true
        → or_default_listener pfx base64 md5_sum ag_prefix hash_code order env_use_private_ip attach
            all m
          ≡ m
    unfolding lookup
    or_default_listener_lem id all [] h = absurd (cc)
    or_default_listener_lem id all (entry ∷ m) h = refl

    -- If a rule asks for a listener, then there are configurations only for listeners that rules ask for.
    pub get_listener_configs-All :
        (id : ListenerIdentifier) (ings : List Ingress)
        → is_asked id ings ≡ true
        → All
            (λ (entry : ListenerIdentifier × ListenerAzConfig). is_asked entry.0 ings ≡ true)
            (get_listener_configs pfx base64 md5_sum ag_prefix hash_code order env_use_private_ip
              attach ings)
    unfolding get_listener_configs lookup
    get_listener_configs-All id ings h =
        let found =
          configs_of_ingresses pfx base64 md5_sum ag_prefix hash_code order env_use_private_ip
            attach ings ings [] in
        subst (All _)
          (sym (
            or_default_listener_lem id ings found
              (rw (member-configs_of_ingresses id ings ings [], h) refl)))
          (All-map _ _
            (λ entry k. let e = member-configs_of_ingresses entry.0 ings ings [] in ground arith)
            found (member-All found))
