-- ===== src/Appgw/Listeners/Configs.antt =====
-- pkg/appgw/ingress_rules.go and frontend_listeners.go: the listeners of all ingresses.
use application_gateway_kube.Common.{
  ℕ, Text, List, [], ◌∷◌, Option, none, some, Bool, false, not, GoMap, insert, is_nil,
  if◌then◌else◌,
}
use application_gateway_kube.Common.Order.{MapOrder}
use application_gateway_kube.Gateway.{http, Ingress, IngressRule, HttpIngressRuleValue}
use application_gateway_kube.Annotations.{AnnotationError, waf_policy}
use application_gateway_kube.Appgw.Names.{ListenerIdentifier}
use application_gateway_kube.Appgw.Keys.{listener_eq}
use application_gateway_kube.Appgw.Listeners.{
  ListenerAzConfig, of_protocol, default_frontend_listener_identifier, process_ingress_rule,
}

abbrev pub Configs : Type 0
Configs = GoMap ListenerIdentifier ListenerAzConfig

-- `for k, v := range from { m[k] = f(v) }`
unfoldable pub put_entries :
    (ListenerAzConfig → ListenerAzConfig)
    → List (ListenerIdentifier × ListenerAzConfig)
    → Configs
    → Configs
put_entries f [] m = m
put_entries f ((k, v) ∷ entries) m = put_entries f entries (insert k (f v) m)

-- The policy of an annotation that is there and not empty.
abbrev pub set_policy : ListenerAzConfig → Text → Option AnnotationError → ListenerAzConfig
set_policy config policy none =
    if is_nil policy then config else record config { firewall_policy = policy }
set_policy config policy (some err) = config

abbrev pub policy_of_ingress : Ingress → ListenerAzConfig → ListenerAzConfig
policy_of_ingress ing config = let (policy, err) = waf_policy ing in set_policy config policy err

abbrev pub has_policy : Text → Option AnnotationError → Bool
has_policy policy none = not (is_nil policy)
has_policy policy (some err) = false

-- The loop of `attachFirewallPolicy` without an ingress: the first ingress with a policy.
unfoldable pub first_policy : List Ingress → ListenerAzConfig → ListenerAzConfig
first_policy [] config = config
first_policy (ing ∷ ings) config =
    let rest = first_policy ings config in
    if has_policy (waf_policy ing).0 (waf_policy ing).1 then policy_of_ingress ing config else rest

-- `attachFirewallPolicy`
unfoldable pub attach_firewall_policy :
    List Ingress → Option Ingress → ListenerAzConfig → ListenerAzConfig
unfolding first_policy
attach_firewall_policy ings (some ing) config = policy_of_ingress ing config
attach_firewall_policy ings none config = first_policy ings config

module _ (pfx : Text → List ℕ) (base64 : List ℕ → Text) (md5_sum : Text → List ℕ) (ag_prefix : Text)
    (hash_code : ListenerIdentifier → Text) (order : MapOrder) (env_use_private_ip : Text)
    (attach : Bool) where
  abbrev pub listeners_of_rule : Ingress → IngressRule → Configs
  listeners_of_rule ing rule =
      process_ingress_rule pfx base64 md5_sum ag_prefix hash_code env_use_private_ip rule ing

  abbrev pub add_rule : Ingress → IngressRule → Option HttpIngressRuleValue → Configs → Configs
  add_rule ing rule none m = m
  add_rule ing rule (some part) m =
      put_entries (λ config. config)
        (order.iterate (ListenerIdentifier × ListenerAzConfig) (listeners_of_rule ing rule)) m

  unfoldable pub listeners_of_rules : Ingress → List IngressRule → Configs → Configs
  unfolding put_entries
  listeners_of_rules ing [] m = m
  listeners_of_rules ing (rule ∷ rules) m =
      listeners_of_rules ing rules (add_rule ing rule rule.http m)

  -- `getListenersFromIngress`
  unfoldable pub get_listeners_from_ingress : Ingress → Configs
  unfolding listeners_of_rules
  get_listeners_from_ingress ing = listeners_of_rules ing ing.rules []

  abbrev pub attach_policy : List Ingress → Option Ingress → ListenerAzConfig → ListenerAzConfig
  attach_policy ings from config =
      if attach then attach_firewall_policy ings from config else config

  -- The loop of `getListenerConfigs` over the ingresses that are left, of all ingresses.
  unfoldable pub configs_of_ingresses : List Ingress → List Ingress → Configs → Configs
  unfolding put_entries
  configs_of_ingresses all [] m = m
  configs_of_ingresses all (ing ∷ ings) m = configs_of_ingresses all ings (
      put_entries (attach_policy all (some ing))
        (order.iterate (ListenerIdentifier × ListenerAzConfig) (get_listeners_from_ingress ing)) m)

  abbrev pub or_default_listener : List Ingress → Configs → Configs
  or_default_listener all [] =
      (default_frontend_listener_identifier, attach_policy all none (of_protocol http)) ∷ []
  or_default_listener all (entry ∷ m) = entry ∷ m

  -- `getListenerConfigs`
  unfoldable pub get_listener_configs : List Ingress → Configs
  unfolding configs_of_ingresses
  get_listener_configs ings = or_default_listener ings (configs_of_ingresses ings ings [])
