-- ===== src/Appgw/Listeners/Secured.antt =====
-- pkg/appgw: which listeners have a certificate.
use application_gateway_kube.Common.{
  ℕ, Text, List, [], ◌∷◌, Option, none, some, Bool, true, false, text_eq, insert, is_nil, ◌≡◌, refl,
  All, Bool-cases, inl, inr, All-perm,
}
use application_gateway_kube.Common.Order.{MapOrder}
use application_gateway_kube.Common.Uniq.{All-insert}
use application_gateway_kube.Gateway.{
  Protocol, http, https, Ingress, IngressRule, HttpIngressRuleValue,
}
use application_gateway_kube.Annotations.{AnnotationError, waf_policy, is_ssl_redirect}
use application_gateway_kube.Appgw.Names.{ListenerIdentifier}
use application_gateway_kube.Appgw.Keys.{SecretIdentifier, secret_eq, listener_eq}
use application_gateway_kube.Appgw.Listeners.{
  ListenerAzConfig, of_protocol, get_certificate, id_of_rule, rule_listeners, process_ingress_rule,
}
use application_gateway_kube.Appgw.Listeners.Configs.{
  has_policy, Configs, put_entries, attach_policy, attach_firewall_policy, first_policy, set_policy,
  add_rule, listeners_of_rules, get_listeners_from_ingress, configs_of_ingresses,
  or_default_listener, get_listener_configs,
}
use application_gateway_kube.Appgw.Listeners.Provided.{
  HasCertificate, Provides, certificates-Provides, certificate_of-Provides,
}

module _ (pfx : Text → List ℕ) (base64 : List ℕ → Text) (P : SecretIdentifier → Type 0) where
  -- A listener with HTTPS has a secret with the property.
  abbrev pub IsSecured : ListenerAzConfig → Type 0
  IsSecured config = config.protocol ≡ https → P config.secret

  abbrev pub AreSecured : Configs → Type 0
  AreSecured m = All (λ (entry : ListenerIdentifier × ListenerAzConfig). IsSecured entry.1) m

  put_entries-AreSecured :
      (f : ListenerAzConfig → ListenerAzConfig)
      (entries : List (ListenerIdentifier × ListenerAzConfig)) (m : Configs)
      → ((config : ListenerAzConfig) → IsSecured config → IsSecured (f config))
      → AreSecured entries
      → AreSecured m
      → AreSecured (put_entries f entries m)
  unfolding put_entries
  put_entries-AreSecured f [] m k h g = g
  put_entries-AreSecured f ((j, v) ∷ entries) m k h g =
      put_entries-AreSecured f entries (insert j (f v) m) k h.1
        (All-insert IsSecured j (f v) m (k v h.0) g)

  set_policy-IsSecured :
      (config : ListenerAzConfig) (policy : Text) (err : Option AnnotationError)
      → IsSecured config
      → IsSecured (set_policy config policy err)
  set_policy-IsSecured config policy none h = elim (Bool-cases (is_nil policy)) [
    | inl empty ↦ rw empty h
    | inr given ↦ rw given h
  ]
  set_policy-IsSecured config policy (some err) h = h

  first_policy-IsSecured :
      (ings : List Ingress) (config : ListenerAzConfig)
      → IsSecured config
      → IsSecured (first_policy ings config)
  unfolding first_policy
  first_policy-IsSecured [] config h = h
  first_policy-IsSecured (ing ∷ ings) config h =
      elim (Bool-cases (has_policy (waf_policy ing).0 (waf_policy ing).1)) [
        | inl here ↦ rw here (set_policy-IsSecured config _ _ h)
        | inr off ↦ rw off (first_policy-IsSecured ings config h)
      ]

  module _ (md5_sum : Text → List ℕ) (ag_prefix : Text)
      (hash_code : ListenerIdentifier → Text) where
    rule_listeners-AreSecured :
        (id : Protocol → ListenerIdentifier) (o : Option (Text × SecretIdentifier))
        (redirect : Bool)
        → ((cert : Text) (found : SecretIdentifier) → o ≡ some (cert, found) → P found)
        → AreSecured (rule_listeners pfx base64 md5_sum ag_prefix hash_code id o redirect)
    rule_listeners-AreSecured id none redirect h = ((λ e. absurd (cc)), tt)
    rule_listeners-AreSecured id (some (cert, secret)) false h = ((λ e. h cert secret refl), tt)
    rule_listeners-AreSecured id (some (cert, secret)) true h =
        All-insert IsSecured (id http) (of_protocol http) _ (λ e. absurd (cc))
          ((λ e. h cert secret refl), tt)

    process_ingress_rule-AreSecured :
        (env : Text) (rule : IngressRule) (ing : Ingress)
        → Provides pfx base64 P ing
        → AreSecured (process_ingress_rule pfx base64 md5_sum ag_prefix hash_code env rule ing)
    unfolding process_ingress_rule get_certificate
    process_ingress_rule-AreSecured env rule ing k =
        rule_listeners-AreSecured (id_of_rule pfx base64 md5_sum ag_prefix hash_code env rule ing) _
          (is_ssl_redirect ing).0 (λ cert found e. certificate_of-Provides pfx base64 P ing _ k e)

    module _ (order : MapOrder) (env : Text) (attach : Bool) where
      iterate-AreSecured :
          (m : Configs)
          → AreSecured m
          → AreSecured (order.iterate (ListenerIdentifier × ListenerAzConfig) m)
      iterate-AreSecured m h =
          All-perm _ (order.iterate_perm (ListenerIdentifier × ListenerAzConfig) m) h

      attach_policy-IsSecured :
          (all : List Ingress) (from : Option Ingress) (config : ListenerAzConfig)
          → IsSecured config
          → IsSecured (
              attach_policy pfx base64 md5_sum ag_prefix hash_code order env attach all from config)
      unfolding attach_firewall_policy
      attach_policy-IsSecured all none config h = elim (Bool-cases attach) [
        | inl on ↦ rw on (first_policy-IsSecured all config h)
        | inr off ↦ rw off h
      ]
      attach_policy-IsSecured all (some ing) config h = elim (Bool-cases attach) [
        | inl on ↦ rw on (set_policy-IsSecured config _ _ h)
        | inr off ↦ rw off h
      ]

      add_rule-AreSecured :
          (ing : Ingress) (rule : IngressRule) (part : Option HttpIngressRuleValue) (m : Configs)
          → Provides pfx base64 P ing
          → AreSecured m
          → AreSecured
              (add_rule pfx base64 md5_sum ag_prefix hash_code order env attach ing rule part m)
      add_rule-AreSecured ing rule none m k h = h
      add_rule-AreSecured ing rule (some part) m k h =
          put_entries-AreSecured (λ config. config) _ m (λ config c. c)
            (iterate-AreSecured _ (process_ingress_rule-AreSecured env rule ing k)) h

      listeners_of_rules-AreSecured :
          (ing : Ingress) (rules : List IngressRule) (m : Configs)
          → Provides pfx base64 P ing
          → AreSecured m
          → AreSecured (
              listeners_of_rules pfx base64 md5_sum ag_prefix hash_code order env attach ing rules
                m)
      unfolding listeners_of_rules
      listeners_of_rules-AreSecured ing [] m k h = h
      listeners_of_rules-AreSecured ing (rule ∷ rules) m k h =
          listeners_of_rules-AreSecured ing rules _ k (add_rule-AreSecured ing rule rule.http m k h)

      configs_of_ingresses-AreSecured :
          (all ings : List Ingress) (m : Configs)
          → All (Provides pfx base64 P) ings
          → AreSecured m
          → AreSecured (
              configs_of_ingresses pfx base64 md5_sum ag_prefix hash_code order env attach all ings
                m)
      unfolding configs_of_ingresses get_listeners_from_ingress
      configs_of_ingresses-AreSecured all [] m k h = h
      configs_of_ingresses-AreSecured all (ing ∷ ings) m k h =
          configs_of_ingresses-AreSecured all ings _ k.1 (
            put_entries-AreSecured _ _ m (attach_policy-IsSecured all (some ing))
              (iterate-AreSecured _ (listeners_of_rules-AreSecured ing ing.rules [] k.0 tt)) h)

      or_default-AreSecured :
          (all : List Ingress) (m : Configs)
          → AreSecured m
          → let out =
              or_default_listener pfx base64 md5_sum ag_prefix hash_code order env attach all m in
            AreSecured out × (is_nil out ≡ false)
      or_default-AreSecured all [] h =
          ((attach_policy-IsSecured all none (of_protocol http) (λ e. absurd (cc)), tt), refl)
      or_default-AreSecured all (entry ∷ m) h = (h, refl)

      -- There is always a listener, and a secret of a listener with HTTPS has what its ingress provides.
      pub get_listener_configs-All :
          (ings : List Ingress)
          → All (Provides pfx base64 P) ings
          → AreSecured
              (get_listener_configs pfx base64 md5_sum ag_prefix hash_code order env attach ings)
            × (is_nil (
                  get_listener_configs pfx base64 md5_sum ag_prefix hash_code order env attach ings)
                ≡ false)
      unfolding get_listener_configs
      get_listener_configs-All ings k =
          or_default-AreSecured ings _ (configs_of_ingresses-AreSecured ings ings [] k tt)

module _ (pfx : Text → List ℕ) (base64 : List ℕ → Text) (md5_sum : Text → List ℕ) (ag_prefix : Text)
    (hash_code : ListenerIdentifier → Text) (order : MapOrder) (env : Text) (attach : Bool) where
  ingresses-All : (ings : List Ingress) → All (Provides pfx base64 (HasCertificate pfx base64)) ings
  ingresses-All [] = tt
  ingresses-All (ing ∷ ings) = (certificates-Provides pfx base64 ing, ingresses-All ings)

  -- There is always a listener, and every listener with HTTPS has a secret that has a certificate in the
  -- secret store.
  pub get_listener_configs-AreSecured :
      (ings : List Ingress)
      → AreSecured pfx base64
          (HasCertificate pfx base64)
          (get_listener_configs pfx base64 md5_sum ag_prefix hash_code order env attach ings)
        × (is_nil
              (get_listener_configs pfx base64 md5_sum ag_prefix hash_code order env attach ings)
            ≡ false)
  get_listener_configs-AreSecured ings =
      get_listener_configs-All pfx base64 (HasCertificate pfx base64) md5_sum ag_prefix hash_code
        order env attach ings (ingresses-All ings)
