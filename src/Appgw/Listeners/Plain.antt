-- ===== src/Appgw/Listeners/Plain.antt =====
-- pkg/appgw/ingress_rules.go: the identifiers of the listeners that rules ask for.
use application_gateway_kube.Common.{
  ℕ, ◌<◌, Text, bytes, List, [], ◌∷◌, Option, none, some, Bool, true, false, ◌||◌, ◌==◌, text_eq,
  is_nil, lookup, member, any, All, All-append, ◌≡◌, refl, arith, Bool-cases, inl, inr,
  if◌then◌else◌, subst,
}
use application_gateway_kube.Common.Ranged.{member-insert_eq}
use application_gateway_kube.Gateway.{Protocol, http, https, Ingress, IngressRule}
use application_gateway_kube.Annotations.{use_private_ip, is_ssl_redirect}
use application_gateway_kube.Annotations.HostNames.{get_host_name_extensions}
use application_gateway_kube.Appgw.Names.{ListenerIdentifier, set_host_names}
use application_gateway_kube.Appgw.Names.Compact.{AreNamed, IsUsual, set_host_names-IsCompact}
use application_gateway_kube.Appgw.Keys.{SecretIdentifier, listener_eq}
use application_gateway_kube.Appgw.Listeners.{
  default_frontend_listener_identifier, port_of_protocol, generate_listener_id, id_of_rule,
  rule_listeners, process_ingress_rule,
}
use application_gateway_kube.Appgw.Listeners.Asked.{asks, is_asked}

module _ (pfx : Text → List ℕ) (base64 : List ℕ → Text) (md5_sum : Text → List ℕ) (ag_prefix : Text)
    (hash_code : ListenerIdentifier → Text) (env_use_private_ip : Text) (is_private : Bool) where
  -- The ingress extends its host names by none that is empty, and wants the kind of IP.
  pub record IsPlain (ing : Ingress) : Type 0 where
    pub named : AreNamed (get_host_name_extensions ing).0
    pub placed : ((use_private_ip ing).0 || env_use_private_ip == bytes "true") ≡ is_private

  host-AreNamed : (host : Text) → AreNamed (if is_nil host then [] else host ∷ [])
  host-AreNamed [] = tt
  host-AreNamed (c ∷ host) = (refl, tt)

  id_of_rule-IsUsual :
      (rule : IngressRule) (ing : Ingress) (protocol : Protocol)
      → IsPlain ing
      → IsUsual is_private
          (id_of_rule pfx base64 md5_sum ag_prefix hash_code env_use_private_ip rule ing protocol)
  unfolding generate_listener_id set_host_names
  id_of_rule-IsUsual rule ing protocol h = (
    set_host_names-IsCompact
        (record default_frontend_listener_identifier {
          frontend_port = port_of_protocol protocol;
          use_private_ip = (use_private_ip ing).0 || env_use_private_ip == bytes "true";
        })
        _ refl
        (All-append _ (if is_nil rule.host then [] else rule.host ∷ [])
          (get_host_name_extensions ing).0 (host-AreNamed rule.host) h.named),
    h.placed,
    in_range protocol,
  )
    where
      in_range : (protocol : Protocol) → port_of_protocol protocol < 65536
      in_range http = omega arith
      in_range https = omega arith

  rule_listeners-IsUsual :
      (id : ListenerIdentifier) (ids : Protocol → ListenerIdentifier)
      (o : Option (Text × SecretIdentifier)) (redirect : Bool)
      → ((protocol : Protocol) → IsUsual is_private (ids protocol))
      → member id (rule_listeners pfx base64 md5_sum ag_prefix hash_code ids o redirect) ≡ true
      → IsUsual is_private id
  unfolding lookup
  rule_listeners-IsUsual id ids none redirect k h = elim (Bool-cases (ids http == id)) [
    | inl same ↦ subst (IsUsual is_private) ((listener_eq.same_iff (ids http) id).0 same) (k http)
    | inr off ↦ absurd (let d = rw off at h in cc)
  ]
  rule_listeners-IsUsual id ids (some (cert, secret)) false k h =
      elim (Bool-cases (ids https == id)) [
        | inl same ↦
            subst (IsUsual is_private) ((listener_eq.same_iff (ids https) id).0 same) (k https)
        | inr off ↦ absurd (let d = rw off at h in cc)
      ]
  rule_listeners-IsUsual id ids (some (cert, secret)) true k h =
      elim (Bool-cases (ids https == id)) [
        | inl same ↦
            subst (IsUsual is_private) ((listener_eq.same_iff (ids https) id).0 same) (k https)
        | inr off ↦ elim (Bool-cases (ids http == id)) [
          | inl same ↦
              subst (IsUsual is_private) ((listener_eq.same_iff (ids http) id).0 same) (k http)
          | inr away ↦
              absurd (let d = rw (member-insert_eq (ids http) id _ _, off, away) at h in cc)
        ]
      ]

  asks-IsUsual :
      (id : ListenerIdentifier) (ing : Ingress) (rules : List IngressRule)
      → IsPlain ing
      → any (asks pfx base64 md5_sum ag_prefix hash_code env_use_private_ip id ing) rules ≡ true
      → IsUsual is_private id
  unfolding process_ingress_rule
  asks-IsUsual id ing [] p h = absurd (cc)
  asks-IsUsual id ing (rule ∷ rules) p h =
      elim (Bool-cases (
        member id (
          process_ingress_rule pfx base64 md5_sum ag_prefix hash_code env_use_private_ip rule
            ing))) [
              | inl here ↦
                  rule_listeners-IsUsual id
                    (id_of_rule pfx base64 md5_sum ag_prefix hash_code env_use_private_ip rule ing)
                    _ (is_ssl_redirect ing).0 (λ protocol. id_of_rule-IsUsual rule ing protocol p)
                    here
              | inr off ↦ asks-IsUsual id ing rules p (ground arith)
            ]

  -- An identifier that a rule asks for has host names that can be set again, and the kind of IP of the ingresses.
  pub is_asked-IsUsual :
      (id : ListenerIdentifier) (ings : List Ingress)
      → All IsPlain ings
      → is_asked pfx base64 md5_sum ag_prefix hash_code env_use_private_ip id ings ≡ true
      → IsUsual is_private id
  is_asked-IsUsual id [] p h = absurd (cc)
  is_asked-IsUsual id (ing ∷ ings) (p, ps) h =
      elim (Bool-cases
        (any (asks pfx base64 md5_sum ag_prefix hash_code env_use_private_ip id ing) ing.rules)) [
          | inl here ↦ asks-IsUsual id ing ing.rules p here
          | inr off ↦ is_asked-IsUsual id ings ps (rw off at h)
        ]
