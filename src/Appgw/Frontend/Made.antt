-- ===== src/Appgw/Frontend/Made.antt =====
-- pkg/appgw/frontend_listeners.go: the listener that is made for an identifier.
use application_gateway_kube.Common.{
  deref-some, ℕ, ◌<◌, Text, List, [], ◌∷◌, Option, none, some, Bool, ◌==◌, nat_eq, nat_beq_iff,
  text_eq, GoMap, lookup, insert, member, lookup-insert, if◌then◌else◌, returns, deref, OnReturn,
  >>=-OnReturn, All, ◌≡◌, refl, sym, ap, ◌∙◌, Bool-cases, Option-cases, inl, inr,
}
use application_gateway_kube.Common.Uniq.{All-insert_entry, All-lookup_entry}
use application_gateway_kube.Controller.Prune.{lookup_ip_configuration_by_type}
use application_gateway_kube.Gateway.{Protocol, FrontendIpConfiguration, FrontendPort, HttpListener}
use application_gateway_kube.Appgw.Identifier.{resource_ref}
use application_gateway_kube.Appgw.Names.{
  ListenerIdentifier, generate_listener_name, get_host_names,
}
use application_gateway_kube.Appgw.Listeners.{ListenerAzConfig}
use application_gateway_kube.Appgw.Frontend.{
  FrontendBuilder, port_or_new, with_hosts, new_listener, with_config,
}
use application_gateway_kube.Appgw.Frontend.Returning.{HasIp}

-- One host name is kept as such, more are listed.
abbrev pub one_host : List Text → Option Text
one_host [] = none
one_host (host ∷ []) = some host
one_host (host ∷ other ∷ hosts) = none

abbrev pub more_hosts : List Text → Option (List Text)
more_hosts [] = none
more_hosts (host ∷ []) = none
more_hosts (host ∷ other ∷ hosts) = some (host ∷ other ∷ hosts)

module _ (b : FrontendBuilder) (ips : List FrontendIpConfiguration) (is_private : Bool)
    (h : HasIp b ips is_private) (existing : GoMap ℕ FrontendPort) where
  -- The existing port of a number, or a new one.
  abbrev pub port_of_number : ℕ → FrontendPort
  port_of_number n = port_or_new b n (lookup n existing)

  -- The listener has the name and the host names of the identifier, and refers to its port and to the IP.
  pub record IsMade (id : ListenerIdentifier) (port : FrontendPort) (hosts : List Text)
      (l : HttpListener) : Type 0 where
    pub named : l.name ≡ generate_listener_name b.md5_sum b.ag_prefix b.hash_code id
    pub on_port : l.frontend_port ≡ resource_ref port.id
    pub at_ip : l.frontend_ip_configuration ≡ resource_ref h.ip_id
    pub single : l.host_name ≡ one_host hosts
    pub multiple : l.host_names ≡ more_hosts hosts

  abbrev pub IsMadeFor : ListenerIdentifier → HttpListener → Type 0
  IsMadeFor id l = IsMade id (port_of_number id.frontend_port) (get_host_names id) l

  with_hosts-IsMade :
      (id : ListenerIdentifier) (port : FrontendPort) (hosts : List Text) (l : HttpListener)
      → IsMade id port [] l
      → IsMade id port hosts (with_hosts b hosts l)
  with_hosts-IsMade id port [] l m = m
  with_hosts-IsMade id port (host ∷ []) l m = record {
    named = m.named;
    on_port = m.on_port;
    at_ip = m.at_ip;
    single = refl;
    multiple = m.multiple;
  }
  with_hosts-IsMade id port (host ∷ other ∷ hosts) l m = record {
    named = m.named;
    on_port = m.on_port;
    at_ip = m.at_ip;
    single = m.single;
    multiple = refl;
  }

  pub with_config-IsMade :
      (id : ListenerIdentifier) (port : FrontendPort) (hosts : List Text)
      (config : ListenerAzConfig) (l : HttpListener)
      → IsMade id port hosts l
      → IsMade id port hosts (with_config b config l)
  with_config-IsMade id port hosts config l m = record {
    named = m.named;
    on_port = m.on_port;
    at_ip = m.at_ip;
    single = m.single;
    multiple = m.multiple;
  }

  pub new_listener-IsMade :
      (id : ListenerIdentifier) (protocol : Protocol) (ports : GoMap ℕ FrontendPort)
      → b.frontend_ip_configurations ≡ some ips
      → id.use_private_ip ≡ is_private
      → OnReturn
          (λ (out : HttpListener × FrontendPort).
            IsMade id out.1 (get_host_names id) out.0
            × (out.1 ≡ port_or_new b id.frontend_port (lookup id.frontend_port ports)))
          (new_listener b id protocol ports)
  unfolding new_listener
  new_listener-IsMade id protocol ports e p =
      >>=-OnReturn _ (deref b.frontend_ip_configurations) _ λ all d1.
        >>=-OnReturn _ (deref (lookup_ip_configuration_by_type all id.use_private_ip)) _ λ ip d2.
          >>=-OnReturn _ (deref ip.id) _ λ ip_id d3. (
            with_hosts-IsMade id _ (get_host_names id) _ (record {
              named = refl;
              on_port = refl;
              at_ip = ap resource_ref (own_ip d1 d2 d3);
              single = refl;
              multiple = refl;
            }),
            refl,
          )
    where
      own_ip :
          {all : List FrontendIpConfiguration} {ip : FrontendIpConfiguration} {ip_id : Text}
          → deref b.frontend_ip_configurations ≡ returns all
          → deref (lookup_ip_configuration_by_type all id.use_private_ip) ≡ returns ip
          → deref ip.id ≡ returns ip_id
          → ip_id ≡ h.ip_id
      own_ip {all = all} {ip = ip} d1 d2 d3 =
          let same : all ≡ ips = cc in
          let first : lookup_ip_configuration_by_type ips is_private ≡ some ip =
            ap (λ xs. lookup_ip_configuration_by_type xs is_private) (sym same)
            ∙ (ap (lookup_ip_configuration_by_type all) (sym p) ∙ deref-some _ d2) in
          let own : ip ≡ h.ip = cc (h.found) in
          let found : ip.id ≡ some h.ip_id =
            ap (λ (i : FrontendIpConfiguration). i.id) own ∙ h.has_id in
          cc

  -- The ports of the loop are those of their numbers, which fit 16 bits, and the existing ones are among them.
  pub record IsPorts (m : GoMap ℕ FrontendPort) : Type 0 where
    pub kept : (n : ℕ) (p : FrontendPort) → lookup n existing ≡ some p → lookup n m ≡ some p
    pub own :
        All (λ (entry : ℕ × FrontendPort). (entry.0 < 65536) × (entry.1 ≡ port_of_number entry.0)) m

  pub port_or_new-port_of_number :
      (m : GoMap ℕ FrontendPort)
      → IsPorts m
      → (n : ℕ) → port_or_new b n (lookup n m) ≡ port_of_number n
  port_or_new-port_of_number m i n = elim (Option-cases (lookup n m)) [
    | inr (p, found) ↦ rw found (All-lookup_entry _ n m i.own found).1
    | inl absent ↦ elim (Option-cases (lookup n existing)) [
      | inl new ↦ rw (absent, new) refl
      | inr (p, found) ↦ absurd (let d = i.kept n p found in cc)
    ]
  ]

  pub insert-IsPorts :
      (m : GoMap ℕ FrontendPort) (n : ℕ) (p : FrontendPort)
      → IsPorts m
      → n < 65536
      → p ≡ port_of_number n
      → IsPorts (if member n m then m else insert n p m)
  insert-IsPorts m n p i r e = elim (Option-cases (lookup n m)) [
    | inr (q, found) ↦ rw found i
    | inl absent ↦ rw absent (record {
      kept = λ j q f. elim (Bool-cases (n == j)) [
        | inl same ↦ absurd (
            let here : n ≡ j = (nat_beq_iff n j).0 same in
            let d : lookup n m ≡ some q = ap (λ k. lookup k m) here ∙ i.kept j q f in cc)
        | inr off ↦ rw (lookup-insert n j p m, off) (i.kept j q f)
      ];
      own = All-insert_entry _ n p m (r, e) i.own;
    })
  ]
