-- ===== src/Appgw/Grouping/Returning.antt =====
-- pkg/appgw/frontend_listeners.go: the listeners that are made can be grouped by their identifiers.
use application_gateway_kube.Common.{
  deref-some, ℕ, Text, List, [], ◌∷◌, Option, none, some, Bool, true, false, ◌&&◌, ◌==◌, text_eq,
  GoMap, member, insert, returns, deref, OnReturn, >>=-OnReturn, OnReturn-at, Returns, >>=-Returns,
  All, All-append, All-perm, any, ◌≡◌, refl, sym, ap, ◌∙◌, arith, Bool-cases, inl, inr, beq_refl,
}
use application_gateway_kube.Common.Order.{MapOrder, Sort}
use application_gateway_kube.Common.Uniq.{All-insert}
use application_gateway_kube.Gateway.{
  Protocol, FrontendIpConfiguration, FrontendPort, HttpListener, ApplicationGateway,
}
use application_gateway_kube.Sorter.{by_listener_name_less}
use application_gateway_kube.Controller.Prune.{has_ip, lookup_ip_configuration_by_type}
use application_gateway_kube.Appgw.Identifier.{resource_ref, listener_id}
use application_gateway_kube.Appgw.Names.{ListenerIdentifier, get_host_names}
use application_gateway_kube.Appgw.Keys.{listener_eq}
use application_gateway_kube.Appgw.Listeners.{ListenerAzConfig}
use application_gateway_kube.Appgw.Listeners.Configs.{Configs}
use application_gateway_kube.Appgw.Collections.{BuilderContext}
use application_gateway_kube.Appgw.Frontend.{
  FrontendBuilder, Frontend, with_hosts, new_listener, with_config, add_listener, add_listeners,
  get_listeners,
}
use application_gateway_kube.Appgw.Grouping.{
  lookup_ip_configuration_by_id, identifier_of, group_listeners,
  group_listeners_by_listener_identifier, ports_by_id,
}

-- Every IP configuration has an ID.
abbrev pub HaveIds : List FrontendIpConfiguration → Type 0
HaveIds ips = All (λ (ip : FrontendIpConfiguration). (id : Text) × (ip.id ≡ some id)) ips

abbrev pub is_id : Text → Option Text → Bool
is_id id none = false
is_id id (some t) = t == id

-- One of the IP configurations has the ID.
abbrev pub has_ip_id : Text → List FrontendIpConfiguration → Bool
has_ip_id id ips = any (λ (ip : FrontendIpConfiguration). is_id id ip.id) ips

lookup_by_id-finds :
    (ips : List FrontendIpConfiguration) (id : Text)
    → HaveIds ips
    → has_ip_id id ips ≡ true
    → (ip : FrontendIpConfiguration) × (lookup_ip_configuration_by_id ips id ≡ returns (some ip))
unfolding lookup_ip_configuration_by_id
lookup_by_id-finds [] id h k = absurd (cc)
lookup_by_id-finds (ip ∷ ips) id ((own, e), h) k = elim (Bool-cases (own == id)) [
  | inl here ↦ (ip, rw (e, here) refl)
  | inr off ↦
      let (found, d) = lookup_by_id-finds ips id h (rw (e, off) at k) in (found, rw (e, off) d)
]

lookup_by_type-has_ip_id :
    (ips : List FrontendIpConfiguration) (is_private : Bool) {ip : FrontendIpConfiguration}
    {id : Text}
    → lookup_ip_configuration_by_type ips is_private ≡ some ip
    → ip.id ≡ some id
    → has_ip_id id ips ≡ true
unfolding lookup_ip_configuration_by_type
lookup_by_type-has_ip_id [] is_private e f = absurd (cc)
lookup_by_type-has_ip_id (own ∷ ips) is_private {ip = ip} {id = id} e f =
    elim (Bool-cases (has_ip is_private own.properties)) [
      | inl here ↦
          let first : some own ≡ some ip = rw here at e in
          let same : own.id ≡ some id = own_id first in rw (same, beq_refl id) refl
      | inr off ↦
          ground
            (arith, lookup_by_type-has_ip_id ips is_private {ip = ip} {id = id} (rw off at e) f)
    ]
  where
    own_id : some own ≡ some ip → own.id ≡ some id
    own_id d = cc

module _ (b : FrontendBuilder) (ips : List FrontendIpConfiguration) where
  -- The listener has its ID, and refers to a port and to an IP configuration of the gateway.
  pub record IsPlaced (l : HttpListener) : Type 0 where
    pub port_id : Text
    pub own_id : l.id ≡ listener_id b.agw l.name
    pub ip_id : Text
    pub on_port : l.frontend_port ≡ resource_ref port_id
    pub at_ip : l.frontend_ip_configuration ≡ resource_ref ip_id
    pub known : has_ip_id ip_id ips ≡ true

  with_hosts-IsPlaced :
      (hosts : List Text) (l : HttpListener) → IsPlaced l → IsPlaced (with_hosts b hosts l)
  with_hosts-IsPlaced [] l h = h
  with_hosts-IsPlaced (host ∷ []) l h = record {
    port_id = h.port_id;
    own_id = h.own_id;
    ip_id = h.ip_id;
    on_port = h.on_port;
    at_ip = h.at_ip;
    known = h.known;
  }
  with_hosts-IsPlaced (host ∷ g ∷ hosts) l h = record {
    port_id = h.port_id;
    own_id = h.own_id;
    ip_id = h.ip_id;
    on_port = h.on_port;
    at_ip = h.at_ip;
    known = h.known;
  }

  new_listener-IsPlaced :
      (id : ListenerIdentifier) (protocol : Protocol) (ports : GoMap ℕ FrontendPort)
      → b.frontend_ip_configurations ≡ some ips
      → OnReturn
          (λ (out : HttpListener × FrontendPort). IsPlaced out.0)
          (new_listener b id protocol ports)
  unfolding new_listener
  new_listener-IsPlaced id protocol ports e =
      >>=-OnReturn _ (deref b.frontend_ip_configurations) _ λ all e1.
        >>=-OnReturn _ (deref (lookup_ip_configuration_by_type all id.use_private_ip)) _ λ ip e2.
          >>=-OnReturn _ (deref ip.id) _ λ ip_id e3.
            with_hosts-IsPlaced (get_host_names id) _ (record {
              port_id = _;
              own_id = refl;
              ip_id = ip_id;
              on_port = refl;
              at_ip = refl;
              known = known_id e1 e2 (deref-some ip.id e3);
            })
    where
      known_id :
          {all : List FrontendIpConfiguration} {ip : FrontendIpConfiguration} {ip_id : Text}
          → deref b.frontend_ip_configurations ≡ returns all
          → deref (lookup_ip_configuration_by_type all id.use_private_ip) ≡ returns ip
          → ip.id ≡ some ip_id
          → has_ip_id ip_id ips ≡ true
      known_id {all} {ip} d1 d2 d3 =
          let same : all ≡ ips = cc in
          lookup_by_type-has_ip_id ips id.use_private_ip
            (ap (λ xs. lookup_ip_configuration_by_type xs id.use_private_ip) (sym same)
              ∙ deref-some _ d2)
            d3

  add_listener-ArePlaced :
      (id : ListenerIdentifier) (config : ListenerAzConfig) (l : HttpListener) (port : FrontendPort)
      (number : ℕ) (s : Frontend)
      → IsPlaced l
      → All IsPlaced s.listeners
      → All IsPlaced (add_listener b id config l port number s).listeners
  add_listener-ArePlaced id config l port number s h a =
      elim (Bool-cases (member port.name s.public_ports && id.use_private_ip)) [
        | inl refused ↦ simp refused a
        | inr created ↦ simp created (
            All-append IsPlaced s.listeners (with_config b config l ∷ []) a (
              record {
                port_id = h.port_id;
                own_id = h.own_id;
                ip_id = h.ip_id;
                on_port = h.on_port;
                at_ip = h.at_ip;
                known = h.known;
              },
              tt,
            ))
      ]

  add_listeners-ArePlaced :
      (configs : List (ListenerIdentifier × ListenerAzConfig)) (s : Frontend)
      → b.frontend_ip_configurations ≡ some ips
      → All IsPlaced s.listeners
      → OnReturn (λ (front : Frontend). All IsPlaced front.listeners) (add_listeners b configs s)
  unfolding add_listeners
  add_listeners-ArePlaced [] s e a = a
  add_listeners-ArePlaced ((id, config) ∷ configs) s e a =
      >>=-OnReturn _ (new_listener b id config.protocol s.ports_by_number) _ λ out d.
        >>=-OnReturn _ (deref out.1.port) _ λ number f. add_listeners-ArePlaced configs _ e (
          add_listener-ArePlaced id config out.0 out.1 number s
            (OnReturn-at (λ (o : HttpListener × FrontendPort). IsPlaced o.0) _ d
              (new_listener-IsPlaced id config.protocol s.ports_by_number e))
            a)

  pub get_listeners-ArePlaced :
      (order : MapOrder) (s : Sort) (ctx : BuilderContext) (app_gw : ApplicationGateway)
      (configs : Configs) (existing : GoMap ℕ FrontendPort)
      → ctx.enable_brownfield_deployment ≡ false
      → b.frontend_ip_configurations ≡ some ips
      → OnReturn
          (λ (out : List HttpListener × List FrontendPort). All IsPlaced out.0)
          (get_listeners b order s ctx app_gw configs existing)
  unfolding get_listeners
  get_listeners-ArePlaced order s ctx app_gw configs existing off e =
      >>=-OnReturn _
        (add_listeners b (order.iterate (ListenerIdentifier × ListenerAzConfig) configs) _) _
        λ front d. rw off (
          All-perm IsPlaced (s.sort_perm HttpListener by_listener_name_less front.listeners) (
            OnReturn-at (λ (front : Frontend). All IsPlaced front.listeners) _ d
              (add_listeners-ArePlaced
                (order.iterate (ListenerIdentifier × ListenerAzConfig) configs) _ e tt)))

  identifier_of-Returns :
      (ports : GoMap Text FrontendPort) (l : HttpListener)
      → b.frontend_ip_configurations ≡ some ips
      → HaveIds ips
      → IsPlaced l
      → Returns (identifier_of b ports l)
  unfolding identifier_of resource_ref
  identifier_of-Returns ports l e ids h =
      let (ip, found) = lookup_by_id-finds ips h.ip_id ids h.known in
      rw (h.on_port, h.at_ip, e, found) (_, refl)

  group_listeners-Returns :
      (ports : GoMap Text FrontendPort) (ls : List HttpListener)
      (m : GoMap ListenerIdentifier HttpListener)
      → b.frontend_ip_configurations ≡ some ips
      → HaveIds ips
      → All IsPlaced ls
      → Returns (group_listeners b ports ls m)
  unfolding group_listeners
  group_listeners-Returns ports [] m e ids h = (m, refl)
  group_listeners-Returns ports (l ∷ ls) m e ids h =
      >>=-Returns (identifier_of b ports l) _ (identifier_of-Returns ports l e ids h.0)
        λ id d. group_listeners-Returns ports ls (insert id l m) e ids h.1

  -- Listeners that refer to a port and to an IP configuration of the gateway are grouped without a panic.
  pub group_listeners_by_listener_identifier-Returns :
      (ls : List HttpListener) (ports : List FrontendPort)
      → b.frontend_ip_configurations ≡ some ips
      → HaveIds ips
      → All IsPlaced ls
      → Returns (group_listeners_by_listener_identifier b ls ports)
  unfolding group_listeners_by_listener_identifier
  group_listeners_by_listener_identifier-Returns ls ports e ids h =
      group_listeners-Returns (ports_by_id ports []) ls [] e ids h

  group_listeners-All :
      (P : HttpListener → Type 0) (ports : GoMap Text FrontendPort) (ls : List HttpListener)
      (m : GoMap ListenerIdentifier HttpListener)
      → All P ls
      → All (λ (entry : ListenerIdentifier × HttpListener). P entry.1) m
      → OnReturn
          (λ (out : GoMap ListenerIdentifier HttpListener).
            All (λ (entry : ListenerIdentifier × HttpListener). P entry.1) out)
          (group_listeners b ports ls m)
  unfolding group_listeners
  group_listeners-All P ports [] m h a = a
  group_listeners-All P ports (l ∷ ls) m h a =
      >>=-OnReturn _ (identifier_of b ports l) _
        λ id d. group_listeners-All P ports ls (insert id l m) h.1 (All-insert P id l m h.0 a)

  -- What holds of all listeners holds of those that are grouped.
  pub group_listeners_by_listener_identifier-All :
      (P : HttpListener → Type 0) (ls : List HttpListener) (ports : List FrontendPort)
      → All P ls
      → OnReturn
          (λ (out : GoMap ListenerIdentifier HttpListener).
            All (λ (entry : ListenerIdentifier × HttpListener). P entry.1) out)
          (group_listeners_by_listener_identifier b ls ports)
  unfolding group_listeners_by_listener_identifier
  group_listeners_by_listener_identifier-All P ls ports h =
      group_listeners-All P (ports_by_id ports []) ls [] h tt
