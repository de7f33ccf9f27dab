-- ===== src/Appgw/Grouping/Identified.antt =====
-- pkg/appgw/frontend_listeners.go: the identifier that is computed for a listener is the one that it was made for.
use application_gateway_kube.Common.{
  ℕ, ◌<◌, Text, List, [], ◌∷◌, some, Bool, true, ◌||◌, ◌==◌, text_eq, nat_eq, GoMap, lookup, insert,
  member, any, returns, OnReturn-at, All, ◌≡◌, refl, sym, ap, ◌∙◌, subst, arith, beq_refl,
  Bool-cases, Option-cases, inl, inr,
}
use application_gateway_kube.Common.Ranged.{member-insert_eq}
use application_gateway_kube.Common.Uniq.{All-insert_entry, All-lookup_entry}
use application_gateway_kube.Gateway.{FrontendIpConfiguration, FrontendPort, HttpListener}
use application_gateway_kube.Appgw.Identifier.{resource_ref}
use application_gateway_kube.Appgw.Names.{
  ListenerIdentifier, set_names, set_host_names, get_host_names,
}
use application_gateway_kube.Appgw.Names.Compact.{IsUsual}
use application_gateway_kube.Appgw.Keys.{listener_eq}
use application_gateway_kube.Appgw.Frontend.{FrontendBuilder, new_listener, with_config}
use application_gateway_kube.Appgw.Listeners.{ListenerAzConfig}
use application_gateway_kube.Appgw.Frontend.Ports.{uses, port_number}
use application_gateway_kube.Appgw.Frontend.Returning.{HasIp, new_listener-Returns}
use application_gateway_kube.Appgw.Frontend.Made.{
  IsMade, new_listener-IsMade, with_config-IsMade, IsMadeFor, port_of_number, one_host, more_hosts,
}
use application_gateway_kube.Appgw.Grouping.{
  lookup_ip_configuration_by_id, has_private_address, ports_by_id, zero_identifier, with_host_names,
  number_of, identifier_of,
}

member-ports_by_id :
    (id : Text) (ports : List FrontendPort) (m : GoMap Text FrontendPort)
    → member id (ports_by_id ports m)
      ≡ (any (λ (p : FrontendPort). p.id == id) ports || member id m)
unfolding ports_by_id
member-ports_by_id id [] m = refl
member-ports_by_id id (p ∷ ports) m =
    rw (member-ports_by_id id ports (insert p.id p m), member-insert_eq p.id id p m) (ground arith)

ports_by_id-keep :
    (P : FrontendPort → Type 0) (ports : List FrontendPort) (m : GoMap Text FrontendPort)
    → All P ports
    → All (λ (entry : Text × FrontendPort). (entry.1.id ≡ entry.0) × P entry.1) m
    → All
        (λ (entry : Text × FrontendPort). (entry.1.id ≡ entry.0) × P entry.1)
        (ports_by_id ports m)
unfolding ports_by_id
ports_by_id-keep P [] m a k = k
ports_by_id-keep P (p ∷ ports) m (e, a) k =
    ports_by_id-keep P ports (insert p.id p m) a (All-insert_entry _ p.id p m (refl, e) k)

-- The host names of a listener give back those of the identifier.
with_host_names_lem :
    (names : List Text)
    → with_host_names (more_hosts names) (one_host names) zero_identifier
      ≡ set_host_names zero_identifier names
unfolding set_host_names set_names
with_host_names_lem [] = refl
with_host_names_lem (host ∷ []) = refl
with_host_names_lem (host ∷ other ∷ names) = refl

module _ (b : FrontendBuilder) (ips : List FrontendIpConfiguration) (is_private : Bool)
    (h : HasIp b ips is_private) (existing : GoMap ℕ FrontendPort) where
  -- The IP configuration is found by its ID and has an address of the kind, existing ports stand under their numbers, and
  -- the ports of two numbers have two IDs.
  pub record IsIdentifying : Type 0 where
    pub configured : b.frontend_ip_configurations ≡ some ips
    pub by_id : lookup_ip_configuration_by_id ips h.ip_id ≡ returns (some h.ip)
    pub typed : has_private_address h.ip.properties ≡ is_private
    pub numbered : (n : ℕ) (p : FrontendPort) → lookup n existing ≡ some p → p.port ≡ some n
    pub distinct :
        (n k : ℕ)
        → n < 65536
        → k < 65536
        → (port_of_number b ips is_private h existing n).id
          ≡ (port_of_number b ips is_private h existing k).id
        → n ≡ k

  -- The port has a number that fits 16 bits, and is the one of it.
  abbrev pub IsOwn : FrontendPort → Type 0
  IsOwn p = (n : ℕ) × (n < 65536) × (p ≡ port_of_number b ips is_private h existing n)

  lookup-IsOwn :
      (i : IsIdentifying) (n : ℕ) (ports : List FrontendPort)
      → n < 65536
      → All IsOwn ports
      → any (λ (p : FrontendPort). p.id == (port_of_number b ips is_private h existing n).id) ports
        ≡ true
      → number_of (lookup (port_of_number b ips is_private h existing n).id (ports_by_id ports []))
        ≡ n
  lookup-IsOwn i n ports r a k =
      let id = (port_of_number b ips is_private h existing n).id in
      elim (Option-cases (lookup id (ports_by_id ports []))) [
        | inl absent ↦ absurd (let d = rw (absent, k) at (member-ports_by_id id ports []) in cc)
        | inr (p, found) ↦
            let (at_id, (m, q, e)) =
              All-lookup_entry _ id (ports_by_id ports []) (ports_by_id-keep IsOwn ports [] a tt)
                found in
            let at_number : p.port ≡ some m =
              ap (λ (x : FrontendPort). x.port) e ∙ port_number b m existing _ refl i.numbered in
            let same : m ≡ n =
              i.distinct m n q r (ap (λ (x : FrontendPort). x.id) (sym e) ∙ at_id) in
            rw (found, at_number) same
      ]

  any-uses :
      (l : HttpListener) (id : Text) (ports : List FrontendPort)
      → l.frontend_port ≡ resource_ref id
      → any (λ (p : FrontendPort). uses b l p.id) ports ≡ true
      → any (λ (p : FrontendPort). p.id == id) ports ≡ true
  unfolding resource_ref
  any-uses l id [] e k = k
  any-uses l id (p ∷ ports) e k = elim (Bool-cases (id == p.id)) [
    | inl here ↦ rw ((text_eq.same_iff p.id id).1 (sym ((text_eq.same_iff id p.id).0 here))) refl
    | inr off ↦ let later = any-uses l id ports e (rw (e, off) at k) in rw later (ground arith)
  ]

  -- If a listener is made for an identifier with host names that can be set again, and its port is among the ports, all of which are the ones of their numbers, then
  -- the identifier that is computed for it is the one that it was made for.
  pub identifier_of-IsMadeFor :
      (i : IsIdentifying) (id : ListenerIdentifier) (ports : List FrontendPort) (l : HttpListener)
      → IsUsual is_private id
      → IsMadeFor b ips is_private h existing id l
      → All IsOwn ports
      → any (λ (p : FrontendPort). uses b l p.id) ports ≡ true
      → identifier_of b (ports_by_id ports []) l ≡ returns id
  unfolding identifier_of resource_ref set_host_names
  identifier_of-IsMadeFor i id ports l u m a k =
      let number = lookup-IsOwn i id.frontend_port ports u.2 a (any-uses l _ ports m.on_port k) in
      rw
        (
          m.on_port,
          number,
          m.at_ip,
          m.single,
          m.multiple,
          with_host_names_lem (get_host_names id),
          i.configured,
          i.by_id,
          i.typed,
          u.0,
          ← u.1,
        )
        refl

  -- Let the gateway's IP configuration of a kind be found by its ID and have a private address exactly if it is to be
  -- private, every existing port stand under its number, and the ports of two numbers of 16 bits have two IDs. Then for an identifier with host
  -- names that can be set again, that kind of IP and a port number of 16 bits, a listener is made without a panic, and the identifier that is computed for it,
  -- given its port and other ports that are those of their numbers, is the one that it was made for.
  pub identifier_of-new_listener :
      (id : ListenerIdentifier) (config : ListenerAzConfig) (ports : List FrontendPort)
      → IsIdentifying
      → IsUsual is_private id
      → All IsOwn ports
      → (out : HttpListener × FrontendPort) × (new_listener b id config.protocol existing
          ≡ returns out)
        × (identifier_of b (ports_by_id (out.1 ∷ ports) []) (with_config b config out.0)
            ≡ returns id)
  unfolding resource_ref
  identifier_of-new_listener id config ports i u a =
      let (out, d) =
        new_listener-Returns b ips id config.protocol existing i.configured
          (subst (HasIp b ips) (sym u.1) h) in
      let (made, own) =
        OnReturn-at
          (λ (o : HttpListener × FrontendPort).
            IsMade b ips is_private h existing id o.1 (get_host_names id) o.0 × (o.1 ≡ _))
          _ d
          (new_listener-IsMade b ips is_private h existing id config.protocol existing i.configured
            u.1) in
      let made_for : IsMadeFor b ips is_private h existing id out.0 =
        subst (λ port. IsMade b ips is_private h existing id port (get_host_names id) out.0) own
          made in
      (
        out,
        d,
        identifier_of-IsMadeFor i id (out.1 ∷ ports) (with_config b config out.0) u
            (with_config-IsMade b ips is_private h existing id _ (get_host_names id) config out.0
              made_for)
            ((id.frontend_port, u.2, own), a) (rw (made.on_port, beq_refl out.1.id) refl),
      )
