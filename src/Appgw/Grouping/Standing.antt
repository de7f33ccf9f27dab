-- ===== src/Appgw/Grouping/Standing.antt =====
-- pkg/appgw/frontend_listeners.go: the listener of an identifier is grouped under it.
use application_gateway_kube.Common.{
  ℕ, List, [], ◌∷◌, some, Bool, true, ◌==◌, text_eq, nat_eq, GoMap, lookup, insert, lookup-insert,
  any, returns, OnReturn, >>=-OnReturn, All, ◌≡◌, refl, sym, subst, Bool-cases, inl, inr, ◌⊎◌,
}
use application_gateway_kube.Gateway.{FrontendIpConfiguration, FrontendPort, HttpListener}
use application_gateway_kube.Brownfield.Targets.Blacklist.{Any}
use application_gateway_kube.Appgw.Names.{ListenerIdentifier}
use application_gateway_kube.Appgw.Names.Compact.{IsUsual}
use application_gateway_kube.Appgw.Keys.{listener_eq}
use application_gateway_kube.Appgw.Frontend.{FrontendBuilder}
use application_gateway_kube.Appgw.Frontend.Ports.{uses}
use application_gateway_kube.Appgw.Frontend.Returning.{HasIp}
use application_gateway_kube.Appgw.Frontend.Made.{IsMadeFor}
use application_gateway_kube.Appgw.Frontend.Filled.{IsUsualMade}
use application_gateway_kube.Appgw.Grouping.{
  ports_by_id, identifier_of, group_listeners, group_listeners_by_listener_identifier,
}
use application_gateway_kube.Appgw.Grouping.Identified.{
  IsIdentifying, IsOwn, identifier_of-IsMadeFor,
}

module _ (b : FrontendBuilder) (ips : List FrontendIpConfiguration) (is_private : Bool)
    (h : HasIp b ips is_private) (existing : GoMap ℕ FrontendPort) where
  computed_same :
      (i : IsIdentifying b ips is_private h existing) (id : ListenerIdentifier)
      (ports : List FrontendPort) (l : HttpListener) {computed : ListenerIdentifier}
      → IsUsual is_private id
      → IsMadeFor b ips is_private h existing id l
      → All (IsOwn b ips is_private h existing) ports
      → any (λ (p : FrontendPort). uses b l p.id) ports ≡ true
      → identifier_of b (ports_by_id ports []) l ≡ returns computed
      → computed ≡ id
  computed_same i id ports l u m a k d =
      let e = identifier_of-IsMadeFor b ips is_private h existing i id ports l u m a k in cc

  -- A listener that is made for the identifier stands under it.
  abbrev pub Stands : ListenerIdentifier → GoMap ListenerIdentifier HttpListener → Type 0
  Stands id m =
      (l : HttpListener) × (lookup id m ≡ some l) × IsMadeFor b ips is_private h existing id l

  insert-Stands :
      (id j : ListenerIdentifier) (l : HttpListener) (m : GoMap ListenerIdentifier HttpListener)
      → IsMadeFor b ips is_private h existing j l
      → Stands id m ⊎ (j ≡ id)
      → Stands id (insert j l m)
  insert-Stands id j l m own k = elim (Bool-cases (j == id)) [
    | inl here ↦
        let same : j ≡ id = (listener_eq.same_iff j id).0 here in
        (
          l,
          rw (lookup-insert j id l m, here) refl,
          subst (λ i. IsMadeFor b ips is_private h existing i l) same own,
        )
    | inr off ↦ elim k [
      | inl (found, f, own_found) ↦ (found, rw (lookup-insert j id l m, off) f, own_found)
      | inr same ↦ absurd (let d = (listener_eq.same_iff j id).1 same in cc)
    ]
  ]

  -- The listener is made for some identifier, and its port is among the ports.
  abbrev pub IsKnown : List FrontendPort → HttpListener → Type 0
  IsKnown ports l =
      IsUsualMade b ips is_private h existing l
      × (any (λ (p : FrontendPort). uses b l p.id) ports ≡ true)

  group_listeners-Stands :
      (i : IsIdentifying b ips is_private h existing) (id : ListenerIdentifier)
      (ports : List FrontendPort) (ls : List HttpListener)
      (m : GoMap ListenerIdentifier HttpListener)
      → IsUsual is_private id
      → All (IsOwn b ips is_private h existing) ports
      → All (IsKnown ports) ls
      → Stands id m ⊎ Any (IsMadeFor b ips is_private h existing id) ls
      → OnReturn (Stands id) (group_listeners b (ports_by_id ports []) ls m)
  unfolding group_listeners
  group_listeners-Stands i id ports [] m u a known (inl k) = k
  group_listeners-Stands i id ports [] m u a known (inr k) = elim k [ ]
  group_listeners-Stands i id ports (l ∷ ls) m u a ((((j, v, own), at_port)), known) k =
      >>=-OnReturn _ (identifier_of b (ports_by_id ports []) l) _ λ computed d.
        let computed_j : computed ≡ j = computed_same i j ports l v own a at_port d in
        let own_computed =
          subst (λ x. IsMadeFor b ips is_private h existing x l) (sym computed_j) own in
        group_listeners-Stands i id ports ls (insert computed l m) u a known (elim k [
          | inl stands ↦ inl (insert-Stands id computed l m own_computed (inl stands))
          | inr (inl here) ↦ inl (
              insert-Stands id computed l m own_computed
                (inr (computed_same i id ports l u here a at_port d)))
          | inr (inr later) ↦ inr later
        ])

  pub group_listeners_by_listener_identifier-Stands :
      (i : IsIdentifying b ips is_private h existing) (id : ListenerIdentifier)
      (ls : List HttpListener) (ports : List FrontendPort)
      → IsUsual is_private id
      → All (IsOwn b ips is_private h existing) ports
      → All (IsKnown ports) ls
      → Any (IsMadeFor b ips is_private h existing id) ls
      → OnReturn (Stands id) (group_listeners_by_listener_identifier b ls ports)
  unfolding group_listeners_by_listener_identifier
  group_listeners_by_listener_identifier-Stands i id ls ports u a known k =
      group_listeners-Stands i id ports ls [] u a known (inr k)
