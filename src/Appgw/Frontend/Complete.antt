-- ===== src/Appgw/Frontend/Complete.antt =====
-- pkg/appgw/frontend_listeners.go: every configuration has a listener.
use application_gateway_kube.Common.{
  All-map, ℕ, ◌<◌, Text, List, [], ◌∷◌, some, Bool, true, false, text_eq, nat_eq, GoMap, lookup,
  member, values, OnReturn, >>=-OnReturn, OnReturn-at, All, All-perm, ◌≡◌, refl, ◌∙◌, Bool-cases,
  inl, inr,
}
use application_gateway_kube.Common.Order.{MapOrder, Sort}
use application_gateway_kube.Common.Ranged.{has_key-iterate}
use application_gateway_kube.Common.Uniq.{values-perm}
use application_gateway_kube.Gateway.{
  FrontendIpConfiguration, FrontendPort, HttpListener, ApplicationGateway,
}
use application_gateway_kube.Sorter.{by_listener_name_less, by_frontend_port_name_less}
use application_gateway_kube.Brownfield.Targets.Blacklist.{Any, Any-perm}
use application_gateway_kube.Appgw.Names.{ListenerIdentifier}
use application_gateway_kube.Appgw.Keys.{listener_eq}
use application_gateway_kube.Appgw.Listeners.{ListenerAzConfig}
use application_gateway_kube.Appgw.Listeners.Configs.{Configs}
use application_gateway_kube.Appgw.Collections.{BuilderContext}
use application_gateway_kube.Appgw.Frontend.{
  FrontendBuilder, add_listeners, port_ids, used_ports, get_listeners, is_among,
}
use application_gateway_kube.Appgw.Frontend.Returning.{HasIp}
use application_gateway_kube.Appgw.Frontend.Made.{IsMadeFor, IsPorts, port_of_number}
use application_gateway_kube.Appgw.Frontend.Filled.{
  IsUsualMade, Reaches, AreUsual, add_listeners-Reaches,
}

module _ (b : FrontendBuilder) (ips : List FrontendIpConfiguration) (is_private : Bool)
    (h : HasIp b ips is_private) (existing : GoMap ℕ FrontendPort) where
  -- Every entry of the existing ports is the one that is found under its number, which fits 16 bits.
  abbrev pub AreFound : Type 0
  AreFound =
      All
        (λ (entry : ℕ × FrontendPort). (entry.0 < 65536) × (lookup entry.0 existing ≡ some entry.1))
        existing

  existing-IsPorts : AreFound → IsPorts b ips is_private h existing existing
  existing-IsPorts found = record {
    kept = λ n p f. f;
    own = All-map _ _ (λ entry (r, f). (r, rw f refl)) existing found;
  }

  -- The listeners returned are made for identifiers, one of them for the one that is wanted; the ports returned are those of their numbers.
  pub record IsComplete (wanted : ListenerIdentifier) (out : List HttpListener × List FrontendPort)
      : Type 0 where
    pub made : All (IsUsualMade b ips is_private h existing) out.0
    pub wanted_made : Any (IsMadeFor b ips is_private h existing wanted) out.0
    pub own_ports :
        All
          (λ (p : FrontendPort).
            (n : ℕ) × (n < 65536) × (p ≡ port_of_number b ips is_private h existing n))
          out.1

  values_own :
      (m : GoMap ℕ FrontendPort)
      → All
          (λ (entry : ℕ × FrontendPort).
            (entry.0 < 65536) × (entry.1 ≡ port_of_number b ips is_private h existing entry.0))
          m
      → All
          (λ (p : FrontendPort).
            (n : ℕ) × (n < 65536) × (p ≡ port_of_number b ips is_private h existing n))
          (values m)
  values_own [] a = tt
  values_own ((n, p) ∷ m) ((r, e), a) = ((n, r, e), values_own m a)

  used_ports-keep :
      (P : FrontendPort → Type 0) (ids : List Text) (ports : List FrontendPort)
      → All P ports
      → All P (used_ports b ids ports)
  unfolding used_ports
  used_ports-keep P ids [] a = tt
  used_ports-keep P ids (p ∷ ports) (e, a) = elim (Bool-cases (is_among b p.id ids)) [
    | inl used ↦ rw used (e, used_ports-keep P ids ports a)
    | inr unused ↦ rw unused (used_ports-keep P ids ports a)
  ]

  pub get_listeners-IsComplete :
      (order : MapOrder) (s : Sort) (ctx : BuilderContext) (app_gw : ApplicationGateway)
      (configs : Configs) (wanted : ListenerIdentifier)
      → ctx.enable_brownfield_deployment ≡ false
      → b.frontend_ip_configurations ≡ some ips
      → ((n : ℕ) (p : FrontendPort) → lookup n existing ≡ some p → p.port ≡ some n)
      → AreFound
      → AreUsual b ips is_private h existing configs
      → member wanted configs ≡ true
      → OnReturn (IsComplete wanted) (get_listeners b order s ctx app_gw configs existing)
  unfolding get_listeners
  get_listeners-IsComplete order s ctx app_gw configs wanted off e numbered found u k =
      >>=-OnReturn _
        (add_listeners b (order.iterate (ListenerIdentifier × ListenerAzConfig) configs) _) _
        λ front d.
          let (filled, any_made) = OnReturn-at (Reaches b ips is_private h existing wanted) _ d (
            add_listeners-Reaches b ips is_private h existing wanted
              (order.iterate (ListenerIdentifier × ListenerAzConfig) configs) _ e
              (All-perm _ (order.iterate_perm (ListenerIdentifier × ListenerAzConfig) configs) u)
              (record {
                consistent = record { numbered = numbered; served = tt };
                ports = existing-IsPorts found;
                unclosed = λ on. refl;
                made = tt;
              })
              (inl (has_key-iterate order wanted configs ∙ k))) in
          rw off (record {
            made =
                All-perm _ (s.sort_perm HttpListener by_listener_name_less front.listeners)
                  filled.made;
            wanted_made =
                Any-perm _ (s.sort_perm HttpListener by_listener_name_less front.listeners)
                  any_made;
            own_ports = All-perm _ (s.sort_perm FrontendPort by_frontend_port_name_less _) (
                used_ports-keep _ (port_ids b front.listeners) _ (
                  All-perm _
                    (values-perm (order.iterate_perm (ℕ × FrontendPort) front.ports_by_number))
                    (values_own front.ports_by_number filled.ports.own)));
          })
