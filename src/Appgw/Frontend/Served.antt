-- ===== src/Appgw/Frontend/Served.antt =====
-- pkg/appgw/frontend_listeners.go: how the listeners and the ports that are returned fit each other.
use application_gateway_kube.Common.{
  All-map, ℕ, Text, List, [], ◌∷◌, some, Bool, true, false, nat_eq, text_eq, GoMap, lookup, values,
  returns, OnReturn, >>=-OnReturn, OnReturn-at, All, any, any-perm, All-perm, ◌≡◌, refl, subst, sym,
  ◌∙◌, arith, beq_refl, if◌then◌else◌,
}
use application_gateway_kube.Common.Order.{MapOrder, Sort}
use application_gateway_kube.Common.Uniq.{values-perm, any-values}
use application_gateway_kube.Gateway.{FrontendPort, HttpListener, ApplicationGateway}
use application_gateway_kube.Sorter.{by_listener_name_less, by_frontend_port_name_less}
use application_gateway_kube.Appgw.Identifier.{resource_ref}
use application_gateway_kube.Appgw.Names.{ListenerIdentifier}
use application_gateway_kube.Appgw.Listeners.{ListenerAzConfig}
use application_gateway_kube.Appgw.Listeners.Configs.{Configs}
use application_gateway_kube.Appgw.Collections.{BuilderContext}
use application_gateway_kube.Appgw.Frontend.{
  FrontendBuilder, Frontend, port_ids, used_ports, merged_listeners, add_listeners, get_listeners,
}
use application_gateway_kube.Appgw.Frontend.Ports.{
  uses, IsServed, IsConsistent, is_among-port_ids, used_ports-All, any-used_ports,
  add_listeners-IsConsistent,
}

module _ (b : FrontendBuilder) where
  -- Every port returned is used, and without brownfield deployment every listener has its port.
  pub record Fits (brownfield : Bool) (out : List HttpListener × List FrontendPort) : Type 0 where
    pub used : All (λ (port : FrontendPort). any (λ l. uses b l port.id) out.0 ≡ true) out.1
    pub served :
        brownfield ≡ false
        → All
            (λ (l : HttpListener). any (λ (port : FrontendPort). uses b l port.id) out.1 ≡ true)
            out.0

  uses_own : (l : HttpListener) (id : Text) → l.frontend_port ≡ resource_ref id → uses b l id ≡ true
  unfolding resource_ref
  uses_own l id e = rw (e, beq_refl id) refl

  -- The members of a list, each with the proof that a test of it holds for the list.
  All-any :
      (P : HttpListener → Type 0) (ls : List HttpListener)
      → All P ls
      → All
          (λ (l : HttpListener).
            P l × ((test : HttpListener → Bool) → test l ≡ true → any test ls ≡ true))
          ls
  All-any P [] h = tt
  All-any P (l ∷ ls) h = (
    (h.0, λ test t. rw t refl),
    All-map _ _ (λ m k. (k.0, λ test t. ground (arith, k.1 test t))) ls (All-any P ls h.1),
  )

  module _ (order : MapOrder) (s : Sort) (ctx : BuilderContext) (app_gw : ApplicationGateway) where
    abbrev listed_ports : GoMap ℕ FrontendPort → List FrontendPort
    listed_ports m = values (order.iterate (ℕ × FrontendPort) m)

    sorted_listeners : List HttpListener → List HttpListener
    sorted_listeners ls = s.sort HttpListener by_listener_name_less ls

    sorted_ports : List FrontendPort → List FrontendPort
    sorted_ports ports = s.sort FrontendPort by_frontend_port_name_less ports

    any-sorted_listeners :
        (test : HttpListener → Bool) (ls : List HttpListener)
        → any test (sorted_listeners ls) ≡ any test ls
    unfolding sorted_listeners
    any-sorted_listeners test ls =
        sym (any-perm test (s.sort_perm HttpListener by_listener_name_less ls))

    any-sorted_ports :
        (test : FrontendPort → Bool) (ports : List FrontendPort)
        → any test (sorted_ports ports) ≡ any test ports
    unfolding sorted_ports
    any-sorted_ports test ports =
        sym (any-perm test (s.sort_perm FrontendPort by_frontend_port_name_less ports))

    -- A listener of the loop keeps its port, whichever of the ports are kept.
    keeps_port :
        (ls : List HttpListener) (m : GoMap ℕ FrontendPort) (l : HttpListener)
        → IsServed b m l × ((test : HttpListener → Bool) → test l ≡ true → any test ls ≡ true)
        → any
            (λ (port : FrontendPort). uses b l port.id)
            (sorted_ports (used_ports b (port_ids b ls) (listed_ports m)))
          ≡ true
    keeps_port ls m l ((n, p, f, e), own) =
        let test : FrontendPort → Bool = λ port. uses b l port.id in
        let listed : any test (listed_ports m) ≡ true =
          sym (any-perm test (values-perm (order.iterate_perm (ℕ × FrontendPort) m)))
          ∙ any-values test n m f (uses_own l p.id e) in
        any-sorted_ports test _
        ∙ any-used_ports b test (port_ids b ls) (listed_ports m)
            (λ q t. is_among-port_ids b q.id ls ∙ own (λ k. uses b k q.id) t) listed

    fits :
        (front : Frontend) (ls : List HttpListener) (brownfield : Bool)
        → IsConsistent b front
        → (brownfield ≡ false → ls ≡ front.listeners)
        → Fits brownfield (
          sorted_listeners ls,
          sorted_ports (used_ports b (port_ids b ls) (listed_ports front.ports_by_number)),
        )
    unfolding sorted_listeners sorted_ports
    fits front ls brownfield h k = record {
      used = All-perm _ (s.sort_perm FrontendPort by_frontend_port_name_less _) (
          All-map _ _
            (λ port u. any-sorted_listeners _ ls ∙ (sym (is_among-port_ids b port.id ls) ∙ u)) _
            (used_ports-All b (port_ids b ls) (listed_ports front.ports_by_number)));
      served = λ off. All-perm _ (s.sort_perm HttpListener by_listener_name_less ls) (
          All-map _ _ (keeps_port ls front.ports_by_number) ls (
            All-any _ ls
              (subst (λ xs. All (IsServed b front.ports_by_number) xs) (sym (k off)) h.served)));
    }

    start : GoMap ℕ FrontendPort → Frontend
    start existing = record { listeners = []; ports_by_number = existing; public_ports = [] }

    -- Unless it panics: if every existing port stands under its number, then each port returned is used by a
    -- listener returned, and without brownfield deployment each listener returned has its port among those returned.
    pub get_listeners-Fits :
        (configs : Configs) (existing : GoMap ℕ FrontendPort)
        → ((n : ℕ) (p : FrontendPort) → lookup n existing ≡ some p → p.port ≡ some n)
        → OnReturn
            (Fits ctx.enable_brownfield_deployment)
            (get_listeners b order s ctx app_gw configs existing)
    unfolding get_listeners sorted_listeners sorted_ports start
    get_listeners-Fits configs existing numbered =
        >>=-OnReturn (Fits ctx.enable_brownfield_deployment)
          (add_listeners b (order.iterate (ListenerIdentifier × ListenerAzConfig) configs)
            (start existing))
          _
          λ front e.
            >>=-OnReturn (Fits ctx.enable_brownfield_deployment)
              (if ctx.enable_brownfield_deployment
                then merged_listeners b order s ctx app_gw front.listeners
                else returns front.listeners)
              _
              λ ls d.
                fits front ls ctx.enable_brownfield_deployment
                  (OnReturn-at (IsConsistent b) _ e (
                    add_listeners-IsConsistent b
                      (order.iterate (ListenerIdentifier × ListenerAzConfig) configs)
                      (start existing) (record { numbered = numbered; served = tt })))
                  (λ off. unmerged (rw off at d))
      where
        unmerged :
            {front_listeners ls : List HttpListener}
            → returns front_listeners ≡ returns ls
            → ls ≡ front_listeners
        unmerged e = ground arith
