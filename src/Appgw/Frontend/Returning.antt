-- ===== src/Appgw/Frontend/Returning.antt =====
-- pkg/appgw/frontend_listeners.go: without brownfield deployment the listeners are made.
use application_gateway_kube.Common.{
  ℕ, Text, List, [], ◌∷◌, Option, some, Bool, false, GoMap, lookup, nat_eq, returns, deref,
  OnReturn-at, Returns, >>=-Returns, ◌≡◌, refl, subst, ap, ◌∙◌,
}
use application_gateway_kube.Common.Order.{MapOrder, Sort}
use application_gateway_kube.Controller.Prune.{lookup_ip_configuration_by_type}
use application_gateway_kube.Gateway.{
  Protocol, FrontendIpConfiguration, FrontendPort, HttpListener, ApplicationGateway,
}
use application_gateway_kube.Appgw.Names.{ListenerIdentifier}
use application_gateway_kube.Appgw.Listeners.{ListenerAzConfig}
use application_gateway_kube.Appgw.Listeners.Configs.{Configs}
use application_gateway_kube.Appgw.Collections.{BuilderContext}
use application_gateway_kube.Appgw.Frontend.{
  FrontendBuilder, Frontend, new_listener, add_listeners, get_listeners,
}
use application_gateway_kube.Appgw.Frontend.Ports.{
  IsConsistent, IsNew, new_listener-IsNew, port_number, add_listener_next,
}
use application_gateway_kube.Appgw.Frontend.Served.{Fits, get_listeners-Fits}

deref-Returns {ℓ} : {A : Type ℓ} (o : Option A) {a : A} → o ≡ some a → Returns (deref o)
deref-Returns o {a} e = (a, ap deref e)

module _ (b : FrontendBuilder) where
  -- The gateway has an IP configuration of the type, with an ID.
  pub record HasIp (ips : List FrontendIpConfiguration) (is_private : Bool) : Type 0 where
    pub ip : FrontendIpConfiguration
    pub ip_id : Text
    pub found : lookup_ip_configuration_by_type ips is_private ≡ some ip
    pub has_id : ip.id ≡ some ip_id

  pub new_listener-Returns :
      (ips : List FrontendIpConfiguration) (id : ListenerIdentifier) (protocol : Protocol)
      (ports : GoMap ℕ FrontendPort)
      → b.frontend_ip_configurations ≡ some ips
      → HasIp ips id.use_private_ip
      → Returns (new_listener b id protocol ports)
  unfolding new_listener
  new_listener-Returns ips id protocol ports e h =
      >>=-Returns (deref b.frontend_ip_configurations) _
        (deref-Returns b.frontend_ip_configurations e)
        λ all d.
          let same : all ≡ ips = same_ips e d in
          >>=-Returns (deref (lookup_ip_configuration_by_type all id.use_private_ip)) _
            (deref-Returns _
              (ap (λ xs. lookup_ip_configuration_by_type xs id.use_private_ip) same ∙ h.found))
            λ ip f.
              >>=-Returns (deref ip.id) _
                (deref-Returns ip.id
                  (ap (λ (x : FrontendIpConfiguration). x.id) (same_ip same f) ∙ h.has_id))
                λ ip_id g. (_, refl)
    where
      same_ips :
          {o : Option (List FrontendIpConfiguration)} {xs ys : List FrontendIpConfiguration}
          → o ≡ some xs
          → deref o ≡ returns ys
          → ys ≡ xs
      same_ips e d = cc

      same_ip :
          {all : List FrontendIpConfiguration} {x : FrontendIpConfiguration}
          → all ≡ ips
          → deref (lookup_ip_configuration_by_type all id.use_private_ip) ≡ returns x
          → x ≡ h.ip
      same_ip s f = cc (h.found)

  add_listeners-Returns :
      (ips : List FrontendIpConfiguration) (configs : List (ListenerIdentifier × ListenerAzConfig))
      (s : Frontend)
      → b.frontend_ip_configurations ≡ some ips
      → ((is_private : Bool) → HasIp ips is_private)
      → IsConsistent b s
      → Returns (add_listeners b configs s)
  unfolding add_listeners
  add_listeners-Returns ips [] s e h c = (s, refl)
  add_listeners-Returns ips ((id, config) ∷ configs) s e h c =
      >>=-Returns (new_listener b id config.protocol s.ports_by_number) _
        (new_listener-Returns ips id config.protocol s.ports_by_number e (h id.use_private_ip))
        λ out d.
          let new =
            OnReturn-at (IsNew b id s.ports_by_number) _ d
              (new_listener-IsNew b id config.protocol s.ports_by_number) in
          >>=-Returns (deref out.1.port) _
            (deref-Returns out.1.port (
              ap (λ (p : FrontendPort). p.port) new.1
              ∙ port_number b id.frontend_port s.ports_by_number _ refl c.numbered))
            λ number f.
              add_listeners-Returns ips configs _ e h
                (add_listener_next b id config s out number c d f)

  -- If the gateway has a public and a private IP configuration, both with an ID, and every existing port
  -- stands under its number, then without brownfield deployment the listeners and ports are made without a
  -- panic, each port returned is used by a listener returned, and each listener has its port among them.
  pub get_listeners-Returns :
      (order : MapOrder) (s : Sort) (ctx : BuilderContext) (app_gw : ApplicationGateway)
      (configs : Configs) (existing : GoMap ℕ FrontendPort) (ips : List FrontendIpConfiguration)
      → ctx.enable_brownfield_deployment ≡ false
      → b.frontend_ip_configurations ≡ some ips
      → ((is_private : Bool) → HasIp ips is_private)
      → ((n : ℕ) (p : FrontendPort) → lookup n existing ≡ some p → p.port ≡ some n)
      → (out : List HttpListener × List FrontendPort) × (get_listeners b order s ctx app_gw configs
            existing
          ≡ returns out)
        × Fits b false out
  unfolding get_listeners
  get_listeners-Returns order s ctx app_gw configs existing ips off e h numbered =
      let (out, r) = made in
      (
        out,
        r,
        subst (λ x. Fits b x out) off
            (OnReturn-at (Fits b ctx.enable_brownfield_deployment) _ r
              (get_listeners-Fits b order s ctx app_gw configs existing numbered)),
      )
    where
      made : Returns (get_listeners b order s ctx app_gw configs existing)
      made =
          >>=-Returns
            (add_listeners b (order.iterate (ListenerIdentifier × ListenerAzConfig) configs) _) _
            (add_listeners-Returns ips
              (order.iterate (ListenerIdentifier × ListenerAzConfig) configs)
              (record { listeners = []; ports_by_number = existing; public_ports = [] }) e h
              (record { numbered = numbered; served = tt }))
            λ front d. rw off (_, refl)
