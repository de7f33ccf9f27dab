-- ===== src/Appgw/Frontend/Filled.antt =====
-- pkg/appgw/frontend_listeners.go: what the loop over the configurations makes.
use application_gateway_kube.Common.{
  ℕ, ◌<◌, Text, List, [], ◌∷◌, ◌++◌, some, Bool, true, false, ◌&&◌, ◌==◌, text_eq, nat_eq, GoMap,
  lookup, member, returns, deref, OnReturn, >>=-OnReturn, OnReturn-at, All, All-append, ◌≡◌, refl,
  sym, ap, ◌∙◌, subst, arith, Bool-cases, inl, inr, ◌⊎◌,
}
use application_gateway_kube.Common.Ranged.{has_key}
use application_gateway_kube.Gateway.{FrontendIpConfiguration, FrontendPort, HttpListener}
use application_gateway_kube.Brownfield.Targets.Blacklist.{Any, Any-append_left, Any-append_right}
use application_gateway_kube.Appgw.Names.{ListenerIdentifier, get_host_names}
use application_gateway_kube.Appgw.Names.Compact.{IsUsual}
use application_gateway_kube.Appgw.Keys.{listener_eq}
use application_gateway_kube.Appgw.Listeners.{ListenerAzConfig}
use application_gateway_kube.Appgw.Frontend.{
  FrontendBuilder, Frontend, new_listener, add_listener, add_listeners, with_config, note_public,
}
use application_gateway_kube.Appgw.Frontend.Ports.{
  IsConsistent, IsNew, new_listener-IsNew, port_number, add_listener_next,
}
use application_gateway_kube.Appgw.Frontend.Returning.{HasIp}
use application_gateway_kube.Appgw.Frontend.Made.{
  IsMade, IsMadeFor, IsPorts, port_of_number, with_config-IsMade, new_listener-IsMade,
  port_or_new-port_of_number, insert-IsPorts,
}

module _ (b : FrontendBuilder) (ips : List FrontendIpConfiguration) (is_private : Bool)
    (h : HasIp b ips is_private) (existing : GoMap ℕ FrontendPort) where
  -- The listener is made for an identifier with host names that can be set again, and with the kind of IP.
  abbrev pub IsUsualMade : HttpListener → Type 0
  IsUsualMade l =
      (id : ListenerIdentifier) × IsUsual is_private id × IsMadeFor b ips is_private h existing id l

  -- The loop has made such listeners, and refuses none.
  pub record IsFilled (s : Frontend) : Type 0 where
    pub consistent : IsConsistent b s
    pub ports : IsPorts b ips is_private h existing s.ports_by_number
    pub unclosed : is_private ≡ true → s.public_ports ≡ []
    pub made : All IsUsualMade s.listeners

  -- The listener of a round of the loop, and the state after it.
  record IsNext (id : ListenerIdentifier) (config : ListenerAzConfig)
      (out : HttpListener × FrontendPort) (number : ℕ) (s : Frontend) : Type 0 where
    pub added :
        (add_listener b id config out.0 out.1 number s).listeners
        ≡ s.listeners ++ (with_config b config out.0 ∷ [])
    pub own : IsMadeFor b ips is_private h existing id (with_config b config out.0)
    pub filled : IsFilled (add_listener b id config out.0 out.1 number s)

  is_admitted :
      (id : ListenerIdentifier) (name : Text) (s : Frontend)
      → IsUsual is_private id
      → (is_private ≡ true → s.public_ports ≡ [])
      → (member name s.public_ports && id.use_private_ip) ≡ false
  unfolding lookup
  is_admitted id name s u k = elim (Bool-cases is_private) [
    | inl on ↦ rw (k on) refl
    | inr off ↦ rw (u.1, off) (ground arith)
  ]

  -- A private listener is not noted.
  note_private :
      (id : ListenerIdentifier) (port_name name : Text) (m : GoMap Text Text)
      → IsUsual is_private id
      → is_private ≡ true
      → note_public b id.use_private_ip port_name name m ≡ m
  note_private id port_name name m u on = rw (u.1, on) refl

  add_listener-IsNext :
      (id : ListenerIdentifier) (config : ListenerAzConfig) (s : Frontend)
      (out : HttpListener × FrontendPort) (number : ℕ)
      → b.frontend_ip_configurations ≡ some ips
      → IsUsual is_private id
      → IsFilled s
      → new_listener b id config.protocol s.ports_by_number ≡ returns out
      → deref out.1.port ≡ returns number
      → IsNext id config out number s
  add_listener-IsNext id config s out number e u f d n =
      let new =
        OnReturn-at (IsNew b id s.ports_by_number) _ d
          (new_listener-IsNew b id config.protocol s.ports_by_number) in
      let numbered =
        port_number b id.frontend_port s.ports_by_number _ refl f.consistent.numbered in
      let at_number : number ≡ id.frontend_port = cc (numbered, new.1, n) in
      let at_port : out.1 ≡ port_of_number b ips is_private h existing id.frontend_port =
        new.1
        ∙ port_or_new-port_of_number b ips is_private h existing s.ports_by_number f.ports
            id.frontend_port in
      let fits =
        OnReturn-at
          (λ (o : HttpListener × FrontendPort).
            IsMade b ips is_private h existing id o.1 (get_host_names id) o.0 × (o.1 ≡ _))
          _ d
          (new_listener-IsMade b ips is_private h existing id config.protocol s.ports_by_number e
            u.1) in
      let made =
        with_config-IsMade b ips is_private h existing id _ (get_host_names id) config out.0 (
          subst (λ port. IsMade b ips is_private h existing id port (get_host_names id) out.0)
            at_port fits.0) in
      let next = add_listener_next b id config s out number f.consistent d n in
      let created = is_admitted id out.1.name s u f.unclosed in
      record {
        added = rw created refl;
        own = made;
        filled = record {
          consistent = next;
          ports = rw created (
              insert-IsPorts b ips is_private h existing s.ports_by_number number out.1 f.ports
                (subst (λ n. n < 65536) (sym at_number) u.2)
                (at_port ∙ ap (port_of_number b ips is_private h existing) (sym at_number)));
          unclosed = λ on.
              rw created
                (note_private id out.1.name out.0.name s.public_ports u on ∙ f.unclosed on);
          made = rw created (
              All-append IsUsualMade s.listeners (with_config b config out.0 ∷ []) f.made
                ((id, u, made), tt));
        };
      }

  -- The state is filled, and has a listener for the identifier if one is wanted.
  abbrev pub Reaches : ListenerIdentifier → Frontend → Type 0
  Reaches id s = IsFilled s × Any (IsMadeFor b ips is_private h existing id) s.listeners

  abbrev pub AreUsual : List (ListenerIdentifier × ListenerAzConfig) → Type 0
  AreUsual configs =
      All (λ (entry : ListenerIdentifier × ListenerAzConfig). IsUsual is_private entry.0) configs

  pub add_listeners-Reaches :
      (wanted : ListenerIdentifier) (configs : List (ListenerIdentifier × ListenerAzConfig))
      (s : Frontend)
      → b.frontend_ip_configurations ≡ some ips
      → AreUsual configs
      → IsFilled s
      → (has_key wanted configs ≡ true)
        ⊎ Any (IsMadeFor b ips is_private h existing wanted) s.listeners
      → OnReturn (Reaches wanted) (add_listeners b configs s)
  unfolding add_listeners
  add_listeners-Reaches wanted [] s e u f (inl k) = absurd (cc)
  add_listeners-Reaches wanted [] s e u f (inr k) = (f, k)
  add_listeners-Reaches wanted ((id, config) ∷ configs) s e (u, us) f k =
      >>=-OnReturn _ (new_listener b id config.protocol s.ports_by_number) _ λ out d.
        >>=-OnReturn _ (deref out.1.port) _ λ number n.
          let next = add_listener-IsNext id config s out number e u f d n in
          let keep =
            λ (ls : Any (IsMadeFor b ips is_private h existing wanted)
                (s.listeners ++ (with_config b config out.0 ∷ []))).
              subst (Any (IsMadeFor b ips is_private h existing wanted)) (sym next.added) ls in
          add_listeners-Reaches wanted configs _ e us next.filled (elim k [
            | inr made ↦ inr (keep (Any-append_left _ s.listeners _ made))
            | inl listed ↦ elim (Bool-cases (id == wanted)) [
              | inl here ↦ inr (
                  keep (
                    Any-append_right _ s.listeners _ (
                      inl (
                        subst
                          (λ i.
                            IsMadeFor b ips is_private h existing i (with_config b config out.0))
                          ((listener_eq.same_iff id wanted).0 here) next.own))))
              | inr off ↦ inl (rw off at listed)
            ]
          ])
