-- ===== src/Appgw/Frontend/Ports.antt =====
-- pkg/appgw/frontend_listeners.go: the ports of the listeners.
use application_gateway_kube.Common.{
  ℕ, Text, List, [], ◌∷◌, ◌++◌, Option, none, some, Bool, true, ◌&&◌, ◌||◌, ◌==◌, nat_eq,
  nat_beq_iff, text_eq, GoMap, lookup, insert, member, lookup-insert, if◌then◌else◌, returns, deref,
  OnReturn, >>=-OnReturn, OnReturn-at, All, All-append, any, ◌≡◌, refl, subst, ap, arith,
  Bool-cases, inl, inr,
}
use application_gateway_kube.Controller.Prune.{lookup_ip_configuration_by_type}
use application_gateway_kube.Gateway.{Protocol, FrontendPort, HttpListener}
use application_gateway_kube.Appgw.Identifier.{resource_ref}
use application_gateway_kube.Appgw.Names.{ListenerIdentifier, get_host_names}
use application_gateway_kube.Appgw.Listeners.{ListenerAzConfig}
use application_gateway_kube.Appgw.Frontend.{
  FrontendBuilder, Frontend, port_or_new, with_hosts, new_listener, with_config, add_listener,
  add_listeners, port_of, port_ids, is_among, used_ports,
}

module _ (b : FrontendBuilder) where
  -- The listener refers to the port with the ID.
  abbrev pub uses : HttpListener → Text → Bool
  uses l id = is_among b id (port_of b l.frontend_port)

  is_among-append :
      (id : Text) (xs ys : List Text)
      → is_among b id (xs ++ ys) ≡ (is_among b id xs || is_among b id ys)
  is_among-append id [] ys = refl
  is_among-append id (x ∷ xs) ys = ground (arith, is_among-append id xs ys)

  pub is_among-port_ids :
      (id : Text) (ls : List HttpListener) → is_among b id (port_ids b ls) ≡ any (λ l. uses l id) ls
  unfolding port_ids
  is_among-port_ids id [] = refl
  is_among-port_ids id (l ∷ ls) =
      rw (is_among-append id (port_of b l.frontend_port) (port_ids b ls), is_among-port_ids id ls)
        refl

  pub used_ports-All :
      (ids : List Text) (ports : List FrontendPort)
      → All (λ (p : FrontendPort). is_among b p.id ids ≡ true) (used_ports b ids ports)
  unfolding used_ports
  used_ports-All ids [] = tt
  used_ports-All ids (p ∷ ports) = elim (Bool-cases (is_among b p.id ids)) [
    | inl used ↦ rw used (used, used_ports-All ids ports)
    | inr unused ↦ rw unused (used_ports-All ids ports)
  ]

  pub any-used_ports :
      (test : FrontendPort → Bool) (ids : List Text) (ports : List FrontendPort)
      → ((p : FrontendPort) → test p ≡ true → is_among b p.id ids ≡ true)
      → any test ports ≡ true
      → any test (used_ports b ids ports) ≡ true
  unfolding used_ports
  any-used_ports test ids [] k h = h
  any-used_ports test ids (p ∷ ports) k h = elim (Bool-cases (is_among b p.id ids)) [
    | inl used ↦ rw used (ground (arith, any-used_ports test ids ports k))
    | inr unused ↦
        rw unused (any-used_ports test ids ports k (ground (arith, k p, Bool-cases (test p))))
  ]

  -- Every port stands under its number, and every listener has a port of the map.
  pub record IsConsistent (s : Frontend) : Type 0 where
    pub numbered :
        (n : ℕ) (p : FrontendPort) → lookup n s.ports_by_number ≡ some p → p.port ≡ some n
    pub served :
        All
          (λ (l : HttpListener).
            (n : ℕ) × (p : FrontendPort) × (lookup n s.ports_by_number ≡ some p)
            × (l.frontend_port ≡ resource_ref p.id))
          s.listeners

  -- The ports after a port was added under its number, unless there was one.
  abbrev with_port : ℕ → FrontendPort → GoMap ℕ FrontendPort → GoMap ℕ FrontendPort
  with_port number port m = if member number m then m else insert number port m

  -- A listener of the map is served by the larger map as well.
  abbrev pub IsServed : GoMap ℕ FrontendPort → HttpListener → Type 0
  IsServed m l =
      (n : ℕ) × (p : FrontendPort) × (lookup n m ≡ some p) × (l.frontend_port ≡ resource_ref p.id)

  record Extends (number : ℕ) (port : FrontendPort) (m : GoMap ℕ FrontendPort) : Type 0 where
    pub has_port : lookup number (with_port number port m) ≡ some port
    pub keeps :
        (n : ℕ) (p : FrontendPort)
        → lookup n m ≡ some p
        → lookup n (with_port number port m) ≡ some p
    pub adds_only :
        (n : ℕ) (p : FrontendPort) → lookup n (with_port number port m) ≡ some p → p.port ≡ some n

  extends :
      (number : ℕ) (port : FrontendPort) (m : GoMap ℕ FrontendPort) (found : Option FrontendPort)
      → lookup number m ≡ found
      → port ≡ port_or_new b number found
      → ((n : ℕ) (p : FrontendPort) → lookup n m ≡ some p → p.port ≡ some n)
      → Extends number port m
  extends number port m (some q) l e k = record {
    has_port = rw l (ground arith);
    keeps = λ n p h. rw l h;
    adds_only = λ n p h. k n p (rw l at h);
  }
  extends number port m none l e k = record {
    has_port = rw l (ground (arith, lookup-insert number number port m, nat_beq_iff number number));
    keeps = λ n p h. rw l (ground (arith, lookup-insert number n port m, nat_beq_iff number n));
    adds_only = λ n p h.
        let number_of : port.port ≡ some number = ap (λ (q : FrontendPort). q.port) e in
        let inserted : lookup n (insert number port m) ≡ some p = rw l at h in
        elim (Bool-cases (number == n)) [
          | inl here ↦
              let same : port ≡ p = ground (arith, lookup-insert number n port m) in
              subst (λ (q : FrontendPort). q.port ≡ some n) same
                (ground (arith, nat_beq_iff number n))
          | inr off ↦ k n p (ground (arith, lookup-insert number n port m))
        ];
  }

  add_listener-IsConsistent :
      (id : ListenerIdentifier) (config : ListenerAzConfig) (l : HttpListener) (port : FrontendPort)
      (number : ℕ) (s : Frontend)
      → IsConsistent s
      → l.frontend_port ≡ resource_ref port.id
      → Extends number port s.ports_by_number
      → IsConsistent (add_listener b id config l port number s)
  add_listener-IsConsistent id config l port number s h r x =
      elim (Bool-cases (member port.name s.public_ports && id.use_private_ip)) [
        | inl refused ↦ simp refused h
        | inr created ↦ simp created (record {
          numbered = x.adds_only;
          served =
              All-append (IsServed (with_port number port s.ports_by_number)) s.listeners
                (with_config b config l ∷ []) (widen s.listeners h.served)
                ((number, port, x.has_port, r), tt);
        })
      ]
    where
      widen :
          (ls : List HttpListener)
          → All (IsServed s.ports_by_number) ls
          → All (IsServed (with_port number port s.ports_by_number)) ls
      widen [] a = tt
      widen (m ∷ ls) ((n, p, f, e), a) = ((n, p, x.keeps n p f, e), widen ls a)

  with_hosts-frontend_port :
      (hosts : List Text) (l : HttpListener)
      → (with_hosts b hosts l).frontend_port ≡ l.frontend_port
  with_hosts-frontend_port [] l = refl
  with_hosts-frontend_port (h ∷ []) l = refl
  with_hosts-frontend_port (h ∷ g ∷ hosts) l = refl

  abbrev pub IsNew :
      ListenerIdentifier → GoMap ℕ FrontendPort → HttpListener × FrontendPort → Type 0
  IsNew id ports out =
      (out.0.frontend_port ≡ resource_ref out.1.id)
      × (out.1 ≡ port_or_new b id.frontend_port (lookup id.frontend_port ports))

  pub new_listener-IsNew :
      (id : ListenerIdentifier) (protocol : Protocol) (ports : GoMap ℕ FrontendPort)
      → OnReturn (IsNew id ports) (new_listener b id protocol ports)
  unfolding new_listener
  new_listener-IsNew id protocol ports =
      >>=-OnReturn (IsNew id ports) (deref b.frontend_ip_configurations) _ λ ips e1.
        >>=-OnReturn (IsNew id ports)
          (deref (lookup_ip_configuration_by_type ips id.use_private_ip)) _
          λ ip e2.
            >>=-OnReturn (IsNew id ports) (deref ip.id) _
              λ ip_id e3. (with_hosts-frontend_port (get_host_names id) _, refl)

  pub port_number :
      (n : ℕ) (ports : GoMap ℕ FrontendPort) (found : Option FrontendPort)
      → lookup n ports ≡ found
      → ((k : ℕ) (p : FrontendPort) → lookup k ports ≡ some p → p.port ≡ some k)
      → (port_or_new b n found).port ≡ some n
  port_number n ports none e k = refl
  port_number n ports (some p) e k = k n p e

  -- What one round of the loop makes of a consistent state.
  pub add_listener_next :
      (id : ListenerIdentifier) (config : ListenerAzConfig) (s : Frontend)
      (out : HttpListener × FrontendPort) (number : ℕ)
      → IsConsistent s
      → new_listener b id config.protocol s.ports_by_number ≡ returns out
      → deref out.1.port ≡ returns number
      → IsConsistent (add_listener b id config out.0 out.1 number s)
  add_listener_next id config s out number h e d =
      let new =
        OnReturn-at (IsNew id s.ports_by_number) _ e
          (new_listener-IsNew id config.protocol s.ports_by_number) in
      let numbered = port_number id.frontend_port s.ports_by_number _ refl h.numbered in
      let same : id.frontend_port ≡ number = number_of numbered new.1 d in
      add_listener-IsConsistent id config out.0 out.1 number s h new.0 (
        subst (λ n. Extends n out.1 s.ports_by_number) same
          (extends id.frontend_port out.1 s.ports_by_number _ refl new.1 h.numbered))
    where
      number_of :
          {n number : ℕ} {p q : FrontendPort}
          → p.port ≡ some n
          → q ≡ p
          → deref q.port ≡ returns number
          → n ≡ number
      number_of e f d = ground arith

  pub add_listeners-IsConsistent :
      (configs : List (ListenerIdentifier × ListenerAzConfig)) (s : Frontend)
      → IsConsistent s
      → OnReturn IsConsistent (add_listeners b configs s)
  unfolding add_listeners
  add_listeners-IsConsistent [] s h = h
  add_listeners-IsConsistent ((id, config) ∷ configs) s h =
      >>=-OnReturn IsConsistent (new_listener b id config.protocol s.ports_by_number) _ λ out e.
        >>=-OnReturn IsConsistent (deref out.1.port) _ λ number d.
          add_listeners-IsConsistent configs _ (add_listener_next id config s out number h e d)
