-- ===== src/Appgw/Routing/Accepted.antt =====
-- pkg/appgw/requestroutingrules.go and validators.go: the rules and path maps are made, and pass the validator.
use application_gateway_kube.Common.{
  ℕ, Text, List, [], ◌∷◌, ◌++◌, Option, none, some, true, GoMap, lookup, Run, returns, ◌>>=◌, ◌≡◌,
  refl, All, All-append, All-perm, ◌⊎◌, Option-cases, inl, inr,
}
use application_gateway_kube.Common.Order.{MapOrder, Sort}
use application_gateway_kube.Gateway.{
  SubResource, HttpListener, PathRule, UrlPathMap, basic, path_based_routing, RoutingRule, Ingress,
}
use application_gateway_kube.Brownfield.Targets.Blacklist.{Any, Any-append_left, Any-append_right}
use application_gateway_kube.K8scontext.Listing.{Caches}
use application_gateway_kube.Appgw.Identifier.{url_path_map_id}
use application_gateway_kube.Appgw.Names.{ListenerIdentifier}
use application_gateway_kube.Appgw.Keys.{listener_eq}
use application_gateway_kube.Appgw.Frontend.{FrontendBuilder}
use application_gateway_kube.Appgw.PathMaps.{Built}
use application_gateway_kube.Appgw.Routing.{
  Routing, get_path_maps, new_rule, basic_rule, route, route_of, beside, get_rules_of, get_rules,
}
use application_gateway_kube.Appgw.Routing.Merged.{get_path_maps-AllHold}
use application_gateway_kube.Appgw.Routing.Sound.{
  has_id, HasDefault, IsSound, keep-IsSound, get_path_rules-IsValid,
}
use application_gateway_kube.Appgw.Validators.{validate_url_path_maps}
use application_gateway_kube.Appgw.Validators.Verdicts.{
  HasOneTarget, IsValidRule, IsValidPathMap, validate_url_path_maps_iff,
}

module _ (b : FrontendBuilder) where
  -- The rule is basic and has one target, or it is path-based and one of the path maps is its own.
  abbrev pub IsRouted : List UrlPathMap → RoutingRule → Type 0
  IsRouted pms rule =
      ((rule.rule_type ≡ basic)
        × HasOneTarget rule.redirect_configuration rule.backend_address_pool
            rule.backend_http_settings)
      ⊎ ((rule.rule_type ≡ path_based_routing)
          × Any
              (λ pm.
                rule.url_path_map ≡ some (record { id = some (url_path_map_id b.agw pm.name) }))
              pms)

  pub record IsAccepted (routing : Routing) : Type 0 where
    pub maps_valid : All IsValidPathMap routing.path_maps
    pub rules_routed : All (IsRouted routing.path_maps) routing.rules

  widen :
      (pms qms : List UrlPathMap)
      → ((rule : RoutingRule) → IsRouted pms rule → IsRouted qms rule)
      → (rules : List RoutingRule) → All (IsRouted pms) rules
      → All (IsRouted qms) rules
  widen pms qms f [] h = tt
  widen pms qms f (rule ∷ rules) h = (f rule h.0, widen pms qms f rules h.1)

  widen_right :
      (pms qms : List UrlPathMap) (rule : RoutingRule)
      → IsRouted pms rule
      → IsRouted (pms ++ qms) rule
  widen_right pms qms rule (inl h) = inl h
  widen_right pms qms rule (inr (t, h)) = inr (t, Any-append_left _ pms qms h)

  widen_left :
      (pms qms : List UrlPathMap) (rule : RoutingRule)
      → IsRouted qms rule
      → IsRouted (pms ++ qms) rule
  widen_left pms qms rule (inl h) = inl h
  widen_left pms qms rule (inr (t, h)) = inr (t, Any-append_right _ pms qms h)

module _ (b : FrontendBuilder) (c : Caches) (order : MapOrder) (s : Sort) (k : Built) where
  beside-IsAccepted :
      (x y : Routing) → IsAccepted b x → IsAccepted b y → IsAccepted b (beside b c order s k x y)
  beside-IsAccepted x y h g = record {
    maps_valid = All-append IsValidPathMap x.path_maps y.path_maps h.maps_valid g.maps_valid;
    rules_routed =
        All-append (IsRouted b (x.path_maps ++ y.path_maps)) x.rules y.rules
          (widen b x.path_maps _ (widen_right b x.path_maps y.path_maps) x.rules h.rules_routed)
          (widen b y.path_maps _ (widen_left b x.path_maps y.path_maps) y.rules g.rules_routed);
  }

  abbrev Makes : Run Routing → Type 0
  Makes run = (routing : Routing) × (run ≡ returns routing) × IsAccepted b routing

  -- The basic rule of a path map with a default target, and no path map.
  basic_route :
      (id : ListenerIdentifier) (l : HttpListener) (pm : UrlPathMap)
      → HasDefault pm
      → Makes (
          basic_rule b c order s k pm pm.default_redirect_configuration
            (new_rule b c order s k id l)
          >>= λ made. returns (record { rules = made ∷ []; path_maps = [] }))
  basic_route id l pm (inl redirected) = elim (Option-cases pm.default_redirect_configuration) [
    | inl absent ↦ absurd (let e = rw absent at redirected in cc)
    | inr (redirect, found) ↦ elim (Option-cases redirect.id) [
      | inl absent ↦ absurd (let e = rw (found, absent) at redirected in cc)
      | inr (own, there) ↦
          rw (found, there)
            (_, refl, record { maps_valid = tt; rules_routed = (inl (refl, inl (refl, refl)), tt) })
    ]
  ]
  basic_route id l pm (inr (plain, pool, settings)) =
      elim (Option-cases pm.default_backend_address_pool) [
        | inl absent ↦ absurd (let e = rw absent at pool in cc)
        | inr (pool_ref, found) ↦ elim (Option-cases pm.default_backend_http_settings) [
          | inl absent ↦ absurd (let e = rw absent at settings in cc)
          | inr (settings_ref, there) ↦
              with_ids pool_ref settings_ref found there (rw found at pool) (rw there at settings)
        ]
      ]
    where
      with_ids :
          (pool_ref settings_ref : SubResource)
          → pm.default_backend_address_pool ≡ some pool_ref
          → pm.default_backend_http_settings ≡ some settings_ref
          → has_id (some pool_ref) ≡ true
          → has_id (some settings_ref) ≡ true
          → Makes (
              basic_rule b c order s k pm pm.default_redirect_configuration
                (new_rule b c order s k id l)
              >>= λ made. returns (record { rules = made ∷ []; path_maps = [] }))
      with_ids pool_ref settings_ref found there p q = elim (Option-cases pool_ref.id) [
        | inl absent ↦ absurd (let e = rw absent at p in cc)
        | inr (pool_id, e) ↦ elim (Option-cases settings_ref.id) [
          | inl absent ↦ absurd (let e = rw absent at q in cc)
          | inr (settings_id, f) ↦
              rw (plain, found, there, e, f)
                (
                  _,
                  refl,
                  record { maps_valid = tt; rules_routed = (inl (refl, inr (refl, refl)), tt) },
                )
        ]
      ]

  route-Makes :
      (id : ListenerIdentifier) (l : HttpListener) (pm : UrlPathMap) (o : Option (List PathRule))
      → pm.path_rules ≡ o
      → IsSound IsValidRule pm
      → Makes (route b c order s k pm o (new_rule b c order s k id l))
  route-Makes id l pm none e h = basic_route id l pm h.has_default
  route-Makes id l pm (some []) e h = basic_route id l pm h.has_default
  route-Makes id l pm (some (rule ∷ rules)) e h = (
    _,
    refl,
    record {
      maps_valid = ((rule ∷ rules, e, rw e at h.rules_hold), tt);
      rules_routed = (inr (refl, inl refl), tt);
    },
  )

  route_of-Makes :
      (id : ListenerIdentifier) (pm : UrlPathMap) (l : Option HttpListener)
      → IsSound IsValidRule pm
      → Makes (route_of b c order s k id pm l)
  route_of-Makes id pm none h = (_, refl, record { maps_valid = tt; rules_routed = tt })
  route_of-Makes id pm (some l) h = route-Makes id l pm pm.path_rules refl h

  get_rules_of-Makes :
      (listeners : GoMap ListenerIdentifier HttpListener)
      (maps : List (ListenerIdentifier × UrlPathMap))
      → All (λ (entry : ListenerIdentifier × UrlPathMap). IsSound IsValidRule entry.1) maps
      → Makes (get_rules_of b c order s k listeners maps)
  unfolding get_rules_of
  get_rules_of-Makes listeners [] h = (_, refl, record { maps_valid = tt; rules_routed = tt })
  get_rules_of-Makes listeners ((id, pm) ∷ maps) h =
      let (one, e, g) = route_of-Makes id pm (lookup id listeners) h.0 in
      let (rest, f, a) = get_rules_of-Makes listeners maps h.1 in
      (beside b c order s k one rest, rw (e, f) refl, beside-IsAccepted one rest g a)

  -- Whatever the listeners are, the rules and path maps are made of the ingresses without a panic. The path
  -- maps pass the validator, and every rule has one target or is path-based with a path map among them.
  pub get_rules-IsAccepted :
      (pfx : Text → List ℕ) (base64 : List ℕ → Text) (env_use_private_ip : Text)
      (listeners : GoMap ListenerIdentifier HttpListener) (ings : List Ingress)
      → (routing : Routing) × (get_rules b c order s k listeners
            (get_path_maps b c order s k pfx base64 env_use_private_ip ings)
          ≡ returns routing)
        × (validate_url_path_maps (some routing.path_maps) ≡ returns none)
        × All (IsRouted b routing.path_maps) routing.rules
  unfolding get_rules
  get_rules-IsAccepted pfx base64 env_use_private_ip listeners ings =
      let maps = get_path_maps b c order s k pfx base64 env_use_private_ip ings in
      let sound =
        get_path_maps-AllHold b c order s k (IsSound IsValidRule)
          (keep-IsSound b c order s k IsValidRule (get_path_rules-IsValid b c order s k)) pfx base64
          env_use_private_ip ings in
      let (routing, e, h) =
        get_rules_of-Makes listeners (order.iterate (ListenerIdentifier × UrlPathMap) maps)
          (All-perm _ (order.iterate_perm (ListenerIdentifier × UrlPathMap) maps) sound) in
      (routing, e, (validate_url_path_maps_iff routing.path_maps).1 h.maps_valid, h.rules_routed)
