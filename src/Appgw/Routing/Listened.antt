-- ===== src/Appgw/Routing/Listened.antt =====
-- pkg/appgw/requestroutingrules.go: the listeners of the rules that are made, and the path maps that are sent.
use application_gateway_kube.Common.{
  List, [], ◌∷◌, Option, none, some, GoMap, lookup, returns, deref, ◌>>=◌, OnReturn, >>=-OnReturn,
  OnReturn-at, All, All-append, All-perm, ◌≡◌, refl,
}
use application_gateway_kube.Common.Order.{MapOrder, Sort}
use application_gateway_kube.Common.Uniq.{All-lookup_value}
use application_gateway_kube.Gateway.{SubResource, HttpListener, PathRule, UrlPathMap, RoutingRule}
use application_gateway_kube.K8scontext.Listing.{Caches}
use application_gateway_kube.Appgw.Identifier.{listener_id}
use application_gateway_kube.Appgw.Names.{ListenerIdentifier}
use application_gateway_kube.Appgw.Keys.{listener_eq}
use application_gateway_kube.Appgw.Frontend.{FrontendBuilder}
use application_gateway_kube.Appgw.PathMaps.{Built}
use application_gateway_kube.Appgw.Routing.{
  Routing, PathMaps, new_rule, basic_rule, route, route_of, get_rules_of, get_rules,
}

module _ (b : FrontendBuilder) (c : Caches) (order : MapOrder) (s : Sort) (k : Built) where
  -- A rule stays for its listener.
  pub basic_rule-keeps :
      (pm : UrlPathMap) (o : Option SubResource) (rule : RoutingRule)
      → OnReturn
          (λ (r : RoutingRule). r.http_listener ≡ rule.http_listener)
          (basic_rule b c order s k pm o rule)
  basic_rule-keeps pm (some redirect) rule = >>=-OnReturn _ (deref redirect.id) _ λ id e. refl
  basic_rule-keeps pm none rule =
      >>=-OnReturn _ (deref pm.default_backend_address_pool) _ λ pool e1.
        >>=-OnReturn _ (deref pool.id) _ λ pool_id e2.
          >>=-OnReturn _ (deref pm.default_backend_http_settings) _
            λ settings e3. >>=-OnReturn _ (deref settings.id) _ λ settings_id e4. refl

module _ (b : FrontendBuilder) (c : Caches) (order : MapOrder) (s : Sort) (k : Built)
    (P : HttpListener → Type 0) (Q : UrlPathMap → Type 0) where
  -- The rule is for a listener that has the property.
  abbrev pub IsFor : RoutingRule → Type 0
  IsFor rule =
      (l : HttpListener) × P l
      × (rule.http_listener ≡ some (record { id = some (listener_id b.agw l.name) }))

  pub record Sends (routing : Routing) : Type 0 where
    pub rules_listen : All IsFor routing.rules
    pub maps_hold : All Q routing.path_maps

  basic-Sends :
      (id : ListenerIdentifier) (l : HttpListener) (pm : UrlPathMap)
      → P l
      → OnReturn Sends (
          basic_rule b c order s k pm pm.default_redirect_configuration
            (new_rule b c order s k id l)
          >>= λ made. returns (record { rules = made ∷ []; path_maps = [] }))
  basic-Sends id l pm h =
      >>=-OnReturn Sends
        (basic_rule b c order s k pm pm.default_redirect_configuration
          (new_rule b c order s k id l))
        _
        λ made e. record {
          rules_listen = (
            (
              l,
              h,
              OnReturn-at _ _ e (
                  basic_rule-keeps b c order s k pm pm.default_redirect_configuration
                    (new_rule b c order s k id l)),
            ),
            tt,
          );
          maps_hold = tt;
        }

  route-Sends :
      (id : ListenerIdentifier) (l : HttpListener) (pm : UrlPathMap) (o : Option (List PathRule))
      → P l
      → Q pm
      → OnReturn Sends (route b c order s k pm o (new_rule b c order s k id l))
  route-Sends id l pm none h q = basic-Sends id l pm h
  route-Sends id l pm (some []) h q = basic-Sends id l pm h
  route-Sends id l pm (some (rule ∷ rules)) h q = record {
    rules_listen = ((l, h, refl), tt);
    maps_hold = (q, tt);
  }

  get_rules_of-Sends :
      (listeners : GoMap ListenerIdentifier HttpListener)
      (maps : List (ListenerIdentifier × UrlPathMap))
      → All (λ (entry : ListenerIdentifier × HttpListener). P entry.1) listeners
      → All (λ (entry : ListenerIdentifier × UrlPathMap). Q entry.1) maps
      → OnReturn Sends (get_rules_of b c order s k listeners maps)
  unfolding get_rules_of
  get_rules_of-Sends listeners [] h q = record { rules_listen = tt; maps_hold = tt }
  get_rules_of-Sends listeners ((id, pm) ∷ maps) h q =
      >>=-OnReturn Sends (route_of b c order s k id pm (lookup id listeners)) _ λ one d.
        >>=-OnReturn Sends (get_rules_of b c order s k listeners maps) _ λ rest e.
          let x = OnReturn-at Sends _ d (route_of-Sends _ refl) in
          let y = OnReturn-at Sends _ e (get_rules_of-Sends listeners maps h q.1) in
          record {
            rules_listen = All-append IsFor one.rules rest.rules x.rules_listen y.rules_listen;
            maps_hold = All-append Q one.path_maps rest.path_maps x.maps_hold y.maps_hold;
          }
    where
      route_of-Sends :
          (o : Option HttpListener)
          → lookup id listeners ≡ o
          → OnReturn Sends (route_of b c order s k id pm o)
      route_of-Sends none f = record { rules_listen = tt; maps_hold = tt }
      route_of-Sends (some l) f =
          route-Sends id l pm pm.path_rules (All-lookup_value P id listeners h f) q.0

  -- What holds of all listeners and all path maps holds of those of the rules and of those that are sent.
  pub get_rules-Sends :
      (listeners : GoMap ListenerIdentifier HttpListener) (maps : PathMaps)
      → All (λ (entry : ListenerIdentifier × HttpListener). P entry.1) listeners
      → All (λ (entry : ListenerIdentifier × UrlPathMap). Q entry.1) maps
      → OnReturn Sends (get_rules b c order s k listeners maps)
  unfolding get_rules
  get_rules-Sends listeners maps h q =
      get_rules_of-Sends listeners (order.iterate (ListenerIdentifier × UrlPathMap) maps) h
        (All-perm _ (order.iterate_perm (ListenerIdentifier × UrlPathMap) maps) q)
