-- ===== src/Appgw/Routing/Answered.antt =====
-- pkg/appgw/requestroutingrules.go: every path map whose listener is there has a rule.
use application_gateway_kube.Common.{
  Text, List, [], ◌∷◌, Option, none, some, Bool, true, false, ◌==◌, text_eq, GoMap, lookup, any,
  returns, ◌>>=◌, OnReturn, >>=-OnReturn, OnReturn-at, ◌≡◌, refl, sym, arith, ◌∙◌, subst,
  Bool-cases, inl, inr, beq_refl,
}
use application_gateway_kube.Common.Order.{MapOrder, Sort}
use application_gateway_kube.Common.Ranged.{has_key, has_key-iterate, has_key-member, any-append}
use application_gateway_kube.Gateway.{SubResource, HttpListener, UrlPathMap, PathRule, RoutingRule}
use application_gateway_kube.K8scontext.Listing.{Caches}
use application_gateway_kube.Appgw.Identifier.{listener_id}
use application_gateway_kube.Appgw.Names.{ListenerIdentifier}
use application_gateway_kube.Appgw.Keys.{listener_eq}
use application_gateway_kube.Appgw.Frontend.{FrontendBuilder}
use application_gateway_kube.Appgw.PathMaps.{Built}
use application_gateway_kube.Appgw.Routing.{
  PathMaps, Routing, new_rule, basic_rule, path_based_rule, route, route_of, get_rules_of,
  get_rules,
}
use application_gateway_kube.Appgw.Routing.Listened.{basic_rule-keeps}

abbrev is_id : Text → Option Text → Bool
is_id id none = false
is_id id (some t) = t == id

abbrev pub refers_to : Text → Option SubResource → Bool
refers_to id none = false
refers_to id (some ref) = is_id id ref.id

-- The rule is for the listener with the ID.
abbrev pub listens : Text → RoutingRule → Bool
listens id rule = refers_to id rule.http_listener

module _ (b : FrontendBuilder) (c : Caches) (order : MapOrder) (s : Sort) (k : Built) where
  abbrev pub Answers : HttpListener → Routing → Type 0
  Answers l routing = any (listens (listener_id b.agw l.name)) routing.rules ≡ true

  one-Answers :
      (l : HttpListener) (rule : RoutingRule) (pms : List UrlPathMap)
      → rule.http_listener ≡ some (record { id = some (listener_id b.agw l.name) })
      → Answers l (record { rules = rule ∷ []; path_maps = pms })
  one-Answers l rule pms e = rw (e, beq_refl (listener_id b.agw l.name)) refl

  basic-Answers :
      (id : ListenerIdentifier) (l : HttpListener) (pm : UrlPathMap)
      → OnReturn (Answers l) (
          basic_rule b c order s k pm pm.default_redirect_configuration
            (new_rule b c order s k id l)
          >>= λ made. returns (record { rules = made ∷ []; path_maps = [] }))
  basic-Answers id l pm =
      >>=-OnReturn (Answers l)
        (basic_rule b c order s k pm pm.default_redirect_configuration
          (new_rule b c order s k id l))
        _
        λ made e. one-Answers l made [] (
          OnReturn-at _ _ e (
            basic_rule-keeps b c order s k pm pm.default_redirect_configuration
              (new_rule b c order s k id l)))

  route-Answers :
      (id : ListenerIdentifier) (l : HttpListener) (pm : UrlPathMap) (o : Option (List PathRule))
      → OnReturn (Answers l) (route b c order s k pm o (new_rule b c order s k id l))
  route-Answers id l pm none = basic-Answers id l pm
  route-Answers id l pm (some []) = basic-Answers id l pm
  route-Answers id l pm (some (rule ∷ rules)) =
      one-Answers l (path_based_rule b c order s k pm (new_rule b c order s k id l)) (pm ∷ []) refl

  get_rules_of-Answers :
      (id : ListenerIdentifier) (l : HttpListener)
      (listeners : GoMap ListenerIdentifier HttpListener)
      (maps : List (ListenerIdentifier × UrlPathMap))
      → lookup id listeners ≡ some l
      → has_key id maps ≡ true
      → OnReturn (Answers l) (get_rules_of b c order s k listeners maps)
  unfolding get_rules_of
  get_rules_of-Answers id l listeners [] f h = absurd (cc)
  get_rules_of-Answers id l listeners ((j, pm) ∷ maps) f h =
      >>=-OnReturn (Answers l) (route_of b c order s k j pm (lookup j listeners)) _ λ one d.
        >>=-OnReturn (Answers l) (get_rules_of b c order s k listeners maps) _ λ rest e.
          any-append (listens (listener_id b.agw l.name)) one.rules rest.rules
          ∙ elim (Bool-cases (j == id)) [
            | inl same ↦
                let here : j ≡ id = (listener_eq.same_iff j id).0 same in
                let found : lookup j listeners ≡ some l =
                  subst (λ i. lookup i listeners ≡ some l) (sym here) f in
                let answered : Answers l one =
                  OnReturn-at (Answers l) _ (rw found at d) (route-Answers j l pm pm.path_rules) in
                rw answered refl
            | inr off ↦
                let answered : Answers l rest =
                  OnReturn-at (Answers l) _ e
                    (get_rules_of-Answers id l listeners maps f (rw off at h)) in
                rw answered (ground arith)
          ]

  -- If there is a path map for an identifier, and a listener, then there is a rule for the listener.
  pub get_rules-Answers :
      (id : ListenerIdentifier) (l : HttpListener)
      (listeners : GoMap ListenerIdentifier HttpListener) (maps : PathMaps)
      → lookup id listeners ≡ some l
      → has_key id maps ≡ true
      → OnReturn (Answers l) (get_rules b c order s k listeners maps)
  unfolding get_rules
  get_rules-Answers id l listeners maps f h =
      get_rules_of-Answers id l listeners (order.iterate (ListenerIdentifier × UrlPathMap) maps) f
        (has_key-iterate order id maps ∙ (sym (has_key-member id maps) ∙ h))
