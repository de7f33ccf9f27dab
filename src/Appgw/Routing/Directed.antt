-- ===== src/Appgw/Routing/Directed.antt =====
-- pkg/appgw/requestroutingrules.go: a path map with path rules is sent, and a rule directs its listener to it.
use application_gateway_kube.Common.{
  Text, List, [], ◌∷◌, some, Bool, true, ◌==◌, ◌&&◌, text_eq, GoMap, lookup, any, returns, OnReturn,
  >>=-OnReturn, OnReturn-at, ◌≡◌, refl, sym, ap, ◌∙◌, arith, Bool-cases, beq_refl, inl, inr,
}
use application_gateway_kube.Common.Order.{MapOrder, Sort}
use application_gateway_kube.Common.Ranged.{any-append}
use application_gateway_kube.Gateway.{HttpListener, UrlPathMap, PathRule, RoutingRule}
use application_gateway_kube.Brownfield.Targets.Blacklist.{
  Any, Any-perm, Any-append_left, Any-append_right,
}
use application_gateway_kube.K8scontext.Listing.{Caches}
use application_gateway_kube.Appgw.Identifier.{listener_id, url_path_map_id}
use application_gateway_kube.Appgw.Names.{ListenerIdentifier}
use application_gateway_kube.Appgw.Keys.{listener_eq}
use application_gateway_kube.Appgw.Frontend.{FrontendBuilder}
use application_gateway_kube.Appgw.PathMaps.{Built}
use application_gateway_kube.Appgw.Routing.{PathMaps, Routing, route_of, get_rules_of, get_rules}
use application_gateway_kube.Appgw.Routing.Answered.{listens, refers_to}

-- The rule is for the listener with the first ID, and leads to the path map with the second.
abbrev pub directs : Text → Text → RoutingRule → Bool
directs listener map rule = listens listener rule && refers_to map rule.url_path_map

-- The path map has a path rule.
abbrev pub HasRules : UrlPathMap → Type 0
HasRules pm = (rule : PathRule) × (rules : List PathRule) × (pm.path_rules ≡ some (rule ∷ rules))

module _ (id : ListenerIdentifier) (pm : UrlPathMap) where
  abbrev IsEntry : ListenerIdentifier × UrlPathMap → Type 0
  IsEntry entry = (entry.0 ≡ id) × (entry.1 ≡ pm)

  lookup-IsEntry : (m : PathMaps) → lookup id m ≡ some pm → Any IsEntry m
  unfolding lookup
  lookup-IsEntry [] f = absurd (cc)
  lookup-IsEntry ((j, own) ∷ m) f = elim (Bool-cases (j == id)) [
    | inl here ↦ inl ((listener_eq.same_iff j id).0 here, (let e = rw here at f in cc))
    | inr off ↦ inr (lookup-IsEntry m (rw off at f))
  ]

module _ (b : FrontendBuilder) (c : Caches) (order : MapOrder) (s : Sort) (k : Built)
    (l : HttpListener) (pm : UrlPathMap) where
  -- The path map is sent, and a rule leads from the listener to it.
  abbrev pub Directs : Routing → Type 0
  Directs routing =
      Any (λ (sent : UrlPathMap). sent ≡ pm) routing.path_maps
      × (any (directs (listener_id b.agw l.name) (url_path_map_id b.agw pm.name)) routing.rules
          ≡ true)

  route_of-Directs :
      (id : ListenerIdentifier)
      → HasRules pm
      → OnReturn Directs (route_of b c order s k id pm (some l))
  route_of-Directs id (rule, rules, e) = rw e (
    inl refl,
    rw (beq_refl (listener_id b.agw l.name), beq_refl (url_path_map_id b.agw pm.name)) refl,
  )

  get_rules_of-Directs :
      (id : ListenerIdentifier) (listeners : GoMap ListenerIdentifier HttpListener)
      (maps : List (ListenerIdentifier × UrlPathMap))
      → lookup id listeners ≡ some l
      → HasRules pm
      → Any (IsEntry id pm) maps
      → OnReturn Directs (get_rules_of b c order s k listeners maps)
  unfolding get_rules_of
  get_rules_of-Directs id listeners [] f r h = elim h [ ]
  get_rules_of-Directs id listeners ((j, own) ∷ maps) f r h =
      >>=-OnReturn Directs (route_of b c order s k j own (lookup j listeners)) _ λ one d.
        >>=-OnReturn Directs (get_rules_of b c order s k listeners maps) _ λ rest e.
          let appended =
            any-append (directs (listener_id b.agw l.name) (url_path_map_id b.agw pm.name))
              one.rules rest.rules in
          elim h [
            | inl (same_id, same_map) ↦
                let made : route_of b c order s k id pm (some l) ≡ returns one =
                  ap (route_of b c order s k id pm) (sym f)
                  ∙ (ap (λ i. route_of b c order s k i pm (lookup i listeners)) (sym same_id)
                      ∙ (ap (λ sent. route_of b c order s k j sent (lookup j listeners))
                            (sym same_map)
                          ∙ d)) in
                let (sent, led) = OnReturn-at Directs _ made (route_of-Directs id r) in
                (Any-append_left _ one.path_maps rest.path_maps sent, appended ∙ rw led refl)
            | inr later ↦
                let (sent, led) =
                  OnReturn-at Directs _ e (get_rules_of-Directs id listeners maps f r later) in
                (
                  Any-append_right _ one.path_maps rest.path_maps sent,
                  appended ∙ rw led (ground arith),
                )
          ]

  -- If the path map of an identifier has path rules, and there is a listener, then the path map is sent, and a rule
  -- leads from the listener to it.
  pub get_rules-Directs :
      (id : ListenerIdentifier) (listeners : GoMap ListenerIdentifier HttpListener)
      (maps : PathMaps)
      → lookup id listeners ≡ some l
      → lookup id maps ≡ some pm
      → HasRules pm
      → OnReturn Directs (get_rules b c order s k listeners maps)
  unfolding get_rules
  get_rules-Directs id listeners maps f g r = get_rules_of-Directs id listeners _ f r (
      Any-perm _ (order.iterate_perm (ListenerIdentifier × UrlPathMap) maps)
        (lookup-IsEntry id pm maps g))
