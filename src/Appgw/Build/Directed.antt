-- ===== src/Appgw/Build/Directed.antt =====
-- pkg/appgw/configbuilder.go: the routing of an identifier that a rule asks for.
use application_gateway_kube.Common.{
  Text, List, some, Bool, true, false, text_eq, nat_eq, OnReturn-at, ◌≡◌, ◌∙◌, inl, inr, [], ◌∷◌,
  ◌⊎◌, refl, subst, sym, any, any-perm, member, lookup, Option-cases, Bool-cases,
}
use application_gateway_kube.Common.Order.{MapOrder, Sort}
use application_gateway_kube.Gateway.{
  FrontendIpConfiguration, ApplicationGateway, HttpListener, RoutingRule, RedirectConfiguration,
  UrlPathMap, PathRule,
}
use application_gateway_kube.Utils.Multimap.{SetLibrary}
use application_gateway_kube.K8scontext.Listing.{Caches, Subsets}
use application_gateway_kube.Appgw.Names.{ListenerIdentifier, generate_listener_name}
use application_gateway_kube.Appgw.Keys.{listener_eq}
use application_gateway_kube.Appgw.Listeners.Asked.{is_asked}
use application_gateway_kube.Appgw.Frontend.{FrontendBuilder}
use application_gateway_kube.Appgw.Frontend.Returning.{HasIp}
use application_gateway_kube.Appgw.Build.{BuildContext}
use application_gateway_kube.Appgw.Build.Answered.{IsBuilt, used, used_maps}
use application_gateway_kube.Common.Ranged.{has_key-member}
use application_gateway_kube.Sorter.{by_path_map_less, by_request_routing_rule_name_less}
use application_gateway_kube.Brownfield.Targets.Blacklist.{Any-map, Any, Any-perm}
use application_gateway_kube.Appgw.Identifier.{listener_id, url_path_map_id}
use application_gateway_kube.Appgw.Frontend.Made.{IsMadeFor}
use application_gateway_kube.Appgw.Routing.{PathMaps}
use application_gateway_kube.Appgw.Routing.Sound.{listed_rules}
use application_gateway_kube.Appgw.Routing.Asked.{member-get_path_maps}
use application_gateway_kube.Appgw.Routing.Answered.{listens, Answers, get_rules-Answers}
use application_gateway_kube.Appgw.Routing.Directed.{directs, HasRules, Directs, get_rules-Directs}
use application_gateway_kube.Appgw.Routing.Ordered.{
  is_mixed, rules_of_ingresses, get_path_maps_in_order,
}

HasRules-cases : (pm : UrlPathMap) → (listed_rules pm.path_rules ≡ []) ⊎ HasRules pm
HasRules-cases pm = elim (Option-cases pm.path_rules) [
  | inl absent ↦ inl (rw absent refl)
  | inr ([], empty) ↦ inl (rw empty refl)
  | inr (rule ∷ rules, there) ↦ inr (rule, rules, there)
]

module _ (sets : SetLibrary Text) (subsets : Subsets sets) (b : FrontendBuilder) (c : Caches)
    (order : MapOrder) (s : Sort) (x : BuildContext) (ips : List FrontendIpConfiguration)
    (is_private : Bool) (h : HasIp b ips is_private) where
  -- The path rules that the rules of the ingresses ask for at the listener.
  abbrev pub wanted_rules : ListenerIdentifier → List RedirectConfiguration → List PathRule
  wanted_rules id redirects =
      rules_of_ingresses b c order s (used sets subsets b c order s x ips is_private h redirects) id
        x.pfx x.base64 x.env_use_private_ip 0 x.ingresses

  abbrev pub name_of : ListenerIdentifier → Text
  name_of id = generate_listener_name b.md5_sum b.ag_prefix b.hash_code id

  -- The path map has the path rules that are asked for, and a rule leads from the listener to it.
  abbrev pub IsDirected :
      ListenerIdentifier → List RedirectConfiguration → List RoutingRule → UrlPathMap → Type 0
  IsDirected id redirects rules pm =
      (listed_rules pm.path_rules ≡ wanted_rules id redirects)
      × (any (directs (listener_id b.agw (name_of id)) (url_path_map_id b.agw pm.name)) rules
          ≡ true)

  -- The gateway has a listener that is made for the identifier, and a rule for the listener of its name. If path rules are asked for, the rule
  -- leads to a path map that has just these, unless the listener is the default one and an ingress without rules has a backend.
  pub record IsServedBy (gw : ApplicationGateway) (id : ListenerIdentifier) : Type 0 where
    pub listeners : List HttpListener
    pub redirects : List RedirectConfiguration
    pub path_maps : List UrlPathMap
    pub rules : List RoutingRule
    pub sent_listeners : gw.http_listeners ≡ some listeners
    pub sent_redirects : gw.redirect_configurations ≡ some redirects
    pub sent_maps : gw.url_path_maps ≡ some path_maps
    pub sent_rules : gw.request_routing_rules ≡ some rules
    pub listened : Any (IsMadeFor b ips is_private h x.existing_ports_by_number id) listeners
    pub answered : any (listens (listener_id b.agw (name_of id))) rules ≡ true
    pub directed :
        (is_mixed b c order s
            (used sets subsets b c order s x ips is_private h redirects)
            id
            x.pfx
            x.base64
            x.env_use_private_ip
            x.ingresses
          ≡ true)
        ⊎ ((wanted_rules id redirects ≡ []) ⊎ Any (IsDirected id redirects rules) path_maps)

  module _ (id : ListenerIdentifier) (gw : ApplicationGateway)
      (built : IsBuilt sets subsets b c order s x ips is_private h id gw)
      (asked : is_asked x.pfx x.base64 b.md5_sum b.ag_prefix b.hash_code x.env_use_private_ip id
          x.ingresses
        ≡ true) where
    maps : PathMaps
    maps = used_maps sets subsets b c order s x ips is_private h built.redirects

    has_map : member id maps ≡ true
    unfolding maps
    has_map =
        member-get_path_maps b c order s
          (used sets subsets b c order s x ips is_private h built.redirects) x.pfx x.base64
          x.env_use_private_ip id x.ingresses asked

    sorted_rules : List RoutingRule
    sorted_rules = s.sort RoutingRule by_request_routing_rule_name_less built.routing.rules

    is_answered : any (listens (listener_id b.agw (name_of id))) sorted_rules ≡ true
    unfolding maps sorted_rules
    is_answered =
        let (l, at_id, made) = built.stands in
        let answers =
          OnReturn-at
            (Answers b c order s (used sets subsets b c order s x ips is_private h built.redirects)
              l)
            _ built.routed
            (get_rules-Answers b c order s
              (used sets subsets b c order s x ips is_private h built.redirects) id l built.grouped
              maps at_id (has_key-member id maps ∙ has_map)) in
        sym (
          any-perm _
            (s.sort_perm RoutingRule by_request_routing_rule_name_less built.routing.rules))
        ∙ subst (λ name. any (listens (listener_id b.agw name)) built.routing.rules ≡ true)
            made.named answers

    is_directed :
        (pm : UrlPathMap)
        → lookup id maps ≡ some pm
        → HasRules pm
        → listed_rules pm.path_rules ≡ wanted_rules id built.redirects
        → Any
            (IsDirected id built.redirects sorted_rules)
            (s.sort UrlPathMap by_path_map_less built.routing.path_maps)
    unfolding maps sorted_rules
    is_directed pm found has same =
        let (l, at_id, made) = built.stands in
        let (sent, led) =
          OnReturn-at
            (Directs b c order s (used sets subsets b c order s x ips is_private h built.redirects)
              l pm)
            _ built.routed
            (get_rules-Directs b c order s
              (used sets subsets b c order s x ips is_private h built.redirects) l pm id
              built.grouped maps at_id found has) in
        let led_sorted =
          sym (
            any-perm _
              (s.sort_perm RoutingRule by_request_routing_rule_name_less built.routing.rules))
          ∙ subst
              (λ name.
                any (directs (listener_id b.agw name) (url_path_map_id b.agw pm.name))
                  built.routing.rules
                ≡ true)
              made.named led in
        Any-map _ (IsDirected id built.redirects sorted_rules)
          (λ own e. subst (IsDirected id built.redirects sorted_rules) (sym e) (same, led_sorted)) _
          (Any-perm _ (s.sort_perm UrlPathMap by_path_map_less built.routing.path_maps) sent)

    is_routed :
        is_mixed b c order s
            (used sets subsets b c order s x ips is_private h built.redirects)
            id
            x.pfx
            x.base64
            x.env_use_private_ip
            x.ingresses
          ≡ false
        → (wanted_rules id built.redirects ≡ [])
          ⊎ Any
              (IsDirected id built.redirects sorted_rules)
              (s.sort UrlPathMap by_path_map_less built.routing.path_maps)
    unfolding maps
    is_routed unmixed =
        let in_order =
          get_path_maps_in_order b c order s
            (used sets subsets b c order s x ips is_private h built.redirects) id x.pfx x.base64
            x.env_use_private_ip x.ingresses unmixed in
        elim (Option-cases (lookup id maps)) [
          | inl absent ↦ absurd (let d = rw absent at has_map in cc)
          | inr (pm, found) ↦
              let same : listed_rules pm.path_rules ≡ wanted_rules id built.redirects =
                rw found at in_order in
              elim (HasRules-cases pm) [
                | inl none_listed ↦ inl (sym same ∙ none_listed)
                | inr has ↦ inr (is_directed pm found has same)
              ]
        ]

    pub IsBuilt-IsServedBy : IsServedBy gw id
    unfolding sorted_rules
    IsBuilt-IsServedBy = record {
      listeners = built.listeners;
      redirects = built.redirects;
      path_maps = s.sort UrlPathMap by_path_map_less built.routing.path_maps;
      rules = sorted_rules;
      sent_listeners = built.sent_listeners;
      sent_redirects = built.sent_redirects;
      sent_maps = built.sent_maps;
      sent_rules = built.sent_rules;
      listened = built.listened;
      answered = is_answered;
      directed =
          elim (Bool-cases (
            is_mixed b c order s (used sets subsets b c order s x ips is_private h built.redirects)
              id x.pfx x.base64 x.env_use_private_ip x.ingresses)) [
                | inl mixed ↦ inl mixed
                | inr unmixed ↦ inr (is_routed unmixed)
              ];
    }
