-- ===== src/Appgw/Build/Answered.antt =====
-- pkg/appgw/configbuilder.go and http_listeners.go: the listeners that rules ask for are made and routed.
use application_gateway_kube.Common.{
  Text, List, some, GoMap, returns, Bool, true, false, text_eq, nat_eq, OnReturn, >>=-OnReturn,
  OnReturn-at, OnReturn-mono, OnReturn-both, All, All-map, ◌≡◌, refl, subst,
}
use application_gateway_kube.Common.Order.{MapOrder, Sort}
use application_gateway_kube.Gateway.{
  FrontendIpConfiguration, FrontendPort, HttpListener, RoutingRule, RedirectConfiguration,
  UrlPathMap, ApplicationGateway,
}
use application_gateway_kube.Sorter.{by_path_map_less, by_request_routing_rule_name_less}
use application_gateway_kube.Utils.Multimap.{SetLibrary}
use application_gateway_kube.K8scontext.Listing.{Caches, Subsets}
use application_gateway_kube.Brownfield.Targets.Blacklist.{Any}
use application_gateway_kube.Appgw.Names.{ListenerIdentifier}
use application_gateway_kube.Appgw.Keys.{listener_eq}
use application_gateway_kube.Appgw.Names.Compact.{IsUsual}
use application_gateway_kube.Appgw.Listeners.Asked.{
  is_asked, member-get_listener_configs, get_listener_configs-All,
}
use application_gateway_kube.Appgw.Listeners.Plain.{IsPlain, is_asked-IsUsual}
use application_gateway_kube.Appgw.Collections.{request_routing_rules}
use application_gateway_kube.Appgw.Frontend.{FrontendBuilder, get_listeners}
use application_gateway_kube.Appgw.Frontend.Served.{Fits, get_listeners-Fits}
use application_gateway_kube.Appgw.Frontend.Returning.{HasIp}
use application_gateway_kube.Appgw.Frontend.Made.{IsMadeFor}
use application_gateway_kube.Appgw.Frontend.Complete.{
  AreFound, IsComplete, get_listeners-IsComplete,
}
use application_gateway_kube.Appgw.Grouping.{
  group_listeners_by_listener_identifier, get_redirect_configurations,
}
use application_gateway_kube.Appgw.Grouping.Identified.{IsIdentifying}
use application_gateway_kube.Appgw.Grouping.Standing.{
  Stands, group_listeners_by_listener_identifier-Stands,
}
use application_gateway_kube.Appgw.Routing.{PathMaps, Routing, get_path_maps, get_rules}
use application_gateway_kube.Appgw.PathMaps.{Built}
use application_gateway_kube.Appgw.Build.Whole.{All-both}
use application_gateway_kube.Appgw.Build.{BuildContext, configs, built, build_routing}

module _ (sets : SetLibrary Text) (subsets : Subsets sets) (b : FrontendBuilder) (c : Caches)
    (order : MapOrder) (s : Sort) (x : BuildContext) (ips : List FrontendIpConfiguration)
    (is_private : Bool) (h : HasIp b ips is_private) where
  abbrev pub used : List RedirectConfiguration → Built
  used redirects = built sets subsets b c order s x redirects

  abbrev pub used_maps : List RedirectConfiguration → PathMaps
  used_maps redirects =
      get_path_maps b c order s (used redirects) x.pfx x.base64 x.env_use_private_ip x.ingresses

  -- The steps of a build have left their results in the gateway, and the listener that was made for the identifier is grouped under it.
  pub record IsBuilt (id : ListenerIdentifier) (gw : ApplicationGateway) : Type 0 where
    pub listeners : List HttpListener
    pub grouped : GoMap ListenerIdentifier HttpListener
    pub redirects : List RedirectConfiguration
    pub routing : Routing
    pub routed :
        get_rules b c order s (used redirects) grouped (used_maps redirects) ≡ returns routing
    pub sent_listeners : gw.http_listeners ≡ some listeners
    pub sent_redirects : gw.redirect_configurations ≡ some redirects
    pub sent_maps : gw.url_path_maps ≡ some (s.sort UrlPathMap by_path_map_less routing.path_maps)
    pub sent_rules :
        gw.request_routing_rules
        ≡ some (s.sort RoutingRule by_request_routing_rule_name_less routing.rules)
    pub listened : Any (IsMadeFor b ips is_private h x.existing_ports_by_number id) listeners
    pub stands : Stands b ips is_private h x.existing_ports_by_number id grouped

  module _ (off : x.builder.enable_brownfield_deployment ≡ false)
      (i : IsIdentifying b ips is_private h x.existing_ports_by_number)
      (found : AreFound b ips is_private h x.existing_ports_by_number)
      (plain : All
        (IsPlain x.pfx x.base64 b.md5_sum b.ag_prefix b.hash_code x.env_use_private_ip is_private)
        x.ingresses)
      (id : ListenerIdentifier)
      (asked : is_asked x.pfx x.base64 b.md5_sum b.ag_prefix b.hash_code x.env_use_private_ip id
          x.ingresses
        ≡ true) where
    usual : IsUsual is_private id
    usual =
        is_asked-IsUsual x.pfx x.base64 b.md5_sum b.ag_prefix b.hash_code x.env_use_private_ip
          is_private id x.ingresses plain asked

    -- What is made of listeners and ports: one for the identifier among them, each with its port.
    record IsFront (out : List HttpListener × List FrontendPort) : Type 0 where
      pub complete : IsComplete b ips is_private h x.existing_ports_by_number id out
      pub fits : Fits b false out

    get_listeners-IsFront :
        (gw : ApplicationGateway)
        → OnReturn IsFront (
            get_listeners b order s x.builder gw
              (configs sets subsets b c order s x)
              x.existing_ports_by_number)
    get_listeners-IsFront gw =
        let wanted = configs sets subsets b c order s x in
        let asked_all =
          get_listener_configs-All x.pfx x.base64 b.md5_sum b.ag_prefix b.hash_code
            x.env_use_private_ip order x.attach_waf_policy_to_listener id x.ingresses asked in
        let all_usual =
          All-map _ _
            (λ entry k.
              is_asked-IsUsual x.pfx x.base64 b.md5_sum b.ag_prefix b.hash_code x.env_use_private_ip
                is_private entry.0 x.ingresses plain k)
            wanted asked_all in
        let has =
          member-get_listener_configs x.pfx x.base64 b.md5_sum b.ag_prefix b.hash_code
            x.env_use_private_ip order x.attach_waf_policy_to_listener id x.ingresses asked in
        OnReturn-mono
          (λ out.
            IsComplete b ips is_private h x.existing_ports_by_number id out
            × Fits b x.builder.enable_brownfield_deployment out)
          IsFront _
          (λ out both. record { complete = both.0; fits = subst (λ on. Fits b on out) off both.1 })
          (OnReturn-both _ _
            (get_listeners b order s x.builder gw wanted x.existing_ports_by_number)
            (get_listeners-IsComplete b ips is_private h x.existing_ports_by_number order s
              x.builder gw wanted id off i.configured i.numbered found all_usual has)
            (get_listeners-Fits b order s x.builder gw wanted x.existing_ports_by_number
              i.numbered))

    group-Stands :
        (out : List HttpListener × List FrontendPort)
        → IsFront out
        → OnReturn
            (Stands b ips is_private h x.existing_ports_by_number id)
            (group_listeners_by_listener_identifier b out.0 out.1)
    group-Stands out f =
        group_listeners_by_listener_identifier-Stands b ips is_private h x.existing_ports_by_number
          i id out.0 out.1 usual f.complete.own_ports
          (All-both _ _ out.0 f.complete.made (f.fits.served refl)) f.complete.wanted_made

    pub build_routing-IsBuilt :
        (gw : ApplicationGateway)
        → OnReturn (IsBuilt id) (build_routing sets subsets b c order s x gw)
    unfolding build_routing request_routing_rules
    build_routing-IsBuilt gw =
        >>=-OnReturn _
          (get_listeners b order s x.builder _ (configs sets subsets b c order s x)
            x.existing_ports_by_number)
          _
          λ out d.
            let front = OnReturn-at IsFront _ d (get_listeners-IsFront _) in
            >>=-OnReturn _ (group_listeners_by_listener_identifier b out.0 out.1) _ λ grouped g.
              >>=-OnReturn _
                (get_redirect_configurations b order s x.builder _ grouped
                  (configs sets subsets b c order s x))
                _
                λ redirects t.
                  >>=-OnReturn _
                    (get_rules b c order s (used redirects) grouped (used_maps redirects)) _
                    λ routing r. rw off (record {
                      listeners = out.0;
                      grouped = grouped;
                      redirects = redirects;
                      routing = routing;
                      routed = r;
                      sent_listeners = refl;
                      sent_redirects = refl;
                      sent_maps = refl;
                      sent_rules = refl;
                      listened = front.complete.wanted_made;
                      stands =
                          OnReturn-at (Stands b ips is_private h x.existing_ports_by_number id) _ g
                            (group-Stands out front);
                    })
