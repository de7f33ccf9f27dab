-- ===== src/Appgw/Build/Completed.antt =====
-- pkg/appgw/configbuilder.go and requestroutingrules.go: how the rules and path maps complete a configuration.
use application_gateway_kube.Common.{
  All-map, Text, List, none, some, false, GoMap, nat_eq, text_eq, returns, OnReturn-at, All,
  All-perm, Permᴰ, ◌≡◌, refl, sym, ap, ◌∙◌,
}
use application_gateway_kube.Common.Order.{MapOrder, Sort}
use application_gateway_kube.Gateway.{
  BackendAddressPool, BackendHttpSettings, Probe, FrontendIpConfiguration, HttpListener,
  RedirectConfiguration, UrlPathMap, RoutingRule, ApplicationGateway,
}
use application_gateway_kube.Sorter.{by_path_map_less, by_request_routing_rule_name_less}
use application_gateway_kube.Utils.Multimap.{SetLibrary}
use application_gateway_kube.K8scontext.Listing.{Caches, Subsets}
use application_gateway_kube.Appgw.Identifier.{listener_id, resource_ref}
use application_gateway_kube.Appgw.Names.{ListenerIdentifier}
use application_gateway_kube.Appgw.Validators.{validate_url_path_maps}
use application_gateway_kube.Appgw.Validators.Verdicts.{IsValidPathMap, validate_url_path_maps_iff}
use application_gateway_kube.Appgw.Collections.{request_routing_rules}
use application_gateway_kube.Appgw.Frontend.{FrontendBuilder}
use application_gateway_kube.Appgw.Grouping.Returning.{IsPlaced}
use application_gateway_kube.Appgw.Grouping.Redirects.{LeadsTo}
use application_gateway_kube.Appgw.Pools.{created_pools}
use application_gateway_kube.Appgw.Settings.{Settings, or_empty, get_backends_and_settings_map}
use application_gateway_kube.Appgw.Routing.{Routing, get_path_maps, get_rules}
use application_gateway_kube.Appgw.Routing.Sound.{IsSound}
use application_gateway_kube.Appgw.Routing.Referred.{IsReferred, get_path_maps-AreReferred}
use application_gateway_kube.Appgw.Routing.Accepted.{IsRouted, get_rules-IsAccepted}
use application_gateway_kube.Appgw.Routing.Listened.{Sends, get_rules-Sends}
use application_gateway_kube.Appgw.Build.{BuildContext, used_settings, built}
use application_gateway_kube.Appgw.Build.Whole.{
  All-both, All-has_item, IsReferred-perm, IsRouted-perm, IsListener, HasProbe, ListensOn, IsWhole,
}

module _ (sets : SetLibrary Text) (subsets : Subsets sets) (b : FrontendBuilder) (c : Caches)
    (order : MapOrder) (s : Sort) (x : BuildContext) where
  -- The gateway has the probes, settings and pools of the build.
  pub record IsReady (gw : ApplicationGateway) : Type 0 where
    pub probes : List Probe
    pub listed : List BackendHttpSettings
    pub pools : List BackendAddressPool
    pub sent_probes : gw.probes ≡ some probes
    pub sent_settings : gw.backend_http_settings_collection ≡ some listed
    pub sent_pools : gw.backend_address_pools ≡ some pools
    pub settings_perm : Permᴰ (used_settings sets subsets b c order s x).collection listed
    pub pools_perm :
        Permᴰ (created_pools order s b c (used_settings sets subsets b c order s x).pairs) pools
    pub probed : All (HasProbe probes) listed

  pub placed-IsListener :
      (ips : List FrontendIpConfiguration) (ls : List HttpListener)
      → All (IsPlaced b ips) ls
      → All (IsListener b ls) ls
  placed-IsListener ips ls h =
      All-both _ _ ls (All-map _ _ (λ l p. p.own_id) ls h)
        (All-has_item (λ (l : HttpListener). l.id) ls)

  IsListener-ListensOn :
      (ls : List HttpListener) (rule : RoutingRule)
      → (l : HttpListener) × IsListener b ls l
        × (rule.http_listener ≡ some (record { id = some (listener_id b.agw l.name) }))
      → ListensOn ls rule
  unfolding resource_ref
  IsListener-ListensOn ls rule (l, (own, h), e) = (l.id, rw own e, h)

  abbrev pub IsUsed : List RedirectConfiguration → UrlPathMap → Type 0
  IsUsed redirects = IsSound (
      IsReferred redirects
        (created_pools order s b c (used_settings sets subsets b c order s x).pairs)
        (used_settings sets subsets b c order s x).collection)

  -- The rules and path maps of a build, for listeners and redirections that were made.
  pub record IsRouting (listeners : List HttpListener) (redirects : List RedirectConfiguration)
      (grouped : GoMap ListenerIdentifier HttpListener) : Type 0 where
    pub routing : Routing
    pub made :
        get_rules b c order s (built sets subsets b c order s x redirects) grouped (
          get_path_maps b c order s
            (built sets subsets b c order s x redirects)
            x.pfx
            x.base64
            x.env_use_private_ip
            x.ingresses)
        ≡ returns routing
    pub valid : validate_url_path_maps (some routing.path_maps) ≡ returns none
    pub routed : All (IsRouted b routing.path_maps) routing.rules
    pub sends :
        Sends b c order s
          (built sets subsets b c order s x redirects)
          (IsListener b listeners)
          (IsUsed redirects)
          routing

  abbrev pub AreListeners : List HttpListener → GoMap ListenerIdentifier HttpListener → Type 0
  AreListeners listeners grouped =
      All (λ (entry : ListenerIdentifier × HttpListener). IsListener b listeners entry.1) grouped

  pub route_all :
      {settings : Settings} (listeners : List HttpListener) (redirects : List RedirectConfiguration)
      (grouped : GoMap ListenerIdentifier HttpListener)
      → get_backends_and_settings_map sets subsets b c order x.ingresses ≡ some settings
      → AreListeners listeners grouped
      → IsRouting listeners redirects grouped
  route_all listeners redirects grouped d own =
      let k = built sets subsets b c order s x redirects in
      let used = d ∙ ap (λ o. some (or_empty sets subsets b c order x.ingresses o)) (sym d) in
      let maps = get_path_maps b c order s k x.pfx x.base64 x.env_use_private_ip x.ingresses in
      let (routing, r, valid, routed) =
        get_rules-IsAccepted b c order s k x.pfx x.base64 x.env_use_private_ip grouped
          x.ingresses in
      record {
        routing = routing;
        made = r;
        valid = valid;
        routed = routed;
        sends = OnReturn-at _ _ r (
            get_rules-Sends b c order s k (IsListener b listeners) (IsUsed redirects) grouped maps
              own
              (get_path_maps-AreReferred sets subsets b c order s x.ingresses k used refl x.pfx
                x.base64 x.env_use_private_ip));
      }

  -- `RequestRoutingRules` completes a gateway that has the rest.
  pub request_routing_rules-IsWhole :
      (gw : ApplicationGateway) (listeners : List HttpListener)
      (redirects : List RedirectConfiguration) (grouped : GoMap ListenerIdentifier HttpListener)
      → x.builder.enable_brownfield_deployment ≡ false
      → IsReady gw
      → gw.http_listeners ≡ some listeners
      → gw.redirect_configurations ≡ some redirects
      → All (LeadsTo b (IsListener b listeners)) redirects
      → (h : IsRouting listeners redirects grouped)
      → (out : ApplicationGateway) × (request_routing_rules order s x.builder gw h.routing.rules
            h.routing.path_maps
          ≡ returns out)
        × IsWhole b out
  unfolding request_routing_rules
  request_routing_rules-IsWhole gw listeners redirects grouped off ready has_listeners has_redirects
        lead h =
      let sorted = s.sort UrlPathMap by_path_map_less h.routing.path_maps in
      let maps_perm = s.sort_perm UrlPathMap by_path_map_less h.routing.path_maps in
      let rules_perm = s.sort_perm RoutingRule by_request_routing_rule_name_less h.routing.rules in
      (
        record gw {
          url_path_maps = some sorted;
          request_routing_rules =
              some (s.sort RoutingRule by_request_routing_rule_name_less h.routing.rules);
        },
        rw off refl,
        record {
          probes = ready.probes;
          settings = ready.listed;
          pools = ready.pools;
          listeners = listeners;
          redirects = redirects;
          path_maps = sorted;
          rules = s.sort RoutingRule by_request_routing_rule_name_less h.routing.rules;
          sent_probes = ready.sent_probes;
          sent_settings = ready.sent_settings;
          sent_pools = ready.sent_pools;
          sent_listeners = has_listeners;
          sent_redirects = has_redirects;
          sent_maps = refl;
          sent_rules = refl;
          settings_probed = ready.probed;
          redirects_lead = All-map _ _ (λ redirect (l, k, t). (l.id, t, k.1)) redirects lead;
          paths_refer = All-perm _ maps_perm (
              All-map _ _
                (λ pm (k : IsUsed redirects pm).
                  All-map _ _ (IsReferred-perm redirects ready.pools_perm ready.settings_perm) _
                    k.rules_hold)
                h.routing.path_maps h.sends.maps_hold);
          maps_accepted = (validate_url_path_maps_iff sorted).1 (
              All-perm IsValidPathMap maps_perm
                ((validate_url_path_maps_iff h.routing.path_maps).0 h.valid));
          rules_listen =
              All-perm _ rules_perm
                (All-map _ _ (IsListener-ListensOn listeners) h.routing.rules h.sends.rules_listen);
          rules_routed =
              All-perm _ rules_perm
                (All-map _ _ (IsRouted-perm b maps_perm) h.routing.rules h.routed);
        },
      )
