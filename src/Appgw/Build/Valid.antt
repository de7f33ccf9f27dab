-- ===== src/Appgw/Build/Valid.antt =====
-- pkg/appgw/configbuilder.go: what a build makes without brownfield deployment.
use application_gateway_kube.Common.{
  ℕ, Text, List, [], Option, none, some, Bool, true, false, GoMap, lookup, nat_eq, text_eq, returns,
  OnReturn-at, All, ◌≡◌, refl, ◌⊎◌, Bool-cases, inl, inr,
}
use application_gateway_kube.Common.Order.{MapOrder, Sort}
use application_gateway_kube.Gateway.{
  BackendHttpSettings, FrontendIpConfiguration, FrontendPort, HttpListener, RedirectConfiguration,
  ApplicationGateway,
}
use application_gateway_kube.Sorter.{by_settings_name_less}
use application_gateway_kube.Utils.Multimap.{SetLibrary}
use application_gateway_kube.K8scontext.Listing.{Caches, Subsets}
use application_gateway_kube.Appgw.Names.{ListenerIdentifier}
use application_gateway_kube.Appgw.Collections.Greenfield.{
  backend_address_pools_created, health_probes_collection_created,
  backend_http_settings_collection_created,
}
use application_gateway_kube.Appgw.Certificates.{get_ssl_certificates}
use application_gateway_kube.Appgw.Frontend.{FrontendBuilder, get_listeners}
use application_gateway_kube.Appgw.Frontend.Returning.{HasIp, get_listeners-Returns}
use application_gateway_kube.Appgw.Grouping.{
  get_redirect_configurations, group_listeners_by_listener_identifier,
}
use application_gateway_kube.Appgw.Grouping.Returning.{
  HaveIds, IsPlaced, get_listeners-ArePlaced, group_listeners_by_listener_identifier-Returns,
  group_listeners_by_listener_identifier-All,
}
use application_gateway_kube.Appgw.Grouping.Redirects.{LeadsTo, get_redirect_configurations-LeadTo}
use application_gateway_kube.Appgw.Probes.{created_probes}
use application_gateway_kube.Appgw.Pools.{default_backend_address_pool, created_pools}
use application_gateway_kube.Appgw.Settings.{
  Settings, resolved_pairs, get_backends_and_settings_map,
}
use application_gateway_kube.Appgw.Settings.Bound.{any_ambiguous, get_backends_and_settings_map_iff}
use application_gateway_kube.Appgw.Build.{
  BuildError, BuildContext, TagValues, configs, build_routing, built_settings, build_from_settings,
  built_collection, add_tags, build, generating_backend_settings,
}
use application_gateway_kube.Appgw.Build.Completed.{
  IsReady, placed-IsListener, AreListeners, route_all, request_routing_rules-IsWhole,
}
use application_gateway_kube.Appgw.Validators.Services.{post_build_validate}
use application_gateway_kube.Appgw.Build.Ready.{sorted_probes, sorted_pools, made-IsReady}
use application_gateway_kube.Appgw.Build.Whole.{IsListener, IsWhole, add_tags-IsWhole}

module _ (sets : SetLibrary Text) (subsets : Subsets sets) (b : FrontendBuilder) (c : Caches)
    (order : MapOrder) (s : Sort) (x : BuildContext) where
  -- A build fails if a backend has several pairs of ports, and otherwise sends a configuration that is whole.
  abbrev pub IsSent : Option BuildError × ApplicationGateway → Type 0
  IsSent out =
      ((any_ambiguous (resolved_pairs sets subsets b c order x.ingresses) ≡ true)
        × (out.0 ≡ some generating_backend_settings))
      ⊎ ((any_ambiguous (resolved_pairs sets subsets b c order x.ingresses) ≡ false)
          × (out.0 ≡ none)
          × IsWhole b out.1
          × (post_build_validate out.1 ≡ returns ([], none)))

  post_build_validate-IsWhole :
      (gw : ApplicationGateway) → IsWhole b gw → post_build_validate gw ≡ returns ([], none)
  unfolding post_build_validate
  post_build_validate-IsWhole gw h = rw (h.sent_maps, h.maps_accepted) refl

  unambiguous :
      {settings : Settings}
      → get_backends_and_settings_map sets subsets b c order x.ingresses ≡ some settings
      → any_ambiguous (resolved_pairs sets subsets b c order x.ingresses) ≡ false
  unambiguous d =
      elim (Bool-cases (any_ambiguous (resolved_pairs sets subsets b c order x.ingresses))) [
        | inl more ↦ absurd (
            let f =
              (get_backends_and_settings_map_iff sets subsets b c order x.ingresses).0.0 more in
            cc)
        | inr one ↦ one
      ]

  module _ (ips : List FrontendIpConfiguration)
      (off : x.builder.enable_brownfield_deployment ≡ false)
      (e : b.frontend_ip_configurations ≡ some ips) (ids : HaveIds ips)
      (has_ip : (is_private : Bool) → HasIp b ips is_private)
      (numbered : (n : ℕ) (p : FrontendPort)
        → lookup n x.existing_ports_by_number ≡ some p
        → p.port ≡ some n) where
    -- The listeners, their grouping and the redirections.
    record IsListening (gw : ApplicationGateway) : Type 0 where
      pub listeners : List HttpListener
      pub ports : List FrontendPort
      pub grouped : GoMap ListenerIdentifier HttpListener
      pub redirects : List RedirectConfiguration
      pub made :
          get_listeners b order s x.builder gw
            (configs sets subsets b c order s x)
            x.existing_ports_by_number
          ≡ returns (listeners, ports)
      pub grouping : group_listeners_by_listener_identifier b listeners ports ≡ returns grouped
      pub own : AreListeners sets subsets b c order s x listeners grouped
      pub redirecting :
          get_redirect_configurations b order s x.builder
            (record gw { http_listeners = some listeners; frontend_ports = some ports })
            grouped
            (configs sets subsets b c order s x)
          ≡ returns redirects
      pub lead : All (LeadsTo b (IsListener b listeners)) redirects

    listen : (gw : ApplicationGateway) → IsListening gw
    listen gw =
        let wanted = configs sets subsets b c order s x in
        let (front, d, f) =
          get_listeners-Returns b order s x.builder gw wanted x.existing_ports_by_number ips off e
            has_ip numbered in
        let placed =
          OnReturn-at (λ (out : List HttpListener × List FrontendPort). All (IsPlaced b ips) out.0)
            _ d
            (get_listeners-ArePlaced b ips order s x.builder gw wanted x.existing_ports_by_number
              off e) in
        let (grouped, g) =
          group_listeners_by_listener_identifier-Returns b ips front.0 front.1 e ids placed in
        let own = OnReturn-at (AreListeners sets subsets b c order s x front.0) _ g (
          group_listeners_by_listener_identifier-All b ips (IsListener b front.0) front.0 front.1
            (placed-IsListener sets subsets b c order s x ips front.0 placed)) in
        let (redirects, t, lead) =
          get_redirect_configurations-LeadTo b (IsListener b front.0) order s x.builder _ grouped
            wanted off own in
        record {
          listeners = front.0;
          ports = front.1;
          grouped = grouped;
          redirects = redirects;
          made = d;
          grouping = g;
          own = own;
          redirecting = t;
          lead = lead;
        }

    build_routing-IsWhole :
        {settings : Settings} (gw : ApplicationGateway)
        → get_backends_and_settings_map sets subsets b c order x.ingresses ≡ some settings
        → IsReady sets subsets b c order s x gw
        → (out : ApplicationGateway) × (build_routing sets subsets b c order s x gw ≡ returns out)
          × IsWhole b out
    unfolding build_routing
    build_routing-IsWhole gw d ready =
        let with_certs = record gw {
          ssl_certificates =
              some (get_ssl_certificates x.pfx x.base64 order s x.builder gw x.ingresses);
        } in
        let h = listen with_certs in
        let routes =
          route_all sets subsets b c order s x h.listeners h.redirects h.grouped d h.own in
        let with_redirects = record with_certs {
          http_listeners = some h.listeners;
          frontend_ports = some h.ports;
          redirect_configurations = some h.redirects;
        } in
        let ready_with : IsReady sets subsets b c order s x with_redirects = record {
          probes = ready.probes;
          listed = ready.listed;
          pools = ready.pools;
          sent_probes = ready.sent_probes;
          sent_settings = ready.sent_settings;
          sent_pools = ready.sent_pools;
          settings_perm = ready.settings_perm;
          pools_perm = ready.pools_perm;
          probed = ready.probed;
        } in
        let (out, r, whole) =
          request_routing_rules-IsWhole sets subsets b c order s x with_redirects h.listeners
            h.redirects h.grouped off ready_with refl refl h.lead routes in
        (out, rw (h.made, h.grouping, h.redirecting, routes.made, r) refl, whole)

    build_from_settings-IsSent :
        (tags : TagValues) (o : Option Settings) (gw : ApplicationGateway)
        → get_backends_and_settings_map sets subsets b c order x.ingresses ≡ o
        → gw.probes ≡ some (sorted_probes sets subsets b c order s x)
        → gw.backend_http_settings_collection
          ≡ some (
              s.sort BackendHttpSettings by_settings_name_less
                (built_collection sets subsets b c order s x o))
        → (out : Option BuildError × ApplicationGateway) × (build_from_settings sets subsets b c
              order s x tags o gw
            ≡ returns out)
          × IsSent out
    unfolding add_tags
    build_from_settings-IsSent tags none gw d has_probes has_settings = (
      _,
      refl,
      inl ((get_backends_and_settings_map_iff sets subsets b c order x.ingresses).0.1 d, refl),
    )
    build_from_settings-IsSent tags (some settings) gw d has_probes has_settings =
        let with_pools = record gw {
          backend_address_pools = some (sorted_pools sets subsets b c order s x settings);
        } in
        let (routed, r, h) = build_routing-IsWhole with_pools d (
          made-IsReady sets subsets b c order s x settings with_pools d has_probes has_settings
            refl) in
        (
          (none, add_tags tags routed),
          rw
              (
                backend_address_pools_created order s x.builder off gw
                    (default_backend_address_pool order s b c)
                    (created_pools order s b c settings.pairs),
                r,
              )
              refl,
          inr (
            unambiguous d,
            refl,
            add_tags-IsWhole b tags routed h,
            post_build_validate-IsWhole (add_tags tags routed) (add_tags-IsWhole b tags routed h),
          ),
        )

    -- Without brownfield deployment, where the gateway has a public and a private IP configuration, every IP
    -- configuration has an ID, and every existing port stands under its number: a build does not panic. It fails
    -- exactly if a backend that was resolved has several pairs of ports, with the error for the settings. Otherwise
    -- it sends a configuration that passes the validation after the build and that is whole: its settings have no probe or one
    -- that is sent; its redirections lead to listeners that are sent; its path rules refer to a redirection, or to
    -- a pool and settings, that are sent; and each of its rules is for a listener that is sent and has one target,
    -- or is path-based with a path map that is sent.
    pub build-IsSent :
        (tags : TagValues) (gw : ApplicationGateway)
        → (out : Option BuildError × ApplicationGateway) × (build sets subsets b c order s x tags gw
            ≡ returns out)
          × IsSent out
    unfolding build
    build-IsSent tags gw =
        let found = built_settings sets subsets b c order s x in
        let with_settings = record gw {
          probes = some (sorted_probes sets subsets b c order s x);
          backend_http_settings_collection = some (
              s.sort BackendHttpSettings by_settings_name_less
                (built_collection sets subsets b c order s x found));
        } in
        let (out, d, h) = build_from_settings-IsSent tags found with_settings refl refl refl in
        (
          out,
          rw
              (
                health_probes_collection_created order s x.builder off gw
                    (created_probes sets subsets b c order x.ingresses),
                backend_http_settings_collection_created order s x.builder off
                    (record gw { probes = some (sorted_probes sets subsets b c order s x) })
                    (built_collection sets subsets b c order s x found),
              )
              d,
          h,
        )
