-- ===== src/Appgw/Build/Left.antt =====
-- pkg/appgw/configbuilder.go: what a build leaves for an identifier that a rule asks for.
use application_gateway_kube.Common.{
  Text, List, Option, none, some, Bool, true, false, text_eq, nat_eq, returns, OnReturn,
  >>=-OnReturn, OnReturn-at, All, ◌≡◌, ap, ◌∙◌, inl, inr,
}
use application_gateway_kube.Common.Order.{MapOrder, Sort}
use application_gateway_kube.Gateway.{FrontendIpConfiguration, ApplicationGateway}
use application_gateway_kube.Utils.Multimap.{SetLibrary}
use application_gateway_kube.K8scontext.Listing.{Caches, Subsets}
use application_gateway_kube.Appgw.Names.{ListenerIdentifier}
use application_gateway_kube.Appgw.Keys.{listener_eq}
use application_gateway_kube.Appgw.Listeners.Asked.{is_asked}
use application_gateway_kube.Appgw.Listeners.Plain.{IsPlain}
use application_gateway_kube.Appgw.Collections.{
  backend_address_pools, health_probes_collection, backend_http_settings_collection,
}
use application_gateway_kube.Appgw.Probes.{created_probes}
use application_gateway_kube.Appgw.Pools.{default_backend_address_pool, created_pools}
use application_gateway_kube.Appgw.Settings.{Settings, resolved_pairs}
use application_gateway_kube.Appgw.Settings.Bound.{any_ambiguous}
use application_gateway_kube.Appgw.Grouping.Returning.{HaveIds}
use application_gateway_kube.Appgw.Build.Valid.{build-IsSent}
use application_gateway_kube.Appgw.Frontend.{FrontendBuilder}
use application_gateway_kube.Appgw.Frontend.Returning.{HasIp}
use application_gateway_kube.Appgw.Frontend.Complete.{AreFound}
use application_gateway_kube.Appgw.Grouping.Identified.{IsIdentifying}
use application_gateway_kube.Appgw.Build.{
  BuildContext, BuildError, TagValues, build_routing, built_settings, built_collection,
  build_from_settings, add_tags, build,
}
use application_gateway_kube.Appgw.Build.Answered.{IsBuilt, build_routing-IsBuilt}

module _ (sets : SetLibrary Text) (subsets : Subsets sets) (b : FrontendBuilder) (c : Caches)
    (order : MapOrder) (s : Sort) (x : BuildContext) (ips : List FrontendIpConfiguration)
    (is_private : Bool) (h : HasIp b ips is_private) where
  module _ (off : x.builder.enable_brownfield_deployment ≡ false)
      (i : IsIdentifying b ips is_private h x.existing_ports_by_number)
      (found : AreFound b ips is_private h x.existing_ports_by_number)
      (plain : All
        (IsPlain x.pfx x.base64 b.md5_sum b.ag_prefix b.hash_code x.env_use_private_ip is_private)
        x.ingresses)
      (id : ListenerIdentifier)
      (asked : is_asked x.pfx x.base64 b.md5_sum b.ag_prefix b.hash_code x.env_use_private_ip id
          x.ingresses
        ≡ true) where
    add_tags-IsBuilt :
        (tags : TagValues) (gw : ApplicationGateway)
        → IsBuilt sets subsets b c order s x ips is_private h id gw
        → IsBuilt sets subsets b c order s x ips is_private h id (add_tags tags gw)
    unfolding add_tags
    add_tags-IsBuilt tags gw k = record {
      listeners = k.listeners;
      grouped = k.grouped;
      redirects = k.redirects;
      routing = k.routing;
      routed = k.routed;
      sent_listeners = k.sent_listeners;
      sent_redirects = k.sent_redirects;
      sent_maps = k.sent_maps;
      sent_rules = k.sent_rules;
      listened = k.listened;
      stands = k.stands;
    }

    -- Unless there is an error, the steps have left their results in the gateway.
    abbrev IsGood : Option BuildError × ApplicationGateway → Type 0
    IsGood out = out.0 ≡ none → IsBuilt sets subsets b c order s x ips is_private h id out.1

    build_from_settings-IsGood :
        (tags : TagValues) (o : Option Settings) (gw : ApplicationGateway)
        → OnReturn IsGood (build_from_settings sets subsets b c order s x tags o gw)
    build_from_settings-IsGood tags none gw = λ e. absurd (cc)
    build_from_settings-IsGood tags (some settings) gw =
        >>=-OnReturn IsGood
          (backend_address_pools order s x.builder gw (default_backend_address_pool order s b c)
            (created_pools order s b c settings.pairs))
          _
          λ with_pools d.
            >>=-OnReturn IsGood (build_routing sets subsets b c order s x with_pools) _ λ routed r.
              λ e. add_tags-IsBuilt tags routed (
                OnReturn-at _ _ r (
                  build_routing-IsBuilt sets subsets b c order s x ips is_private h off i found
                    plain id asked with_pools))

    build-IsGood :
        (tags : TagValues) (gw : ApplicationGateway)
        → OnReturn IsGood (build sets subsets b c order s x tags gw)
    unfolding build
    build-IsGood tags gw =
        >>=-OnReturn IsGood
          (health_probes_collection order s x.builder gw
            (created_probes sets subsets b c order x.ingresses))
          _
          λ with_probes d.
            >>=-OnReturn IsGood
              (backend_http_settings_collection order s x.builder with_probes (
                built_collection sets subsets b c order s x
                  (built_settings sets subsets b c order s x)))
              _
              λ with_settings t.
                build_from_settings-IsGood tags (built_settings sets subsets b c order s x)
                  with_settings

  -- A build without an error, and what it leaves in the gateway for the identifier.
  pub build-IsBuilt :
      (tags : TagValues) (gw : ApplicationGateway) (id : ListenerIdentifier)
      → x.builder.enable_brownfield_deployment ≡ false
      → HaveIds ips
      → ((kind : Bool) → HasIp b ips kind)
      → IsIdentifying b ips is_private h x.existing_ports_by_number
      → AreFound b ips is_private h x.existing_ports_by_number
      → All
          (IsPlain x.pfx x.base64 b.md5_sum b.ag_prefix b.hash_code x.env_use_private_ip is_private)
          x.ingresses
      → any_ambiguous (resolved_pairs sets subsets b c order x.ingresses) ≡ false
      → is_asked x.pfx x.base64 b.md5_sum b.ag_prefix b.hash_code x.env_use_private_ip id
          x.ingresses
        ≡ true
      → (out : ApplicationGateway) × (build sets subsets b c order s x tags gw
          ≡ returns (none, out))
        × IsBuilt sets subsets b c order s x ips is_private h id out
  build-IsBuilt tags gw id off ids both i found plain one asked =
      let (out, r, sent) =
        build-IsSent sets subsets b c order s x ips off i.configured ids both i.numbered tags gw in
      let good =
        OnReturn-at (IsGood off i found plain id asked) _ r
          (build-IsGood off i found plain id asked tags gw) in
      elim sent [
        | inl (more, e) ↦ absurd (cc)
        | inr (once, e, whole, valid) ↦ (out.1, r ∙ ap (λ err. returns (err, out.1)) e, good e)
      ]
