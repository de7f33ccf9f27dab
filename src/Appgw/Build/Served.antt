-- ===== src/Appgw/Build/Served.antt =====
-- pkg/appgw/configbuilder.go: the listeners that rules ask for are made, and have routing rules.
use application_gateway_kube.Common.{
  Text, List, none, Bool, true, false, text_eq, nat_eq, returns, All, ◌≡◌,
}
use application_gateway_kube.Common.Order.{MapOrder, Sort}
use application_gateway_kube.Gateway.{FrontendIpConfiguration, ApplicationGateway}
use application_gateway_kube.Utils.Multimap.{SetLibrary}
use application_gateway_kube.K8scontext.Listing.{Caches, Subsets}
use application_gateway_kube.Appgw.Names.{ListenerIdentifier}
use application_gateway_kube.Appgw.Keys.{listener_eq}
use application_gateway_kube.Appgw.Listeners.Asked.{is_asked}
use application_gateway_kube.Appgw.Listeners.Plain.{IsPlain}
use application_gateway_kube.Appgw.Settings.{resolved_pairs}
use application_gateway_kube.Appgw.Settings.Bound.{any_ambiguous}
use application_gateway_kube.Appgw.Grouping.Returning.{HaveIds}
use application_gateway_kube.Appgw.Frontend.{FrontendBuilder}
use application_gateway_kube.Appgw.Frontend.Returning.{HasIp}
use application_gateway_kube.Appgw.Frontend.Complete.{AreFound}
use application_gateway_kube.Appgw.Grouping.Identified.{IsIdentifying}
use application_gateway_kube.Appgw.Build.{BuildContext, TagValues, build}
use application_gateway_kube.Appgw.Build.Left.{build-IsBuilt}
use application_gateway_kube.Appgw.Build.Directed.{IsServedBy, IsBuilt-IsServedBy}

module _ (sets : SetLibrary Text) (subsets : Subsets sets) (b : FrontendBuilder) (c : Caches)
    (order : MapOrder) (s : Sort) (x : BuildContext) (ips : List FrontendIpConfiguration)
    (is_private : Bool) (h : HasIp b ips is_private) where
  -- Without brownfield deployment, let the gateway have a public and a private IP configuration, every IP configuration
  -- an ID, and let the one of the kind that all ingresses want be found by its ID and have a private address exactly if it is
  -- to be private; let every existing port stand under its number of 16 bits, and the ports of two such numbers have two IDs; and let no ingress
  -- extend its host names by an empty one. Then, if no backend has several pairs of ports, a build returns a configuration without
  -- an error, and for every identifier that a rule of an ingress asks for there is a listener with its name, its port, the IP
  -- and its host names, and a routing rule for the listener of that name. If path rules are asked for at the listener, a rule for it leads to a path map
  -- that is sent and has just these, in their order, unless the listener is the default one and an ingress without rules has a backend.
  pub build-IsServedBy :
      (tags : TagValues) (gw : ApplicationGateway) (id : ListenerIdentifier)
      → x.builder.enable_brownfield_deployment ≡ false
      → HaveIds ips
      → ((kind : Bool) → HasIp b ips kind)
      → IsIdentifying b ips is_private h x.existing_ports_by_number
      → AreFound b ips is_private h x.existing_ports_by_number
      → All
          (IsPlain x.pfx x.base64 b.md5_sum b.ag_prefix b.hash_code x.env_use_private_ip is_private)
          x.ingresses
      → any_ambiguous (resolved_pairs sets subsets b c order x.ingresses) ≡ false
      → is_asked x.pfx x.base64 b.md5_sum b.ag_prefix b.hash_code x.env_use_private_ip id
          x.ingresses
        ≡ true
      → (out : ApplicationGateway) × (build sets subsets b c order s x tags gw
          ≡ returns (none, out))
        × IsServedBy sets subsets b c order s x ips is_private h out id
  build-IsServedBy tags gw id off ids both i found plain one asked =
      let (out, r, built) =
        build-IsBuilt sets subsets b c order s x ips is_private h tags gw id off ids both i found
          plain one asked in
      (out, r, IsBuilt-IsServedBy sets subsets b c order s x ips is_private h id out built asked)
