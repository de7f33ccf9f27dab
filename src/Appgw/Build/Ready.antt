-- ===== src/Appgw/Build/Ready.antt =====
-- pkg/appgw/configbuilder.go: the probes, settings and pools that a build sends.
use application_gateway_kube.Common.{
  All-map, Text, List, some, nat_eq, text_eq, All-perm, Permᴰ, ◌≡◌, sym, ap, subst, inl, inr,
}
use application_gateway_kube.Common.Order.{MapOrder, Sort}
use application_gateway_kube.Gateway.{
  BackendAddressPool, BackendHttpSettings, Probe, ApplicationGateway,
}
use application_gateway_kube.Sorter.{
  by_backend_pool_name_less, by_health_probe_name_less, by_settings_name_less,
}
use application_gateway_kube.Utils.Multimap.{SetLibrary}
use application_gateway_kube.K8scontext.Listing.{Caches, Subsets}
use application_gateway_kube.Appgw.Frontend.{FrontendBuilder}
use application_gateway_kube.Appgw.Probes.{created_probes}
use application_gateway_kube.Appgw.Pools.{created_pools}
use application_gateway_kube.Appgw.Settings.{Settings, or_empty, get_backends_and_settings_map}
use application_gateway_kube.Appgw.Settings.Probed.{
  IsProbed, get_backends_and_settings_map-AreProbed,
}
use application_gateway_kube.Appgw.Build.{BuildContext, used_settings}
use application_gateway_kube.Appgw.Build.Completed.{IsReady}
use application_gateway_kube.Appgw.Build.Whole.{has_item-perm, HasProbe}

module _ (sets : SetLibrary Text) (subsets : Subsets sets) (b : FrontendBuilder) (c : Caches)
    (order : MapOrder) (s : Sort) (x : BuildContext) where
  abbrev pub sorted_probes : List Probe
  sorted_probes =
      s.sort Probe by_health_probe_name_less (created_probes sets subsets b c order x.ingresses)

  abbrev pub sorted_settings : Settings → List BackendHttpSettings
  sorted_settings settings = s.sort BackendHttpSettings by_settings_name_less settings.collection

  abbrev pub sorted_pools : Settings → List BackendAddressPool
  sorted_pools settings =
      s.sort BackendAddressPool by_backend_pool_name_less (created_pools order s b c settings.pairs)

  created-HasProbe :
      (t : BackendHttpSettings)
      → IsProbed sets subsets b c order x.ingresses t
      → HasProbe sorted_probes t
  created-HasProbe t (inl h) = inl h
  created-HasProbe t (inr (id, e, h)) = inr (
    id,
    e,
    has_item-perm _ id
        (s.sort_perm Probe by_health_probe_name_less
          (created_probes sets subsets b c order x.ingresses))
        h,
  )

  pub made-IsReady :
      (settings : Settings) (gw : ApplicationGateway)
      → get_backends_and_settings_map sets subsets b c order x.ingresses ≡ some settings
      → gw.probes ≡ some sorted_probes
      → gw.backend_http_settings_collection ≡ some (sorted_settings settings)
      → gw.backend_address_pools ≡ some (sorted_pools settings)
      → IsReady sets subsets b c order s x gw
  made-IsReady settings gw d has_probes has_settings has_pools =
      let same : settings ≡ used_settings sets subsets b c order s x =
        ap (or_empty sets subsets b c order x.ingresses) (sym d) in
      let settings_perm =
        s.sort_perm BackendHttpSettings by_settings_name_less settings.collection in
      record {
        probes = sorted_probes;
        listed = sorted_settings settings;
        pools = sorted_pools settings;
        sent_probes = has_probes;
        sent_settings = has_settings;
        sent_pools = has_pools;
        settings_perm =
            subst (λ (u : Settings). Permᴰ u.collection (sorted_settings settings)) same
              settings_perm;
        pools_perm =
            subst
              (λ (u : Settings). Permᴰ (created_pools order s b c u.pairs) (sorted_pools settings))
              same
              (s.sort_perm BackendAddressPool by_backend_pool_name_less
                (created_pools order s b c settings.pairs));
        probed = All-perm _ settings_perm (
            All-map _ _ created-HasProbe settings.collection
              (get_backends_and_settings_map-AreProbed sets subsets b c order x.ingresses d));
      }
