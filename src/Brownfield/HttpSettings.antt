-- ===== src/Brownfield/HttpSettings.antt =====
-- pkg/brownfield/http_settings.go and health_probes.go: the blacklisted HTTP settings and probes.
use application_gateway_kube.Common.{
  List, [], ◌∷◌, Option, none, some, Run, returns, ◌>>=◌, text_eq, if◌then◌else◌,
}
use application_gateway_kube.Gateway.{SubResource, BackendHttpSettings, Probe, PathRule, UrlPathMap}
use application_gateway_kube.Utils.{get_last_chunk_of_slashed}
use application_gateway_kube.Brownfield.Existing.{ExistingResources, NameSet, add_name}
use application_gateway_kube.Brownfield.Buckets.{split_by_name, add_reference, has_id}
use application_gateway_kube.Brownfield.RuleTargets.{deref_id}
use application_gateway_kube.Brownfield.Blacklisted.{
  get_blacklisted_routing_rules, get_blacklisted_path_maps, add_references,
}

-- The ID of the settings is read where a pool has one.
unfoldable pub add_settings_beside_pool :
    Option SubResource → Option SubResource → NameSet → Run NameSet
add_settings_beside_pool pool settings set =
    if has_id pool
    then (do id ← deref_id settings; returns (add_name (get_last_chunk_of_slashed id) set))
    else returns set

unfoldable pub add_settings_of_path_rules : List PathRule → NameSet → Run NameSet
add_settings_of_path_rules [] set = returns set
add_settings_of_path_rules (rule ∷ rules) set = do
  set' ← add_settings_beside_pool rule.backend_address_pool rule.backend_http_settings set
  add_settings_of_path_rules rules set'

abbrev pub listed_path_rules : Option (List PathRule) → List PathRule
listed_path_rules none = []
listed_path_rules (some rules) = rules

unfoldable pub add_settings_of_path_maps : List UrlPathMap → NameSet → Run NameSet
add_settings_of_path_maps [] set = returns set
add_settings_of_path_maps (pm ∷ pms) set = do
  by_default ←
      add_settings_beside_pool pm.default_backend_address_pool pm.default_backend_http_settings set
  by_rules ← add_settings_of_path_rules (listed_path_rules pm.path_rules) by_default
  add_settings_of_path_maps pms by_rules

-- `getBlacklistedSettingsSet`
unfoldable pub get_blacklisted_settings_set : ExistingResources → Run NameSet
get_blacklisted_settings_set er = do
  rules ← get_blacklisted_routing_rules er
  path_maps ← get_blacklisted_path_maps er
  add_settings_of_path_maps path_maps.0
      (add_references (λ rule. add_reference rule.backend_http_settings) rules.0 [])

-- `GetBlacklistedHTTPSettings`
unfoldable pub get_blacklisted_http_settings :
    ExistingResources → Run (List BackendHttpSettings × List BackendHttpSettings)
get_blacklisted_http_settings er = do
  set ← get_blacklisted_settings_set er
  returns (split_by_name (λ s. s.name) set er.http_settings)

-- `getBlacklistedProbesSet`
unfoldable pub get_blacklisted_probes_set : ExistingResources → Run NameSet
get_blacklisted_probes_set er = do
  settings ← get_blacklisted_http_settings er
  returns (add_references (λ setting. add_reference setting.probe) settings.0 [])

-- `GetBlacklistedProbes`
unfoldable pub get_blacklisted_probes : ExistingResources → Run (List Probe × List Probe)
get_blacklisted_probes er = do
  set ← get_blacklisted_probes_set er
  returns (split_by_name (λ p. p.name) set er.probes)
