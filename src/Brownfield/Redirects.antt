-- ===== src/Brownfield/Redirects.antt =====
-- pkg/brownfield/redirects.go: the blacklisted redirect configurations.
use application_gateway_kube.Common.{List, [], Run, returns, ◌>>=◌, text_eq}
use application_gateway_kube.Gateway.{RedirectConfiguration, UrlPathMap}
use application_gateway_kube.Brownfield.Existing.{ExistingResources, NameSet}
use application_gateway_kube.Brownfield.Buckets.{split_by_name, add_reference}
use application_gateway_kube.Brownfield.Blacklisted.{
  get_blacklisted_routing_rules, get_blacklisted_path_maps, add_references,
  add_path_rule_references,
}

unfoldable pub add_redirects_of_path_map : UrlPathMap → NameSet → NameSet
add_redirects_of_path_map pm set =
    add_path_rule_references (λ rule. add_reference rule.redirect_configuration) pm.path_rules
      (add_reference pm.default_redirect_configuration set)

-- `getBlacklistedRedirectsSet`
unfoldable pub get_blacklisted_redirects_set : ExistingResources → Run NameSet
get_blacklisted_redirects_set er = do
  rules ← get_blacklisted_routing_rules er
  path_maps ← get_blacklisted_path_maps er
  returns (
      add_references add_redirects_of_path_map path_maps.0
        (add_references (λ rule. add_reference rule.redirect_configuration) rules.0 []))

-- `GetBlacklistedRedirects`
unfoldable pub get_blacklisted_redirects :
    ExistingResources → Run (List RedirectConfiguration × List RedirectConfiguration)
get_blacklisted_redirects er = do
  set ← get_blacklisted_redirects_set er
  returns (split_by_name (λ r. r.name) set er.redirects)
