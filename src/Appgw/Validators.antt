-- ===== src/Appgw/Validators.antt =====
-- pkg/appgw/validators.go: the checks of the path maps and of the IP configurations. The JSON form of
-- an IP configuration, which the code makes and does not use, is left out.
pub mod Verdicts
pub mod Services
use application_gateway_kube.Common.{
  Text, List, [], ◌∷◌, Option, none, some, Bool, true, false, not, ◌&&◌, ◌||◌, Run, returns, panics,
  ◌>>=◌, deref, is_nil, if◌then◌else◌,
}
use application_gateway_kube.Gateway.{
  SubResource, PathRule, UrlPathMap, FrontendIpProperties, FrontendIpConfiguration,
}
use application_gateway_kube.Annotations.{parse_bool_text}

-- The values of `validationErrors`, and `ErrEmptyConfig`.
pub data ValidationError : Type 0 where
  no_defaults either_defaults no_backend_or_redirect either_backend_or_redirect : ValidationError
  no_private_ip no_public_ip empty_config : ValidationError

abbrev pub is_set : {A : Type 0} → Option A → Bool
is_set none = false
is_set (some a) = true

-- The two tests of a redirect and a backend, with their errors.
unfoldable pub check_target :
    ValidationError → ValidationError → Bool → Bool → Option ValidationError
check_target neither both valid_redirect valid_backend =
    if not valid_redirect && not valid_backend
    then some neither
    else if (valid_redirect && valid_backend) || (not valid_redirect && not valid_backend)
    then some both
    else none

abbrev pub check_rule : PathRule → Option ValidationError
check_rule rule =
    check_target no_backend_or_redirect either_backend_or_redirect
      (is_set rule.redirect_configuration)
      (is_set rule.backend_address_pool && is_set rule.backend_http_settings)

abbrev pub or_else : Option ValidationError → Option ValidationError → Option ValidationError
or_else none e = e
or_else (some d) e = some d

-- The loop over the path rules.
unfoldable pub check_rules : List PathRule → Option ValidationError
check_rules [] = none
check_rules (rule ∷ rules) = or_else (check_rule rule) (check_rules rules)

abbrev pub check_defaults : UrlPathMap → Option ValidationError
check_defaults pm =
    check_target no_defaults either_defaults (is_set pm.default_redirect_configuration)
      (is_set pm.default_backend_address_pool && is_set pm.default_backend_http_settings)

abbrev pub check_path_map : UrlPathMap → List PathRule → Option ValidationError
check_path_map pm [] = check_defaults pm
check_path_map pm (rule ∷ rules) = check_rules (rule ∷ rules)

abbrev pub stop_at :
    Run (Option ValidationError) → Option ValidationError → Run (Option ValidationError)
stop_at rest none = rest
stop_at rest (some e) = returns (some e)

-- The loop over the path maps, which stops at the first error.
unfoldable pub check_path_maps : List UrlPathMap → Run (Option ValidationError)
check_path_maps [] = returns none
check_path_maps (pm ∷ pms) =
    let rest = check_path_maps pms in
    do rules ← deref pm.path_rules; stop_at rest (check_path_map pm rules)

-- `validateURLPathMaps`
unfoldable pub validate_url_path_maps : Option (List UrlPathMap) → Run (Option ValidationError)
validate_url_path_maps none = returns none
validate_url_path_maps (some pms) = check_path_maps pms

abbrev pub has_private_ip : Option FrontendIpProperties → Bool
has_private_ip none = false
has_private_ip (some props) = is_set props.private_ip_address

abbrev pub has_public_ip : Option FrontendIpProperties → Bool
has_public_ip none = false
has_public_ip (some props) = is_set props.public_ip_address

unfoldable pub any_ip : (Option FrontendIpProperties → Bool) → List FrontendIpConfiguration → Bool
any_ip test [] = false
any_ip test (ip ∷ ips) = test ip.properties || any_ip test ips

-- `usePrivateIP, _ := strconv.ParseBool(…)`
abbrev pub parsed_or_false : Option Bool → Bool
parsed_or_false none = false
parsed_or_false (some b) = b

unfoldable pub check_ips : Text → List FrontendIpConfiguration → Option ValidationError
check_ips use_private_ip ips =
    if parsed_or_false (parse_bool_text use_private_ip) && not (any_ip has_private_ip ips)
    then some no_private_ip
    else if not (any_ip has_public_ip ips)
    then some no_public_ip
    else none

-- `validateFrontendIPConfiguration`
unfoldable pub validate_frontend_ip_configuration :
    Option (List FrontendIpConfiguration) → Text → Run (Option ValidationError)
validate_frontend_ip_configuration configs use_private_ip = do
  ips ← deref configs
  returns (check_ips use_private_ip ips)

-- `FatalValidateOnExistingConfig` of a configuration that may be nil, with its IP configurations.
unfoldable pub fatal_validate_on_existing_config :
    Option (Option (List FrontendIpConfiguration)) → Text → Run (Option ValidationError)
fatal_validate_on_existing_config none use_private_ip = returns (some empty_config)
fatal_validate_on_existing_config (some configs) use_private_ip =
    validate_frontend_ip_configuration configs use_private_ip
