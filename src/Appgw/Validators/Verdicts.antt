-- ===== src/Appgw/Validators/Verdicts.antt =====
-- Which configurations the validators let pass.
use application_gateway_kube.Common.{
  Text, List, [], ◌∷◌, Option, none, some, Bool, true, false, ◌&&◌, Run, returns, ◌>>=◌, deref, ◌≡◌,
  refl, ◌↔◌, ◌⊎◌, arith, All,
}
use application_gateway_kube.Gateway.{
  SubResource, PathRule, UrlPathMap, FrontendIpProperties, FrontendIpConfiguration,
}
use application_gateway_kube.Annotations.{parse_bool_text}
use application_gateway_kube.Brownfield.Targets.Blacklist.{Any}
use application_gateway_kube.Appgw.Validators.{
  ValidationError, no_defaults, either_defaults, no_backend_or_redirect, either_backend_or_redirect,
  is_set, check_target, check_rules, check_path_map, stop_at, check_path_maps,
  validate_url_path_maps, has_private_ip, has_public_ip, any_ip, check_ips,
  validate_frontend_ip_configuration, fatal_validate_on_existing_config,
}

-- Either a redirect, or a backend with its settings, and not both.
abbrev pub HasOneTarget : Option SubResource → Option SubResource → Option SubResource → Type 0
HasOneTarget redirect pool settings =
    ((is_set redirect ≡ true) × ((is_set pool && is_set settings) ≡ false))
    ⊎ ((is_set redirect ≡ false) × ((is_set pool && is_set settings) ≡ true))

abbrev pub IsValidRule : PathRule → Type 0
IsValidRule rule =
    HasOneTarget rule.redirect_configuration rule.backend_address_pool rule.backend_http_settings

-- A path map has path rules, all of them with one target, or an empty list and one default target.
abbrev pub AreValidRules : UrlPathMap → List PathRule → Type 0
AreValidRules pm [] =
    HasOneTarget pm.default_redirect_configuration pm.default_backend_address_pool
      pm.default_backend_http_settings
AreValidRules pm (rule ∷ rules) = All IsValidRule (rule ∷ rules)

abbrev pub IsValidPathMap : UrlPathMap → Type 0
IsValidPathMap pm = (rules : List PathRule) × (pm.path_rules ≡ some rules) × AreValidRules pm rules

check_target_iff :
    (neither both : ValidationError) (redirect pool settings : Option SubResource)
    → (check_target neither both (is_set redirect) (is_set pool && is_set settings) ≡ none)
      ↔ HasOneTarget redirect pool settings
unfolding check_target
check_target_iff neither both redirect pool settings = ground arith

check_rules_iff : (rules : List PathRule) → (check_rules rules ≡ none) ↔ All IsValidRule rules
unfolding check_rules
check_rules_iff [] = (λ h. tt, λ h. refl)
check_rules_iff (rule ∷ rules) =
    let here =
      check_target_iff no_backend_or_redirect either_backend_or_redirect rule.redirect_configuration
        rule.backend_address_pool rule.backend_http_settings in
    ground (arith, here, check_rules_iff rules)

check_path_map_iff :
    (pm : UrlPathMap) (rules : List PathRule)
    → (check_path_map pm rules ≡ none) ↔ AreValidRules pm rules
check_path_map_iff pm [] =
    check_target_iff no_defaults either_defaults pm.default_redirect_configuration
      pm.default_backend_address_pool pm.default_backend_http_settings
check_path_map_iff pm (rule ∷ rules) = check_rules_iff (rule ∷ rules)

stop_at_iff :
    (rest : Run (Option ValidationError)) (e : Option ValidationError)
    → (stop_at rest e ≡ returns none) ↔ ((e ≡ none) × (rest ≡ returns none))
stop_at_iff rest none = ground arith
stop_at_iff rest (some e) = ground arith

deref_iff :
    (rest : Run (Option ValidationError)) (pm : UrlPathMap) (o : Option (List PathRule))
    → ((deref o >>= λ rules. stop_at rest (check_path_map pm rules)) ≡ returns none) ↔ (
        ((rules : List PathRule) × (o ≡ some rules) × AreValidRules pm rules)
        × (rest ≡ returns none))
deref_iff rest pm none = (λ h. absurd (cc), λ h. absurd (let e = h.0.1 in cc))
deref_iff rest pm (some rules) =
    let verdict = stop_at_iff rest (check_path_map pm rules) in
    (
      λ h. ((rules, refl, (check_path_map_iff pm rules).0 (verdict.0 h).0), (verdict.0 h).1),
      λ h.
          let same : rules ≡ h.0.0 = let e = h.0.1 in cc in
          verdict.1 ((check_path_map_iff pm rules).1 (rw same h.0.2), h.1),
    )

-- The path maps pass exactly if there are none, or each has path rules that all have one target, or
-- an empty list and one default target.
pub validate_url_path_maps_iff :
    (pms : List UrlPathMap)
    → (validate_url_path_maps (some pms) ≡ returns none) ↔ All IsValidPathMap pms
unfolding validate_url_path_maps check_path_maps
validate_url_path_maps_iff [] = (λ h. tt, λ h. refl)
validate_url_path_maps_iff (pm ∷ pms) =
    let ih = validate_url_path_maps_iff pms in
    let here = deref_iff (check_path_maps pms) pm pm.path_rules in
    (λ h. ((here.0 h).0, ih.0 (here.0 h).1), λ h. here.1 (h.0, ih.1 h.1))

any_ip_iff :
    (test : Option FrontendIpProperties → Bool) (ips : List FrontendIpConfiguration)
    → (any_ip test ips ≡ true) ↔ Any (λ ip. test ip.properties ≡ true) ips
unfolding any_ip
any_ip_iff test [] = (λ h. absurd (cc), λ h. absurd h)
any_ip_iff test (ip ∷ ips) = ground (arith, any_ip_iff test ips)

-- The controller wants a private IP and the gateway has none.
abbrev pub LacksPrivateIp : Text → List FrontendIpConfiguration → Type 0
LacksPrivateIp use_private_ip ips =
    (parse_bool_text use_private_ip ≡ some true)
    × (¬ Any (λ ip. has_private_ip ip.properties ≡ true) ips)

-- An existing configuration with a list of IP configurations passes exactly if one of them has a
-- public IP and, where the environment asks for a private IP, one of them has a private IP.
pub fatal_validate_on_existing_config_iff :
    (ips : List FrontendIpConfiguration) (use_private_ip : Text)
    → (fatal_validate_on_existing_config (some (some ips)) use_private_ip ≡ returns none)
      ↔ (Any (λ ip. has_public_ip ip.properties ≡ true) ips × (¬ LacksPrivateIp use_private_ip ips))
unfolding fatal_validate_on_existing_config validate_frontend_ip_configuration check_ips
fatal_validate_on_existing_config_iff ips use_private_ip =
    ground (arith, any_ip_iff has_private_ip ips, any_ip_iff has_public_ip ips)
