-- ===== src/Environment/Accepted.antt =====
-- pkg/environment/environment.go: the environments that pass the validation.
use application_gateway_kube.Common.{Text, none, true, false, is_nil, ◌≡◌, ◌↔◌, ◌⊎◌, arith, text_eq}
use application_gateway_kube.Environment.{EnvVariables, validate_env}

abbrev pub IsEmpty : Text → Type 0
IsEmpty t = is_nil t ≡ true

abbrev pub IsGiven : Text → Type 0
IsGiven t = is_nil t ≡ false

-- To deploy a gateway, a name is given, no resource ID, and a subnet by its ID or its prefix;
-- otherwise a name or a resource ID is given.
pub validate_env_iff :
    (env : EnvVariables)
    → (validate_env env ≡ none) ↔ (
        ((env.enable_deploy_app_gateway ≡ true)
          × IsEmpty env.app_gw_resource_id
          × IsGiven env.app_gw_name
          × (IsGiven env.app_gw_subnet_id ⊎ IsGiven env.app_gw_subnet_prefix))
        ⊎ ((env.enable_deploy_app_gateway ≡ false)
            × (IsGiven env.app_gw_name ⊎ IsGiven env.app_gw_resource_id)))
unfolding validate_env
validate_env_iff env = ground arith
