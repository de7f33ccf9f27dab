-- ===== src/Environment.antt =====
-- pkg/environment/environment.go: the environment variables of the controller. The two regular
-- expressions are parameters: the test that a value matches.
pub mod Accepted
use application_gateway_kube.Common.{
  Text, bytes, List, [], Option, none, some, Bool, true, false, ◌&&◌, ◌==◌, text_eq, is_nil, not,
  ◌||◌, if◌then◌else◌, ◌≡◌, ◌↔◌, refl, arith,
}

pub record EnvVariables : Type 0 where
  pub az_context_location : Text
  pub subscription_id : Text
  pub resource_group_name : Text
  pub app_gw_name : Text
  pub app_gw_subnet_name : Text
  pub app_gw_subnet_prefix : Text
  pub app_gw_resource_id : Text
  pub app_gw_subnet_id : Text
  pub auth_location : Text
  pub watch_namespace : Text
  pub use_private_ip : Text
  pub verbosity_level : Text
  pub agic_pod_name : Text
  pub agic_pod_namespace : Text
  pub enable_brownfield_deployment : Bool
  pub enable_istio_integration : Bool
  pub enable_save_config_to_file : Bool
  pub enable_panic_on_put_error : Bool
  pub enable_deploy_app_gateway : Bool
  pub use_managed_identity_for_pod : Bool
  pub http_service_port : Text
  pub attach_waf_policy_to_listener : Bool

-- A value that is set, if it passes the validator, which may be nil; the default otherwise.
abbrev pub validated : Option Text → Text → Option (Text → Bool) → Text
validated none default_value validator = default_value
validated (some value) default_value none = value
validated (some value) default_value (some matches) = if matches value then value else default_value

abbrev or_empty : Option Text → Text
or_empty none = []
or_empty (some value) = value

-- `os.LookupEnv` is a parameter, with the two regular expressions.
module _ (lookup_env : Text → Option Text) where
  -- `GetEnvironmentVariable`
  unfoldable pub get_environment_variable : Text → Text → Option (Text → Bool) → Text
  get_environment_variable name default_value validator =
      validated (lookup_env name) default_value validator

  -- `os.Getenv`
  abbrev pub getenv : Text → Text
  getenv name = or_empty (lookup_env name)

module _ (lookup_env : Text → Option Text) (matches_port matches_bool : Text → Bool) where
  unfoldable pub flag : Text → Bool
  unfolding get_environment_variable
  flag name =
      get_environment_variable lookup_env name (bytes "false") (some matches_bool) == bytes "true"

  -- `GetEnv`
  unfoldable pub get_env : EnvVariables
  unfolding get_environment_variable flag
  get_env = record {
    az_context_location = getenv lookup_env (bytes "AZURE_CONTEXT_LOCATION");
    subscription_id = getenv lookup_env (bytes "APPGW_SUBSCRIPTION_ID");
    resource_group_name = getenv lookup_env (bytes "APPGW_RESOURCE_GROUP");
    app_gw_name = getenv lookup_env (bytes "APPGW_NAME");
    app_gw_subnet_name = getenv lookup_env (bytes "APPGW_SUBNET_NAME");
    app_gw_subnet_prefix = getenv lookup_env (bytes "APPGW_SUBNET_PREFIX");
    app_gw_resource_id = getenv lookup_env (bytes "APPGW_RESOURCE_ID");
    app_gw_subnet_id = getenv lookup_env (bytes "APPGW_SUBNET_ID");
    auth_location = getenv lookup_env (bytes "AZURE_AUTH_LOCATION");
    watch_namespace = getenv lookup_env (bytes "KUBERNETES_WATCHNAMESPACE");
    use_private_ip = getenv lookup_env (bytes "USE_PRIVATE_IP");
    verbosity_level = getenv lookup_env (bytes "APPGW_VERBOSITY_LEVEL");
    agic_pod_name = getenv lookup_env (bytes "AGIC_POD_NAME");
    agic_pod_namespace = getenv lookup_env (bytes "AGIC_POD_NAMESPACE");
    enable_brownfield_deployment = flag (bytes "APPGW_ENABLE_SHARED_APPGW");
    enable_istio_integration = flag (bytes "APPGW_ENABLE_ISTIO_INTEGRATION");
    enable_save_config_to_file = flag (bytes "APPGW_ENABLE_SAVE_CONFIG_TO_FILE");
    enable_panic_on_put_error = flag (bytes "APPGW_ENABLE_PANIC_ON_PUT_ERROR");
    enable_deploy_app_gateway = flag (bytes "APPGW_ENABLE_DEPLOY");
    use_managed_identity_for_pod = flag (bytes "USE_MANAGED_IDENTITY_FOR_POD");
    http_service_port =
        get_environment_variable lookup_env (bytes "HTTP_SERVICE_PORT") (bytes "8123")
          (some matches_port);
    attach_waf_policy_to_listener = flag (bytes "ATTACH_WAF_POLICY_TO_LISTENER");
  }

pub data EnvError : Type 0 where
  not_allowed_application_gateway_id missing_application_gateway_name missing_subnet_info : EnvError
  missing_application_gateway_name_or_id : EnvError

-- `ValidateEnv`
unfoldable pub validate_env : EnvVariables → Option EnvError
validate_env env =
    if env.enable_deploy_app_gateway
    then (if not (is_nil env.app_gw_resource_id)
        then some not_allowed_application_gateway_id
        else if is_nil env.app_gw_name
        then some missing_application_gateway_name
        else if is_nil env.app_gw_subnet_id && is_nil env.app_gw_subnet_prefix
        then some missing_subnet_info
        else none)
    else if is_nil env.app_gw_name && is_nil env.app_gw_resource_id
    then some missing_application_gateway_name_or_id
    else none
