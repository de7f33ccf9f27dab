-- ===== src/Controller/MutateAppGateway.antt =====
-- pkg/controller/mutate_app_gateway.go and helpers.go: one update of the gateway. What the other parts
-- answer during it is a parameter. The validations before and after the build only report, so they are
-- left out. The config builder works on a copy of the gateway, of which it fills in the properties that
-- it shares with the gateway, and sets the tags. So the configuration that is sent and the one that is
-- compared with the cache differ at most in their tags. They are one configuration here, since the
-- comparison is without the tags, which are among the keys that are deleted.
pub mod Cached
use application_gateway_kube.Common.{
  ℕ, Text, bytes, List, [], ◌∷◌, Option, none, some, Bool, true, false, not, ◌&&◌, ◌||◌, ◌==◌,
  nat_eq, text_eq, is_nil, GoMap, insert, if◌then◌else◌, Run, returns, panics, ◌>>=◌, deref,
}
use application_gateway_kube.Gateway.{Ingress, FrontendPort, FrontendIpConfiguration}
use application_gateway_kube.Brownfield.Targets.{ProhibitedTarget}
use application_gateway_kube.Environment.{EnvVariables}
use application_gateway_kube.Appgw.Validators.{ValidationError, fatal_validate_on_existing_config}
use application_gateway_kube.Controller.Prune.{PruneContext, PruneFunc, prune_ingress}
use application_gateway_kube.Controller.Json.{Fields, delete_keys}

-- `keysToDeleteForCache`
abbrev pub keys_to_delete_for_cache : List Text
keys_to_delete_for_cache = bytes "etag" ∷ bytes "tags" ∷ []

-- JSON: the fields that `MarshalJSON` and `json.Unmarshal` give for a configuration, and the text
-- that `json.Marshal` makes of fields, unless they fail.
pub record JsonLibrary (Config : Type 0) : Type 0 where
  pub document : Config → Option Fields
  pub print : Fields → Option Text

-- The field `configCache` of the controller: whether the pointer is not nil, and the bytes it points to.
pub record ConfigCache : Type 0 where
  pub present : Bool
  pub content : Text

module _ {Config : Type 0} (json : JsonLibrary Config) where
  abbrev pub print_without_keys : Option Fields → Option Text
  print_without_keys none = none
  print_without_keys (some fields) = json.print (delete_keys keys_to_delete_for_cache fields)

  -- `MarshalJSON` and `deleteKeyFromJSON`
  unfoldable pub sanitized : Config → Option Text
  sanitized config = print_without_keys (json.document config)

  abbrev pub same_as : ConfigCache → Option Text → Bool
  same_as cache none = false
  same_as cache (some text) = cache.present && cache.content == text

  -- `configIsSame`
  unfoldable pub config_is_same : ConfigCache → Config → Bool
  unfolding sanitized
  config_is_same cache config = same_as cache (sanitized config)

  abbrev pub store : ConfigCache → Option Text → Run ConfigCache
  store cache none = returns (record cache { present = false })
  store cache (some text) =
      if cache.present then returns (record cache { content = text }) else panics

  -- `updateCache`: the write goes through the pointer, and an error makes the pointer nil.
  unfoldable pub update_cache : ConfigCache → Config → Run ConfigCache
  unfolding sanitized
  update_cache cache config = store cache (sanitized config)

-- The errors of an update; with `EnablePanicOnPutError` the process ends at the fourth.
pub data MutateError (BuildError : Type 0) : Type 0 where
  fetching_app_gateway_config : MutateError BuildError
  invalid_config : ValidationError → MutateError BuildError
  build_failed : BuildError → MutateError BuildError
  put_failed : Bool → MutateError BuildError

-- What the update gives to the config builder.
pub record BuildInput : Type 0 where
  pub env : EnvVariables
  pub ingresses : List Ingress
  pub prohibited_targets : List ProhibitedTarget
  pub with_istio : Bool
  pub existing_ports : GoMap ℕ FrontendPort

-- What the cluster, Azure and the environment answer during one update.
pub record Answers (Config BuildError : Type 0) : Type 0 where
  pub env : EnvVariables
  pub get_gateway : Option Config
  pub ports_of : Config → Option (List FrontendPort)
  pub ip_configurations_of : Config → Option (List FrontendIpConfiguration)
  pub ingresses : List Ingress
  pub azure_prohibited_targets : List ProhibitedTarget
  pub istio_gateways : List Text
  pub istio_virtual_services : List Text
  pub has_agic_pod : Bool
  pub build : BuildInput → Config → Option BuildError × Config
  pub update_gateway : Config → Bool

pub record Outcome (Config BuildError : Type 0) : Type 0 where
  pub error : Option (MutateError BuildError)
  pub cache : ConfigCache
  pub puts : List Config

-- The loop of `getAppGw` over the frontend ports.
unfoldable pub ports_by_number :
    List FrontendPort → GoMap ℕ FrontendPort → Run (GoMap ℕ FrontendPort)
ports_by_number [] m = returns m
ports_by_number (port ∷ ports) m = do
  number ← deref port.port
  ports_by_number ports (insert number port m)

module _ {Config BuildError : Type 0} (json : JsonLibrary Config)
    (a : Answers Config BuildError) where
  -- The brownfield and Istio features are off without resources for them.
  abbrev pub brownfield_on : Bool
  brownfield_on = a.env.enable_brownfield_deployment && not (is_nil a.azure_prohibited_targets)

  abbrev pub istio_on : Bool
  istio_on =
      a.env.enable_istio_integration
      && (not (is_nil a.istio_gateways) && not (is_nil a.istio_virtual_services))

  abbrev pub effective_env : EnvVariables
  effective_env = record a.env {
    enable_brownfield_deployment = brownfield_on;
    enable_istio_integration = istio_on;
  }

  abbrev pub effective_targets : List ProhibitedTarget
  effective_targets = if brownfield_on then a.azure_prohibited_targets else []

  abbrev pub prune_context : Config → PruneContext
  prune_context config = record {
    frontend_ip_configurations = a.ip_configurations_of config;
    enable_brownfield_deployment = brownfield_on;
    use_private_ip = a.env.use_private_ip;
    prohibited_targets = effective_targets;
    has_agic_pod = a.has_agic_pod;
  }

  abbrev pub stopped : ConfigCache → MutateError BuildError → Outcome Config BuildError
  stopped cache err = record { error = some err; cache = cache; puts = [] }

  -- After `UpdateGateway`. The receiver is a copy of the controller, so an assignment to its pointer is
  -- lost at the return, and a write through the pointer stays.
  abbrev pub after_put : ConfigCache → Config → Bool → Run (Outcome Config BuildError)
  after_put cache config false = returns (record {
    error = some (put_failed a.env.enable_panic_on_put_error);
    cache = cache;
    puts = config ∷ [];
  })
  after_put cache config true = do
    updated ← update_cache json cache config
    returns (record {
      error = none;
      cache = record cache { content = updated.content };
      puts = config ∷ [];
    })

  abbrev pub deploy : ConfigCache → Option BuildError × Config → Run (Outcome Config BuildError)
  deploy cache (some err, config) = returns (stopped cache (build_failed err))
  deploy cache (none, config) =
      let put = after_put cache config (a.update_gateway config) in
      if config_is_same json cache config
      then returns (record { error = none; cache = cache; puts = [] })
      else put

  abbrev pub validated :
      ConfigCache → Config → BuildInput → Option ValidationError → Run (Outcome Config BuildError)
  validated cache config input (some err) = returns (stopped cache (invalid_config err))
  validated cache config input none = deploy cache (a.build input config)

  abbrev pub input_of : List Ingress → GoMap ℕ FrontendPort → BuildInput
  input_of pruned existing_ports = record {
    env = effective_env;
    ingresses = pruned;
    prohibited_targets = effective_targets;
    with_istio = istio_on;
    existing_ports = existing_ports;
  }

  abbrev pub mutate_config :
      ConfigCache
      → Option (List PruneFunc)
      → Option Config
      → Run (Option (List PruneFunc) × Outcome Config BuildError)
  mutate_config cache once none = returns (once, stopped cache fetching_app_gateway_config)
  mutate_config cache once (some config) = do
    ports ← deref (a.ports_of config)
    existing_ports ← ports_by_number ports []
    (funcs, pruned, events) ← prune_ingress (prune_context config) once a.ingresses
    verdict ←
        fatal_validate_on_existing_config (some (a.ip_configurations_of config))
          a.env.use_private_ip
    out ← validated cache config (input_of pruned existing_ports) verdict
    returns (funcs, out)

  -- `MutateAppGateway`, of the cache and of the filters that the first call fixed.
  unfoldable pub mutate_app_gateway :
      ConfigCache
      → Option (List PruneFunc)
      → Run (Option (List PruneFunc) × Outcome Config BuildError)
  unfolding ports_by_number config_is_same update_cache
  mutate_app_gateway cache once = mutate_config cache once a.get_gateway
