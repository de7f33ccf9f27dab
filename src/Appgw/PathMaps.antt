-- ===== src/Appgw/PathMaps.antt =====
-- pkg/appgw/requestroutingrules.go: the path maps of the listeners, with the Istio integration off.
use application_gateway_kube.Common.{
  ℕ, ◌+◌, Text, bytes, List, [], ◌∷◌, ◌++◌, Option, none, some, Bool, true, false, ◌&&◌, ◌||◌, ◌==◌,
  not, is_nil, text_eq, GoMap, lookup, if◌then◌else◌,
}
use application_gateway_kube.Common.Order.{MapOrder}
use application_gateway_kube.Gateway.{
  Protocol, http, https, SubResource, BackendAddressPool, BackendHttpSettings,
  RedirectConfiguration, PathRule, UrlPathMap, IngressBackend, HttpIngressPath, IngressRule,
  Ingress,
}
use application_gateway_kube.Annotations.{AnnotationError, is_ssl_redirect, waf_policy}
use application_gateway_kube.K8scontext.Listing.{Caches}
use application_gateway_kube.Appgw.Identifier.{
  address_pool_id, http_settings_id, url_path_map_id, redirect_configuration_id, resource_ref,
}
use application_gateway_kube.Appgw.Names.{
  ListenerIdentifier, generate_url_path_map_name, generate_ssl_redirect_configuration_name,
  generate_path_rule_name,
}
use application_gateway_kube.Appgw.Keys.{listener_eq}
use application_gateway_kube.Appgw.Listeners.{ListenerAzConfig}
use application_gateway_kube.Appgw.Frontend.{FrontendBuilder}
use application_gateway_kube.Appgw.Backends.{Place, whole, at_path, place_eq}
use application_gateway_kube.Appgw.Settings.{Settings}

-- What was built before: the settings, the pools of the backends and the redirections; and the default IDs of
-- the context.
pub record Built : Type 0 where
  pub settings : Settings
  pub pools : GoMap Place BackendAddressPool
  pub redirects : List RedirectConfiguration
  pub default_address_pool_id : Text
  pub default_http_settings_id : Text

-- The default backend of a rule: that of the ingress, or of a path.
pub record DefaultBackend : Type 0 where
  pub place : Place
  pub rule : Option IngressRule
  pub path : Option HttpIngressPath
  pub backend : IngressBackend

abbrev pub is_default_path : HttpIngressPath → Bool
is_default_path path = is_nil path.path || (path.path == bytes "/*" || path.path == bytes "/")

-- The last path that stands for all.
unfoldable pub default_of_paths :
    ℕ → ℕ → IngressRule → ℕ → List HttpIngressPath → Option DefaultBackend → Option DefaultBackend
default_of_paths i r rule p [] found = found
default_of_paths i r rule p (path ∷ paths) found = default_of_paths i r rule (p + 1) paths (
    if is_default_path path
    then some (record {
      place = at_path i r p;
      rule = some rule;
      path = some path;
      backend = path.backend;
    })
    else found)

abbrev pub default_of_ingress : ℕ → Option IngressBackend → Option DefaultBackend
default_of_ingress i none = none
default_of_ingress i (some backend) =
    some (record { place = whole i; rule = none; path = none; backend = backend })

-- The IDs of a default pool, settings and redirection, some of which may be nil.
pub record Defaults : Type 0 where
  pub pool : Option Text
  pub settings : Option Text
  pub redirect : Option Text

unfoldable pub has_redirect : Text → List RedirectConfiguration → Bool
has_redirect id [] = false
has_redirect id (redirect ∷ redirects) = redirect.id == id || has_redirect id redirects

abbrev pub pool_and_settings :
    {A : Type 0}
    → Option BackendAddressPool
    → Option BackendHttpSettings
    → (BackendAddressPool → BackendHttpSettings → A)
    → A
    → A
pool_and_settings (some pool) (some settings) f a = f pool settings
pool_and_settings none settings f a = a
pool_and_settings (some pool) none f a = a

-- A reference that is there and is not to the default.
abbrev pub overrides : Option SubResource → Text → Bool
overrides none default_id = false
overrides (some ref) default_id = differs ref.id default_id
  where
    differs : Option Text → Text → Bool
    differs none default_id = false
    differs (some id) default_id = not (id == default_id)

abbrev pub with_default_redirect : Option SubResource → UrlPathMap → UrlPathMap
with_default_redirect none pm = pm
with_default_redirect (some redirect) pm = record pm {
  default_redirect_configuration = some redirect;
  default_backend_address_pool = none;
  default_backend_http_settings = none;
}

abbrev pub append_rules : Option (List PathRule) → Option (List PathRule) → Option (List PathRule)
append_rules existing none = existing
append_rules existing (some []) = existing
append_rules none (some (rule ∷ rules)) = some (rule ∷ rules)
append_rules (some existing) (some (rule ∷ rules)) = some (existing ++ (rule ∷ rules))

abbrev pub policy_ref : Text × Option AnnotationError → Option SubResource
policy_ref (policy, none) = some (record { id = some policy })
policy_ref (policy, some err) = none

module _ (b : FrontendBuilder) (c : Caches) (order : MapOrder) (k : Built) where
  -- The reference to the redirection of a listener, if the ingress asks for one and it was created.
  unfoldable pub redirect_of : ListenerIdentifier → ListenerAzConfig → Ingress → Option Text
  unfolding has_redirect
  redirect_of id config ing =
      let ref = redirect_configuration_id b.agw (
        generate_ssl_redirect_configuration_name b.md5_sum b.ag_prefix b.hash_code
          (record id { frontend_port = 443 })) in
      if (is_ssl_redirect ing).0 && (is_http config.protocol && has_redirect ref k.redirects)
      then some ref
      else none
    where
      is_http : Protocol → Bool
      is_http http = true
      is_http https = false

  abbrev pub backend_ids : BackendAddressPool → BackendHttpSettings → Defaults
  backend_ids pool settings = record {
    pool = some (address_pool_id b.agw pool.name);
    settings = some (http_settings_id b.agw settings.name);
    redirect = none;
  }

  abbrev pub context_ids : Defaults
  context_ids = record {
    pool = some k.default_address_pool_id;
    settings = some k.default_http_settings_id;
    redirect = none;
  }

  abbrev pub default_of_backend : Option DefaultBackend → Defaults
  default_of_backend none = context_ids
  default_of_backend (some d) =
      pool_and_settings (lookup d.place k.pools) (lookup d.place k.settings.by_backend) backend_ids
        context_ids

  abbrev pub redirect_or : Option Text → Defaults → Defaults
  redirect_or none d = d
  redirect_or (some redirect) d = record { pool = none; settings = none; redirect = some redirect }

  -- `getDefaultFromRule` of a rule with the paths.
  unfoldable pub get_default_from_rule :
      ListenerIdentifier
      → ListenerAzConfig
      → ℕ
      → Ingress
      → ℕ
      → IngressRule
      → List HttpIngressPath
      → Defaults
  unfolding redirect_of default_of_paths
  get_default_from_rule id config i ing r rule paths =
      redirect_or (redirect_of id config ing)
        (default_of_backend (default_of_paths i r rule 0 paths (default_of_ingress i ing.backend)))

  abbrev pub new_path_rule : Ingress → ℕ → HttpIngressPath → PathRule
  new_path_rule ing p path = record {
    name =
        generate_path_rule_name b.md5_sum b.ag_prefix b.hash_code ing.namespace ing.name
          (b.decimal p);
    paths = some (path.path ∷ []);
    backend_address_pool = none;
    backend_http_settings = none;
    redirect_configuration = none;
    firewall_policy = policy_ref (waf_policy ing);
  }

  abbrev pub with_backend : PathRule → BackendAddressPool → BackendHttpSettings → List PathRule
  with_backend rule pool settings =
      record rule {
        backend_address_pool = some (record { id = some pool.id });
        backend_http_settings = some (record { id = some settings.id });
      }
      ∷ []

  -- A rule with a redirection has no pool; a rule without a pool or settings is left out.
  abbrev pub path_rule : Option Text → Place → PathRule → List PathRule
  path_rule (some redirect) place rule =
      record rule { redirect_configuration = resource_ref redirect } ∷ []
  path_rule none place rule =
      pool_and_settings (lookup place k.pools) (lookup place k.settings.by_backend)
        (with_backend rule) []

  -- The loop of `getPathRules`.
  unfoldable pub get_path_rules :
      ListenerIdentifier
      → ListenerAzConfig
      → ℕ
      → Ingress
      → ℕ
      → ℕ
      → List HttpIngressPath
      → List PathRule
  unfolding redirect_of
  get_path_rules id config i ing r p [] = []
  get_path_rules id config i ing r p (path ∷ paths) =
      let rest = get_path_rules id config i ing r (p + 1) paths in
      if is_default_path path
      then rest
      else path_rule (redirect_of id config ing) (at_path i r p) (new_path_rule ing p path) ++ rest

  abbrev pub ref_of : Option Text → Option SubResource
  ref_of none = none
  ref_of (some id) = resource_ref id

  abbrev pub map_name : ListenerIdentifier → Text
  map_name id = generate_url_path_map_name b.md5_sum b.ag_prefix b.hash_code id

  abbrev pub empty_path_map : ListenerIdentifier → UrlPathMap
  empty_path_map id = record {
    name = map_name id;
    id = url_path_map_id b.agw (map_name id);
    default_backend_address_pool = none;
    default_backend_http_settings = none;
    default_redirect_configuration = none;
    default_rewrite_rule_set = none;
    path_rules = none;
  }

  abbrev pub with_defaults : Defaults → UrlPathMap → UrlPathMap
  with_defaults d pm = record pm {
    default_backend_address_pool = ref_of d.pool;
    default_backend_http_settings = ref_of d.settings;
    default_redirect_configuration = ref_of d.redirect;
  }

  -- `getPathMap`
  unfoldable pub get_path_map :
      ListenerIdentifier
      → ListenerAzConfig
      → ℕ
      → Ingress
      → ℕ
      → IngressRule
      → List HttpIngressPath
      → UrlPathMap
  unfolding get_default_from_rule get_path_rules
  get_path_map id config i ing r rule paths =
      record (with_defaults (get_default_from_rule id config i ing r rule paths)
        (empty_path_map id)) { path_rules = some (get_path_rules id config i ing r 0 paths) }

  -- `mergePathMap`
  unfoldable pub merge_path_map : UrlPathMap → UrlPathMap → UrlPathMap
  merge_path_map existing merged =
      let with_refs = record existing {
        default_backend_address_pool =
            if overrides merged.default_backend_address_pool k.default_address_pool_id
            then merged.default_backend_address_pool
            else existing.default_backend_address_pool;
        default_backend_http_settings =
            if overrides merged.default_backend_http_settings k.default_http_settings_id
            then merged.default_backend_http_settings
            else existing.default_backend_http_settings;
      } in
      record (with_default_redirect merged.default_redirect_configuration with_refs) {
        path_rules = append_rules existing.path_rules merged.path_rules;
      }
