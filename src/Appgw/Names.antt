-- ===== src/Appgw/Names.antt =====
-- pkg/appgw/internaltypes.go: the names of the gateway's parts, and the host names of a listener.
-- The digest of MD5, which is an array of 16 bytes, is a parameter; so are the name prefix of the
-- environment and the hash code of a listener's identifier, which is over its JSON form.
pub mod Length
pub mod HostNames
pub mod Compact
use application_gateway_kube.Common.{
  ℕ, ◌+◌, ◌-◌, ◌/◌, ◌%◌, Text, bytes, List, [], ◌∷◌, ◌++◌, length, leb, is_nil, if◌then◌else◌, zero,
  suc, Bool,
}
use application_gateway_kube.Gateway.{Ingress}

-- `s[0:k]` for a `k` within the length.
unfoldable pub take : {A : Type 0} → ℕ → List A → List A
take zero xs = []
take (suc k) [] = []
take (suc k) (x ∷ xs) = x ∷ take k xs

abbrev pub hex_digit : ℕ → ℕ
hex_digit d = if leb d 9 then d + b'0' else d + 87

-- `fmt.Sprintf("%x", digest)`
unfoldable pub hex : List ℕ → Text
hex [] = []
hex (b ∷ bs) = hex_digit (b / 16) ∷ hex_digit (b % 16) ∷ hex bs

-- `formatPropName`
unfoldable pub format_prop_name : (Text → List ℕ) → Text → Text
format_prop_name md5_sum val =
    let hash = hex (md5_sum val) in
    if leb (length val) 80 then val else take (80 - length hash - 1) val ++ (bytes "-" ++ hash)

-- `MaxAllowedHostnames` places for host names.
pub record ListenerIdentifier : Type 0 where
  pub frontend_port : ℕ
  pub host_name : Text
  pub host_names : List Text
  pub use_private_ip : Bool

module _ (md5_sum : Text → List ℕ) (ag_prefix : Text) (hash_code : ListenerIdentifier → Text) where
  -- `getResourceKey`
  unfoldable pub get_resource_key : Text → Text → Text
  get_resource_key namespace name = format_prop_name md5_sum (namespace ++ (bytes "/" ++ name))

  -- `generateProbeName`
  unfoldable pub generate_probe_name : Text → Text → Ingress → Text
  generate_probe_name service_name service_port ing = format_prop_name md5_sum (
      ag_prefix
      ++ (bytes "pb-"
          ++ (ing.namespace
              ++ (bytes "-"
                  ++ (service_name ++ (bytes "-" ++ (service_port ++ (bytes "-" ++ ing.name))))))))

  -- `generateListenerName`
  unfoldable pub generate_listener_name : ListenerIdentifier → Text
  generate_listener_name id = format_prop_name md5_sum (ag_prefix ++ (bytes "fl-" ++ hash_code id))

  -- `generateURLPathMapName`
  unfoldable pub generate_url_path_map_name : ListenerIdentifier → Text
  generate_url_path_map_name id =
      format_prop_name md5_sum (ag_prefix ++ (bytes "url-" ++ hash_code id))

  -- `generateRequestRoutingRuleName`
  unfoldable pub generate_request_routing_rule_name : ListenerIdentifier → Text
  generate_request_routing_rule_name id =
      format_prop_name md5_sum (ag_prefix ++ (bytes "rr-" ++ hash_code id))

  -- `generateSSLRedirectConfigurationName`
  unfoldable pub generate_ssl_redirect_configuration_name : ListenerIdentifier → Text
  generate_ssl_redirect_configuration_name target_listener =
      format_prop_name md5_sum
        (ag_prefix ++ (bytes "sslr-" ++ generate_listener_name target_listener))

  -- `generatePathRuleName`
  unfoldable pub generate_path_rule_name : Text → Text → Text → Text
  generate_path_rule_name namespace ing suffix =
      format_prop_name md5_sum
        (ag_prefix ++ (bytes "pr-" ++ (namespace ++ (bytes "-" ++ (ing ++ (bytes "-" ++ suffix))))))

-- The loop of `setHostNames` over the places: the first name that is not empty is the host name.
unfoldable pub set_names : Text → List Text → List Text → Text × List Text
set_names host [] names = (host, [])
set_names host (place ∷ places) [] = (host, place ∷ places)
set_names host (place ∷ places) (name ∷ names) =
    let out = set_names (if is_nil host then name else host) places names in (out.0, name ∷ out.1)

-- `setHostNames`
unfoldable pub set_host_names : ListenerIdentifier → List Text → ListenerIdentifier
set_host_names id hostnames =
    let out = set_names [] id.host_names hostnames in
    record id { host_name = out.0; host_names = out.1 }

unfoldable pub non_empty : List Text → List Text
non_empty [] = []
non_empty (name ∷ names) = let rest = non_empty names in if is_nil name then rest else name ∷ rest

-- `getHostNames`
unfoldable pub get_host_names : ListenerIdentifier → List Text
get_host_names id = non_empty id.host_names
