-- ===== src/Brownfield/Merge.antt =====
-- The `Merge…` functions of pkg/brownfield that keep one item of each name or configuration, and
-- the `Log…` functions with the names they list. A map is ranged over in the order of a `MapOrder`.
pub mod Laws
use application_gateway_kube.Common.{
  Text, List, [], ◌∷◌, Option, none, some, Bool, true, false, ◌&&◌, GoMap, text_eq, text_beq,
  text_beq_iff, Comparable, ◌≡◌, ◌↔◌, refl, arith,
}
use application_gateway_kube.Common.Order.{MapOrder}
use application_gateway_kube.Common.Uniq.{put_all, put_buckets, put_new_buckets, range_values}
use application_gateway_kube.Gateway.{
  SubResource, Protocol, http, https, BackendAddressPool, SslCertificate, BackendHttpSettings,
  Probe, RedirectConfiguration, HttpListener, UrlPathMap, RoutingRule,
}
use application_gateway_kube.Brownfield.Buckets.{garbage, get_names, get_names_or_na, LogLines}
use application_gateway_kube.Brownfield.RuleTargets.{text_or_empty}

-- `MergePools`
unfoldable pub merge_pools : MapOrder → List (List BackendAddressPool) → List BackendAddressPool
merge_pools order pools = range_values (λ p. p.name) order (put_buckets (λ p. p.name) [] pools)

-- `MergeCerts`
unfoldable pub merge_certs : MapOrder → List (List SslCertificate) → List SslCertificate
merge_certs order buckets = range_values (λ c. c.name) order (put_buckets (λ c. c.name) [] buckets)

-- `MergeHTTPSettings`
unfoldable pub merge_http_settings :
    MapOrder → List (List BackendHttpSettings) → List BackendHttpSettings
merge_http_settings order buckets =
    range_values (λ s. s.name) order (put_buckets (λ s. s.name) [] buckets)

-- `MergeProbes`
unfoldable pub merge_probes : MapOrder → List (List Probe) → List Probe
merge_probes order buckets = range_values (λ p. p.name) order (put_buckets (λ p. p.name) [] buckets)

-- `MergeRedirects`
unfoldable pub merge_redirects :
    MapOrder → List (List RedirectConfiguration) → List RedirectConfiguration
merge_redirects order buckets =
    range_values (λ r. r.name) order (put_buckets (λ r. r.name) [] buckets)

-- `uniqueListenerConfig`
pub record UniqueListenerConfig : Type 0 where
  pub host_name : Text
  pub protocol : Protocol
  pub frontend_port_id : Text
  pub frontend_ip_configuration : Text

abbrev pub protocol_beq : Protocol → Protocol → Bool
protocol_beq http http = true
protocol_beq https https = true
protocol_beq http https = false
protocol_beq https http = false

pub protocol_beq_iff : (a b : Protocol) → (protocol_beq a b ≡ true) ↔ (a ≡ b)
protocol_beq_iff http http = ground arith
protocol_beq_iff http https = ground arith
protocol_beq_iff https http = ground arith
protocol_beq_iff https https = ground arith

abbrev pub config_beq : UniqueListenerConfig → UniqueListenerConfig → Bool
config_beq a b =
    text_beq a.host_name b.host_name
    && (protocol_beq a.protocol b.protocol
        && (text_beq a.frontend_port_id b.frontend_port_id
            && text_beq a.frontend_ip_configuration b.frontend_ip_configuration))

pub config_beq_iff : (a b : UniqueListenerConfig) → (config_beq a b ≡ true) ↔ (a ≡ b)
config_beq_iff a b = ground (
  arith,
  text_beq_iff a.host_name b.host_name,
  protocol_beq_iff a.protocol b.protocol,
  text_beq_iff a.frontend_port_id b.frontend_port_id,
  text_beq_iff a.frontend_ip_configuration b.frontend_ip_configuration,
)

instance abbrev pub config_eq : Comparable UniqueListenerConfig
config_eq = record { same = config_beq; same_iff = config_beq_iff }

-- The ID of a reference, or the empty string where the reference or its ID is nil.
abbrev pub id_or_empty : Option SubResource → Text
id_or_empty none = []
id_or_empty (some ref) = text_or_empty ref.id

unfoldable pub listener_config : HttpListener → UniqueListenerConfig
listener_config listener = record {
  host_name = text_or_empty listener.host_name;
  protocol = listener.protocol;
  frontend_port_id = id_or_empty listener.frontend_port;
  frontend_ip_configuration = id_or_empty listener.frontend_ip_configuration;
}

-- `MergeListeners`
unfoldable pub merge_listeners : MapOrder → List (List HttpListener) → List HttpListener
merge_listeners order buckets =
    range_values listener_config order (put_new_buckets listener_config [] buckets)

module _ (order : MapOrder) where
  -- `LogPools`
  unfoldable pub log_pools :
      List BackendAddressPool → List BackendAddressPool → List BackendAddressPool → LogLines
  log_pools existing_blacklisted existing_non_blacklisted managed = record {
    created = get_names_or_na (λ p. p.name) managed;
    retained = get_names_or_na (λ p. p.name) existing_blacklisted;
    removed =
        get_names_or_na (λ p. p.name)
          (garbage order (λ p. p.name) existing_blacklisted existing_non_blacklisted managed);
  }

  -- `LogHTTPSettings`
  unfoldable pub log_http_settings :
      List BackendHttpSettings → List BackendHttpSettings → List BackendHttpSettings → LogLines
  log_http_settings existing_blacklisted existing_non_blacklisted managed = record {
    created = get_names (λ s. s.name) managed;
    retained = get_names (λ s. s.name) existing_blacklisted;
    removed =
        get_names (λ s. s.name)
          (garbage order (λ s. s.name) existing_blacklisted existing_non_blacklisted managed);
  }

  -- `LogProbes`
  unfoldable pub log_probes : List Probe → List Probe → List Probe → LogLines
  log_probes existing_blacklisted existing_non_blacklisted managed = record {
    created = get_names (λ p. p.name) managed;
    retained = get_names (λ p. p.name) existing_blacklisted;
    removed =
        get_names (λ p. p.name)
          (garbage order (λ p. p.name) existing_blacklisted existing_non_blacklisted managed);
  }

  -- `LogRedirects`
  unfoldable pub log_redirects :
      List RedirectConfiguration
      → List RedirectConfiguration
      → List RedirectConfiguration
      → LogLines
  log_redirects existing_blacklisted existing_non_blacklisted managed = record {
    created = get_names_or_na (λ r. r.name) managed;
    retained = get_names_or_na (λ r. r.name) existing_blacklisted;
    removed =
        get_names_or_na (λ r. r.name)
          (garbage order (λ r. r.name) existing_blacklisted existing_non_blacklisted managed);
  }

  -- `LogListeners`
  unfoldable pub log_listeners :
      List HttpListener → List HttpListener → List HttpListener → LogLines
  log_listeners existing_blacklisted existing_non_blacklisted managed = record {
    created = get_names_or_na (λ l. l.name) managed;
    retained = get_names_or_na (λ l. l.name) existing_blacklisted;
    removed =
        get_names_or_na (λ l. l.name)
          (garbage order (λ l. l.name) existing_blacklisted existing_non_blacklisted managed);
  }

  -- `LogPathMaps`
  unfoldable pub log_path_maps : List UrlPathMap → List UrlPathMap → List UrlPathMap → LogLines
  log_path_maps existing_blacklisted existing_non_blacklisted managed = record {
    created = get_names_or_na (λ p. p.name) managed;
    retained = get_names_or_na (λ p. p.name) existing_blacklisted;
    removed =
        get_names_or_na (λ p. p.name)
          (garbage order (λ p. p.name) existing_blacklisted existing_non_blacklisted managed);
  }

  -- `LogRules`
  unfoldable pub log_rules : List RoutingRule → List RoutingRule → List RoutingRule → LogLines
  log_rules existing_blacklisted existing_non_blacklisted managed = record {
    created = get_names_or_na (λ r. r.name) managed;
    retained = get_names_or_na (λ r. r.name) existing_blacklisted;
    removed =
        get_names_or_na (λ r. r.name)
          (garbage order (λ r. r.name) existing_blacklisted existing_non_blacklisted managed);
  }
