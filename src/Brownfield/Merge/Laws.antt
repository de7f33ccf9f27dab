-- ===== src/Brownfield/Merge/Laws.antt =====
-- What merging keeps, whatever the order in which a map is ranged over.
use application_gateway_kube.Common.{Text, List, ◌≡◌, find_key, last_key, UniqueKeys, text_eq}
use application_gateway_kube.Common.Order.{MapOrder}
use application_gateway_kube.Common.Uniq.{
  concat, find_key-put_buckets, UniqueKeys-put_buckets, find_key-put_new_buckets,
  UniqueKeys-put_new_buckets,
}
use application_gateway_kube.Gateway.{
  BackendAddressPool, SslCertificate, BackendHttpSettings, Probe, RedirectConfiguration,
  HttpListener,
}
use application_gateway_kube.Brownfield.Merge.{
  merge_pools, merge_certs, merge_http_settings, merge_probes, merge_redirects, merge_listeners,
  UniqueListenerConfig, listener_config, config_eq,
}

-- A list has one item for each name of the buckets: the last one.
abbrev pub LastOfEachName : {A : Type 0} → (A → Text) → List (List A) → List A → Type 0
LastOfEachName name buckets out =
    UniqueKeys name out × ((k : Text) → find_key name k out ≡ last_key name k (concat buckets))

-- Merging pools keeps the last pool of each name, once.
pub merge_pools-LastOfEachName :
    (order : MapOrder) (buckets : List (List BackendAddressPool))
    → LastOfEachName (λ p. p.name) buckets (merge_pools order buckets)
unfolding merge_pools
merge_pools-LastOfEachName order buckets = (
  UniqueKeys-put_buckets (λ p. p.name) order buckets,
  find_key-put_buckets (λ p. p.name) order buckets,
)

-- Merging HTTP settings, probes, redirects and certificates keeps the last one of each name, once.
pub merge-LastOfEachName :
    (order : MapOrder) (settings : List (List BackendHttpSettings)) (probes : List (List Probe))
    (redirects : List (List RedirectConfiguration)) (certs : List (List SslCertificate))
    → LastOfEachName (λ s. s.name) settings (merge_http_settings order settings)
      × LastOfEachName (λ p. p.name) probes (merge_probes order probes)
      × LastOfEachName (λ r. r.name) redirects (merge_redirects order redirects)
      × LastOfEachName (λ c. c.name) certs (merge_certs order certs)
unfolding merge_http_settings merge_probes merge_redirects merge_certs
merge-LastOfEachName order settings probes redirects certs = (
  (
    UniqueKeys-put_buckets (λ s. s.name) order settings,
    find_key-put_buckets (λ s. s.name) order settings,
  ),
  (
    UniqueKeys-put_buckets (λ p. p.name) order probes,
    find_key-put_buckets (λ p. p.name) order probes,
  ),
  (
    UniqueKeys-put_buckets (λ r. r.name) order redirects,
    find_key-put_buckets (λ r. r.name) order redirects,
  ),
  (
    UniqueKeys-put_buckets (λ c. c.name) order certs,
    find_key-put_buckets (λ c. c.name) order certs,
  ),
)

-- Merging listeners keeps the first listener of each configuration, once.
pub merge_listeners_first_wins :
    (order : MapOrder) (buckets : List (List HttpListener))
    → UniqueKeys listener_config (merge_listeners order buckets)
      × ((k : UniqueListenerConfig)
          → find_key listener_config k (merge_listeners order buckets)
            ≡ find_key listener_config k (concat buckets))
unfolding merge_listeners
merge_listeners_first_wins order buckets = (
  UniqueKeys-put_new_buckets listener_config order buckets,
  find_key-put_new_buckets listener_config order buckets,
)
