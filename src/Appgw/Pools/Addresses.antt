-- ===== src/Appgw/Pools/Addresses.antt =====
-- pkg/appgw/backendaddresspools.go: which addresses a pool has.
use application_gateway_kube.Common.{
  Text, List, [], ◌∷◌, ◌++◌, Option, none, some, Bool, false, not, ◌&&◌, ◌||◌, ◌==◌, is_nil,
  text_eq, GoSet, lookup, member, ◌≡◌, refl, sym, ◌∙◌, arith, any, any-perm, Bool-cases, inl, inr,
  subst,
}
use application_gateway_kube.Common.Ranged.{any-append, has_key, has_key-iterate, member-insert_eq}
use application_gateway_kube.Common.Order.{MapOrder, Sort}
use application_gateway_kube.Gateway.{BackendAddress}
use application_gateway_kube.Kubernetes.{EndpointAddress, EndpointSubset}
use application_gateway_kube.Sorter.{by_ip_fqdn_less}
use application_gateway_kube.Appgw.Pools.{
  AddressSets, add_address, add_addresses, ip_address, fqdn_address, addresses_of,
  get_backend_address_map_keys, get_addresses_for_subset,
}

abbrev pub is_text : Text → Option Text → Bool
is_text x none = false
is_text x (some t) = t == x

-- The endpoint has the IP, or no IP and the host name.
abbrev pub names_ip : Text → EndpointAddress → Bool
names_ip x e = not (is_nil e.ip) && e.ip == x

abbrev pub names_fqdn : Text → EndpointAddress → Bool
names_fqdn x e = is_nil e.ip && (not (is_nil e.hostname) && e.hostname == x)

abbrev is_ip : Text → BackendAddress → Bool
is_ip x a = is_text x a.ip_address

abbrev is_fqdn : Text → BackendAddress → Bool
is_fqdn x a = is_text x a.fqdn

add_address-ips :
    (x : Text) (e : EndpointAddress) (st : AddressSets)
    → member x (add_address e st).ips ≡ (names_ip x e || member x st.ips)
add_address-ips x e st = elim (Bool-cases (is_nil e.ip)) [
  | inl absent ↦ elim (Bool-cases (is_nil e.hostname)) [
    | inl nameless ↦ rw (absent, nameless) refl
    | inr named ↦ rw (absent, named) refl
  ]
  | inr there ↦ rw there (member-insert_eq e.ip x tt st.ips)
]

add_address-fqdns :
    (x : Text) (e : EndpointAddress) (st : AddressSets)
    → member x (add_address e st).fqdns ≡ (names_fqdn x e || member x st.fqdns)
add_address-fqdns x e st = elim (Bool-cases (is_nil e.ip)) [
  | inl absent ↦ elim (Bool-cases (is_nil e.hostname)) [
    | inl nameless ↦ rw (absent, nameless) refl
    | inr named ↦ rw (absent, named) (member-insert_eq e.hostname x tt st.fqdns)
  ]
  | inr there ↦ rw there refl
]

add_addresses-ips :
    (x : Text) (es : List EndpointAddress) (st : AddressSets)
    → member x (add_addresses es st).ips ≡ (any (names_ip x) es || member x st.ips)
unfolding add_addresses
add_addresses-ips x [] st = refl
add_addresses-ips x (e ∷ es) st =
    rw (add_addresses-ips x es (add_address e st), add_address-ips x e st) (ground arith)

add_addresses-fqdns :
    (x : Text) (es : List EndpointAddress) (st : AddressSets)
    → member x (add_addresses es st).fqdns ≡ (any (names_fqdn x) es || member x st.fqdns)
unfolding add_addresses
add_addresses-fqdns x [] st = refl
add_addresses-fqdns x (e ∷ es) st =
    rw (add_addresses-fqdns x es (add_address e st), add_address-fqdns x e st) (ground arith)

-- The addresses of a set are those of its texts, if the test sees the text in them.
any-addresses_of :
    (test : BackendAddress → Bool) (address : Text → BackendAddress) (x : Text) (m : GoSet Text)
    → ((t : Text) → test (address t) ≡ (t == x))
    → any test (addresses_of address m) ≡ has_key x m
unfolding addresses_of
any-addresses_of test address x [] k = refl
any-addresses_of test address x ((t, u) ∷ m) k = rw (k t, any-addresses_of test address x m k) refl

no-addresses_of :
    (test : BackendAddress → Bool) (address : Text → BackendAddress) (m : GoSet Text)
    → ((t : Text) → test (address t) ≡ false)
    → any test (addresses_of address m) ≡ false
unfolding addresses_of
no-addresses_of test address [] k = refl
no-addresses_of test address ((t, u) ∷ m) k = rw (k t) (no-addresses_of test address m k)

member_none : (x : Text) (m : GoSet Text) → m ≡ [] → member x m ≡ false
unfolding lookup
member_none x m h = subst (λ (m : GoSet Text). member x m ≡ false) (sym h) refl

module _ (order : MapOrder) (s : Sort) where
  any-keys :
      (test : BackendAddress → Bool) (addresses : List BackendAddress)
      → any test (get_backend_address_map_keys order s addresses) ≡ any test addresses
  any-keys test addresses = sym (
      any-perm test (order.iterate_perm BackendAddress addresses)
      ∙ any-perm test
          (s.sort_perm BackendAddress by_ip_fqdn_less (order.iterate BackendAddress addresses)))

  -- The addresses of a pool are the IPs of the endpoints, ready or not, and the host names of those that have no
  -- IP, however the maps are ranged over.
  pub get_addresses_for_subset-any :
      (subset : EndpointSubset) (x : Text)
      → (any
            (λ (a : BackendAddress). is_text x a.ip_address)
            (get_addresses_for_subset order s subset)
          ≡ any (names_ip x) (subset.not_ready_addresses ++ subset.addresses))
        × (any (λ (a : BackendAddress). is_text x a.fqdn) (get_addresses_for_subset order s subset)
            ≡ any (names_fqdn x) (subset.not_ready_addresses ++ subset.addresses))
  unfolding get_addresses_for_subset
  get_addresses_for_subset-any subset x =
      let start : AddressSets = record { ips = []; fqdns = [] } in
      let ready = add_addresses subset.addresses start in
      let found = add_addresses subset.not_ready_addresses ready in
      let ips = order.iterate (Text × Unit {0}) found.ips in
      let fqdns = order.iterate (Text × Unit {0}) found.fqdns in
      (
        any-keys (is_ip x) (addresses_of ip_address ips ++ addresses_of fqdn_address fqdns)
            ∙ (any-append (is_ip x) (addresses_of ip_address ips) (addresses_of fqdn_address fqdns)
                ∙ rw
                    (
                      any-addresses_of (is_ip x) ip_address x ips (λ t. refl),
                      no-addresses_of (is_ip x) fqdn_address fqdns (λ t. refl),
                      has_key-iterate order x found.ips,
                      add_addresses-ips x subset.not_ready_addresses ready,
                      add_addresses-ips x subset.addresses start,
                      any-append (names_ip x) subset.not_ready_addresses subset.addresses,
                    )
                    (ground (arith, member_none x [] refl))),
        any-keys (is_fqdn x) (addresses_of ip_address ips ++ addresses_of fqdn_address fqdns)
            ∙ (any-append (is_fqdn x) (addresses_of ip_address ips)
                  (addresses_of fqdn_address fqdns)
                ∙ rw
                    (
                      any-addresses_of (is_fqdn x) fqdn_address x fqdns (λ t. refl),
                      no-addresses_of (is_fqdn x) ip_address ips (λ t. refl),
                      has_key-iterate order x found.fqdns,
                      add_addresses-fqdns x subset.not_ready_addresses ready,
                      add_addresses-fqdns x subset.addresses start,
                      any-append (names_fqdn x) subset.not_ready_addresses subset.addresses,
                    )
                    (ground (arith, member_none x [] refl))),
      )
