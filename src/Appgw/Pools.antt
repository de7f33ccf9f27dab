-- ===== src/Appgw/Pools.antt =====
-- pkg/appgw/backendaddresspools.go: the pools of the backends, with the Istio integration off.
pub mod Listed
pub mod Addresses
use application_gateway_kube.Common.{
  ℕ, Text, bytes, List, [], ◌∷◌, ◌++◌, Option, none, some, Bool, true, false, ◌==◌, is_nil, nat_eq,
  text_eq, GoMap, GoSet, lookup, insert, member, values, if◌then◌else◌,
}
use application_gateway_kube.Common.Order.{MapOrder, Sort}
use application_gateway_kube.Gateway.{BackendAddress, BackendAddressPool}
use application_gateway_kube.Kubernetes.{EndpointAddress, EndpointPort, EndpointSubset, Endpoints}
use application_gateway_kube.Sorter.{by_ip_fqdn_less}
use application_gateway_kube.K8scontext.Listing.{Caches, EndpointsError, get_endpoints_by_service}
use application_gateway_kube.Appgw.Identifier.{address_pool_id}
use application_gateway_kube.Appgw.Names.{format_prop_name}
use application_gateway_kube.Appgw.Frontend.{FrontendBuilder}
use application_gateway_kube.Appgw.Backends.{
  Place, place_eq, BackendIdentifier, PortPair, service_key, service_full_name, string_of,
}

-- The sets of IPs and of host names of the addresses; an IP comes first.
pub record AddressSets : Type 0 where
  pub ips : GoSet Text
  pub fqdns : GoSet Text

abbrev pub add_address : EndpointAddress → AddressSets → AddressSets
add_address a s =
    if is_nil a.ip
    then (if is_nil a.hostname then s else record s { fqdns = insert a.hostname tt s.fqdns })
    else record s { ips = insert a.ip tt s.ips }

unfoldable pub add_addresses : List EndpointAddress → AddressSets → AddressSets
add_addresses [] s = s
add_addresses (a ∷ addresses) s = add_addresses addresses (add_address a s)

abbrev pub ip_address : Text → BackendAddress
ip_address ip = record { fqdn = none; ip_address = some ip }

abbrev pub fqdn_address : Text → BackendAddress
fqdn_address fqdn = record { fqdn = some fqdn; ip_address = none }

unfoldable pub addresses_of : (Text → BackendAddress) → GoSet Text → List BackendAddress
addresses_of address [] = []
addresses_of address ((text, u) ∷ texts) = address text ∷ addresses_of address texts

-- The loop of `getUniqueTCPPorts`.
unfoldable pub get_unique_tcp_ports : List EndpointPort → GoSet ℕ → GoSet ℕ
get_unique_tcp_ports [] m = m
get_unique_tcp_ports (port ∷ ports) m =
    get_unique_tcp_ports ports (if port.protocol == bytes "TCP" then insert port.port tt m else m)

module _ (order : MapOrder) (s : Sort) where
  -- `getBackendAddressMapKeys` of the set that `getAddressesForSubset` fills; its keys hold pointers, so that
  -- no two are equal.
  abbrev pub get_backend_address_map_keys : List BackendAddress → List BackendAddress
  get_backend_address_map_keys addresses =
      s.sort BackendAddress by_ip_fqdn_less (order.iterate BackendAddress addresses)

  -- `getAddressesForSubset`
  unfoldable pub get_addresses_for_subset : EndpointSubset → List BackendAddress
  unfolding add_addresses addresses_of
  get_addresses_for_subset subset =
      let found =
        add_addresses subset.not_ready_addresses
          (add_addresses subset.addresses (record { ips = []; fqdns = [] })) in
      get_backend_address_map_keys (
        addresses_of ip_address (order.iterate (Text × Unit {0}) found.ips)
        ++ addresses_of fqdn_address (order.iterate (Text × Unit {0}) found.fqdns))

  module _ (b : FrontendBuilder) (c : Caches) where
    -- `generateAddressPoolName`
    unfoldable pub generate_address_pool_name : Text → Text → ℕ → Text
    generate_address_pool_name service_name service_port backend_port = format_prop_name b.md5_sum (
        b.ag_prefix
        ++ (bytes "pool-"
            ++ (service_name
                ++ (bytes "-" ++ (service_port ++ (bytes "-bp-" ++ b.decimal backend_port))))))

    -- `DefaultBackendAddressPoolName`
    abbrev pub default_backend_address_pool_name : Text
    default_backend_address_pool_name = b.ag_prefix ++ bytes "defaultaddresspool"

    -- `defaultBackendAddressPool`
    abbrev pub default_backend_address_pool : BackendAddressPool
    default_backend_address_pool = record {
      name = default_backend_address_pool_name;
      id = address_pool_id b.agw default_backend_address_pool_name;
      backend_addresses = [];
    }

    -- `newPool`
    abbrev pub new_pool : Text → EndpointSubset → BackendAddressPool
    new_pool name subset = record {
      name = name;
      id = address_pool_id b.agw name;
      backend_addresses = get_addresses_for_subset subset;
    }

    abbrev pub pool_or_new : Text → EndpointSubset → Option BackendAddressPool → BackendAddressPool
    pool_or_new name subset none = new_pool name subset
    pool_or_new name subset (some pool) = pool

    abbrev pub pool_name : BackendIdentifier → PortPair → Text
    pool_name be pair =
        generate_address_pool_name (service_full_name be)
          (string_of b c order be.backend.service_port) pair.backend_port

    -- The loop over the subsets: the first that has the port.
    unfoldable pub pool_of_subsets :
        Text → ℕ → List EndpointSubset → GoMap Text BackendAddressPool → Option BackendAddressPool
    unfolding get_unique_tcp_ports
    pool_of_subsets name port [] pools = none
    pool_of_subsets name port (subset ∷ subsets) pools =
        let rest = pool_of_subsets name port subsets pools in
        if member port (get_unique_tcp_ports subset.ports [])
        then some (pool_or_new name subset (lookup name pools))
        else rest

    abbrev pub pool_of_endpoints :
        Text
        → ℕ
        → Option EndpointsError × Option Endpoints
        → GoMap Text BackendAddressPool
        → Option BackendAddressPool
    pool_of_endpoints name port (some err, endpoints) pools = none
    pool_of_endpoints name port (none, none) pools = none
    pool_of_endpoints name port (none, some endpoints) pools =
        pool_of_subsets name port endpoints.subsets pools

    -- `getBackendAddressPool`; without an error there are endpoints.
    unfoldable pub get_backend_address_pool :
        BackendIdentifier → PortPair → GoMap Text BackendAddressPool → Option BackendAddressPool
    unfolding generate_address_pool_name pool_of_subsets
    get_backend_address_pool be pair pools =
        pool_of_endpoints (pool_name be pair) pair.backend_port
          (get_endpoints_by_service c (service_key be)) pools

    abbrev pub add_pool :
        Option BackendAddressPool → GoMap Text BackendAddressPool → GoMap Text BackendAddressPool
    add_pool none m = m
    add_pool (some pool) m = insert pool.name pool m

    -- The loop of `getPools`.
    unfoldable pub add_pools :
        List (BackendIdentifier × PortPair)
        → GoMap Text BackendAddressPool
        → GoMap Text BackendAddressPool
    add_pools [] m = m
    add_pools ((be, pair) ∷ pairs) m =
        add_pools pairs (add_pool (get_backend_address_pool be pair m) m)

    abbrev pub default_pools : GoMap Text BackendAddressPool
    default_pools = (default_backend_address_pool_name, default_backend_address_pool) ∷ []

    -- The pools that `getPools` creates.
    unfoldable pub created_pools : List (BackendIdentifier × PortPair) → List BackendAddressPool
    unfolding add_pools
    created_pools pairs = values (
        order.iterate (Text × BackendAddressPool)
          (add_pools (order.iterate (BackendIdentifier × PortPair) pairs) default_pools))

    abbrev pub pool_or_default : Option BackendAddressPool → BackendAddressPool
    pool_or_default none = default_backend_address_pool
    pool_or_default (some pool) = pool

    unfoldable pub pools_by_backend :
        List (BackendIdentifier × PortPair)
        → GoMap Place BackendAddressPool
        → GoMap Place BackendAddressPool
    pools_by_backend [] m = m
    pools_by_backend ((be, pair) ∷ pairs) m =
        pools_by_backend pairs
          (insert be.place (pool_or_default (get_backend_address_pool be pair default_pools)) m)

    -- `newBackendPoolMap`
    unfoldable pub new_backend_pool_map :
        List (BackendIdentifier × PortPair) → GoMap Place BackendAddressPool
    unfolding pools_by_backend
    new_backend_pool_map pairs =
        pools_by_backend (order.iterate (BackendIdentifier × PortPair) pairs) []
