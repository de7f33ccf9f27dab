-- ===== src/Azure/Client.antt =====
-- pkg/azure/client.go: the client. What the service of Azure answers is a parameter, and the calls that
-- change something there are listed in the order in which they are made.
pub mod Memo
use application_gateway_kube.Common.{
  ℕ, ◌+◌, Text, bytes, List, [], ◌∷◌, ◌++◌, Option, none, some, Bool, true, false, ◌&&◌, ◌||◌, ◌==◌,
  text_eq, is_nil, GoMap, lookup, insert, if◌then◌else◌, Run, returns, panics, ◌>>=◌, deref, ◌≡◌,
  refl, arith, lookup-insert, Option-cases, inl, inr, beq_refl, Bool-cases,
}
use application_gateway_kube.Azure.{parse_resource_id}

pub data AzError : Type 0 where
  service_error not_found_subnet : AzError

pub record Subnet : Type 0 where
  pub id : Option Text
  pub name : Option Text
  pub address_prefix : Option Text

pub record VirtualNetwork : Type 0 where
  pub id : Option Text
  pub subnets : Option (List Subnet)

-- A call that creates or changes a resource.
pub data Change : Type 0 where
  put_subnet : Text → Text → Text → Text → Change
  put_deployment : Text → Change

pub record DeploymentProperties : Type 0 where
  pub provisioning_state : Option Text

-- The result of a deployment.
pub record DeploymentExtended : Type 0 where
  pub name : Option Text
  pub properties : Option DeploymentProperties

-- The answers of the service: `none` is an error, also of the waiting for a change.
pub record AzService (Ip : Type 0) : Type 0 where
  pub get_public_ip : Text → Text → Option Ip
  pub get_vnet : Text → Text → Option VirtualNetwork
  pub create_subnet : Text → Text → Text → Text → Bool
  pub get_subnet : Text → Text → Text → Option Subnet
  -- The name of the group.
  pub get_group : Text → Option (Option Text)
  pub deploy : Text → Option DeploymentExtended

module _ {Ip : Type 0} (az : AzService Ip) where
  abbrev pub memoize : Text → Option Ip → GoMap Text Ip → Option Ip × GoMap Text Ip
  memoize id none memoized = (none, memoized)
  memoize id (some ip) memoized = (some ip, insert id ip memoized)

  abbrev pub fetch_ip : Text → Option Ip
  fetch_ip id =
      let (subscription, group, name) = parse_resource_id id in az.get_public_ip group name

  abbrev pub remembered : Text → Option Ip → GoMap Text Ip → Option Ip × GoMap Text Ip
  remembered id (some ip) memoized = (some ip, memoized)
  remembered id none memoized = memoize id (fetch_ip id) memoized

  -- `GetPublicIP`, with the memo.
  unfoldable pub get_public_ip : Text → GoMap Text Ip → Option Ip × GoMap Text Ip
  get_public_ip id memoized = remembered id (lookup id memoized) memoized

  -- The loop of `findSubnet`.
  unfoldable pub search_subnet : Text → Text → List Subnet → Run (Option Subnet)
  search_subnet name prefix [] = returns none
  search_subnet name prefix (subnet ∷ subnets) = do
    let rest = search_subnet name prefix subnets
    subnet_name ← deref subnet.name
    (if name == subnet_name
        then (if is_nil prefix then returns (some subnet) else (do
          subnet_prefix ← deref subnet.address_prefix
          (if prefix == subnet_prefix then returns (some subnet) else rest)))
        else rest)

  -- `findSubnet`
  unfoldable pub find_subnet : VirtualNetwork → Text → Text → Run (Option Subnet)
  unfolding search_subnet
  find_subnet vnet name prefix = do subnets ← deref vnet.subnets; search_subnet name prefix subnets

  abbrev pub created : Text → Text → Text → Bool → Option Subnet
  created group vnet name true = az.get_subnet group vnet name
  created group vnet name false = none

  -- `createSubnet`
  unfoldable pub create_subnet : VirtualNetwork → Text → Text → Run (Option Subnet × List Change)
  create_subnet vnet name prefix = do
    id ← deref vnet.id
    let (subscription, group, vnet_name) = parse_resource_id id
    returns (
      created group vnet_name name (az.create_subnet group vnet_name name prefix),
      put_subnet group vnet_name name prefix ∷ [],
    )

  -- The state of a deployment that is printed: none of a deployment without a name.
  abbrev pub state_of : Option DeploymentProperties → Option Text → Run (Option Text)
  state_of properties none = returns none
  state_of properties (some name) = do
    props ← deref properties
    state ← deref props.provisioning_state
    returns (some state)

  abbrev pub deployed : Text → Option DeploymentExtended → Run (Option AzError × List Change)
  deployed subnet_id none = returns (some service_error, put_deployment subnet_id ∷ [])
  deployed subnet_id (some result) = do
    state ← state_of result.properties result.name
    returns (none, put_deployment subnet_id ∷ [])

  -- The name of the group and the state of the deployment are only printed.
  abbrev pub deploy_into : Text → Option (Option Text) → Run (Option AzError × List Change)
  deploy_into subnet_id none = returns (some service_error, [])
  deploy_into subnet_id (some group_name) = do
    name ← deref group_name
    deployed subnet_id (az.deploy subnet_id)

  -- `DeployGatewayWithSubnet`
  unfoldable pub deploy_gateway_with_subnet : Text → Text → Run (Option AzError × List Change)
  deploy_gateway_with_subnet resource_group subnet_id =
      deploy_into subnet_id (az.get_group resource_group)

  abbrev pub deploy_on : Text → List Change → Option Subnet → Run (Option AzError × List Change)
  deploy_on resource_group changes none = returns (some service_error, changes)
  deploy_on resource_group changes (some subnet) = do
    id ← deref subnet.id
    out ← deploy_gateway_with_subnet resource_group id
    returns (out.0, changes ++ out.1)

  abbrev pub find_or_create :
      Text → VirtualNetwork → Text → Text → Option Subnet → Run (Option AzError × List Change)
  find_or_create resource_group vnet name prefix (some subnet) =
      deploy_on resource_group [] (some subnet)
  find_or_create resource_group vnet name prefix none =
      if is_nil prefix
      then returns (some not_found_subnet, [])
      else (do out ← create_subnet vnet name prefix; deploy_on resource_group out.1 out.0)

  abbrev pub deploy_in :
      Text → Text → Text → Option VirtualNetwork → Run (Option AzError × List Change)
  deploy_in resource_group name prefix none = returns (some service_error, [])
  deploy_in resource_group name prefix (some vnet) = do
    found ← find_subnet vnet name prefix
    find_or_create resource_group vnet name prefix found

  -- `DeployGatewayWithVnet`, of the client's own resource group and the four arguments.
  unfoldable pub deploy_gateway_with_vnet :
      Text → Text → Text → Text → Text → Run (Option AzError × List Change)
  unfolding find_subnet create_subnet deploy_gateway_with_subnet
  deploy_gateway_with_vnet own_group group vnet_name name prefix =
      deploy_in own_group name prefix (az.get_vnet group vnet_name)
