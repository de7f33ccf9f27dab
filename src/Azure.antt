-- ===== src/Azure.antt =====
-- pkg/azure/azure.go: the identifiers of resources. The children are about the client and the waiting
-- for authorisation.
pub mod Ids
pub mod Auth
pub mod Client
use application_gateway_kube.Common.{
  ℕ, zero, suc, Text, bytes, List, [], ◌∷◌, ◌++◌, Option, none, some, Bool, true, false, not, ◌||◌,
  ◌&&◌, ◌-◌, ◌==◌, text_eq, split, length, ltb, leb, nat_beq, if◌then◌else◌, map,
}

-- `xs[i]` for an index that is in range.
unfoldable pub at : List Text → ℕ → Text
at [] i = []
at (x ∷ xs) zero = x
at (x ∷ xs) (suc i) = at xs i

unfoldable pub of_chunks : List Text → Text × Text × Text
unfolding at
of_chunks chunks =
    if ltb (length chunks) 9 then ([], [], []) else (at chunks 2, at chunks 4, at chunks 8)

-- `ParseResourceID`: the subscription, the resource group and the name.
unfoldable pub parse_resource_id : Text → Text × Text × Text
unfolding split of_chunks
parse_resource_id id = of_chunks (split b'/' id)

abbrev upper_byte : ℕ → ℕ
upper_byte c = if leb b'a' c && leb c b'z' then c - 32 else c

-- `strings.ToUpper` on ASCII.
unfoldable pub to_upper : Text → Text
to_upper = map upper_byte

pub data ClusterError : Type 0 where
  lookup_failed missing_resource_group : ClusterError

-- `ConvertToClusterResourceGroup`, of the group and of whether its lookup failed.
unfoldable pub convert_to_cluster_resource_group : Text → Text → Bool → Text × Option ClusterError
unfolding split at to_upper
convert_to_cluster_resource_group subscription_id resource_group failed =
    let chunks = split b'_' resource_group in
    if failed
    then ([], some lookup_failed)
    else if not (nat_beq (length chunks) 4) || not (to_upper (at chunks 0) == bytes "MC")
    then ([], some missing_resource_group)
    else (
      bytes "/subscriptions/"
          ++ (subscription_id
              ++ (bytes "/resourcegroups/"
                  ++ (at chunks 1
                      ++ (bytes "/providers/Microsoft.ContainerService/managedClusters/"
                          ++ at chunks 2)))),
      none,
    )
