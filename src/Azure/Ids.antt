-- ===== src/Azure/Ids.antt =====
-- pkg/azure/azure.go: reading an identifier back.
use application_gateway_kube.Common.{
  Text, bytes, List, [], ◌∷◌, ◌++◌, ◌≡◌, refl, arith, split, ◌∙◌, ap, All, has_byte, false,
  nat_beq_iff,
}
use application_gateway_kube.Common.Split.{Lacks, split-append, split_of_Lacks}
use application_gateway_kube.Azure.{parse_resource_id, of_chunks, at}
use application_gateway_kube.Appgw.Identifier.{Identifier, public_ip_id, resource_id}

chunk : (s t : Text) → Lacks b'/' s → split b'/' (s ++ b'/' ∷ t) ≡ s ∷ split b'/' t
chunk s t h = split-append b'/' s t ∙ ap (λ r. r ++ split b'/' t) (split_of_Lacks b'/' s h)

-- Parts, each followed by a slash, and a last part.
abbrev slashed : List Text → Text → Text
slashed [] name = name
slashed (part ∷ parts) name = part ++ b'/' ∷ slashed parts name

split-slashed :
    (parts : List Text) (name : Text)
    → All (Lacks b'/') parts
    → Lacks b'/' name
    → split b'/' (slashed parts name) ≡ parts ++ (name ∷ [])
split-slashed [] name h n = split_of_Lacks b'/' name n
split-slashed (part ∷ parts) name h n =
    chunk part (slashed parts name) h.0 ∙ ap (λ r. part ∷ r) (split-slashed parts name h.1 n)

-- A literal without a slash.
pub Lacks-check : (s : Text) → has_byte s b'/' ≡ false → Lacks b'/' s
unfolding has_byte
Lacks-check [] h = tt
Lacks-check (c ∷ s) h = (ground (arith, nat_beq_iff c b'/'), Lacks-check s (ground arith))

parse_slashed :
    (sub group kind name : Text)
    → Lacks b'/' sub
    → Lacks b'/' group
    → Lacks b'/' kind
    → Lacks b'/' name
    → split b'/' (
        resource_id
          (record { subscription_id = sub; resource_group = group; app_gw_name = [] })
          (bytes "Microsoft.Network")
          kind
          name)
      ≡ []
        ∷ bytes "subscriptions"
        ∷ sub
        ∷ bytes "resourceGroups"
        ∷ group
        ∷ bytes "providers"
        ∷ bytes "Microsoft.Network"
        ∷ kind
        ∷ name
        ∷ []
unfolding resource_id has_byte
parse_slashed sub group kind name s g k n =
    split-slashed
      ([]
        ∷ bytes "subscriptions"
        ∷ sub
        ∷ bytes "resourceGroups"
        ∷ group
        ∷ bytes "providers"
        ∷ bytes "Microsoft.Network"
        ∷ kind
        ∷ [])
      name
      (
        tt,
        (
          Lacks-check (bytes "subscriptions") refl,
          (
            s,
            (
              Lacks-check (bytes "resourceGroups") refl,
              (
                g,
                (
                  Lacks-check (bytes "providers") refl,
                  (Lacks-check (bytes "Microsoft.Network") refl, (k, tt)),
                ),
              ),
            ),
          ),
        ),
      )
      n

-- The identifier of a public address reads back as its subscription, its group and its name, if none
-- of the three has a slash in it.
pub parse_resource_id-public_ip_id :
    (agw : Identifier) (name : Text)
    → Lacks b'/' agw.subscription_id
    → Lacks b'/' agw.resource_group
    → Lacks b'/' name
    → parse_resource_id (public_ip_id agw name) ≡ (agw.subscription_id, agw.resource_group, name)
unfolding parse_resource_id public_ip_id of_chunks at resource_id has_byte
parse_resource_id-public_ip_id agw name s g n = ap of_chunks (
    parse_slashed agw.subscription_id agw.resource_group (bytes "publicIPAddresses") name s g
      (Lacks-check (bytes "publicIPAddresses") refl) n)
