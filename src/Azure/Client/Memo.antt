-- ===== src/Azure/Client/Memo.antt =====
-- pkg/azure/client.go: the memo of public addresses, and a service that changes between the calls.
use application_gateway_kube.Common.{
  Text, List, [], ◌∷◌, Option, none, some, true, if◌then◌else◌, ◌==◌, text_eq, text_beq_iff, All,
  GoMap, lookup, lookup-insert, ◌≡◌, refl, sym, ap, ◌∙◌, arith, Option-cases, inl, inr,
}
use application_gateway_kube.Common.Split.{Lacks}
use application_gateway_kube.Appgw.Identifier.{Identifier, public_ip_id}
use application_gateway_kube.Azure.{parse_resource_id}
use application_gateway_kube.Azure.Ids.{parse_resource_id-public_ip_id}
use application_gateway_kube.Azure.Client.{AzService, fetch_ip, memoize, remembered, get_public_ip}

-- A call of `GetPublicIP` for the address of a name, and the service as it is at this call.
pub record PublicIpCall (Ip : Type 0) : Type 0 where
  pub service : AzService Ip
  pub name : Text

abbrev pub or_else {ℓ} : {A : Type ℓ} → Option A → Option A → Option A
or_else none o = o
or_else (some a) o = some a

module _ {Ip : Type 0} (agw : Identifier) where
  -- The memo after calls that are made one after another.
  unfoldable pub memo_after : List (PublicIpCall Ip) → GoMap Text Ip → GoMap Text Ip
  memo_after [] memoized = memoized
  memo_after (call ∷ calls) memoized =
      memo_after calls (get_public_ip call.service (public_ip_id agw call.name) memoized).1

  -- What the service says of the name at the time of the call.
  abbrev pub answer : PublicIpCall Ip → Option Ip
  answer call = call.service.get_public_ip agw.resource_group call.name

  -- The first answer that is no error among those of the calls for the name.
  unfoldable pub first_answer : Text → List (PublicIpCall Ip) → Option Ip
  first_answer name [] = none
  first_answer name (call ∷ calls) =
      let rest = first_answer name calls in
      if call.name == name then or_else (answer call) rest else rest

module _ (agw : Identifier) (sub : Lacks b'/' agw.subscription_id)
    (group : Lacks b'/' agw.resource_group) where
  fetch_ip-public_ip_id :
      {Ip : Type 0} (az : AzService Ip) (name : Text)
      → Lacks b'/' name
      → fetch_ip az (public_ip_id agw name) ≡ az.get_public_ip agw.resource_group name
  fetch_ip-public_ip_id az name n =
      ap (λ (parts : Text × Text × Text). az.get_public_ip parts.1 parts.2)
        (parse_resource_id-public_ip_id agw name sub group n)

  -- Names that have the same identifier are the same.
  public_ip_id_same :
      (call name : Text)
      → Lacks b'/' call
      → Lacks b'/' name
      → (public_ip_id agw call == public_ip_id agw name) ≡ (call == name)
  public_ip_id_same call name c n =
      let back : (public_ip_id agw call ≡ public_ip_id agw name) → call ≡ name = λ e.
        ap (λ (parts : Text × Text × Text). parts.2)
          (sym (parse_resource_id-public_ip_id agw call sub group c)
            ∙ ap parse_resource_id e
            ∙ parse_resource_id-public_ip_id agw name sub group n) in
      let there : call ≡ name → public_ip_id agw call ≡ public_ip_id agw name =
        ap (public_ip_id agw) in
      ground (
        arith,
        text_beq_iff call name,
        text_beq_iff (public_ip_id agw call) (public_ip_id agw name),
        back,
        there,
      )

module _ {Ip : Type 0} (az : AzService Ip) (id other : Text) where
  lookup-same :
      (memoized : GoMap Text Ip) → (id == other) ≡ true → lookup id memoized ≡ lookup other memoized
  lookup-same memoized e = ap (λ i. lookup i memoized) ((text_beq_iff id other).0 e)

  lookup-memoize :
      (o : Option Ip) (memoized : GoMap Text Ip)
      → lookup id memoized ≡ none
      → lookup other (memoize az id o memoized).1
        ≡ or_else (lookup other memoized) (if id == other then o else none)
  lookup-memoize none memoized e = ground (arith)
  lookup-memoize (some ip) memoized e =
      rw (lookup-insert id other ip memoized) (ground (arith, lookup-same memoized, e))

  lookup-remembered :
      (o : Option Ip) (memoized : GoMap Text Ip)
      → lookup id memoized ≡ o
      → lookup other (remembered az id o memoized).1
        ≡ or_else (lookup other memoized) (if id == other then fetch_ip az id else none)
  lookup-remembered none memoized e = lookup-memoize (fetch_ip az id) memoized e
  lookup-remembered (some ip) memoized e = ground (arith, lookup-same memoized, e)

  lookup-get_public_ip :
      (memoized : GoMap Text Ip)
      → lookup other (get_public_ip az id memoized).1
        ≡ or_else (lookup other memoized) (if id == other then fetch_ip az id else none)
  unfolding get_public_ip
  lookup-get_public_ip memoized = lookup-remembered (lookup id memoized) memoized refl

module _ {Ip : Type 0} (agw : Identifier) (sub : Lacks b'/' agw.subscription_id)
    (group : Lacks b'/' agw.resource_group) (name : Text) (n : Lacks b'/' name) where
  lookup-memo_after :
      (calls : List (PublicIpCall Ip)) (memoized : GoMap Text Ip)
      → All (λ (call : PublicIpCall Ip). Lacks b'/' call.name) calls
      → lookup (public_ip_id agw name) (memo_after agw calls memoized)
        ≡ or_else (lookup (public_ip_id agw name) memoized) (first_answer agw name calls)
  unfolding memo_after first_answer
  lookup-memo_after [] memoized slashes = ground (arith)
  lookup-memo_after (call ∷ calls) memoized (c, slashes) =
      lookup-memo_after calls _ slashes
      ∙ rw
          (
            lookup-get_public_ip call.service (public_ip_id agw call.name) (public_ip_id agw name)
                memoized,
            public_ip_id_same agw sub group call.name name c n,
            fetch_ip-public_ip_id agw sub group call.service call.name c,
          )
          (ground (arith))

  remembered-or_else :
      (az : AzService Ip) (id : Text) (o : Option Ip) (memoized : GoMap Text Ip)
      → (remembered az id o memoized).0 ≡ or_else o (fetch_ip az id)
  remembered-or_else az id (some ip) memoized = refl
  remembered-or_else az id none memoized = elim (Option-cases (fetch_ip az id)) [
    | inl failed ↦ rw failed refl
    | inr (ip, got) ↦ rw got refl
  ]

  -- The names, the subscription and the resource group have no slash, and the memo is empty at first.
  -- After any calls, at each of which the service may answer differently, `GetPublicIP` of the identifier
  -- of a name answers what the service said, for the resource group and the name, at the first of the
  -- earlier calls for the name at which that was no error, and, where there was none, what it says now.
  -- So an answer may be out of date.
  pub get_public_ip-first_answer :
      (calls : List (PublicIpCall Ip))
      → All (λ (call : PublicIpCall Ip). Lacks b'/' call.name) calls
      → (az : AzService Ip)
      → (get_public_ip az (public_ip_id agw name) (memo_after agw calls [])).0
        ≡ or_else (first_answer agw name calls) (az.get_public_ip agw.resource_group name)
  unfolding get_public_ip first_answer lookup
  get_public_ip-first_answer calls slashes az =
      remembered-or_else az (public_ip_id agw name) _ _
      ∙ rw (lookup-memo_after calls [] slashes, fetch_ip-public_ip_id agw sub group az name n) refl
