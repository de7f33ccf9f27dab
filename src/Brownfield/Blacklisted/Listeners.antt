-- ===== src/Brownfield/Blacklisted/Listeners.antt =====
-- The listeners that the gateway keeps for a prohibited target.
use application_gateway_kube.Common.{
  Text, List, [], ◌∷◌, Option, none, some, true, false, ◌≡◌, refl, ◌↔◌, ◌⊎◌, inl, inr, member,
  member-insert, lookup, text_eq, returns, is_nil, Bool-cases,
}
use application_gateway_kube.Gateway.{HttpListener, RoutingRule}
use application_gateway_kube.Brownfield.Targets.{ProhibitedTarget}
use application_gateway_kube.Brownfield.Targets.Blacklist.{Any}
use application_gateway_kube.Brownfield.Existing.{
  ExistingResources, NameSet, add_name, prohibited_hostnames_from, get_prohibited_hostnames,
}
use application_gateway_kube.Brownfield.Buckets.{add_reference, split_by_name}
use application_gateway_kube.Brownfield.Blacklisted.{
  get_blacklisted_routing_rules, get_blacklisted_listeners_set, get_blacklisted_listeners,
  add_references, add_listeners_by_host, host_is_in,
}
use application_gateway_kube.Brownfield.Blacklisted.References.{
  Refers, member-add_reference, member-add_references, SplitsBy, split_by_name-SplitsBy,
}

-- A prohibited target spells the host, which is not empty.
abbrev pub SpellsHost : List ProhibitedTarget → Text → Type 0
SpellsHost pts host = Any (λ pt. (is_nil pt.hostname ≡ false) × (pt.hostname ≡ host)) pts

member-prohibited_hostnames_from :
    (host : Text) (set : NameSet) (pts : List ProhibitedTarget)
    → (member host (prohibited_hostnames_from set pts) ≡ true)
      ↔ (SpellsHost pts host ⊎ (member host set ≡ true))
unfolding prohibited_hostnames_from
member-prohibited_hostnames_from host set [] = (inr, λ h. elim h [ inl n ↦ absurd n | inr m ↦ m ])
member-prohibited_hostnames_from host set (pt ∷ pts) = elim (Bool-cases (is_nil pt.hostname)) [
  | inl blank ↦ rw blank (
      let ih = member-prohibited_hostnames_from host set pts in
      (
        λ m. elim (ih.0 m) [ inl a ↦ inl (inr a) | inr o ↦ inr o ],
        λ h. elim h [
          | inl (inl p) ↦ absurd (let e = p.0 in cc)
          | inl (inr a) ↦ ih.1 (inl a)
          | inr o ↦ ih.1 (inr o)
        ],
      ))
  | inr spelt ↦ rw spelt (
      let ih = member-prohibited_hostnames_from host (add_name pt.hostname set) pts in
      let added = member-insert pt.hostname host tt set in
      (
        λ m. elim (ih.0 m) [
          | inl a ↦ inl (inr a)
          | inr o ↦ elim (added.0 o) [ inl e ↦ inl (inl (refl, e)) | inr p ↦ inr p ]
        ],
        λ h. elim h [
          | inl (inl p) ↦ ih.1 (inr (added.1 (inl p.1)))
          | inl (inr a) ↦ ih.1 (inl a)
          | inr o ↦ ih.1 (inr (added.1 (inr o)))
        ],
      ))
]

module _ (hosts : NameSet) where
  -- A listener of that name whose host is in the set.
  abbrev pub ByHost : Text → HttpListener → Type 0
  ByHost name l = (host_is_in hosts l.host_name ≡ true) × (l.name ≡ name)

  member-add_listeners_by_host :
      (ls : List HttpListener) (name : Text) (set : NameSet)
      → (member name (add_listeners_by_host hosts ls set) ≡ true)
        ↔ (Any (ByHost name) ls ⊎ (member name set ≡ true))
  unfolding add_listeners_by_host
  member-add_listeners_by_host [] name set = (inr, λ h. elim h [ inl n ↦ absurd n | inr m ↦ m ])
  member-add_listeners_by_host (l ∷ ls) name set =
      elim (Bool-cases (host_is_in hosts l.host_name)) [
        | inl y ↦ rw y (
            let ih = member-add_listeners_by_host ls name (add_name l.name set) in
            let added = member-insert l.name name tt set in
            (
              λ m. elim (ih.0 m) [
                | inl a ↦ inl (inr a)
                | inr o ↦ elim (added.0 o) [ inl e ↦ inl (inl (refl, e)) | inr p ↦ inr p ]
              ],
              λ h. elim h [
                | inl (inl p) ↦ ih.1 (inr (added.1 (inl p.1)))
                | inl (inr a) ↦ ih.1 (inl a)
                | inr o ↦ ih.1 (inr (added.1 (inr o)))
              ],
            ))
        | inr n ↦ rw n (
            let ih = member-add_listeners_by_host ls name set in
            (
              λ m. elim (ih.0 m) [ inl a ↦ inl (inr a) | inr o ↦ inr o ],
              λ h. elim h [
                | inl (inl p) ↦ absurd (let e = p.0 in cc)
                | inl (inr a) ↦ ih.1 (inl a)
                | inr o ↦ ih.1 (inr o)
              ],
            ))
      ]

-- The host of a listener is spelt by a prohibited target.
abbrev pub HostIsProhibited : List ProhibitedTarget → Option Text → Type 0
HostIsProhibited pts none = ⊥
HostIsProhibited pts (some host) = SpellsHost pts host

host_is_in_iff :
    (er : ExistingResources) (o : Option Text)
    → (host_is_in (get_prohibited_hostnames er) o ≡ true) ↔ HostIsProhibited er.prohibited_targets o
unfolding get_prohibited_hostnames
host_is_in_iff er none = (λ h. absurd (cc), λ h. absurd h)
host_is_in_iff er (some host) =
    let law = member-prohibited_hostnames_from host [] er.prohibited_targets in
    (λ m. elim (law.0 m) [ inl a ↦ a | inr n ↦ absurd (unfold lookup in cc) ], λ h. law.1 (inl h))

-- A listener of that name has a prohibited host, or a blacklisted rule refers to the name.
abbrev pub ListenerInUse : ExistingResources → List RoutingRule → Text → Type 0
ListenerInUse er rules name =
    Any (λ rule. Refers rule.http_listener name) rules
    ⊎ Any (λ l. HostIsProhibited er.prohibited_targets l.host_name × (l.name ≡ name)) er.listeners

Any-iff :
    {A : Type 0} (P Q : A → Type 0) (xs : List A) → ((a : A) → P a ↔ Q a) → Any P xs ↔ Any Q xs
Any-iff P Q [] h = (λ n. n, λ n. n)
Any-iff P Q (x ∷ xs) h =
    let ih = Any-iff P Q xs h in
    (
      λ a. elim a [ inl p ↦ inl ((h x).0 p) | inr r ↦ inr (ih.0 r) ],
      λ a. elim a [ inl q ↦ inl ((h x).1 q) | inr r ↦ inr (ih.1 r) ],
    )

listeners_set : ExistingResources → List RoutingRule → NameSet
listeners_set er rules =
    add_references (λ rule. add_reference rule.http_listener) rules
      (add_listeners_by_host (get_prohibited_hostnames er) er.listeners [])

member-listeners_set :
    (er : ExistingResources) (rules : List RoutingRule) (name : Text)
    → (member name (listeners_set er rules) ≡ true) ↔ ListenerInUse er rules name
unfolding listeners_set
member-listeners_set er rules name =
    let hosts = get_prohibited_hostnames er in
    let of_rules =
      member-add_references (λ (rule : RoutingRule). add_reference rule.http_listener)
        (λ rule. Refers rule.http_listener) (λ rule. member-add_reference rule.http_listener) rules
        name (add_listeners_by_host hosts er.listeners []) in
    let of_hosts = member-add_listeners_by_host hosts er.listeners name [] in
    let same =
      Any-iff (ByHost hosts name)
        (λ l. HostIsProhibited er.prohibited_targets l.host_name × (l.name ≡ name)) er.listeners
        (λ l.
          let law = host_is_in_iff er l.host_name in
          (λ p. (law.0 p.0, p.1), λ p. (law.1 p.0, p.1))) in
    (
      λ m. elim (of_rules.0 m) [
        | inl a ↦ inl a
        | inr r ↦ elim (of_hosts.0 r) [
          | inl b ↦ inr (same.0 b)
          | inr n ↦ absurd (unfold lookup in cc)
        ]
      ],
      λ h. elim h [
        | inl a ↦ of_rules.1 (inl a)
        | inr b ↦ of_rules.1 (inr (of_hosts.1 (inl (same.1 b))))
      ],
    )

-- Where the rules can be split, so can the listeners, and a listener is blacklisted exactly if a
-- blacklisted rule refers to its name, or a prohibited target spells, in the same case, the host of
-- a listener of its name.
pub get_blacklisted_listeners_iff :
    (er : ExistingResources) (rules : List RoutingRule × List RoutingRule)
    → get_blacklisted_routing_rules er ≡ returns rules
    → (listeners : List HttpListener × List HttpListener) × (get_blacklisted_listeners er
        ≡ returns listeners)
      × SplitsBy (λ l. l.name) (ListenerInUse er rules.0) er.listeners listeners
unfolding get_blacklisted_listeners get_blacklisted_listeners_set listeners_set
get_blacklisted_listeners_iff er rules hr = (
  split_by_name (λ l. l.name) (listeners_set er rules.0) er.listeners,
  rw hr refl,
  split_by_name-SplitsBy (λ l. l.name) (ListenerInUse er rules.0) (listeners_set er rules.0)
      er.listeners (member-listeners_set er rules.0),
)
