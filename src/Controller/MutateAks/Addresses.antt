-- ===== src/Controller/MutateAks/Addresses.antt =====
-- pkg/controller/mutate_aks.go: which addresses are found.
use application_gateway_kube.Common.{
  deref-some, Text, List, [], ◌∷◌, Option, none, some, true, false, ◌==◌, text_eq, text_beq_iff,
  GoMap, lookup, member, lookup-insert, returns, deref, ◌≡◌, ◌↔◌, ◌≢◌, Run, panics, ap, ◌∙◌, subst,
  arith, OnReturn, OnReturn-mono, OnReturn-at, >>=-OnReturn, Bool-cases, inl, inr, ◌⊎◌,
}
use application_gateway_kube.Gateway.{FrontendIpConfiguration}
use application_gateway_kube.Controller.MutateAks.{
  PublicIps, resolve_configuration, collect_one, note, collect_ips, get_ips_from_app_gateway,
}
use application_gateway_kube.Controller.MutateAks.Sources.{
  IsAddress, IsUnknown, Resolves, resolve_configuration-Resolves, Resolves-one,
  IsUnknown-no-IsAddress,
}

-- The address is that of the configuration that stands first among those with the ID that have an
-- address.
pub data IsSource (public_ips : PublicIps) (id ip : Text)
    : List FrontendIpConfiguration → Type 0 where
  here :
      {conf : FrontendIpConfiguration} {confs : List FrontendIpConfiguration}
      → conf.id ≡ some id
      → IsAddress public_ips conf ip
      → IsSource public_ips id ip (conf ∷ confs)
  unknown :
      {conf : FrontendIpConfiguration} {confs : List FrontendIpConfiguration}
      → conf.id ≡ some id
      → IsUnknown public_ips conf
      → IsSource public_ips id ip confs
      → IsSource public_ips id ip (conf ∷ confs)
  other :
      {conf : FrontendIpConfiguration} {confs : List FrontendIpConfiguration} (key : Text)
      → conf.id ≡ some key
      → (key == id) ≡ false
      → IsSource public_ips id ip confs
      → IsSource public_ips id ip (conf ∷ confs)

module _ (public_ips : PublicIps) where
  abbrev IsFound : Text → Text → GoMap Text Text → List FrontendIpConfiguration → Type 0
  IsFound id ip ips confs =
      (lookup id ips ≡ some ip) ⊎ ((lookup id ips ≡ none) × IsSource public_ips id ip confs)

  IsSource-head :
      (id ip : Text) (conf : FrontendIpConfiguration) (confs : List FrontendIpConfiguration)
      → IsSource public_ips id ip (conf ∷ confs)
      → ((conf.id ≡ some id) × IsAddress public_ips conf ip)
        ⊎ (((conf.id ≡ some id) × IsUnknown public_ips conf × IsSource public_ips id ip confs)
            ⊎ ((conf.id ≢ some id) × IsSource public_ips id ip confs))
  IsSource-head id ip conf confs (here own a) = inl (own, a)
  IsSource-head id ip conf confs (unknown own u r) = inr (inl (own, u, r))
  IsSource-head id ip conf confs (other key own n r) =
      inr (inr (λ e. ground (arith, text_beq_iff key id, own, e), r))

  IsSource-nil : {id ip : Text} → ¬ IsSource public_ips id ip []
  IsSource-nil s = elim s [ ]

  module _ (key id ip : Text) (conf : FrontendIpConfiguration)
      (confs : List FrontendIpConfiguration) (k : conf.id ≡ some key) where
    IsSource-address :
        (a : Text)
        → key ≡ id
        → IsAddress public_ips conf a
        → IsSource public_ips id ip (conf ∷ confs) ↔ (a ≡ ip)
    IsSource-address a same h = (
      λ s. elim (IsSource-head id ip conf confs s) [
        | inl (own, b) ↦ Resolves-one public_ips conf a ip h b
        | inr (inl (own, u, r)) ↦ absurd (IsUnknown-no-IsAddress public_ips conf a u h)
        | inr (inr (n, r)) ↦ absurd (n (k ∙ ap some same))
      ],
      λ e. here (k ∙ ap some same) (subst (IsAddress public_ips conf) e h),
    )

    IsSource-unknown :
        IsUnknown public_ips conf
        → IsSource public_ips id ip (conf ∷ confs) ↔ IsSource public_ips id ip confs
    IsSource-unknown h = (
      λ s. elim (IsSource-head id ip conf confs s) [
        | inl (own, b) ↦ absurd (IsUnknown-no-IsAddress public_ips conf ip h b)
        | inr (inl (own, u, r)) ↦ r
        | inr (inr (n, r)) ↦ r
      ],
      λ r. elim (Bool-cases (key == id)) [
        | inl same ↦ unknown (k ∙ ap some ((text_beq_iff key id).0 same)) h r
        | inr n ↦ other key k n r
      ],
    )

    IsSource-other :
        (key == id) ≡ false
        → IsSource public_ips id ip (conf ∷ confs) ↔ IsSource public_ips id ip confs
    IsSource-other n = (
      λ s. elim (IsSource-head id ip conf confs s) [
        | inl (own, b) ↦ absurd (ground (arith, text_beq_iff key id, own, k))
        | inr (inl (own, u, r)) ↦ r
        | inr (inr (m, r)) ↦ r
      ],
      other key k n,
    )

    -- The configuration at the head is accounted for.
    IsFound-known :
        (ips : GoMap Text Text)
        → member key ips ≡ true
        → IsFound id ip ips confs ↔ IsFound id ip ips (conf ∷ confs)
    IsFound-known ips h = elim (Bool-cases (key == id)) [
      | inl same ↦ ground (arith, text_beq_iff key id)
      | inr n ↦ ground (arith, IsSource-other n)
    ]

    IsFound-noted :
        (ips : GoMap Text Text) (o : Option Text)
        → member key ips ≡ false
        → Resolves public_ips conf o
        → IsFound id ip (note key o ips) confs ↔ IsFound id ip ips (conf ∷ confs)
    IsFound-noted ips none h u = ground (arith, IsSource-unknown u)
    IsFound-noted ips (some a) h r =
        rw (lookup-insert key id a ips) (elim (Bool-cases (key == id)) [
          | inl same ↦
              rw same
                (let e = (text_beq_iff key id).0 same in ground (arith, IsSource-address a e r, e))
          | inr n ↦ rw n (ground (arith, IsSource-other n))
        ])

  -- What one turn of the loop does to a configuration with an ID.
  IsFound-one :
      (key id ip : Text) (conf : FrontendIpConfiguration) (confs : List FrontendIpConfiguration)
      (ips : GoMap Text Text)
      → conf.id ≡ some key
      → OnReturn
          (λ next. IsFound id ip next confs ↔ IsFound id ip ips (conf ∷ confs))
          (collect_one public_ips conf key ips)
  IsFound-one key id ip conf confs ips k = elim (Bool-cases (member key ips)) [
    | inl h ↦ rw h (IsFound-known key id ip conf confs k ips h)
    | inr h ↦ rw h (
        >>=-OnReturn _ (resolve_configuration public_ips conf) _ λ o d.
          IsFound-noted key id ip conf confs k ips o h (
            OnReturn-at (Resolves public_ips conf) _ d
              (resolve_configuration-Resolves public_ips conf)))
  ]

  collect_ips-IsFound :
      (id ip : Text) (confs : List FrontendIpConfiguration) (ips : GoMap Text Text)
      → OnReturn
          (λ found. IsFound id ip ips confs ↔ (lookup id found ≡ some ip))
          (collect_ips public_ips confs ips)
  unfolding collect_ips
  collect_ips-IsFound id ip [] ips =
      (λ h. elim h [ inl l ↦ l | inr (n, s) ↦ absurd (IsSource-nil s) ], inl)
  collect_ips-IsFound id ip (conf ∷ confs) ips = >>=-OnReturn _ (deref conf.id) _ λ key k.
      >>=-OnReturn _ (collect_one public_ips conf key ips) _ λ next n.
        OnReturn-mono _ _ (collect_ips public_ips confs next)
          (λ found h.
            let turn =
              OnReturn-at _ _ n (IsFound-one key id ip conf confs ips (deref-some conf.id k)) in
            (λ l. h.0 (turn.1 l), λ l. turn.0 (h.1 l)))
          (collect_ips-IsFound id ip confs next)

OnReturn-each :
    {A I : Type 0} (P : I → A → Type 0) (m : Run A)
    → ((i : I) → OnReturn (P i) m)
    → OnReturn (λ a. (i : I) → P i a) m
OnReturn-each P (returns a) h = h
OnReturn-each P panics h = tt

-- Where the addresses are collected without a panic, the address of an ID is that of the first
-- configuration with this ID that has an address: its private address, or, where it has none, the address
-- that Azure has for its public IP. An ID has no other address, and it has one if there is such a
-- configuration.
pub get_ips_from_app_gateway-IsSource :
    (public_ips : PublicIps) (confs : List FrontendIpConfiguration)
    → OnReturn
        (λ found. (id ip : Text) → (lookup id found ≡ some ip) ↔ IsSource public_ips id ip confs)
        (get_ips_from_app_gateway public_ips (some confs))
unfolding get_ips_from_app_gateway lookup
get_ips_from_app_gateway-IsSource public_ips confs =
    OnReturn-each
      (λ id found. (ip : Text) → (lookup id found ≡ some ip) ↔ IsSource public_ips id ip confs)
      (collect_ips public_ips confs [])
      λ id.
        OnReturn-each (λ ip found. (lookup id found ≡ some ip) ↔ IsSource public_ips id ip confs)
          (collect_ips public_ips confs [])
          λ ip.
            OnReturn-mono _ _ (collect_ips public_ips confs []) (λ found h. ground (arith, h))
              (collect_ips-IsFound public_ips id ip confs [])
