-- ===== src/Appgw/Probes/Listed.antt =====
-- pkg/appgw/health_probes.go: the probe of a backend is among the probes that are created.
use application_gateway_kube.Common.{
  Text, List, [], ◌∷◌, Option, none, some, true, text_eq, GoMap, insert, member, ◌≡◌, refl, sym, ap,
  subst, ◌∙◌, All, Bool-cases, is_nil, inl, inr,
}
use application_gateway_kube.Common.Order.{MapOrder}
use application_gateway_kube.Common.Uniq.{All-insert}
use application_gateway_kube.Common.Named.{
  IsNamed, insert-IsNamed, has_item, has_item-values, member-keeps, member-own,
}
use application_gateway_kube.Gateway.{
  Protocol, http, https, Probe, HttpIngressPath, IngressRule, Ingress,
}
use application_gateway_kube.Kubernetes.{HttpGetAction, ContainerProbe, Service}
use application_gateway_kube.Annotations.{AnnotationError, backend_path_prefix, backend_protocol}
use application_gateway_kube.Utils.Multimap.{SetLibrary}
use application_gateway_kube.K8scontext.Listing.{Caches, Subsets, get_service}
use application_gateway_kube.Appgw.Identifier.{probe_id}
use application_gateway_kube.Appgw.Frontend.{FrontendBuilder}
use application_gateway_kube.Appgw.Backends.{
  Place, place_eq, BackendIdentifier, service_key, new_backend_ids_filtered,
}
use application_gateway_kube.Appgw.Probes.{
  with_path, with_host, with_rule, with_protocol, with_container_probe, named_probe,
  get_probe_for_service_container, default_probe_name, default_probe, generate_health_probe,
  probe_of_service, ProbesMaps, add_probe, add_probes, default_probes, new_probes_map,
  created_probes,
}

of_some : {A : Type 0} {x y : A} → some x ≡ some y → x ≡ y
of_some e = cc

-- The probes have one name and one ID.
abbrev IsSame : Probe → Probe → Type 0
IsSame p q = (p.name ≡ q.name) × (p.id ≡ q.id)

with_host-IsSame : (host : Text) (p q : Probe) → IsSame p q → IsSame (with_host host p) q
with_host-IsSame host p q h = elim (Bool-cases (is_nil host)) [
  | inl empty ↦ rw empty h
  | inr given ↦ rw given h
]

with_rule-IsSame :
    (rule : Option IngressRule) (p q : Probe) → IsSame p q → IsSame (with_rule rule p) q
with_rule-IsSame none p q h = h
with_rule-IsSame (some rule) p q h = with_host-IsSame rule.host p q h

with_path-IsSame :
    (prefix : Text × Option AnnotationError) (path : Text) (p q : Probe)
    → IsSame p q
    → IsSame (with_path prefix path p) q
with_path-IsSame (prefix, none) path p q h = h
with_path-IsSame (prefix, some err) path p q h = elim (Bool-cases (is_nil path)) [
  | inl empty ↦ rw empty h
  | inr given ↦ rw given h
]

module _ (sets : SetLibrary Text) (subsets : Subsets sets) (b : FrontendBuilder) (c : Caches)
    (order : MapOrder) where
  with_protocol-IsSame :
      (protocol : Protocol) (p q : Probe)
      → IsSame p q
      → IsSame (with_protocol sets subsets b c order protocol p) q
  with_protocol-IsSame http p q h = h
  with_protocol-IsSame https p q h = h

  with_container_probe-IsSame :
      (found : Option (ContainerProbe × HttpGetAction)) (p q : Probe)
      → IsSame p q
      → IsSame (with_container_probe sets subsets b c order found p) q
  with_container_probe-IsSame none p q h = h
  with_container_probe-IsSame (some (k8s, action)) p q h = h

  abbrev HasItsId : Probe → Type 0
  HasItsId p = p.id ≡ probe_id b.agw p.name

  probe_of_service-HasItsId :
      (be : BackendIdentifier) (service : Option Service) (path : Option HttpIngressPath)
      {p : Probe}
      → probe_of_service sets subsets b c order be service path ≡ some p
      → HasItsId p
  probe_of_service-HasItsId be none path e = absurd (cc)
  probe_of_service-HasItsId be (some service) none e = absurd (cc)
  probe_of_service-HasItsId be (some service) (some path) {p} e =
      let named = named_probe sets subsets b c order be path in
      let same =
        with_container_probe-IsSame
          (get_probe_for_service_container sets subsets b c order service be) _ named
          (with_protocol-IsSame (backend_protocol be.ingress).0 _ named (
            with_path-IsSame (backend_path_prefix be.ingress) path.path _ named
              (with_rule-IsSame be.rule named named (refl, refl)))) in
      let made : _ ≡ p = of_some e in
      subst HasItsId made (same.1 ∙ ap (probe_id b.agw) (sym same.0))

  generate-HasItsId :
      (be : BackendIdentifier) {p : Probe}
      → generate_health_probe sets subsets b c order be ≡ some p
      → HasItsId p
  unfolding generate_health_probe
  generate-HasItsId be e = probe_of_service-HasItsId be (get_service c (service_key be)) be.path e

  abbrev AreProbes : GoMap Text Probe → Type 0
  AreProbes m = IsNamed (λ (p : Probe). p.name) (λ (p : Probe). p.id) (probe_id b.agw) m

  abbrev IsListed : GoMap Text Probe → Probe → Type 0
  IsListed by_name p = HasItsId p × (member p.name by_name ≡ true)

  -- The probes by backend, and the two default ones, are among those by name.
  record AreListed (m : ProbesMaps sets subsets b c order) : Type 0 where
    pub named : AreProbes m.by_name
    pub listed : All (λ (entry : Place × Probe). IsListed m.by_name entry.1) m.by_backend
    pub defaults : (protocol : Protocol) → IsListed m.by_name (default_probe b protocol)

  keep-IsListed :
      (n : Text) (p : Probe) (by_name : GoMap Text Probe) (entries : GoMap Place Probe)
      → All (λ (entry : Place × Probe). IsListed by_name entry.1) entries
      → All (λ (entry : Place × Probe). IsListed (insert n p by_name) entry.1) entries
  keep-IsListed n p by_name [] h = tt
  keep-IsListed n p by_name ((place, q) ∷ entries) h =
      ((h.0.0, member-keeps q.name n p by_name h.0.1), keep-IsListed n p by_name entries h.1)

  add_probe-AreListed :
      (be : BackendIdentifier) (o : Option Probe) (m : ProbesMaps sets subsets b c order)
      → generate_health_probe sets subsets b c order be ≡ o
      → AreListed m
      → AreListed (add_probe sets subsets b c order be o m)
  add_probe-AreListed be none m e h = record {
    named = h.named;
    listed =
        All-insert (IsListed m.by_name) be.place _ m.by_backend
          (h.defaults (backend_protocol be.ingress).0) h.listed;
    defaults = h.defaults;
  }
  add_probe-AreListed be (some p) m e h = record {
    named = insert-IsNamed _ _ _ p.name p m.by_name refl (generate-HasItsId be e) h.named;
    listed =
        All-insert (IsListed (insert p.name p m.by_name)) be.place p m.by_backend
          (generate-HasItsId be e, member-own p.name p m.by_name)
          (keep-IsListed p.name p m.by_name m.by_backend h.listed);
    defaults = λ protocol. (
      (h.defaults protocol).0,
      member-keeps (default_probe_name b protocol) p.name p m.by_name (h.defaults protocol).1,
    );
  }

  add_probes-AreListed :
      (bes : List BackendIdentifier) (m : ProbesMaps sets subsets b c order)
      → AreListed m
      → AreListed (add_probes sets subsets b c order bes m)
  unfolding add_probes
  add_probes-AreListed [] m h = h
  add_probes-AreListed (be ∷ bes) m h =
      add_probes-AreListed bes _ (add_probe-AreListed be _ m refl h)

  default_probes-AreListed : AreListed (default_probes sets subsets b c order)
  default_probes-AreListed =
      let plain =
        insert-IsNamed (λ (p : Probe). p.name) (λ (p : Probe). p.id) (probe_id b.agw)
          (default_probe_name b http) (default_probe b http) [] refl refl tt in
      record {
        named =
            insert-IsNamed _ _ _ (default_probe_name b https) (default_probe b https) _ refl refl
              plain;
        listed = tt;
        defaults = each;
      }
    where
      each :
          (protocol : Protocol)
          → IsListed (default_probes sets subsets b c order).by_name (default_probe b protocol)
      each http = (
        refl,
        member-keeps (default_probe_name b http) (default_probe_name b https)
            (default_probe b https) _
            (member-own (default_probe_name b http) (default_probe b http) []),
      )
      each https = (refl, member-own (default_probe_name b https) (default_probe b https) _)

  module _ (ings : List Ingress) where
    listed_probes : AreListed (new_probes_map sets subsets b c order ings)
    unfolding new_probes_map
    listed_probes =
        add_probes-AreListed (order.iterate BackendIdentifier (new_backend_ids_filtered ings))
          (default_probes sets subsets b c order) default_probes-AreListed

    -- The probe with the ID is created.
    abbrev pub IsCreated : Probe → Type 0
    IsCreated p =
        has_item (λ (q : Probe). q.id) (probe_id b.agw p.name)
          (created_probes sets subsets b c order ings)
        ≡ true

    created :
        (p : Probe) → IsListed (new_probes_map sets subsets b c order ings).by_name p → IsCreated p
    unfolding created_probes
    created p h =
        has_item-values (λ (q : Probe). q.name) (λ (q : Probe). q.id) (probe_id b.agw) order p.name
          (new_probes_map sets subsets b c order ings).by_name listed_probes.named h.1

    pub default_probe-IsCreated : (protocol : Protocol) → IsCreated (default_probe b protocol)
    default_probe-IsCreated protocol =
        created (default_probe b protocol) (listed_probes.defaults protocol)

    -- The probe of every backend is among those that are created.
    pub new_probes_map-AreCreated :
        All
          (λ (entry : Place × Probe). IsCreated entry.1)
          (new_probes_map sets subsets b c order ings).by_backend
    new_probes_map-AreCreated =
        each (new_probes_map sets subsets b c order ings).by_backend listed_probes.listed
      where
        each :
            (entries : GoMap Place Probe)
            → All
                (λ (entry : Place × Probe).
                  IsListed (new_probes_map sets subsets b c order ings).by_name entry.1)
                entries
            → All (λ (entry : Place × Probe). IsCreated entry.1) entries
        each [] h = tt
        each ((place, p) ∷ entries) h = (created p h.0, each entries h.1)
