-- ===== src/Appgw/Settings/Probed.antt =====
-- pkg/appgw/backendhttpsettings.go: the settings refer to probes that are created.
use application_gateway_kube.Common.{
  ℕ, Text, List, [], ◌∷◌, Option, none, some, Bool, true, false, text_eq, GoMap, lookup, values,
  leb, length, ◌≡◌, refl, ap, ◌∙◌, subst, All, All-perm, ◌⊎◌, Option-cases, Bool-cases, inl, inr,
}
use application_gateway_kube.Common.Order.{MapOrder}
use application_gateway_kube.Common.Uniq.{All-insert, All-lookup_value}
use application_gateway_kube.Common.Named.{has_item}
use application_gateway_kube.Gateway.{Protocol, http, https, Probe, BackendHttpSettings, Ingress}
use application_gateway_kube.Annotations.{
  AnnotationError, backend_path_prefix, backend_protocol, is_connection_draining,
  is_cookie_based_affinity, request_timeout,
}
use application_gateway_kube.Utils.Multimap.{SetLibrary}
use application_gateway_kube.K8scontext.Listing.{Caches, Subsets}
use application_gateway_kube.Appgw.Identifier.{probe_id, resource_ref}
use application_gateway_kube.Appgw.Frontend.{FrontendBuilder}
use application_gateway_kube.Appgw.Backends.{place_eq, BackendIdentifier}
use application_gateway_kube.Appgw.Probes.{default_probe, created_probes, new_probes_map}
use application_gateway_kube.Appgw.Probes.Listed.{
  IsCreated, default_probe-IsCreated, new_probes_map-AreCreated,
}
use application_gateway_kube.Appgw.Settings.{
  PairsByBackend, Settings, SettingsMaps, on_success, on_true, with_prefix, with_draining,
  with_affinity, with_timeout, with_protocol, annotated, unique_pair, bind_backends,
  generate_http_settings, start_maps, resolved_pairs, settings_from, settings_of,
  get_backends_and_settings_map, ref_of_probe,
}

on_success-probe :
    {A : Type 0} (f : A → BackendHttpSettings → BackendHttpSettings)
    (read : A × Option AnnotationError) (t : BackendHttpSettings)
    → ((a : A) (u : BackendHttpSettings) → (f a u).probe ≡ u.probe)
    → (on_success f read t).probe ≡ t.probe
on_success-probe f (a, none) t k = k a t
on_success-probe f (a, some err) t k = refl

on_true-probe :
    (f : BackendHttpSettings → BackendHttpSettings)
    → ((u : BackendHttpSettings) → (f u).probe ≡ u.probe)
    → (flag : Bool) (u : BackendHttpSettings) → (on_true f flag u).probe ≡ u.probe
on_true-probe f k true u = k u
on_true-probe f k false u = refl

with_protocol-probe :
    (protocol : Protocol) (u : BackendHttpSettings) → (with_protocol protocol u).probe ≡ u.probe
with_protocol-probe http u = refl
with_protocol-probe https u = refl

annotated-probe : (ing : Ingress) (s : BackendHttpSettings) → (annotated ing s).probe ≡ s.probe
unfolding annotated
annotated-probe ing s =
    on_success-probe with_protocol (backend_protocol ing) _ with_protocol-probe
    ∙ (on_success-probe with_timeout (request_timeout ing) _ (λ a u. refl)
        ∙ (on_success-probe (on_true with_affinity) (is_cookie_based_affinity ing) _
              (on_true-probe with_affinity (λ u. refl))
            ∙ (on_success-probe (on_true (with_draining ing)) (is_connection_draining ing) _
                  (on_true-probe (with_draining ing) (λ u. refl))
                ∙ on_success-probe with_prefix (backend_path_prefix ing) s (λ a u. refl))))

values-All :
    {K V : Type 0} (P : V → Type 0) (m : GoMap K V)
    → All (λ (entry : K × V). P entry.1) m
    → All P (values m)
values-All P [] h = tt
values-All P ((k, v) ∷ m) h = (h.0, values-All P m h.1)

-- What holds of the settings of every backend holds of all settings by name, if it holds at the start.
bind_backends-All :
    (P : BackendHttpSettings → Type 0) (generate : BackendIdentifier → ℕ → BackendHttpSettings)
    → ((be : BackendIdentifier) (port : ℕ) → P (generate be port))
    → (pairs : PairsByBackend) (m : SettingsMaps) {out : SettingsMaps}
    → All (λ (entry : Text × BackendHttpSettings). P entry.1) m.by_name
    → bind_backends generate pairs m ≡ some out
    → All (λ (entry : Text × BackendHttpSettings). P entry.1) out.by_name
unfolding bind_backends
bind_backends-All P generate k [] m {out} h e =
    let same : m ≡ out = cc in
    subst (λ (x : SettingsMaps). All (λ (entry : Text × BackendHttpSettings). P entry.1) x.by_name)
      same h
bind_backends-All P generate k ((be, found) ∷ pairs) m h e =
    elim (Bool-cases (leb (length found) 1)) [
      | inl one ↦
          bind_backends-All P generate k pairs _
            (All-insert P _ _ m.by_name (k be (unique_pair found).backend_port) h) (rw one at e)
      | inr more ↦ absurd (let d = rw more at e in cc)
    ]

module _ (sets : SetLibrary Text) (subsets : Subsets sets) (b : FrontendBuilder) (c : Caches)
    (order : MapOrder) (ings : List Ingress) where
  -- The settings have no probe, or one that is created.
  abbrev pub IsProbed : BackendHttpSettings → Type 0
  IsProbed t =
      (t.probe ≡ none)
      ⊎ ((id : Text) × (t.probe ≡ resource_ref id)
          × (has_item (λ (q : Probe). q.id) id (created_probes sets subsets b c order ings) ≡ true))

  generate-IsProbed :
      (be : BackendIdentifier) (port : ℕ)
      → IsProbed (generate_http_settings sets subsets b c order ings be port)
  unfolding generate_http_settings
  generate-IsProbed be port =
      elim (Option-cases
        (lookup be.place (new_probes_map sets subsets b c order ings).by_backend)) [
          | inl absent ↦ inl (annotated-probe be.ingress _ ∙ ap (ref_of_probe b) absent)
          | inr (p, found) ↦ inr (
            probe_id b.agw p.name,
            annotated-probe be.ingress _ ∙ ap (ref_of_probe b) found,
            All-lookup_value (IsCreated sets subsets b c order ings) be.place _
                (new_probes_map-AreCreated sets subsets b c order ings) found,
          )
        ]

  -- The settings that are made, if no backend has more than one pair of ports, refer to no probe but those
  -- that are created.
  pub get_backends_and_settings_map-AreProbed :
      {out : Settings}
      → get_backends_and_settings_map sets subsets b c order ings ≡ some out
      → All IsProbed out.collection
  unfolding get_backends_and_settings_map
  get_backends_and_settings_map-AreProbed {out} e = of_maps _ refl e
    where
      of_maps :
          (o : Option SettingsMaps)
          → bind_backends
              (generate_http_settings sets subsets b c order ings)
              (resolved_pairs sets subsets b c order ings)
              (start_maps sets subsets b c order ings)
            ≡ o
          → settings_of sets subsets b c order ings o ≡ some out
          → All IsProbed out.collection
      of_maps none d f = absurd (cc)
      of_maps (some m) d f =
          let same : settings_from sets subsets b c order ings m ≡ out = let g = f in cc in
          subst (λ (x : Settings). All IsProbed x.collection) same
            (values-All IsProbed _ (
              All-perm _ (order.iterate_perm (Text × BackendHttpSettings) m.by_name) (
                bind_backends-All IsProbed (generate_http_settings sets subsets b c order ings)
                  generate-IsProbed (resolved_pairs sets subsets b c order ings)
                  (start_maps sets subsets b c order ings)
                  (
                    inr (
                      probe_id b.agw (default_probe b http).name,
                      refl,
                      default_probe-IsCreated sets subsets b c order ings http,
                    ),
                    tt,
                  )
                  d)))
