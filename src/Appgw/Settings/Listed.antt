-- ===== src/Appgw/Settings/Listed.antt =====
-- pkg/appgw/backendhttpsettings.go: the settings of a backend are among those that are created.
use application_gateway_kube.Common.{
  ℕ, Text, List, [], ◌∷◌, Option, none, some, Bool, true, false, text_eq, GoMap, insert, member,
  values, leb, length, ◌≡◌, refl, sym, ap, ◌∙◌, subst, All, Bool-cases, inl, inr,
}
use application_gateway_kube.Common.Order.{MapOrder}
use application_gateway_kube.Common.Uniq.{All-insert}
use application_gateway_kube.Common.Named.{
  IsNamed, insert-IsNamed, has_item, has_item-values, member-keeps, member-own,
}
use application_gateway_kube.Gateway.{Protocol, http, https, BackendHttpSettings, Ingress}
use application_gateway_kube.Annotations.{
  AnnotationError, backend_path_prefix, backend_protocol, is_connection_draining,
  is_cookie_based_affinity, request_timeout,
}
use application_gateway_kube.Utils.Multimap.{SetLibrary}
use application_gateway_kube.K8scontext.Listing.{Caches, Subsets}
use application_gateway_kube.Appgw.Identifier.{http_settings_id}
use application_gateway_kube.Appgw.Frontend.{FrontendBuilder}
use application_gateway_kube.Appgw.Backends.{Place, place_eq, BackendIdentifier, PortPair}
use application_gateway_kube.Appgw.Settings.{
  PairsByBackend, Settings, SettingsMaps, on_success, on_true, with_prefix, with_draining,
  with_affinity, with_timeout, with_protocol, annotated, unique_pair, add_settings, bind_backends,
  generate_http_settings, start_maps, resolved_pairs, settings_from, settings_of,
  get_backends_and_settings_map,
}

-- The annotations leave the name and the ID.
abbrev IsSame : BackendHttpSettings → BackendHttpSettings → Type 0
IsSame t s = (t.name ≡ s.name) × (t.id ≡ s.id)

on_success-IsSame :
    {A : Type 0} (f : A → BackendHttpSettings → BackendHttpSettings)
    (read : A × Option AnnotationError) (t s : BackendHttpSettings)
    → ((a : A) (u : BackendHttpSettings) → IsSame (f a u) u)
    → IsSame t s
    → IsSame (on_success f read t) s
on_success-IsSame f (a, none) t s k h = ((k a t).0 ∙ h.0, (k a t).1 ∙ h.1)
on_success-IsSame f (a, some err) t s k h = h

on_true-IsSame :
    (f : BackendHttpSettings → BackendHttpSettings)
    → ((u : BackendHttpSettings) → IsSame (f u) u)
    → (flag : Bool) (u : BackendHttpSettings) → IsSame (on_true f flag u) u
on_true-IsSame f k true u = k u
on_true-IsSame f k false u = (refl, refl)

with_protocol-IsSame :
    (protocol : Protocol) (u : BackendHttpSettings) → IsSame (with_protocol protocol u) u
with_protocol-IsSame http u = (refl, refl)
with_protocol-IsSame https u = (refl, refl)

annotated-IsSame : (ing : Ingress) (s : BackendHttpSettings) → IsSame (annotated ing s) s
unfolding annotated
annotated-IsSame ing s =
    on_success-IsSame with_protocol (backend_protocol ing) _ s with_protocol-IsSame (
      on_success-IsSame with_timeout (request_timeout ing) _ s (λ a u. (refl, refl))
        (on_success-IsSame (on_true with_affinity) (is_cookie_based_affinity ing) _ s
          (on_true-IsSame with_affinity (λ u. (refl, refl)))
          (on_success-IsSame (on_true (with_draining ing)) (is_connection_draining ing) _ s
            (on_true-IsSame (with_draining ing) (λ u. (refl, refl)))
            (on_success-IsSame with_prefix (backend_path_prefix ing) _ s (λ a u. (refl, refl))
              (refl, refl)))))

module _ (b : FrontendBuilder) where
  abbrev AreSettings : GoMap Text BackendHttpSettings → Type 0
  AreSettings m =
      IsNamed (λ (t : BackendHttpSettings). t.name) (λ (t : BackendHttpSettings). t.id)
        (http_settings_id b.agw) m

  -- The settings by backend are among those by name.
  record AreListed (m : SettingsMaps) : Type 0 where
    pub named : AreSettings m.by_name
    pub listed :
        All
          (λ (entry : Place × BackendHttpSettings).
            (entry.1.id ≡ http_settings_id b.agw entry.1.name)
            × (member entry.1.name m.by_name ≡ true))
          m.by_backend

  keep_listed :
      (n : Text) (t : BackendHttpSettings) (by_name : GoMap Text BackendHttpSettings)
      (entries : GoMap Place BackendHttpSettings)
      → All
          (λ (entry : Place × BackendHttpSettings).
            (entry.1.id ≡ http_settings_id b.agw entry.1.name)
            × (member entry.1.name by_name ≡ true))
          entries
      → All
          (λ (entry : Place × BackendHttpSettings).
            (entry.1.id ≡ http_settings_id b.agw entry.1.name)
            × (member entry.1.name (insert n t by_name) ≡ true))
          entries
  keep_listed n t by_name [] h = tt
  keep_listed n t by_name ((p, u) ∷ entries) h =
      ((h.0.0, member-keeps u.name n t by_name h.0.1), keep_listed n t by_name entries h.1)

  add_settings-AreListed :
      (be : BackendIdentifier) (pair : PortPair) (t : BackendHttpSettings) (m : SettingsMaps)
      → t.id ≡ http_settings_id b.agw t.name
      → AreListed m
      → AreListed (add_settings be pair t m)
  add_settings-AreListed be pair t m e h = record {
    named = insert-IsNamed _ _ _ t.name t m.by_name refl e h.named;
    listed =
        All-insert
          (λ (u : BackendHttpSettings).
            (u.id ≡ http_settings_id b.agw u.name)
            × (member u.name (insert t.name t m.by_name) ≡ true))
          be.place t m.by_backend (e, member-own t.name t m.by_name)
          (keep_listed t.name t m.by_name m.by_backend h.listed);
  }

  bind_backends-AreListed :
      (generate : BackendIdentifier → ℕ → BackendHttpSettings)
      → ((be : BackendIdentifier) (port : ℕ)
          → (generate be port).id ≡ http_settings_id b.agw (generate be port).name)
      → (pairs : PairsByBackend) (m : SettingsMaps) {out : SettingsMaps} → AreListed m
      → bind_backends generate pairs m ≡ some out
      → AreListed out
  unfolding bind_backends
  bind_backends-AreListed generate k [] m {out} h e =
      let same : m ≡ out = cc in subst AreListed same h
  bind_backends-AreListed generate k ((be, found) ∷ pairs) m h e =
      elim (Bool-cases (leb (length found) 1)) [
        | inl one ↦
            bind_backends-AreListed generate k pairs _
              (add_settings-AreListed be (unique_pair found)
                (generate be (unique_pair found).backend_port) m (k be _) h)
              (rw one at e)
        | inr more ↦ absurd (let d = rw more at e in cc)
      ]

module _ (sets : SetLibrary Text) (subsets : Subsets sets) (b : FrontendBuilder) (c : Caches)
    (order : MapOrder) (ings : List Ingress) where
  generate-id :
      (be : BackendIdentifier) (port : ℕ)
      → (generate_http_settings sets subsets b c order ings be port).id
        ≡ http_settings_id b.agw (generate_http_settings sets subsets b c order ings be port).name
  unfolding generate_http_settings
  generate-id be port =
      let same = annotated-IsSame be.ingress _ in same.1 ∙ ap (http_settings_id b.agw) (sym same.0)

  start_maps-AreListed : AreListed b (start_maps sets subsets b c order ings)
  start_maps-AreListed = record { named = ((refl, refl), tt); listed = tt }

  -- The settings of every backend are among those that are created.
  pub get_backends_and_settings_map-AreCreated :
      {out : Settings}
      → get_backends_and_settings_map sets subsets b c order ings ≡ some out
      → All
          (λ (entry : Place × BackendHttpSettings).
            has_item (λ (t : BackendHttpSettings). t.id) entry.1.id out.collection ≡ true)
          out.by_backend
  unfolding get_backends_and_settings_map
  get_backends_and_settings_map-AreCreated {out} e = of_maps _ refl e
    where
      each :
          (m : SettingsMaps)
          → AreListed b m
          → (entries : GoMap Place BackendHttpSettings)
          → All
              (λ (entry : Place × BackendHttpSettings).
                (entry.1.id ≡ http_settings_id b.agw entry.1.name)
                × (member entry.1.name m.by_name ≡ true))
              entries
          → All
              (λ (entry : Place × BackendHttpSettings).
                has_item
                  (λ (t : BackendHttpSettings). t.id)
                  entry.1.id
                  (values (order.iterate (Text × BackendHttpSettings) m.by_name))
                ≡ true)
              entries
      each m h [] g = tt
      each m h ((p, u) ∷ entries) g = (
        rw g.0.0 (
            has_item-values (λ (t : BackendHttpSettings). t.name)
              (λ (t : BackendHttpSettings). t.id) (http_settings_id b.agw) order u.name m.by_name
              h.named g.0.1),
        each m h entries g.1,
      )

      of_maps :
          (o : Option SettingsMaps)
          → bind_backends
              (generate_http_settings sets subsets b c order ings)
              (resolved_pairs sets subsets b c order ings)
              (start_maps sets subsets b c order ings)
            ≡ o
          → settings_of sets subsets b c order ings o ≡ some out
          → All
              (λ (entry : Place × BackendHttpSettings).
                has_item (λ (t : BackendHttpSettings). t.id) entry.1.id out.collection ≡ true)
              out.by_backend
      of_maps none d f = absurd (cc)
      of_maps (some m) d f =
          let h =
            bind_backends-AreListed b (generate_http_settings sets subsets b c order ings)
              generate-id (resolved_pairs sets subsets b c order ings)
              (start_maps sets subsets b c order ings) start_maps-AreListed d in
          let same : settings_from sets subsets b c order ings m ≡ out = let g = f in cc in
          subst
            (λ (x : Settings).
              All
                (λ (entry : Place × BackendHttpSettings).
                  has_item (λ (t : BackendHttpSettings). t.id) entry.1.id x.collection ≡ true)
                x.by_backend)
            same (each m h m.by_backend h.listed)
