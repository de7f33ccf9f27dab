-- ===== src/Appgw/Settings/Bound.antt =====
-- pkg/appgw/backendhttpsettings.go: when the settings are made.
use application_gateway_kube.Common.{
  ℕ, Text, List, [], ◌∷◌, ◌++◌, append_assoc, append-nil, Option, none, some, Bool, true, false,
  not, text_eq, GoSet, leb, length, any, ◌≡◌, ◌↔◌, refl, sym, ap, ◌∙◌, Bool-cases, inl, inr,
}
use application_gateway_kube.Common.Order.{MapOrder}
use application_gateway_kube.Gateway.{BackendHttpSettings, Ingress}
use application_gateway_kube.Utils.Multimap.{SetLibrary}
use application_gateway_kube.K8scontext.Listing.{Caches, Subsets}
use application_gateway_kube.Appgw.Frontend.{FrontendBuilder}
use application_gateway_kube.Appgw.Backends.{BackendIdentifier, PortPair}
use application_gateway_kube.Appgw.Settings.{
  PairsByBackend, Settings, SettingsMaps, unique_pair, add_settings, bind_backends,
  generate_http_settings, start_maps, resolved_pairs, settings_of, settings_from,
  get_backends_and_settings_map,
}

-- More than one pair of ports.
abbrev pub is_ambiguous : GoSet PortPair → Bool
is_ambiguous pairs = not (leb (length pairs) 1)

-- The one pair of each backend.
unfoldable pub bound_pairs : PairsByBackend → List (BackendIdentifier × PortPair)
bound_pairs [] = []
bound_pairs ((be, found) ∷ pairs) = (be, unique_pair found) ∷ bound_pairs pairs

abbrev pub any_ambiguous : PairsByBackend → Bool
any_ambiguous pairs =
    any (λ (entry : BackendIdentifier × GoSet PortPair). is_ambiguous entry.1) pairs

bind_backends-fails :
    (generate : BackendIdentifier → ℕ → BackendHttpSettings) (pairs : PairsByBackend)
    (m : SettingsMaps)
    → any_ambiguous pairs ≡ true
    → bind_backends generate pairs m ≡ none
unfolding bind_backends
bind_backends-fails generate [] m h = absurd (cc)
bind_backends-fails generate ((be, found) ∷ pairs) m h = elim (Bool-cases (leb (length found) 1)) [
  | inl one ↦ rw one (bind_backends-fails generate pairs _ (rw one at h))
  | inr more ↦ rw more refl
]

bind_backends-binds :
    (generate : BackendIdentifier → ℕ → BackendHttpSettings) (pairs : PairsByBackend)
    (m : SettingsMaps)
    → any_ambiguous pairs ≡ false
    → (out : SettingsMaps) × (bind_backends generate pairs m ≡ some out)
      × (out.pairs ≡ m.pairs ++ bound_pairs pairs)
unfolding bind_backends bound_pairs
bind_backends-binds generate [] m h = (m, refl, sym (append-nil m.pairs))
bind_backends-binds generate ((be, found) ∷ pairs) m h = elim (Bool-cases (leb (length found) 1)) [
  | inl one ↦
      let pair = unique_pair found in
      let (out, e, f) =
        bind_backends-binds generate pairs (add_settings be pair (generate be pair.backend_port) m)
          (rw one at h) in
      (out, rw one e, f ∙ append_assoc m.pairs ((be, pair) ∷ []) (bound_pairs pairs))
  | inr more ↦ absurd (let d = rw more at h in cc)
]

module _ (sets : SetLibrary Text) (subsets : Subsets sets) (b : FrontendBuilder) (c : Caches)
    (order : MapOrder) (ings : List Ingress) where
  abbrev pub IsBound : Option Settings → Type 0
  IsBound found =
      (out : Settings) × (found ≡ some out)
      × (out.pairs ≡ bound_pairs (resolved_pairs sets subsets b c order ings))

  get_backends_and_settings_map-fails :
      any_ambiguous (resolved_pairs sets subsets b c order ings) ≡ true
      → get_backends_and_settings_map sets subsets b c order ings ≡ none
  unfolding get_backends_and_settings_map
  get_backends_and_settings_map-fails h = ap (settings_of sets subsets b c order ings) (
      bind_backends-fails (generate_http_settings sets subsets b c order ings)
        (resolved_pairs sets subsets b c order ings) (start_maps sets subsets b c order ings) h)

  get_backends_and_settings_map-binds :
      any_ambiguous (resolved_pairs sets subsets b c order ings) ≡ false
      → IsBound (get_backends_and_settings_map sets subsets b c order ings)
  unfolding get_backends_and_settings_map
  get_backends_and_settings_map-binds h =
      let (out, e, f) =
        bind_backends-binds (generate_http_settings sets subsets b c order ings)
          (resolved_pairs sets subsets b c order ings) (start_maps sets subsets b c order ings) h in
      (
        settings_from sets subsets b c order ings out,
        ap (settings_of sets subsets b c order ings) e,
        f,
      )

  -- Two or more pairs of ports for one of the backends that were resolved are an error, and there is no other.
  -- Otherwise the settings are made, with the one pair of ports of each backend that was resolved.
  pub get_backends_and_settings_map_iff :
      ((any_ambiguous (resolved_pairs sets subsets b c order ings) ≡ true)
        ↔ (get_backends_and_settings_map sets subsets b c order ings ≡ none))
      × ((any_ambiguous (resolved_pairs sets subsets b c order ings) ≡ false)
          ↔ IsBound (get_backends_and_settings_map sets subsets b c order ings))
  get_backends_and_settings_map_iff =
      elim (Bool-cases (any_ambiguous (resolved_pairs sets subsets b c order ings))) [
        | inl more ↦
            let fails = get_backends_and_settings_map-fails more in
            ((λ h. fails, λ h. more), (λ h. absurd (cc), λ (out, e, f). absurd (cc)))
        | inr one ↦
            let bound = get_backends_and_settings_map-binds one in
            (
              (λ h. absurd (cc), λ h. absurd (let (out, e, f) = bound in cc)),
              (λ h. bound, λ found. one),
            )
      ]
