-- ===== src/Appgw/Routing/Sound.antt =====
-- pkg/appgw/requestroutingrules.go: the path maps have a default target, and their rules one target each.
use application_gateway_kube.Common.{
  ℕ, ◌+◌, Text, List, [], ◌∷◌, Option, none, some, Bool, true, false, text_eq, if◌then◌else◌,
  lookup, ◌≡◌, refl, arith, All, All-append, ◌⊎◌, Option-cases, Bool-cases, inl, inr, is_some,
}
use application_gateway_kube.Common.Order.{MapOrder, Sort}
use application_gateway_kube.Gateway.{
  SubResource, BackendAddressPool, BackendHttpSettings, PathRule, UrlPathMap, HttpIngressPath,
  IngressRule, Ingress,
}
use application_gateway_kube.K8scontext.Listing.{Caches}
use application_gateway_kube.Appgw.Identifier.{resource_ref}
use application_gateway_kube.Appgw.Names.{ListenerIdentifier}
use application_gateway_kube.Appgw.Listeners.{ListenerAzConfig}
use application_gateway_kube.Appgw.Frontend.{FrontendBuilder}
use application_gateway_kube.Appgw.Backends.{Place, place_eq, at_path}
use application_gateway_kube.Appgw.PathMaps.{
  Built, redirect_of, is_default_path, new_path_rule, path_rule, pool_and_settings, with_backend,
  get_path_rules, ref_of, get_path_map, overrides, append_rules, merge_path_map,
}
use application_gateway_kube.Appgw.Routing.Merged.{IsKept}
use application_gateway_kube.Appgw.Validators.Verdicts.{IsValidRule}

abbrev pub has_id : Option SubResource → Bool
has_id none = false
has_id (some ref) = is_some ref.id

-- A redirection, or else a pool and settings, all with an ID.
abbrev pub HasDefault : UrlPathMap → Type 0
HasDefault pm =
    (has_id pm.default_redirect_configuration ≡ true)
    ⊎ ((pm.default_redirect_configuration ≡ none)
        × (has_id pm.default_backend_address_pool ≡ true)
        × (has_id pm.default_backend_http_settings ≡ true))

abbrev pub listed_rules : Option (List PathRule) → List PathRule
listed_rules none = []
listed_rules (some rules) = rules

pub record IsSound (P : PathRule → Type 0) (pm : UrlPathMap) : Type 0 where
  pub has_default : HasDefault pm
  pub rules_hold : All P (listed_rules pm.path_rules)

overrides-has_id :
    (ref : Option SubResource) (id : Text) → overrides ref id ≡ true → has_id ref ≡ true
overrides-has_id none id h = absurd (cc)
overrides-has_id (some ref) id h = elim (Option-cases ref.id) [
  | inl absent ↦ absurd (let e = rw absent at h in cc)
  | inr (own, found) ↦ rw found refl
]

-- The reference that a merge leaves.
merged-has_id :
    (new old : Option SubResource) (id : Text)
    → has_id old ≡ true
    → has_id (if overrides new id then new else old) ≡ true
merged-has_id new old id h = elim (Bool-cases (overrides new id)) [
  | inl on ↦ rw on (overrides-has_id new id on)
  | inr off ↦ rw off h
]

append_rules-All :
    (P : PathRule → Type 0) (old new : Option (List PathRule))
    → All P (listed_rules old)
    → All P (listed_rules new)
    → All P (listed_rules (append_rules old new))
append_rules-All P old none h g = h
append_rules-All P old (some []) h g = h
append_rules-All P none (some (rule ∷ rules)) h g = g
append_rules-All P (some existing) (some (rule ∷ rules)) h g =
    All-append P existing (rule ∷ rules) h g

module _ (b : FrontendBuilder) (c : Caches) (order : MapOrder) (s : Sort) (k : Built) where
  -- What the merged path map has as redirection: none, or one with an ID.
  abbrev HasIdOrNone : Option SubResource → Type 0
  HasIdOrNone ref = (ref ≡ none) ⊎ (has_id ref ≡ true)

  ref_of-HasIdOrNone : (o : Option Text) → HasIdOrNone (ref_of b c order k o)
  unfolding resource_ref
  ref_of-HasIdOrNone none = inl refl
  ref_of-HasIdOrNone (some id) = inr refl

  merge-HasDefault :
      (pm new : UrlPathMap)
      → HasIdOrNone new.default_redirect_configuration
      → HasDefault pm
      → HasDefault (merge_path_map b c order k pm new)
  unfolding merge_path_map
  merge-HasDefault pm new g h = elim (Option-cases new.default_redirect_configuration) [
    | inr (redirect, found) ↦ rw found (inl (ground (arith, g)))
    | inl absent ↦ rw absent (elim h [
      | inl redirected ↦ inl redirected
      | inr (plain, pool, settings) ↦ inr (
        plain,
        merged-has_id new.default_backend_address_pool _ _ pool,
        merged-has_id new.default_backend_http_settings _ _ settings,
      )
    ])
  ]

  module _ (P : PathRule → Type 0)
      (rules_ok : (id : ListenerIdentifier) (config : ListenerAzConfig) (i : ℕ) (ing : Ingress)
          (r p : ℕ) (paths : List HttpIngressPath)
        → All P (get_path_rules b c order k id config i ing r p paths)) where
    merge-IsSound :
        (pm : UrlPathMap) (id : ListenerIdentifier) (config : ListenerAzConfig) (i : ℕ)
        (ing : Ingress) (r : ℕ) (rule : IngressRule) (paths : List HttpIngressPath)
        → IsSound P pm
        → IsSound P
            (merge_path_map b c order k pm (get_path_map b c order k id config i ing r rule paths))
    unfolding merge_path_map get_path_map
    merge-IsSound pm id config i ing r rule paths h = record {
      has_default =
          merge-HasDefault pm (get_path_map b c order k id config i ing r rule paths)
            (ref_of-HasIdOrNone _) h.has_default;
      rules_hold =
          append_rules-All P pm.path_rules
            (some (get_path_rules b c order k id config i ing r 0 paths)) h.rules_hold
            (rules_ok id config i ing r 0 paths);
    }

    pub keep-IsSound : IsKept b c order s k (IsSound P)
    unfolding resource_ref
    keep-IsSound = record {
      start_holds = λ id. record { has_default = inr (refl, refl, refl); rules_hold = tt };
      default_holds = λ pool. record { has_default = inr (refl, refl, refl); rules_hold = tt };
      merge_holds = merge-IsSound;
    }

  path_rule-IsValid :
      (o : Option Text) (place : Place) (ing : Ingress) (p : ℕ) (path : HttpIngressPath)
      → All IsValidRule (path_rule b c order k o place (new_path_rule b c order k ing p path))
  unfolding resource_ref
  path_rule-IsValid (some redirect) place ing p path = (inl (refl, refl), tt)
  path_rule-IsValid none place ing p path =
      with_backend-IsValid (lookup place k.pools) (lookup place k.settings.by_backend)
    where
      with_backend-IsValid :
          (pool : Option BackendAddressPool) (settings : Option BackendHttpSettings)
          → All IsValidRule (
              pool_and_settings pool settings
                (with_backend b c order k (new_path_rule b c order k ing p path))
                [])
      with_backend-IsValid none settings = tt
      with_backend-IsValid (some pool) none = tt
      with_backend-IsValid (some pool) (some settings) = (inr (refl, refl), tt)

  pub get_path_rules-IsValid :
      (id : ListenerIdentifier) (config : ListenerAzConfig) (i : ℕ) (ing : Ingress) (r p : ℕ)
      (paths : List HttpIngressPath)
      → All IsValidRule (get_path_rules b c order k id config i ing r p paths)
  unfolding get_path_rules
  get_path_rules-IsValid id config i ing r p [] = tt
  get_path_rules-IsValid id config i ing r p (path ∷ paths) =
      elim (Bool-cases (is_default_path path)) [
        | inl skipped ↦ rw skipped (get_path_rules-IsValid id config i ing r (p + 1) paths)
        | inr made ↦ rw made (
            All-append IsValidRule
              (path_rule b c order k (redirect_of b c order k id config ing) (at_path i r p)
                (new_path_rule b c order k ing p path))
              _
              (path_rule-IsValid (redirect_of b c order k id config ing) (at_path i r p) ing p path)
              (get_path_rules-IsValid id config i ing r (p + 1) paths))
      ]
