-- ===== src/Appgw/Build/Whole.antt =====
-- pkg/appgw/configbuilder.go: what the parts of a configuration refer to.
use application_gateway_kube.Common.{
  Text, List, [], ◌∷◌, none, some, true, text_eq, returns, All, All-map, Permᴰ, any-perm, ◌≡◌, refl,
  sym, ◌∙◌, ◌⊎◌, arith, beq_refl, inl, inr,
}
use application_gateway_kube.Common.Named.{has_item}
use application_gateway_kube.Gateway.{
  BackendAddressPool, BackendHttpSettings, Probe, HttpListener, RedirectConfiguration, PathRule,
  UrlPathMap, RoutingRule, ApplicationGateway,
}
use application_gateway_kube.Brownfield.Targets.Blacklist.{Any-perm}
use application_gateway_kube.Appgw.Identifier.{listener_id, resource_ref}
use application_gateway_kube.Appgw.Validators.{validate_url_path_maps}
use application_gateway_kube.Appgw.Frontend.{FrontendBuilder}
use application_gateway_kube.Appgw.Build.{TagValues, add_tags}
use application_gateway_kube.Appgw.Routing.Sound.{listed_rules}
use application_gateway_kube.Appgw.Routing.Referred.{IsReferred}
use application_gateway_kube.Appgw.Routing.Accepted.{IsRouted}

pub All-both {ℓ} :
    {A : Type ℓ} (P Q : A → Type 0) (xs : List A) → All P xs → All Q xs → All (λ x. P x × Q x) xs
All-both P Q [] h k = tt
All-both P Q (x ∷ xs) h k = ((h.0, k.0), All-both P Q xs h.1 k.1)

-- Every item has an ID that the list has.
pub All-has_item :
    {A : Type 0} (id_of : A → Text) (xs : List A) → All (λ x. has_item id_of (id_of x) xs ≡ true) xs
All-has_item id_of [] = tt
All-has_item id_of (x ∷ xs) =
    (rw (beq_refl (id_of x)) refl, All-map _ _ (λ y h. ground arith) xs (All-has_item id_of xs))

pub has_item-perm :
    {A : Type 0} (id_of : A → Text) (id : Text) {xs ys : List A}
    → Permᴰ xs ys
    → has_item id_of id xs ≡ true
    → has_item id_of id ys ≡ true
has_item-perm id_of id p h = sym (any-perm _ p) ∙ h

pub IsReferred-perm :
    (redirects : List RedirectConfiguration) {ps qs : List BackendAddressPool}
    {ts us : List BackendHttpSettings}
    → Permᴰ ps qs
    → Permᴰ ts us
    → (rule : PathRule) → IsReferred redirects ps ts rule
    → IsReferred redirects qs us rule
IsReferred-perm redirects p q rule (inl h) = inl h
IsReferred-perm redirects p q rule (inr (pool, t, e, h, f, g)) =
    inr (pool, t, e, has_item-perm _ pool p h, f, has_item-perm _ t q g)

-- The listener has the ID of its name, and is one of the list.
abbrev pub IsListener : FrontendBuilder → List HttpListener → HttpListener → Type 0
IsListener b listeners l =
    (l.id ≡ listener_id b.agw l.name)
    × (has_item (λ (m : HttpListener). m.id) l.id listeners ≡ true)

-- The settings have no probe, or one of the list.
abbrev pub HasProbe : List Probe → BackendHttpSettings → Type 0
HasProbe probes t =
    (t.probe ≡ none)
    ⊎ ((id : Text) × (t.probe ≡ resource_ref id)
        × (has_item (λ (q : Probe). q.id) id probes ≡ true))

-- The redirection leads to a listener of the list.
abbrev pub Targets : List HttpListener → RedirectConfiguration → Type 0
Targets listeners redirect =
    (id : Text) × (redirect.target_listener ≡ resource_ref id)
    × (has_item (λ (l : HttpListener). l.id) id listeners ≡ true)

-- The rule is for a listener of the list.
abbrev pub ListensOn : List HttpListener → RoutingRule → Type 0
ListensOn listeners rule =
    (id : Text) × (rule.http_listener ≡ resource_ref id)
    × (has_item (λ (l : HttpListener). l.id) id listeners ≡ true)

-- A configuration in which the settings, the redirections, the path rules and the rules refer to its own parts:
-- probes, listeners, redirections, pools, settings and path maps. Its path maps pass the validator.
pub record IsWhole (b : FrontendBuilder) (gw : ApplicationGateway) : Type 0 where
  pub probes : List Probe
  pub settings : List BackendHttpSettings
  pub pools : List BackendAddressPool
  pub listeners : List HttpListener
  pub redirects : List RedirectConfiguration
  pub path_maps : List UrlPathMap
  pub rules : List RoutingRule
  pub sent_probes : gw.probes ≡ some probes
  pub sent_settings : gw.backend_http_settings_collection ≡ some settings
  pub sent_pools : gw.backend_address_pools ≡ some pools
  pub sent_listeners : gw.http_listeners ≡ some listeners
  pub sent_redirects : gw.redirect_configurations ≡ some redirects
  pub sent_maps : gw.url_path_maps ≡ some path_maps
  pub sent_rules : gw.request_routing_rules ≡ some rules
  pub settings_probed : All (HasProbe probes) settings
  pub redirects_lead : All (Targets listeners) redirects
  pub paths_refer :
      All
        (λ (pm : UrlPathMap).
          All (IsReferred redirects pools settings) (listed_rules pm.path_rules))
        path_maps
  pub maps_accepted : validate_url_path_maps (some path_maps) ≡ returns none
  pub rules_listen : All (ListensOn listeners) rules
  pub rules_routed : All (IsRouted b path_maps) rules

pub IsRouted-perm :
    (b : FrontendBuilder) {pms qms : List UrlPathMap}
    → Permᴰ pms qms
    → (rule : RoutingRule) → IsRouted b pms rule
    → IsRouted b qms rule
IsRouted-perm b p rule (inl h) = inl h
IsRouted-perm b p rule (inr (e, h)) = inr (e, Any-perm _ p h)

-- The tags leave the parts as they are.
pub add_tags-IsWhole :
    (b : FrontendBuilder) (tags : TagValues) (gw : ApplicationGateway)
    → IsWhole b gw
    → IsWhole b (add_tags tags gw)
unfolding add_tags
add_tags-IsWhole b tags gw h = record {
  probes = h.probes;
  settings = h.settings;
  pools = h.pools;
  listeners = h.listeners;
  redirects = h.redirects;
  path_maps = h.path_maps;
  rules = h.rules;
  sent_probes = h.sent_probes;
  sent_settings = h.sent_settings;
  sent_pools = h.sent_pools;
  sent_listeners = h.sent_listeners;
  sent_redirects = h.sent_redirects;
  sent_maps = h.sent_maps;
  sent_rules = h.sent_rules;
  settings_probed = h.settings_probed;
  redirects_lead = h.redirects_lead;
  paths_refer = h.paths_refer;
  maps_accepted = h.maps_accepted;
  rules_listen = h.rules_listen;
  rules_routed = h.rules_routed;
}
