-- ===== src/Appgw/Grouping/Redirects.antt =====
-- pkg/appgw/redirects.go: the targets of the redirections.
use application_gateway_kube.Common.{
  List, [], ◌∷◌, Option, none, some, false, ◌&&◌, not, is_nil, GoMap, lookup, returns, All,
  All-append, All-perm, ◌≡◌, refl, Bool-cases, inl, inr,
}
use application_gateway_kube.Common.Order.{MapOrder, Sort}
use application_gateway_kube.Common.Uniq.{All-lookup_value}
use application_gateway_kube.Gateway.{HttpListener, RedirectConfiguration, ApplicationGateway}
use application_gateway_kube.Sorter.{by_redirect_name_less}
use application_gateway_kube.Appgw.Identifier.{resource_ref}
use application_gateway_kube.Appgw.Names.{ListenerIdentifier}
use application_gateway_kube.Appgw.Keys.{listener_eq}
use application_gateway_kube.Appgw.Listeners.{ListenerAzConfig}
use application_gateway_kube.Appgw.Listeners.Configs.{Configs}
use application_gateway_kube.Appgw.Collections.{BuilderContext, redirect_configurations}
use application_gateway_kube.Appgw.Frontend.{FrontendBuilder, is_https}
use application_gateway_kube.Appgw.Grouping.{
  redirect_to, created_redirects, get_redirect_configurations,
}

module _ (b : FrontendBuilder) (P : HttpListener → Type 0) where
  -- The redirection leads to a listener that has the property.
  abbrev pub LeadsTo : RedirectConfiguration → Type 0
  LeadsTo redirect = (l : HttpListener) × P l × (redirect.target_listener ≡ resource_ref l.id)

  redirect_to-LeadTo :
      (config : ListenerAzConfig) (l : HttpListener)
      → P l
      → All LeadsTo (redirect_to b config (some l))
  redirect_to-LeadTo config l h =
      elim (Bool-cases
        (is_https b config.protocol && not (is_nil config.ssl_redirect_configuration_name))) [
          | inl wanted ↦ simp wanted ((l, h, refl), tt)
          | inr unwanted ↦ simp unwanted tt
        ]

  created_redirects-LeadTo :
      (listeners : GoMap ListenerIdentifier HttpListener)
      (configs : List (ListenerIdentifier × ListenerAzConfig))
      → All (λ (entry : ListenerIdentifier × HttpListener). P entry.1) listeners
      → All LeadsTo (created_redirects b listeners configs)
  unfolding created_redirects
  created_redirects-LeadTo listeners [] h = tt
  created_redirects-LeadTo listeners ((id, config) ∷ configs) h =
      All-append LeadsTo (redirect_to b config (lookup id listeners))
        (created_redirects b listeners configs) (of_lookup _ refl)
        (created_redirects-LeadTo listeners configs h)
    where
      of_lookup :
          (o : Option HttpListener) → lookup id listeners ≡ o → All LeadsTo (redirect_to b config o)
      of_lookup none f = tt
      of_lookup (some l) f = redirect_to-LeadTo config l (All-lookup_value P id listeners h f)

  -- Without brownfield deployment the redirections are made, and lead to listeners that are grouped.
  pub get_redirect_configurations-LeadTo :
      (order : MapOrder) (s : Sort) (ctx : BuilderContext) (app_gw : ApplicationGateway)
      (listeners : GoMap ListenerIdentifier HttpListener) (configs : Configs)
      → ctx.enable_brownfield_deployment ≡ false
      → All (λ (entry : ListenerIdentifier × HttpListener). P entry.1) listeners
      → (out : List RedirectConfiguration) × (get_redirect_configurations b order s ctx app_gw
            listeners configs
          ≡ returns out)
        × All LeadsTo out
  unfolding get_redirect_configurations redirect_configurations
  get_redirect_configurations-LeadTo order s ctx app_gw listeners configs off h =
      let created =
        created_redirects b listeners
          (order.iterate (ListenerIdentifier × ListenerAzConfig) configs) in
      (
        s.sort RedirectConfiguration by_redirect_name_less created,
        rw off refl,
        All-perm LeadsTo (s.sort_perm RedirectConfiguration by_redirect_name_less created) (
            created_redirects-LeadTo listeners
              (order.iterate (ListenerIdentifier × ListenerAzConfig) configs) h),
      )
