-- ===== src/Appgw/Certificates/Certified.antt =====
-- pkg/appgw/certificates.go and frontend_listeners.go: the listeners find their certificates.
use application_gateway_kube.Common.{ℕ, Text, List, Bool, true, false, ◌≡◌}
use application_gateway_kube.Common.Order.{MapOrder, Sort}
use application_gateway_kube.Gateway.{Ingress, ApplicationGateway}
use application_gateway_kube.Appgw.Names.{ListenerIdentifier}
use application_gateway_kube.Appgw.Keys.{SecretIdentifier}
use application_gateway_kube.Appgw.Listeners.{secret_full_name}
use application_gateway_kube.Appgw.Listeners.Configs.{get_listener_configs}
use application_gateway_kube.Appgw.Listeners.Secured.{AreSecured, get_listener_configs-All}
use application_gateway_kube.Appgw.Collections.{BuilderContext}
use application_gateway_kube.Appgw.Certificates.{get_ssl_certificates}
use application_gateway_kube.Appgw.Certificates.Sent.{has_name, get_ssl_certificates-IsSent}

module _ (pfx : Text → List ℕ) (base64 : List ℕ → Text) (order : MapOrder) (s : Sort)
    (ctx : BuilderContext) (app_gw : ApplicationGateway) (ings : List Ingress) where
  -- A certificate with the name of the secret is sent.
  abbrev pub IsCertified : SecretIdentifier → Type 0
  IsCertified secret =
      has_name (secret_full_name secret) (get_ssl_certificates pfx base64 order s ctx app_gw ings)
      ≡ true

  -- Without brownfield deployment, the name of the secret of every listener with HTTPS is that of a
  -- certificate sent to the gateway.
  pub get_listener_configs-AreCertified :
      (md5_sum : Text → List ℕ) (ag_prefix : Text) (hash_code : ListenerIdentifier → Text)
      (env : Text) (attach : Bool)
      → ctx.enable_brownfield_deployment ≡ false
      → AreSecured pfx base64 IsCertified
          (get_listener_configs pfx base64 md5_sum ag_prefix hash_code order env attach ings)
  get_listener_configs-AreCertified md5_sum ag_prefix hash_code env attach off =
      (get_listener_configs-All pfx base64 IsCertified md5_sum ag_prefix hash_code order env attach
        ings (get_ssl_certificates-IsSent pfx base64 order s ctx app_gw ings off)).0
