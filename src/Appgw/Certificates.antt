-- ===== src/Appgw/Certificates.antt =====
-- pkg/appgw/certificates.go: the certificates that are sent to the gateway. The password that every
-- certificate gets is left out.
pub mod Sent
pub mod Certified
use application_gateway_kube.Common.{ℕ, Text, List, [], ◌∷◌, some, GoMap, insert}
use application_gateway_kube.Common.Order.{MapOrder, Sort}
use application_gateway_kube.Gateway.{SslCertificate, Ingress, ApplicationGateway}
use application_gateway_kube.Appgw.Keys.{SecretIdentifier, secret_eq}
use application_gateway_kube.Appgw.Listeners.{secret_full_name, get_secret_to_certificate_map}
use application_gateway_kube.Appgw.Collections.{BuilderContext, ssl_certificates}

-- `newCert`, of an entry of the map.
abbrev pub new_cert : SecretIdentifier × Text → SslCertificate
new_cert (secret, cert) = record { name = secret_full_name secret; cert_data = some cert }

abbrev pub new_certs : List (SecretIdentifier × Text) → List SslCertificate
new_certs [] = []
new_certs (entry ∷ entries) = new_cert entry ∷ new_certs entries

-- `for k, v := range from { m[k] = v }`
unfoldable pub put_certificates :
    List (SecretIdentifier × Text) → GoMap SecretIdentifier Text → GoMap SecretIdentifier Text
put_certificates [] m = m
put_certificates ((k, v) ∷ entries) m = put_certificates entries (insert k v m)

module _ (pfx : Text → List ℕ) (base64 : List ℕ → Text) (order : MapOrder) where
  -- The loop of `getSslCertificates` over the ingresses.
  unfoldable pub all_certificates :
      List Ingress → GoMap SecretIdentifier Text → GoMap SecretIdentifier Text
  unfolding put_certificates
  all_certificates [] m = m
  all_certificates (ing ∷ ings) m = all_certificates ings (
      put_certificates
        (order.iterate (SecretIdentifier × Text) (get_secret_to_certificate_map pfx base64 ing)) m)

  -- `getSslCertificates`
  unfoldable pub get_ssl_certificates :
      Sort → BuilderContext → ApplicationGateway → List Ingress → List SslCertificate
  unfolding all_certificates
  get_ssl_certificates s ctx app_gw ings =
      ssl_certificates order s ctx app_gw
        (new_certs (order.iterate (SecretIdentifier × Text) (all_certificates ings [])))
