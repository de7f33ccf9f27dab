-- ===== src/Appgw/Listeners.antt =====
-- pkg/appgw/ingress_rules.go, certificates.go and frontend_listeners.go: which listeners the rules of the
-- ingresses ask for. The certificates of the secret store and the base-64 encoding are parameters.
pub mod Asked
pub mod Plain
pub mod Configs
pub mod Provided
pub mod Secured
use application_gateway_kube.Common.{
  ℕ, Text, bytes, List, [], ◌∷◌, ◌++◌, Option, none, some, Bool, true, false, not, ◌&&◌, ◌||◌, ◌==◌,
  nat_eq, nat_beq, nat_beq_iff, text_eq, text_beq, text_beq_iff, Comparable, GoMap, lookup, insert,
  is_nil, is_some, if◌then◌else◌, ◌≡◌, ◌↔◌, refl, arith,
}
use application_gateway_kube.Common.Order.{MapOrder}
use application_gateway_kube.Gateway.{Protocol, http, https, Ingress, IngressRule, IngressTls}
use application_gateway_kube.Annotations.{
  AnnotationError, use_private_ip, is_ssl_redirect, waf_policy,
}
use application_gateway_kube.Annotations.HostNames.{get_host_name_extensions}
use application_gateway_kube.Utils.{get_resource_key}
use application_gateway_kube.Appgw.Keys.{SecretIdentifier, secret_eq, listener_eq}
use application_gateway_kube.Appgw.Names.{
  ListenerIdentifier, set_host_names, generate_ssl_redirect_configuration_name,
}

abbrev pub secret_key : SecretIdentifier → Text
secret_key s = s.namespace ++ (bytes "/" ++ s.name)

-- `secretFullName`
abbrev pub secret_full_name : SecretIdentifier → Text
secret_full_name s = s.namespace ++ (bytes "-" ++ s.name)

-- `listenerAzConfig`; the secret is used with HTTPS only.
pub record ListenerAzConfig : Type 0 where
  pub protocol : Protocol
  pub secret : SecretIdentifier
  pub ssl_redirect_configuration_name : Text
  pub firewall_policy : Text

abbrev pub no_secret : SecretIdentifier
no_secret = record { namespace = []; name = [] }

abbrev pub of_protocol : Protocol → ListenerAzConfig
of_protocol protocol = record {
  protocol = protocol;
  secret = no_secret;
  ssl_redirect_configuration_name = [];
  firewall_policy = [];
}

-- `defaultFrontendListenerIdentifier`: five places for host names, all empty.
abbrev pub default_frontend_listener_identifier : ListenerIdentifier
default_frontend_listener_identifier = record {
  frontend_port = 80;
  host_name = [];
  host_names = [] ∷ [] ∷ [] ∷ [] ∷ [] ∷ [];
  use_private_ip = false;
}

abbrev pub port_of_protocol : Protocol → ℕ
port_of_protocol http = 80
port_of_protocol https = 443

abbrev pub port_or : ℕ → Option ℕ → ℕ
port_or port none = port
port_or port (some override) = override

-- `generateListenerID`; an error of the annotation gives no names.
unfoldable pub generate_listener_id :
    Ingress → Text → Protocol → Option ℕ → Bool → ListenerIdentifier
generate_listener_id ing host protocol override_port private_ip =
    let hostnames = (if is_nil host then [] else host ∷ []) ++ (get_host_name_extensions ing).0 in
    set_host_names
      (record default_frontend_listener_identifier {
        frontend_port = port_or (port_of_protocol protocol) override_port;
        use_private_ip = private_ip;
      })
      hostnames

-- `GetPfxCertificate`, in which no certificate is the empty text, and `base64.StdEncoding`.
module _ (pfx : Text → List ℕ) (base64 : List ℕ → Text) where
  abbrev pub secret_of : Ingress → IngressTls → SecretIdentifier
  secret_of ing tls = record { namespace = ing.namespace; name = tls.secret_name }

  -- A TLS section is used if it names a secret, and the secret has a certificate.
  abbrev pub has_certificate : SecretIdentifier → Bool
  has_certificate secret = not (is_nil (pfx (secret_key secret)))

  abbrev pub is_usable : Ingress → IngressTls → Bool
  is_usable ing tls = not (is_nil tls.secret_name) && has_certificate (secret_of ing tls)

  -- The inner loop of `newHostToSecretMap`; an empty host name is the default.
  unfoldable pub add_hosts :
      SecretIdentifier → List Text → GoMap Text SecretIdentifier → GoMap Text SecretIdentifier
  add_hosts secret [] m = m
  add_hosts secret (host ∷ hosts) m = add_hosts secret hosts (insert host secret m)

  abbrev pub add_section :
      SecretIdentifier → List Text → GoMap Text SecretIdentifier → GoMap Text SecretIdentifier
  add_section secret [] m = insert [] secret m
  add_section secret (host ∷ hosts) m = add_hosts secret (host ∷ hosts) m

  unfoldable pub hosts_to_secrets :
      Ingress → List IngressTls → GoMap Text SecretIdentifier → GoMap Text SecretIdentifier
  unfolding add_hosts
  hosts_to_secrets ing [] m = m
  hosts_to_secrets ing (tls ∷ rest) m =
      hosts_to_secrets ing rest
        (if is_usable ing tls then add_section (secret_of ing tls) tls.hosts m else m)

  -- `newHostToSecretMap`
  unfoldable pub new_host_to_secret_map : Ingress → GoMap Text SecretIdentifier
  unfolding hosts_to_secrets
  new_host_to_secret_map ing = hosts_to_secrets ing ing.tls []

  unfoldable pub certificates_from :
      Ingress → List IngressTls → GoMap SecretIdentifier Text → GoMap SecretIdentifier Text
  certificates_from ing [] m = m
  certificates_from ing (tls ∷ rest) m = certificates_from ing rest (
      if is_usable ing tls
      then insert (secret_of ing tls) (base64 (pfx (secret_key (secret_of ing tls)))) m
      else m)

  -- `getSecretToCertificateMap`
  unfoldable pub get_secret_to_certificate_map : Ingress → GoMap SecretIdentifier Text
  unfolding certificates_from
  get_secret_to_certificate_map ing = certificates_from ing ing.tls []

  abbrev pub or_default :
      Option SecretIdentifier → Option SecretIdentifier → Option SecretIdentifier
  or_default (some secret) default_secret = some secret
  or_default none default_secret = default_secret

  abbrev pub with_certificate : SecretIdentifier → Option Text → Option (Text × SecretIdentifier)
  with_certificate secret none = none
  with_certificate secret (some cert) = some (cert, secret)

  abbrev pub certificate_of : Ingress → Option SecretIdentifier → Option (Text × SecretIdentifier)
  certificate_of ing none = none
  certificate_of ing (some secret) =
      with_certificate secret (lookup secret (get_secret_to_certificate_map ing))

  -- `getCertificate` of a host: its own secret, or the default one.
  unfoldable pub get_certificate :
      Ingress → Text → GoMap Text SecretIdentifier → Option (Text × SecretIdentifier)
  unfolding get_secret_to_certificate_map
  get_certificate ing hostname m = certificate_of ing (or_default (lookup hostname m) (lookup [] m))

  module _ (md5_sum : Text → List ℕ) (ag_prefix : Text)
      (hash_code : ListenerIdentifier → Text) where
    abbrev pub https_config : SecretIdentifier → Text → ListenerAzConfig
    https_config secret redirect = record (of_protocol https) {
      secret = secret;
      ssl_redirect_configuration_name = redirect;
    }

    -- The listeners of `processIngressRule`, given the certificate and whether HTTP is redirected.
    abbrev pub rule_listeners :
        (Protocol → ListenerIdentifier)
        → Option (Text × SecretIdentifier)
        → Bool
        → GoMap ListenerIdentifier ListenerAzConfig
    rule_listeners id none ssl_redirect = (id http, of_protocol http) ∷ []
    rule_listeners id (some (cert, secret)) false = (id https, https_config secret []) ∷ []
    rule_listeners id (some (cert, secret)) true = insert (id http) (of_protocol http) (
        (
          id https,
          https_config secret
              (generate_ssl_redirect_configuration_name md5_sum ag_prefix hash_code (id https)),
        )
        ∷ [])

    -- Its identifier at a protocol, of the environment's wish for a private IP.
    abbrev pub id_of_rule : Text → IngressRule → Ingress → Protocol → ListenerIdentifier
    id_of_rule env_use_private_ip rule ing protocol =
        generate_listener_id ing rule.host protocol none
          ((use_private_ip ing).0 || env_use_private_ip == bytes "true")

    -- `processIngressRule`
    unfoldable pub process_ingress_rule :
        Text → IngressRule → Ingress → GoMap ListenerIdentifier ListenerAzConfig
    unfolding get_certificate new_host_to_secret_map generate_listener_id
    process_ingress_rule env_use_private_ip rule ing =
        rule_listeners (id_of_rule env_use_private_ip rule ing)
          (get_certificate ing rule.host (new_host_to_secret_map ing)) (is_ssl_redirect ing).0
