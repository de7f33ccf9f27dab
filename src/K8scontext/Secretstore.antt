-- ===== src/K8scontext/Secretstore.antt =====
-- pkg/k8scontext/secretstore.go: the store of the certificates that secrets hold. What the temporary
-- files and the command openssl do is a parameter; the lock makes each operation one step.
pub mod Conversion
use application_gateway_kube.Common.{
  ℕ, Text, bytes, List, [], ◌∷◌, Option, none, some, Bool, true, false, not, ◌&&◌, ◌||◌, ◌==◌,
  text_eq, is_nil, lookup, if◌then◌else◌, is_some,
}
use application_gateway_kube.Kubernetes.{Secret, KeyedStore}

abbrev pub recognized_secret_type : Text
recognized_secret_type = bytes "kubernetes.io/tls"

abbrev pub tls_key : Text
tls_key = bytes "tls.key"

abbrev pub tls_crt : Text
tls_crt = bytes "tls.crt"

pub data SecretError : Type 0 where
  unknown_secret_type malformed_secret creating_file writing_to_file : SecretError
  exporting_with_openssl : SecretError

-- What the machine does during a conversion: whether each file is created and written, and what the
-- command prints for a certificate and a key, unless it fails.
pub record Machine : Type 0 where
  pub creates_cert_file : Bool
  pub creates_key_file : Bool
  pub writes : List ℕ → Bool
  pub openssl : List ℕ → List ℕ → Option (List ℕ)

-- `secret.Data[key]`
abbrev pub data_at : Option (List ℕ) → List ℕ
data_at none = []
data_at (some d) = d

abbrev pub secret_data : Text → Secret → List ℕ
secret_data key secret = data_at (lookup key secret.data_of)

module _ (lib : KeyedStore (List ℕ)) where
  -- `GetPfxCertificate`; no certificate is `nil`.
  unfoldable pub get_pfx_certificate : Text → lib.State → List ℕ
  get_pfx_certificate secret_key s = data_at (lib.get secret_key s)

  -- `delete`
  unfoldable pub delete : Text → lib.State → lib.State
  delete secret_key s = lib.delete secret_key s

  -- The result of openssl: an empty output is an error.
  abbrev pub store_output : Text → Option (List ℕ) → lib.State → Option SecretError × lib.State
  store_output secret_key none s = (some exporting_with_openssl, s)
  store_output secret_key (some []) s = (some exporting_with_openssl, s)
  store_output secret_key (some (b ∷ pfx_cert)) s =
      if is_some (lib.get secret_key s)
      then (none, lib.update secret_key (b ∷ pfx_cert) s)
      else (none, lib.add secret_key (b ∷ pfx_cert) s)

  -- `ConvertSecret`
  unfoldable pub convert_secret :
      Machine → Text → Secret → lib.State → Option SecretError × lib.State
  convert_secret os secret_key secret s =
      if not (secret.secret_type == recognized_secret_type)
      then (some unknown_secret_type, s)
      else if is_nil (secret_data tls_key secret) || is_nil (secret_data tls_crt secret)
      then (some malformed_secret, s)
      else if not os.creates_cert_file
      then (some creating_file, s)
      else if not os.creates_key_file
      then (some creating_file, s)
      else if not (os.writes (secret_data tls_crt secret))
      then (some writing_to_file, s)
      else if not (os.writes (secret_data tls_key secret))
      then (some writing_to_file, s)
      else store_output secret_key
          (os.openssl (secret_data tls_crt secret) (secret_data tls_key secret)) s
