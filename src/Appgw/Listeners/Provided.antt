-- ===== src/Appgw/Listeners/Provided.antt =====
-- pkg/appgw/certificates.go: what is known of the secrets that an ingress has a certificate for.
use application_gateway_kube.Common.{
  ℕ, Text, List, [], ◌∷◌, Option, none, some, true, text_eq, GoMap, lookup, ◌≡◌, refl, subst, arith,
  All, Bool-cases, inl, inr,
}
use application_gateway_kube.Common.Uniq.{All-lookup, All-insert_key}
use application_gateway_kube.Gateway.{Ingress, IngressTls}
use application_gateway_kube.Appgw.Keys.{SecretIdentifier, secret_eq, listener_eq}
use application_gateway_kube.Appgw.Listeners.{
  has_certificate, is_usable, secret_of, certificates_from, get_secret_to_certificate_map,
  with_certificate, certificate_of,
}

module _ (pfx : Text → List ℕ) (base64 : List ℕ → Text) where
  abbrev pub HasCertificate : SecretIdentifier → Type 0
  HasCertificate secret = has_certificate pfx base64 secret ≡ true

  certificates_from-All :
      (ing : Ingress) (tls : List IngressTls) (m : GoMap SecretIdentifier Text)
      → All (λ (entry : SecretIdentifier × Text). HasCertificate entry.0) m
      → All
          (λ (entry : SecretIdentifier × Text). HasCertificate entry.0)
          (certificates_from pfx base64 ing tls m)
  unfolding certificates_from
  certificates_from-All ing [] m h = h
  certificates_from-All ing (t ∷ tls) m h = elim (Bool-cases (is_usable pfx base64 ing t)) [
    | inl used ↦ rw used (
        certificates_from-All ing tls _
          (All-insert_key HasCertificate (secret_of pfx base64 ing t) _ m (ground arith) h))
    | inr unused ↦ rw unused (certificates_from-All ing tls m h)
  ]

  -- What is known of the secrets that an ingress has a certificate for.
  abbrev pub Provides : (SecretIdentifier → Type 0) → Ingress → Type 0
  Provides P ing =
      (secret : SecretIdentifier) (cert : Text)
      → lookup secret (get_secret_to_certificate_map pfx base64 ing) ≡ some cert
      → P secret

  pub certificates-Provides : (ing : Ingress) → Provides HasCertificate ing
  unfolding get_secret_to_certificate_map
  certificates-Provides ing secret cert l =
      All-lookup HasCertificate secret _ (certificates_from-All ing ing.tls [] tt) l

  with_certificate-Provides :
      (P : SecretIdentifier → Type 0) (ing : Ingress) (secret : SecretIdentifier) (o : Option Text)
      {cert : Text} {found : SecretIdentifier}
      → Provides P ing
      → lookup secret (get_secret_to_certificate_map pfx base64 ing) ≡ o
      → with_certificate pfx base64 secret o ≡ some (cert, found)
      → P found
  with_certificate-Provides P ing secret none h l e = absurd (cc)
  with_certificate-Provides P ing secret (some c) {found = found} h l e =
      let same : secret ≡ found = cc in subst P same (h secret c l)

  pub certificate_of-Provides :
      (P : SecretIdentifier → Type 0) (ing : Ingress) (o : Option SecretIdentifier) {cert : Text}
      {found : SecretIdentifier}
      → Provides P ing
      → certificate_of pfx base64 ing o ≡ some (cert, found)
      → P found
  certificate_of-Provides P ing none h e = absurd (cc)
  certificate_of-Provides P ing (some secret) h e =
      with_certificate-Provides P ing secret _ h refl e
