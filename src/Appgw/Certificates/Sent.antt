-- ===== src/Appgw/Certificates/Sent.antt =====
-- pkg/appgw/certificates.go: which certificates are sent.
use application_gateway_kube.Common.{
  ℕ, Text, List, [], ◌∷◌, some, Bool, true, false, ◌||◌, ◌==◌, text_eq, GoMap, lookup, insert, any,
  any-perm, ◌≡◌, refl, sym, ◌∙◌, arith, Bool-cases, inl, inr, All, beq_refl, ap,
}
use application_gateway_kube.Common.Order.{MapOrder, Sort}
use application_gateway_kube.Gateway.{SslCertificate, Ingress, ApplicationGateway}
use application_gateway_kube.Sorter.{by_certificate_name_less}
use application_gateway_kube.Appgw.Keys.{SecretIdentifier, secret_eq}
use application_gateway_kube.Appgw.Listeners.{secret_full_name, get_secret_to_certificate_map}
use application_gateway_kube.Appgw.Collections.{BuilderContext, ssl_certificates}
use application_gateway_kube.Appgw.Certificates.{
  new_certs, put_certificates, all_certificates, get_ssl_certificates,
}

abbrev has_key : SecretIdentifier → List (SecretIdentifier × Text) → Bool
has_key k m = any (λ (entry : SecretIdentifier × Text). entry.0 == k) m

abbrev pub has_name : Text → List SslCertificate → Bool
has_name n certs = any (λ (c : SslCertificate). c.name == n) certs

has_key-lookup :
    (k : SecretIdentifier) (m : GoMap SecretIdentifier Text) {v : Text}
    → lookup k m ≡ some v
    → has_key k m ≡ true
unfolding lookup
has_key-lookup k [] h = absurd (cc)
has_key-lookup k ((j, w) ∷ m) h = elim (Bool-cases (j == k)) [
  | inl here ↦ rw here refl
  | inr off ↦ rw off (has_key-lookup k m (rw off at h))
]

has_key-insert :
    (k j : SecretIdentifier) (v : Text) (m : GoMap SecretIdentifier Text)
    → has_key k (insert j v m) ≡ (j == k || has_key k m)
unfolding insert
has_key-insert k j v [] = refl
has_key-insert k j v ((i, w) ∷ m) = elim (Bool-cases (i == j)) [
  | inl same ↦
      let e : i ≡ j = (secret_eq.same_iff i j).0 same in
      rw (same, ap (λ (x : SecretIdentifier). x == k) e) (ground arith)
  | inr off ↦ rw (off, has_key-insert k j v m) (ground arith)
]

has_key-put_certificates :
    (k : SecretIdentifier) (entries : List (SecretIdentifier × Text))
    (m : GoMap SecretIdentifier Text)
    → has_key k (put_certificates entries m) ≡ (has_key k entries || has_key k m)
unfolding put_certificates
has_key-put_certificates k [] m = refl
has_key-put_certificates k ((j, v) ∷ entries) m =
    rw (has_key-put_certificates k entries (insert j v m), has_key-insert k j v m) (ground arith)

has_name-new_certs :
    (k : SecretIdentifier) (entries : List (SecretIdentifier × Text))
    → has_key k entries ≡ true
    → has_name (secret_full_name k) (new_certs entries) ≡ true
has_name-new_certs k [] h = absurd (cc)
has_name-new_certs k ((j, v) ∷ entries) h = elim (Bool-cases (j == k)) [
  | inl same ↦
      let e : j ≡ k = (secret_eq.same_iff j k).0 same in rw (e, beq_refl (secret_full_name k)) refl
  | inr off ↦ rw (has_name-new_certs k entries (rw off at h)) (ground arith)
]

or_left : (a b : Bool) → a ≡ true → (a || b) ≡ true
or_left a b h = ground arith

or_right : (a b : Bool) → b ≡ true → (a || b) ≡ true
or_right a b h = ground arith

module _ (pfx : Text → List ℕ) (base64 : List ℕ → Text) (order : MapOrder) where
  all_certificates-keeps :
      (k : SecretIdentifier) (ings : List Ingress) (m : GoMap SecretIdentifier Text)
      → has_key k m ≡ true
      → has_key k (all_certificates pfx base64 order ings m) ≡ true
  unfolding all_certificates
  all_certificates-keeps k [] m h = h
  all_certificates-keeps k (ing ∷ ings) m h = all_certificates-keeps k ings _ (
      has_key-put_certificates k
        (order.iterate (SecretIdentifier × Text) (get_secret_to_certificate_map pfx base64 ing)) m
      ∙ or_right
          (has_key k (
            order.iterate (SecretIdentifier × Text) (get_secret_to_certificate_map pfx base64 ing)))
          _ h)

  -- The secret has a certificate among those of all ingresses.
  abbrev IsIn : GoMap SecretIdentifier Text → Ingress → Type 0
  IsIn all ing =
      (k : SecretIdentifier) (v : Text)
      → lookup k (get_secret_to_certificate_map pfx base64 ing) ≡ some v
      → has_key k all ≡ true

  all_certificates-All :
      (ings : List Ingress) (m : GoMap SecretIdentifier Text)
      → All (IsIn (all_certificates pfx base64 order ings m)) ings
  unfolding all_certificates
  all_certificates-All [] m = tt
  all_certificates-All (ing ∷ ings) m = (
    (λ k v l. all_certificates-keeps k ings _ (
        has_key-put_certificates k
          (order.iterate (SecretIdentifier × Text) (get_secret_to_certificate_map pfx base64 ing)) m
        ∙ or_left
            (has_key k (
              order.iterate (SecretIdentifier × Text)
                (get_secret_to_certificate_map pfx base64 ing)))
            (has_key k m)
            (sym (
                any-perm _ (
                  order.iterate_perm (SecretIdentifier × Text)
                    (get_secret_to_certificate_map pfx base64 ing)))
              ∙ has_key-lookup k _ l))),
    all_certificates-All ings _,
  )

  -- Every secret that an ingress has a certificate for has one that is sent.
  abbrev pub IsSent : List SslCertificate → Ingress → Type 0
  IsSent certs ing =
      (k : SecretIdentifier) (v : Text)
      → lookup k (get_secret_to_certificate_map pfx base64 ing) ≡ some v
      → has_name (secret_full_name k) certs ≡ true

  module _ (s : Sort) (ctx : BuilderContext) (app_gw : ApplicationGateway)
      (ings : List Ingress) where
    sent :
        ctx.enable_brownfield_deployment ≡ false
        → (k : SecretIdentifier) → has_key k (all_certificates pfx base64 order ings []) ≡ true
        → has_name (secret_full_name k) (get_ssl_certificates pfx base64 order s ctx app_gw ings)
          ≡ true
    unfolding get_ssl_certificates ssl_certificates
    sent off k h = rw off (
        sym (
          any-perm _ (
            s.sort_perm SslCertificate by_certificate_name_less (
              new_certs (
                order.iterate (SecretIdentifier × Text)
                  (all_certificates pfx base64 order ings [])))))
        ∙ has_name-new_certs k _ (
            sym (
              any-perm _ (
                order.iterate_perm (SecretIdentifier × Text)
                  (all_certificates pfx base64 order ings [])))
            ∙ h))

    pub get_ssl_certificates-IsSent :
        ctx.enable_brownfield_deployment ≡ false
        → All (IsSent (get_ssl_certificates pfx base64 order s ctx app_gw ings)) ings
    get_ssl_certificates-IsSent off = widen ings (all_certificates-All ings [])
      where
        widen :
            (xs : List Ingress)
            → All (IsIn (all_certificates pfx base64 order ings [])) xs
            → All (IsSent (get_ssl_certificates pfx base64 order s ctx app_gw ings)) xs
        widen [] h = tt
        widen (x ∷ xs) h = ((λ k v l. sent off k (h.0 k v l)), widen xs h.1)
