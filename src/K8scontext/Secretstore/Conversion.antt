-- ===== src/K8scontext/Secretstore/Conversion.antt =====
-- pkg/k8scontext/secretstore.go: what a conversion leaves in the store.
use application_gateway_kube.Common.{
  ℕ, Text, List, [], ◌∷◌, Option, none, some, Bool, true, false, not, ◌||◌, ◌==◌, text_eq, is_nil,
  if◌then◌else◌, ◌≡◌, refl, arith, is_some, inl, inr, Bool-cases, beq_refl, text_beq_iff,
}
use application_gateway_kube.Kubernetes.{Secret, KeyedStore}
use application_gateway_kube.K8scontext.Secretstore.{
  SecretError, exporting_with_openssl, Machine, recognized_secret_type, tls_key, tls_crt,
  secret_data, get_pfx_certificate, store_output, convert_secret,
}

module _ (lib : KeyedStore (List ℕ)) where
  -- On an error all is as before; without one what openssl printed, which is not empty, stands under
  -- the key; and no other key has another certificate than before.
  pub record IsStored (key : Text) (printed : Option (List ℕ)) (s : lib.State)
      (err : Option SecretError) (t : lib.State) : Type 0 where
    pub failed : (e : SecretError) → err ≡ some e → t ≡ s
    pub converted :
        err ≡ none
        → (printed ≡ some (get_pfx_certificate lib key t))
          × (is_nil (get_pfx_certificate lib key t) ≡ false)
    pub others :
        (k : Text) → (key == k) ≡ false → get_pfx_certificate lib k t ≡ get_pfx_certificate lib k s

  unchanged :
      (key : Text) (printed : Option (List ℕ)) (s : lib.State) (e : SecretError)
      → IsStored key printed s (some e) s
  unchanged key printed s e = record {
    failed = λ e h. refl;
    converted = λ h. absurd (cc);
    others = λ k h. refl;
  }

  store_output-IsStored :
      (key : Text) (printed : Option (List ℕ)) (s : lib.State)
      → let out = store_output lib key printed s in IsStored key printed s out.0 out.1
  unfolding get_pfx_certificate
  store_output-IsStored key none s = unchanged key none s exporting_with_openssl
  store_output-IsStored key (some []) s = unchanged key (some []) s exporting_with_openssl
  store_output-IsStored key (some (b ∷ pfx)) s = elim (Bool-cases (is_some (lib.get key s))) [
    | inl old ↦ rw old (record {
      failed = λ e h. absurd (cc);
      converted = λ h. rw (lib.get-update key key (b ∷ pfx) s, beq_refl key) (refl, refl);
      others = λ k h. rw (lib.get-update key k (b ∷ pfx) s, h) refl;
    })
    | inr new ↦ rw new (record {
      failed = λ e h. absurd (cc);
      converted = λ h. rw (lib.get-add key key (b ∷ pfx) s, beq_refl key) (refl, refl);
      others = λ k h. rw (lib.get-add key k (b ∷ pfx) s, h) refl;
    })
  ]

  guarded-IsStored :
      (test : Bool) (e : SecretError) (key : Text) (printed : Option (List ℕ)) (s : lib.State)
      (rest : Option SecretError × lib.State)
      → IsStored key printed s rest.0 rest.1
      → let out = if test then (some e, s) else rest in IsStored key printed s out.0 out.1
  guarded-IsStored true e key printed s rest h = unchanged key printed s e
  guarded-IsStored false e key printed s rest h = h

  -- A conversion that fails leaves the store as it was. One that succeeds puts what openssl printed
  -- for the certificate and the key of the secret, which is not empty, under the key. Neither changes
  -- the certificate of another key.
  pub convert_secret-IsStored :
      (os : Machine) (key : Text) (secret : Secret) (s : lib.State)
      → IsStored key
          (os.openssl (secret_data tls_crt secret) (secret_data tls_key secret))
          s
          (convert_secret lib os key secret s).0
          (convert_secret lib os key secret s).1
  unfolding convert_secret
  convert_secret-IsStored os key secret s =
      let printed = os.openssl (secret_data tls_crt secret) (secret_data tls_key secret) in
      guarded-IsStored (not (secret.secret_type == recognized_secret_type)) _ key printed s _ (
        guarded-IsStored
          (is_nil (secret_data tls_key secret) || is_nil (secret_data tls_crt secret)) _ key printed
          s _
          (guarded-IsStored (not os.creates_cert_file) _ key printed s _ (
            guarded-IsStored (not os.creates_key_file) _ key printed s _ (
              guarded-IsStored (not (os.writes (secret_data tls_crt secret))) _ key printed s _ (
                guarded-IsStored (not (os.writes (secret_data tls_key secret))) _ key printed s _
                  (store_output-IsStored key printed s))))))

  -- The secrets that a conversion refuses whatever the machine does.
  abbrev pub IsTlsSecret : Secret → Type 0
  IsTlsSecret secret =
      (secret.secret_type ≡ recognized_secret_type)
      × (is_nil (secret_data tls_key secret) ≡ false)
      × (is_nil (secret_data tls_crt secret) ≡ false)

  -- A conversion that succeeds was one of a secret of the recognised type with a key and a
  -- certificate that are not empty.
  pub convert_secret-IsTlsSecret :
      (os : Machine) (key : Text) (secret : Secret) (s : lib.State)
      → (convert_secret lib os key secret s).0 ≡ none
      → IsTlsSecret secret
  unfolding convert_secret
  convert_secret-IsTlsSecret os key secret s h =
      ground (arith, text_beq_iff secret.secret_type recognized_secret_type)
