-- ===== src/K8scontext/Handlers/Secrets.antt =====
-- pkg/k8scontext/ingress_handlers.go: which secrets are held to belong to an ingress.
use application_gateway_kube.Common.{
  ℕ, Text, List, [], ◌∷◌, Option, none, some, true, false, ◌==◌, text_eq, text_beq_iff, beq_refl,
  returns, All, ◌≡◌, refl, arith, Bool-cases, inl, inr, is_nil, ◌⊎◌, GoMap,
}
use application_gateway_kube.Gateway.{Ingress, IngressTls}
use application_gateway_kube.Kubernetes.{Secret, KeyedStore, Fetched, found, absent, unreadable}
use application_gateway_kube.Utils.{get_resource_key}
use application_gateway_kube.Utils.Multimap.{SetLibrary, contains_pair, contains_value, clear}
use application_gateway_kube.Utils.Multimap.Relation.{
  contains_pair-insert_pair, contains_pair-clear,
}
use application_gateway_kube.K8scontext.Secretstore.{SecretError, convert_secret}
use application_gateway_kube.K8scontext.Handlers.{
  ingress_object, listed_in, is_watched, Watch, Surroundings, link, link_converted, link_fetched,
  link_secrets, ingress_key, ingress_update, is_ingress_application_gateway,
}

module _ (sets : SetLibrary Text) (certs : KeyedStore (List ℕ)) (c : Surroundings sets certs) where
  abbrev pub Pairs : Type 0
  Pairs = GoMap Text sets.Set

  abbrev pub HasPair : Pairs → Text → Text → Type 0
  HasPair m key sec = contains_pair sets key sec m ≡ true

  -- The secret is in the cache, and a conversion of it fails.
  abbrev pub IsRefused : Text → Type 0
  IsRefused sec =
      (secret : Secret) × (store : certs.State) × (err : SecretError) × (c.secret_cache.get_by_key
          sec
        ≡ found secret)
      × ((convert_secret certs (c.machine sec) sec secret store).0 ≡ some err)

  -- What a step towards linking the secrets to the key of an ingress does to the pairs.
  pub record Links (key : Text) (secrets : List Text) (s t : Pairs) : Type 0 where
    pub only :
        (j w : Text) → HasPair t j w → HasPair s j w ⊎ ((key ≡ j) × (listed_in w secrets ≡ true))
    pub kept : (j w : Text) → HasPair s j w → HasPair t j w
    pub linked : All (λ w. HasPair t key w ⊎ IsRefused w) secrets

  Links-one :
      (key sec : Text) (s : Watch sets certs) (cs : certs.State)
      → Links key
          (sec ∷ [])
          s.ingress_secrets_map
          (link sets certs c key sec (record s { certificates = cs })).ingress_secrets_map
  Links-one key sec s cs = record {
    only = λ j w h. ground (
      arith,
      contains_pair-insert_pair sets key j sec w s.ingress_secrets_map,
      text_beq_iff key j,
    );
    kept =
        λ j w h. ground (arith, contains_pair-insert_pair sets key j sec w s.ingress_secrets_map);
    linked = (
      inl (
          ground (
            arith,
            contains_pair-insert_pair sets key key sec sec s.ingress_secrets_map,
            text_beq_iff key key,
            text_beq_iff sec sec,
          )),
      tt,
    );
  }

  Links-refused : (key sec : Text) (s : Pairs) → IsRefused sec → Links key (sec ∷ []) s s
  Links-refused key sec s r = record {
    only = λ j w h. inl h;
    kept = λ j w h. h;
    linked = (inr r, tt);
  }

  Links-present : (key sec : Text) (s : Pairs) → HasPair s key sec → Links key (sec ∷ []) s s
  Links-present key sec s p = record {
    only = λ j w h. inl h;
    kept = λ j w h. h;
    linked = (inl p, tt);
  }

  keep_linked :
      (key : Text) (secrets : List Text) (t u : Pairs)
      → ((j w : Text) → HasPair t j w → HasPair u j w)
      → All (λ w. HasPair t key w ⊎ IsRefused w) secrets
      → All (λ w. HasPair u key w ⊎ IsRefused w) secrets
  keep_linked key [] t u k h = tt
  keep_linked key (w ∷ ws) t u k (inl p, h) = (inl (k key w p), keep_linked key ws t u k h)
  keep_linked key (w ∷ ws) t u k (inr r, h) = (inr r, keep_linked key ws t u k h)

  Links-cons :
      (key sec : Text) (secrets : List Text) {s t u : Pairs}
      → Links key (sec ∷ []) s t
      → Links key secrets t u
      → Links key (sec ∷ secrets) s u
  Links-cons key sec secrets {s} {t} {u} a b = record {
    only = λ j w h. ground (arith, b.only j w h, a.only j w);
    kept = λ j w h. b.kept j w (a.kept j w h);
    linked = ((keep_linked key (sec ∷ []) t u b.kept a.linked).0, b.linked);
  }

  link_converted-Links :
      (key sec : Text) (secret : Secret) (s : Watch sets certs)
      (o : Option SecretError × certs.State)
      → c.secret_cache.get_by_key sec ≡ found secret
      → convert_secret certs (c.machine sec) sec secret s.certificates ≡ o
      → Links key
          (sec ∷ [])
          s.ingress_secrets_map
          (link_converted sets certs c key sec o s).ingress_secrets_map
  link_converted-Links key sec secret s (none, cs) f e = Links-one key sec s cs
  link_converted-Links key sec secret s (some err, cs) f e =
      Links-refused key sec s.ingress_secrets_map (secret, s.certificates, err, f, rw e refl)

  link_fetched-Links :
      (key sec : Text) (o : Fetched Secret) (s : Watch sets certs)
      → c.secret_cache.get_by_key sec ≡ o
      → Links key
          (sec ∷ [])
          s.ingress_secrets_map
          (link_fetched sets certs c key sec o s).ingress_secrets_map
  link_fetched-Links key sec (found secret) s f =
      elim (Bool-cases (contains_value sets sec s.ingress_secrets_map)) [
        | inl used ↦ rw used (Links-one key sec s s.certificates)
        | inr unused ↦ rw unused (link_converted-Links key sec secret s _ f refl)
      ]
  link_fetched-Links key sec absent s f = Links-one key sec s s.certificates
  link_fetched-Links key sec unreadable s f = Links-one key sec s s.certificates

  abbrev pub secret_keys : Text → List IngressTls → List Text
  secret_keys namespace [] = []
  secret_keys namespace (t ∷ tls) =
      get_resource_key namespace t.secret_name ∷ secret_keys namespace tls

  pub link_secrets-Links :
      (namespace key : Text) (tls : List IngressTls) (s : Watch sets certs)
      → Links key
          (secret_keys namespace tls)
          s.ingress_secrets_map
          (link_secrets sets certs c namespace key tls s).ingress_secrets_map
  unfolding link_secrets
  link_secrets-Links namespace key [] s = record {
    only = λ j w h. inl h;
    kept = λ j w h. h;
    linked = tt;
  }
  link_secrets-Links namespace key (t ∷ tls) s =
      let sec = get_resource_key namespace t.secret_name in
      Links-cons key sec (secret_keys namespace tls)
        (elim (Bool-cases (contains_pair sets key sec s.ingress_secrets_map)) [
          | inl there ↦ rw there (Links-present key sec s.ingress_secrets_map there)
          | inr missing ↦ rw missing (link_fetched-Links key sec _ s refl)
        ])
        (link_secrets-Links namespace key tls _)

  -- What holds of the pairs before and after an ingress was linked to its secrets anew.
  pub record IsRelinked (ing : Ingress) (s t : Pairs) : Type 0 where
    pub named :
        (w : Text)
        → HasPair t (ingress_key sets certs c ing) w
        → listed_in w (secret_keys ing.namespace ing.tls) ≡ true
    pub held :
        All
          (λ w. HasPair t (ingress_key sets certs c ing) w ⊎ IsRefused w)
          (secret_keys ing.namespace ing.tls)
    pub others :
        (j w : Text)
        → (ingress_key sets certs c ing == j) ≡ false
        → contains_pair sets j w t ≡ contains_pair sets j w s

  relinked :
      (ing : Ingress) (s t : Pairs)
      → Links
          (ingress_key sets certs c ing)
          (secret_keys ing.namespace ing.tls)
          (clear sets (ingress_key sets certs c ing) s)
          t
      → IsRelinked ing s t
  relinked ing s t l =
      let key = ingress_key sets certs c ing in
      record {
        named = λ w h.
            ground (arith, l.only key w h, contains_pair-clear sets key key w s, beq_refl key);
        held = l.linked;
        others = λ j w off. ground (
          arith,
          l.only j w,
          l.kept j w,
          contains_pair-clear sets key j w s,
          text_beq_iff key j,
          Bool-cases (contains_pair sets j w t),
        );
      }

  -- An update of a changed ingress of the controller's class, in a watched namespace and with TLS
  -- sections, returns. Afterwards the secrets held for it are among those that its sections name, each of
  -- those is held or was refused by a conversion, and the secrets of other ingresses are as before.
  pub ingress_update-IsRelinked :
      (old ing : Ingress) (s : Watch sets certs)
      → is_watched c.namespaces ing.namespace ≡ true
      → c.deep_equal (ingress_object old) (ingress_object ing) ≡ false
      → is_ingress_application_gateway ing ≡ true
      → is_nil ing.tls ≡ false
      → (t : Watch sets certs) × (ingress_update sets certs c
            (ingress_object old)
            (ingress_object ing)
            s
          ≡ returns t)
        × IsRelinked ing s.ingress_secrets_map t.ingress_secrets_map
  unfolding ingress_update
  ingress_update-IsRelinked old ing s w d a n =
      rw (w, d, a, n)
        (
          _,
          refl,
          relinked ing s.ingress_secrets_map _ (link_secrets-Links ing.namespace _ ing.tls _),
        )
