-- ===== src/Controller/MutateAppGateway/Cached.antt =====
-- pkg/controller/mutate_app_gateway.go: when the gateway is updated, and what the cache holds then.
use application_gateway_kube.Common.{
  Text, List, [], ◌∷◌, Option, none, some, Bool, true, false, text_eq, beq_refl, Run, returns,
  panics, ◌>>=◌, deref, ◌≡◌, refl, subst, OnReturn, >>=-OnReturn, Bool-cases, inl, inr, ◌⊎◌,
}
use application_gateway_kube.Appgw.Validators.{ValidationError, fatal_validate_on_existing_config}
use application_gateway_kube.Controller.Prune.{PruneFunc, prune_ingress}
use application_gateway_kube.Controller.MutateAppGateway.{
  JsonLibrary, ConfigCache, sanitized, config_is_same, store, update_cache, MutateError,
  build_failed, invalid_config, fetching_app_gateway_config, Answers, Outcome, stopped, after_put,
  deploy, validated, BuildInput, mutate_config, ports_by_number, prune_context, mutate_app_gateway,
}

module _ {Config BuildError : Type 0} (json : JsonLibrary Config)
    (a : Answers Config BuildError) where
  -- At most one configuration is sent, and only one that differs from the cache. Unless it is sent and
  -- accepted, the cache stays as it was; if it is, and has a JSON form, the cache knows it afterwards.
  pub record IsCached (cache : ConfigCache) (out : Outcome Config BuildError) : Type 0 where
    pub at_most_one :
        (out.puts ≡ [])
        ⊎ ((config : Config) × (out.puts ≡ config ∷ [])
            × (config_is_same json cache config ≡ false))
    pub kept :
        (out.puts ≡ []) ⊎ ((err : MutateError BuildError) × (out.error ≡ some err))
        → out.cache ≡ cache
    pub known :
        (config : Config) (text : Text)
        → out.puts ≡ config ∷ []
        → out.error ≡ none
        → cache.present ≡ true
        → sanitized json config ≡ some text
        → config_is_same json out.cache config ≡ true

  stopped-IsCached :
      (cache : ConfigCache) (err : MutateError BuildError)
      → IsCached cache (stopped json a cache err)
  stopped-IsCached cache err = record {
    at_most_one = inl refl;
    kept = λ h. refl;
    known = λ config text p e. absurd (cc);
  }

  abbrev Cached : ConfigCache → Run (Outcome Config BuildError) → Type 0
  Cached cache = OnReturn (IsCached cache)

  stored-IsCached :
      (cache : ConfigCache) (config : Config) (o : Option Text)
      → sanitized json config ≡ o
      → config_is_same json cache config ≡ false
      → Cached cache (
          store json cache o >>= λ updated. returns (record {
            error = none;
            cache = record cache { content = updated.content };
            puts = config ∷ [];
          }))
  unfolding config_is_same
  stored-IsCached cache config none e d = record {
    at_most_one = inr (config, refl, d);
    kept = λ h. refl;
    known = λ c text p err present s. absurd (
        let same : config ≡ c = cc in
        let gone : sanitized json c ≡ none = subst (λ x. sanitized json x ≡ none) same e in cc);
  }
  stored-IsCached cache config (some text) e d = elim (Bool-cases cache.present) [
    | inr nil ↦ rw nil tt
    | inl there ↦ simp there (record {
      at_most_one = inr (config, refl, d);
      kept = λ h. absurd (elim h [ inl p ↦ cc | inr (err, q) ↦ cc ]);
      known = λ c text' p err present s.
          let same : config ≡ c = cc in
          subst (λ x. config_is_same json (record { present = true; content = text }) x ≡ true) same
            (rw e (beq_refl text));
    })
  ]

  sent-IsCached :
      (cache : ConfigCache) (config : Config) (ok : Bool)
      → config_is_same json cache config ≡ false
      → Cached cache (after_put json a cache config ok)
  unfolding update_cache
  sent-IsCached cache config false d = record {
    at_most_one = inr (config, refl, d);
    kept = λ h. refl;
    known = λ c text p e. absurd (cc);
  }
  sent-IsCached cache config true d = stored-IsCached cache config (sanitized json config) refl d

  deploy-IsCached :
      (cache : ConfigCache) (built : Option BuildError × Config)
      → Cached cache (deploy json a cache built)
  deploy-IsCached cache (some err, config) = stopped-IsCached cache (build_failed err)
  deploy-IsCached cache (none, config) = elim (Bool-cases (config_is_same json cache config)) [
    | inl same ↦
        rw same
          (record { at_most_one = inl refl; kept = λ h. refl; known = λ c text p. absurd (cc) })
    | inr differs ↦ rw differs (sent-IsCached cache config (a.update_gateway config) differs)
  ]

  validated-IsCached :
      (cache : ConfigCache) (config : Config) (input : BuildInput)
      (verdict : Option ValidationError)
      → Cached cache (validated json a cache config input verdict)
  validated-IsCached cache config input (some err) = stopped-IsCached cache (invalid_config err)
  validated-IsCached cache config input none = deploy-IsCached cache (a.build input config)

  beside :
      (cache : ConfigCache) (funcs : Option (List PruneFunc)) (m : Run (Outcome Config BuildError))
      → Cached cache m
      → OnReturn
          (λ (out : Option (List PruneFunc) × Outcome Config BuildError). IsCached cache out.1)
          (m >>= λ out. returns (funcs, out))
  beside cache funcs (returns out) h = h
  beside cache funcs panics h = tt

  mutate_config-IsCached :
      (cache : ConfigCache) (once : Option (List PruneFunc)) (got : Option Config)
      → OnReturn
          (λ (out : Option (List PruneFunc) × Outcome Config BuildError). IsCached cache out.1)
          (mutate_config json a cache once got)
  mutate_config-IsCached cache once none = stopped-IsCached cache fetching_app_gateway_config
  mutate_config-IsCached cache once (some config) =
      >>=-OnReturn _ (deref (a.ports_of config)) _ λ ports r1.
        >>=-OnReturn _ (ports_by_number ports []) _ λ existing r2.
          >>=-OnReturn _ (prune_ingress (prune_context json a config) once a.ingresses) _
            λ pruned r3.
              >>=-OnReturn _
                (fatal_validate_on_existing_config (some (a.ip_configurations_of config))
                  a.env.use_private_ip)
                _ λ verdict r4. beside cache pruned.0 _ (validated-IsCached cache config _ verdict)

  -- Whatever the other parts answer, and unless it panics: `MutateAppGateway` sends at most one
  -- configuration, and only one that differs from the cache. The cache stays as it was if none is sent
  -- or an error comes back, and otherwise knows what was sent, if that has a JSON form.
  pub mutate_app_gateway-IsCached :
      (cache : ConfigCache) (once : Option (List PruneFunc))
      → OnReturn
          (λ (out : Option (List PruneFunc) × Outcome Config BuildError). IsCached cache out.1)
          (mutate_app_gateway json a cache once)
  unfolding mutate_app_gateway
  mutate_app_gateway-IsCached cache once = mutate_config-IsCached cache once a.get_gateway
