-- ===== src/K8scontext/Handlers/Orderly.antt =====
-- pkg/k8scontext: each handler sends events in good order.
use application_gateway_kube.Common.{
  ℕ, Text, List, Option, none, some, Bool, true, false, not, ◌&&◌, ◌||◌, text_eq, if◌then◌else◌,
  OnReturn, Run-cases, returns, ◌≡◌, refl, arith, inl, inr, Option-cases,
}
use application_gateway_kube.Gateway.{Ingress}
use application_gateway_kube.Kubernetes.{Secret, KeyedStore}
use application_gateway_kube.Utils.Multimap.{SetLibrary, contains_value}
use application_gateway_kube.K8scontext.Secretstore.{SecretError}
use application_gateway_kube.K8scontext.Handlers.{
  Object, ingress_object, secret_object, pod_object, endpoints_object, service_object, tombstone,
  EventType, create, update, deletion, as_ingress, as_secret, get_namespace, is_watched, Watch,
  Surroundings, send, add_func, update_func, delete_func, ingress_key, ingress_add, ingress_delete,
  ingress_update, update_ingress, secret_add, secret_update, secret_delete, convert_used,
  send_converted, secret_key, is_ingress_application_gateway,
}
use application_gateway_kube.K8scontext.Handlers.Sent.{
  and_left, IsOrderly, send-IsOrderly, SameEvents-IsOrderly, link_secrets-SameEvents,
  relink-SameEvents, guarded-IsOrderly,
}

module _ (sets : SetLibrary Text) (certs : KeyedStore (List ℕ)) (c : Surroundings sets certs) where
  abbrev Orderly : Watch sets certs → Type 0
  Orderly s = IsOrderly sets certs c s

  add_func-IsOrderly :
      (obj : Object) (s : Watch sets certs)
      → Orderly s
      → OnReturn Orderly (add_func sets certs c obj s)
  unfolding add_func
  add_func-IsOrderly obj s h = elim (Run-cases (get_namespace obj)) [
    | inl stop ↦ rw stop tt
    | inr (ns, e) ↦ rw e (
        guarded-IsOrderly sets certs c (is_watched c.namespaces ns) h
          λ w. send-IsOrderly sets certs c create obj ns s e w h)
  ]

  update_func-IsOrderly :
      (old_obj obj : Object) (s : Watch sets certs)
      → Orderly s
      → OnReturn Orderly (update_func sets certs c old_obj obj s)
  unfolding update_func
  update_func-IsOrderly old_obj obj s h = elim (Run-cases (get_namespace obj)) [
    | inl stop ↦ rw stop tt
    | inr (ns, e) ↦ rw e (
        guarded-IsOrderly sets certs c
          (is_watched c.namespaces ns && not (c.deep_equal old_obj obj)) h
          λ w. send-IsOrderly sets certs c update obj ns s e (and_left _ _ w) h)
  ]

  delete_func-IsOrderly :
      (obj : Object) (s : Watch sets certs)
      → Orderly s
      → OnReturn Orderly (delete_func sets certs c obj s)
  unfolding delete_func
  delete_func-IsOrderly obj s h = elim (Run-cases (get_namespace obj)) [
    | inl stop ↦ rw stop tt
    | inr (ns, e) ↦ rw e (
        guarded-IsOrderly sets certs c (is_watched c.namespaces ns) h
          λ w. send-IsOrderly sets certs c deletion obj ns s e w h)
  ]

  namespace_of_ingress :
      (obj : Object) (ing : Ingress)
      → as_ingress obj ≡ some ing
      → get_namespace obj ≡ returns ing.namespace
  unfolding get_namespace
  namespace_of_ingress (ingress_object i) ing h = ground arith
  namespace_of_ingress (secret_object x) ing h = absurd (cc)
  namespace_of_ingress (pod_object x) ing h = absurd (cc)
  namespace_of_ingress (endpoints_object x) ing h = absurd (cc)
  namespace_of_ingress (service_object x) ing h = absurd (cc)
  namespace_of_ingress (tombstone x) ing h = absurd (cc)

  namespace_of_secret :
      (obj : Object) (sec : Secret)
      → as_secret obj ≡ some sec
      → get_namespace obj ≡ returns sec.namespace
  unfolding get_namespace
  namespace_of_secret (secret_object i) sec h = ground arith
  namespace_of_secret (ingress_object x) sec h = absurd (cc)
  namespace_of_secret (pod_object x) sec h = absurd (cc)
  namespace_of_secret (endpoints_object x) sec h = absurd (cc)
  namespace_of_secret (service_object x) sec h = absurd (cc)
  namespace_of_secret (tombstone x) sec h = absurd (cc)

  ingress_add-IsOrderly :
      (obj : Object) (s : Watch sets certs)
      → Orderly s
      → OnReturn Orderly (ingress_add sets certs c obj s)
  unfolding ingress_add
  ingress_add-IsOrderly obj s h = elim (Option-cases (as_ingress obj)) [
    | inl stop ↦ rw stop tt
    | inr (ing, e) ↦ rw e (
        guarded-IsOrderly sets certs c
          (is_watched c.namespaces ing.namespace && is_ingress_application_gateway ing) h
          λ w.
            send-IsOrderly sets certs c create obj ing.namespace _ (namespace_of_ingress obj ing e)
              (and_left _ _ w)
              (SameEvents-IsOrderly sets certs c
                (link_secrets-SameEvents sets certs c ing.namespace (ingress_key sets certs c ing)
                  ing.tls s)
                h))
  ]

  ingress_delete-IsOrderly :
      (obj : Object) (s : Watch sets certs)
      → Orderly s
      → OnReturn Orderly (ingress_delete sets certs c obj s)
  unfolding ingress_delete
  ingress_delete-IsOrderly obj s h = elim (Option-cases (as_ingress obj)) [
    | inl stop ↦ rw stop tt
    | inr (ing, e) ↦ rw e (
        guarded-IsOrderly sets certs c
          (is_watched c.namespaces ing.namespace && is_ingress_application_gateway ing) h
          λ w.
            send-IsOrderly sets certs c deletion obj ing.namespace _
              (namespace_of_ingress obj ing e) (and_left _ _ w)
              (SameEvents-IsOrderly sets certs c (record { same_work = refl; same_count = refl })
                h))
  ]

  update_ingress-IsOrderly :
      (old_obj obj : Object) (ing : Ingress) (s : Watch sets certs)
      → as_ingress obj ≡ some ing
      → is_watched c.namespaces ing.namespace ≡ true
      → Orderly s
      → OnReturn Orderly (update_ingress sets certs c old_obj obj ing s)
  update_ingress-IsOrderly old_obj obj ing s e w h = elim (Option-cases (as_ingress old_obj)) [
    | inl stop ↦ rw stop tt
    | inr (old_ing, d) ↦ rw d (
        guarded-IsOrderly sets certs c
          (is_ingress_application_gateway ing || is_ingress_application_gateway old_ing) h
          λ x.
            send-IsOrderly sets certs c update obj ing.namespace _ (namespace_of_ingress obj ing e)
              w (SameEvents-IsOrderly sets certs c (relink-SameEvents sets certs c ing s) h))
  ]

  ingress_update-IsOrderly :
      (old_obj obj : Object) (s : Watch sets certs)
      → Orderly s
      → OnReturn Orderly (ingress_update sets certs c old_obj obj s)
  unfolding ingress_update
  ingress_update-IsOrderly old_obj obj s h = elim (Option-cases (as_ingress obj)) [
    | inl stop ↦ rw stop tt
    | inr (ing, e) ↦ rw e (
        go ing e (is_watched c.namespaces ing.namespace && not (c.deep_equal old_obj obj))
          (λ x. and_left _ _ x))
  ]
    where
      go :
          (ing : Ingress)
          → as_ingress obj ≡ some ing
          → (test : Bool) → (test ≡ true → is_watched c.namespaces ing.namespace ≡ true)
          → OnReturn Orderly
              (if test then update_ingress sets certs c old_obj obj ing s else returns s)
      go ing e true w = update_ingress-IsOrderly old_obj obj ing s e (w refl) h
      go ing e false w = h

  send_converted-IsOrderly :
      (kind : EventType) (obj : Object) (ns : Text) (o : Option SecretError × certs.State)
      (s : Watch sets certs)
      → get_namespace obj ≡ returns ns
      → is_watched c.namespaces ns ≡ true
      → Orderly s
      → Orderly (send_converted sets certs c kind obj o s)
  send_converted-IsOrderly kind obj ns (none, cs) s e w h =
      send-IsOrderly sets certs c kind obj ns _ e w
        (SameEvents-IsOrderly sets certs c (record { same_work = refl; same_count = refl }) h)
  send_converted-IsOrderly kind obj ns (some err, cs) s e w h =
      SameEvents-IsOrderly sets certs c (record { same_work = refl; same_count = refl }) h

  convert_used-IsOrderly :
      (kind : EventType) (obj : Object) (sec : Secret) (s : Watch sets certs)
      → as_secret obj ≡ some sec
      → is_watched c.namespaces sec.namespace ≡ true
      → Orderly s
      → Orderly (convert_used sets certs c kind obj sec s)
  convert_used-IsOrderly kind obj sec s e w h =
      guarded-IsOrderly sets certs c
        (contains_value sets (secret_key sets certs c sec) s.ingress_secrets_map) h
        λ used.
          send_converted-IsOrderly kind obj sec.namespace _ s (namespace_of_secret obj sec e) w h

  secret_add-IsOrderly :
      (obj : Object) (s : Watch sets certs)
      → Orderly s
      → OnReturn Orderly (secret_add sets certs c obj s)
  unfolding secret_add
  secret_add-IsOrderly obj s h = elim (Option-cases (as_secret obj)) [
    | inl stop ↦ rw stop tt
    | inr (sec, e) ↦ rw e (
        guarded-IsOrderly sets certs c (is_watched c.namespaces sec.namespace) h
          λ w. convert_used-IsOrderly create obj sec s e w h)
  ]

  secret_update-IsOrderly :
      (old_obj obj : Object) (s : Watch sets certs)
      → Orderly s
      → OnReturn Orderly (secret_update sets certs c old_obj obj s)
  unfolding secret_update
  secret_update-IsOrderly old_obj obj s h = elim (Option-cases (as_secret obj)) [
    | inl stop ↦ rw stop tt
    | inr (sec, e) ↦ rw e (
        guarded-IsOrderly sets certs c
          (is_watched c.namespaces sec.namespace && not (c.deep_equal old_obj obj)) h
          λ w. convert_used-IsOrderly update obj sec s e (and_left _ _ w) h)
  ]

  secret_delete-IsOrderly :
      (obj : Object) (s : Watch sets certs)
      → Orderly s
      → OnReturn Orderly (secret_delete sets certs c obj s)
  unfolding secret_delete
  secret_delete-IsOrderly obj s h = elim (Option-cases (as_secret obj)) [
    | inl stop ↦ rw stop tt
    | inr (sec, e) ↦ rw e (
        guarded-IsOrderly sets certs c (is_watched c.namespaces sec.namespace) h λ w.
          guarded-after (contains_value sets (secret_key sets certs c sec) s.ingress_secrets_map)
            (SameEvents-IsOrderly sets certs c (record { same_work = refl; same_count = refl }) h)
            (namespace_of_secret obj sec e) w)
  ]
    where
      guarded-after :
          (test : Bool) {ns : Text} {t : Watch sets certs}
          → Orderly t
          → get_namespace obj ≡ returns ns
          → is_watched c.namespaces ns ≡ true
          → Orderly (if test then send sets certs c deletion obj t else t)
      guarded-after true k e w = send-IsOrderly sets certs c deletion obj _ _ e w k
      guarded-after false k e w = k

  -- Whichever handler runs, and unless it panics: every event that was sent was counted, and is about
  -- an object in a namespace that is watched and not ignored, if that was so before.
  pub handlers-IsOrderly :
      (old_obj obj : Object) (s : Watch sets certs)
      → Orderly s
      → OnReturn Orderly (add_func sets certs c obj s)
        × OnReturn Orderly (update_func sets certs c old_obj obj s)
        × OnReturn Orderly (delete_func sets certs c obj s)
        × OnReturn Orderly (ingress_add sets certs c obj s)
        × OnReturn Orderly (ingress_update sets certs c old_obj obj s)
        × OnReturn Orderly (ingress_delete sets certs c obj s)
        × OnReturn Orderly (secret_add sets certs c obj s)
        × OnReturn Orderly (secret_update sets certs c old_obj obj s)
        × OnReturn Orderly (secret_delete sets certs c obj s)
  handlers-IsOrderly old_obj obj s h = (
    add_func-IsOrderly obj s h,
    update_func-IsOrderly old_obj obj s h,
    delete_func-IsOrderly obj s h,
    ingress_add-IsOrderly obj s h,
    ingress_update-IsOrderly old_obj obj s h,
    ingress_delete-IsOrderly obj s h,
    secret_add-IsOrderly obj s h,
    secret_update-IsOrderly old_obj obj s h,
    secret_delete-IsOrderly obj s h,
  )
