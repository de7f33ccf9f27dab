-- ===== src/K8scontext/Handlers/Sent.antt =====
-- pkg/k8scontext: the events that the handlers send.
use application_gateway_kube.Common.{
  ℕ, Text, List, [], ◌∷◌, Option, none, some, Bool, true, false, ◌&&◌, text_eq, if◌then◌else◌,
  returns, All, All-append, length, length-append, ◌≡◌, refl, arith, is_nil, ◌∙◌,
}
use application_gateway_kube.Gateway.{Ingress, IngressTls}
use application_gateway_kube.Kubernetes.{Secret, KeyedStore, Fetched, found, absent, unreadable}
use application_gateway_kube.Utils.{get_resource_key}
use application_gateway_kube.Utils.Multimap.{SetLibrary, contains_pair, contains_value}
use application_gateway_kube.K8scontext.Secretstore.{SecretError}
use application_gateway_kube.K8scontext.Handlers.{
  Object, EventType, Event, get_namespace, is_watched, Watch, Surroundings, send, link_converted,
  link_fetched, link_secrets, ingress_key, relink,
}

pub and_left : (a b : Bool) → (a && b) ≡ true → a ≡ true
and_left a b h = ground arith

module _ (sets : SetLibrary Text) (certs : KeyedStore (List ℕ)) (c : Surroundings sets certs) where
  -- The event is about an object in a namespace that is watched.
  abbrev pub IsAllowed : Event → Type 0
  IsAllowed event =
      (ns : Text) × (get_namespace event.value ≡ returns ns) × (is_watched c.namespaces ns ≡ true)

  -- Each event that was sent was counted, and is about an object in a watched namespace.
  pub record IsOrderly (s : Watch sets certs) : Type 0 where
    pub counted : s.event_count ≡ length s.work
    pub allowed : All IsAllowed s.work

  pub send-IsOrderly :
      (kind : EventType) (obj : Object) (ns : Text) (s : Watch sets certs)
      → get_namespace obj ≡ returns ns
      → is_watched c.namespaces ns ≡ true
      → IsOrderly s
      → IsOrderly (send sets certs c kind obj s)
  send-IsOrderly kind obj ns s e w h = record {
    counted =
        omega
          (arith, h.counted, length-append s.work (record { event_type = kind; value = obj } ∷ []));
    allowed = All-append IsAllowed s.work _ h.allowed ((ns, e, w), tt);
  }

  -- The sending is all that changes what `IsOrderly` reads.
  pub record SameEvents (s t : Watch sets certs) : Type 0 where
    pub same_work : t.work ≡ s.work
    pub same_count : t.event_count ≡ s.event_count

  pub SameEvents-IsOrderly : {s t : Watch sets certs} → SameEvents s t → IsOrderly s → IsOrderly t
  SameEvents-IsOrderly {s} {t} e h = record {
    counted = rw (e.same_work, e.same_count) h.counted;
    allowed = rw e.same_work h.allowed;
  }

  SameEvents-refl : (s : Watch sets certs) → SameEvents s s
  SameEvents-refl s = record { same_work = refl; same_count = refl }

  SameEvents-trans : {s t u : Watch sets certs} → SameEvents s t → SameEvents t u → SameEvents s u
  SameEvents-trans d e = record {
    same_work = e.same_work ∙ d.same_work;
    same_count = e.same_count ∙ d.same_count;
  }

  SameEvents-if :
      (test : Bool) {s t u : Watch sets certs}
      → SameEvents s t
      → SameEvents s u
      → SameEvents s (if test then t else u)
  SameEvents-if true h k = h
  SameEvents-if false h k = k

  link_converted-SameEvents :
      (ing_key sec_key : Text) (o : Option SecretError × certs.State) (s : Watch sets certs)
      → SameEvents s (link_converted sets certs c ing_key sec_key o s)
  link_converted-SameEvents ing_key sec_key (none, cs) s = record {
    same_work = refl;
    same_count = refl;
  }
  link_converted-SameEvents ing_key sec_key (some err, cs) s = record {
    same_work = refl;
    same_count = refl;
  }

  link_fetched-SameEvents :
      (ing_key sec_key : Text) (o : Fetched Secret) (s : Watch sets certs)
      → SameEvents s (link_fetched sets certs c ing_key sec_key o s)
  link_fetched-SameEvents ing_key sec_key (found secret) s =
      SameEvents-if (contains_value sets sec_key s.ingress_secrets_map)
        (record { same_work = refl; same_count = refl })
        (link_converted-SameEvents ing_key sec_key _ s)
  link_fetched-SameEvents ing_key sec_key absent s = record { same_work = refl; same_count = refl }
  link_fetched-SameEvents ing_key sec_key unreadable s = record {
    same_work = refl;
    same_count = refl;
  }

  pub link_secrets-SameEvents :
      (namespace ing_key : Text) (tls : List IngressTls) (s : Watch sets certs)
      → SameEvents s (link_secrets sets certs c namespace ing_key tls s)
  unfolding link_secrets
  link_secrets-SameEvents namespace ing_key [] s = SameEvents-refl s
  link_secrets-SameEvents namespace ing_key (t ∷ tls) s =
      SameEvents-trans
        (SameEvents-if
          (contains_pair sets ing_key (get_resource_key namespace t.secret_name)
            s.ingress_secrets_map)
          (SameEvents-refl s) (link_fetched-SameEvents ing_key _ _ s))
        (link_secrets-SameEvents namespace ing_key tls _)

  pub relink-SameEvents :
      (ing : Ingress) (s : Watch sets certs) → SameEvents s (relink sets certs c ing s)
  relink-SameEvents ing s = SameEvents-if (is_nil ing.tls) (SameEvents-refl s) (
      SameEvents-trans (record { same_work = refl; same_count = refl })
        (link_secrets-SameEvents ing.namespace (ingress_key sets certs c ing) ing.tls _))

  -- A handler that sends, after a test, what is about a watched namespace.
  pub guarded-IsOrderly :
      (test : Bool) {s t : Watch sets certs}
      → IsOrderly s
      → (test ≡ true → IsOrderly t)
      → IsOrderly (if test then t else s)
  guarded-IsOrderly true h k = k refl
  guarded-IsOrderly false h k = h
