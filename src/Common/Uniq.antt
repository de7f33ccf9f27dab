-- ===== src/Common/Uniq.antt =====
-- A Go map filled from a list of items by a key, and the list of its values.
use application_gateway_kube.Common.Tests.{Comparable, ◌==◌, if◌then◌else◌, Bool-cases}
use application_gateway_kube.Common.Maps.{GoMap, values, lookup, member, insert, lookup-insert}
use application_gateway_kube.Common.Keyed.{
  All, any, find_key, last_key, later, UniqueKeys, SameByKey-perm,
}
use application_gateway_kube.Common.Order.{MapOrder}
use mathlib.Core.Path.{subst, ◌≡◌, refl, ◌∙◌, sym, ap}
use mathlib.Core.Logic.{inl, inr}
use mathlib.Core.Bool.{Bool, true}
use mathlib.Core.Option.{Option, none, some}
use mathlib.Core.List.{List, [], ◌∷◌, ◌++◌, Permᴰ}
use native.Mathlib.Omega.{arith}

abbrev pub concat {ℓ} : {A : Type ℓ} → List (List A) → List A
concat [] = []
concat (b ∷ bs) = b ++ concat bs

pub values-perm : {K V : Type 0} {m n : GoMap K V} → Permᴰ m n → Permᴰ (values m) (values n)
values-perm Permᴰ.nil = Permᴰ.nil
values-perm {m = (k, v) ∷ m} {n = (j, w) ∷ n} (Permᴰ.cons e p) =
    Permᴰ.cons (ap (λ t. t.1) e) (values-perm p)
values-perm (Permᴰ.swap e f) = Permᴰ.swap (ap (λ t. t.1) e) (ap (λ t. t.1) f)
values-perm (Permᴰ.trans p q) = Permᴰ.trans (values-perm p) (values-perm q)

module _ {A K : Type 0} ⦃e : Comparable K⦄ (key : A → K) where
  -- `for _, x := range bucket { uniq[key(x)] = x }`
  unfoldable pub put_all : GoMap K A → List A → GoMap K A
  put_all m [] = m
  put_all m (x ∷ xs) = put_all (insert (key x) x m) xs

  -- The same for each bucket of a list of buckets.
  unfoldable pub put_buckets : GoMap K A → List (List A) → GoMap K A
  unfolding put_all
  put_buckets m [] = m
  put_buckets m (b ∷ bs) = put_buckets (put_all m b) bs

  -- The loop that keeps the item that came first.
  unfoldable pub put_new : GoMap K A → List A → GoMap K A
  put_new m [] = m
  put_new m (x ∷ xs) = put_new (if member (key x) m then m else insert (key x) x m) xs

  unfoldable pub put_new_buckets : GoMap K A → List (List A) → GoMap K A
  unfolding put_new
  put_new_buckets m [] = m
  put_new_buckets m (b ∷ bs) = put_new_buckets (put_new m b) bs

  -- `for _, x := range uniq { merged = append(merged, x) }`
  abbrev pub range_values : MapOrder → GoMap K A → List A
  range_values order m = values (order.iterate (K × A) m)

  -- Every entry stands under its own key, and no key stands twice.
  abbrev pub IsKeyed : GoMap K A → Type 0
  IsKeyed [] = Unit
  IsKeyed ((k, v) ∷ m) = (k ≡ key v) × (lookup k m ≡ none) × IsKeyed m

  pub insert-IsKeyed : (x : A) (m : GoMap K A) → IsKeyed m → IsKeyed (insert (key x) x m)
  unfolding insert lookup
  insert-IsKeyed x [] h = (refl, refl, tt)
  insert-IsKeyed x ((j, v) ∷ m) h = elim (Bool-cases (j == key x)) [
    | inl same ↦ rw same ((e.same_iff j (key x)).0 same, h.1, h.2)
    | inr off ↦ rw off (
      h.0,
      ground (arith, lookup-insert (key x) j x m, e.same_iff j (key x), e.same_iff (key x) j),
      insert-IsKeyed x m h.2,
    )
  ]

  find_key-values : (k : K) (m : GoMap K A) → IsKeyed m → find_key key k (values m) ≡ lookup k m
  unfolding find_key lookup
  find_key-values k [] h = refl
  find_key-values k ((j, v) ∷ m) h = rw (← h.0, find_key-values k m h.2)

  UniqueKeys-values : (m : GoMap K A) → IsKeyed m → UniqueKeys key (values m)
  UniqueKeys-values [] h = tt
  UniqueKeys-values ((j, v) ∷ m) h =
      (rw (find_key-values (key v) m h.2, ← h.0) h.1, UniqueKeys-values m h.2)

  lookup-put_all :
      (k : K) (m : GoMap K A) (xs : List A)
      → lookup k (put_all m xs) ≡ later (last_key key k xs) (lookup k m)
  unfolding put_all last_key
  lookup-put_all k m [] = refl
  lookup-put_all k m (x ∷ xs) =
      ground (arith, lookup-put_all k (insert (key x) x m) xs, lookup-insert (key x) k x m)

  lookup-put_new :
      (k : K) (m : GoMap K A) (xs : List A)
      → lookup k (put_new m xs) ≡ later (lookup k m) (find_key key k xs)
  unfolding put_new find_key
  lookup-put_new k m [] = ground arith
  lookup-put_new k m (x ∷ xs) = elim (Bool-cases (member (key x) m)) [
    | inl old ↦ rw old (ground (arith, lookup-put_new k m xs, e.same_iff (key x) k))
    | inr new ↦ rw new (
        ground (
          arith,
          lookup-put_new k (insert (key x) x m) xs,
          lookup-insert (key x) k x m,
          e.same_iff (key x) k,
        ))
  ]

  -- The index of a list has the last item of each key.
  pub lookup-index : (k : K) (xs : List A) → lookup k (put_all [] xs) ≡ last_key key k xs
  unfolding lookup
  lookup-index k xs = ground (arith, lookup-put_all k [] xs)

  put_all-IsKeyed : (m : GoMap K A) (xs : List A) → IsKeyed m → IsKeyed (put_all m xs)
  unfolding put_all
  put_all-IsKeyed m [] h = h
  put_all-IsKeyed m (x ∷ xs) h = put_all-IsKeyed (insert (key x) x m) xs (insert-IsKeyed x m h)

  put_new-IsKeyed : (m : GoMap K A) (xs : List A) → IsKeyed m → IsKeyed (put_new m xs)
  unfolding put_new
  put_new-IsKeyed m [] h = h
  put_new-IsKeyed m (x ∷ xs) h = elim (Bool-cases (member (key x) m)) [
    | inl old ↦ rw old (put_new-IsKeyed m xs h)
    | inr new ↦ rw new (put_new-IsKeyed (insert (key x) x m) xs (insert-IsKeyed x m h))
  ]

  put_all-append :
      (m : GoMap K A) (xs ys : List A) → put_all m (xs ++ ys) ≡ put_all (put_all m xs) ys
  unfolding put_all
  put_all-append m [] ys = refl
  put_all-append m (x ∷ xs) ys = put_all-append (insert (key x) x m) xs ys

  put_new-append :
      (m : GoMap K A) (xs ys : List A) → put_new m (xs ++ ys) ≡ put_new (put_new m xs) ys
  unfolding put_new
  put_new-append m [] ys = refl
  put_new-append m (x ∷ xs) ys =
      put_new-append (if member (key x) m then m else insert (key x) x m) xs ys

  put_buckets-concat :
      (m : GoMap K A) (bs : List (List A)) → put_buckets m bs ≡ put_all m (concat bs)
  unfolding put_buckets
  put_buckets-concat m [] = refl
  put_buckets-concat m (b ∷ bs) =
      put_buckets-concat (put_all m b) bs ∙ sym (put_all-append m b (concat bs))

  put_new_buckets-concat :
      (m : GoMap K A) (bs : List (List A)) → put_new_buckets m bs ≡ put_new m (concat bs)
  unfolding put_new_buckets
  put_new_buckets-concat m [] = refl
  put_new_buckets-concat m (b ∷ bs) =
      put_new_buckets-concat (put_new m b) bs ∙ sym (put_new-append m b (concat bs))

  module _ (order : MapOrder) (m : GoMap K A) (h : IsKeyed m) where
    pub UniqueKeys-range_values : UniqueKeys key (range_values order m)
    UniqueKeys-range_values =
        (SameByKey-perm key (values-perm (order.iterate_perm (K × A) m))).unique
          (UniqueKeys-values m h)

    pub find_key-range_values : (k : K) → find_key key k (range_values order m) ≡ lookup k m
    find_key-range_values k =
        (SameByKey-perm key (values-perm (order.iterate_perm (K × A) m))).finds
          (UniqueKeys-values m h) k
        ∙ find_key-values k m h

  -- Overwriting: the last item of a key is kept, once.
  pub find_key-put_buckets :
      (order : MapOrder) (bs : List (List A)) (k : K)
      → find_key key k (range_values order (put_buckets [] bs)) ≡ last_key key k (concat bs)
  unfolding lookup
  find_key-put_buckets order bs k = rw (put_buckets-concat [] bs) (
      find_key-range_values order (put_all [] (concat bs)) (put_all-IsKeyed [] (concat bs) tt) k
      ∙ lookup-put_all k [] (concat bs)
      ∙ later-none (last_key key k (concat bs)))
    where
      later-none : (o : Option A) → later o none ≡ o
      later-none none = refl
      later-none (some a) = refl

  pub UniqueKeys-put_buckets :
      (order : MapOrder) (bs : List (List A))
      → UniqueKeys key (range_values order (put_buckets [] bs))
  UniqueKeys-put_buckets order bs =
      rw (put_buckets-concat [] bs)
        (UniqueKeys-range_values order (put_all [] (concat bs)) (put_all-IsKeyed [] (concat bs) tt))

  -- Keeping: the first item of a key is kept, once.
  pub find_key-put_new_buckets :
      (order : MapOrder) (bs : List (List A)) (k : K)
      → find_key key k (range_values order (put_new_buckets [] bs)) ≡ find_key key k (concat bs)
  unfolding lookup
  find_key-put_new_buckets order bs k = rw (put_new_buckets-concat [] bs) (
      find_key-range_values order (put_new [] (concat bs)) (put_new-IsKeyed [] (concat bs) tt) k
      ∙ lookup-put_new k [] (concat bs))

  pub UniqueKeys-put_new_buckets :
      (order : MapOrder) (bs : List (List A))
      → UniqueKeys key (range_values order (put_new_buckets [] bs))
  UniqueKeys-put_new_buckets order bs =
      rw (put_new_buckets-concat [] bs)
        (UniqueKeys-range_values order (put_new [] (concat bs)) (put_new-IsKeyed [] (concat bs) tt))

-- What holds of all entries holds after an entry more.
pub All-insert :
    {K V : Type 0} ⦃e : Comparable K⦄ (P : V → Type 0) (k : K) (v : V) (m : GoMap K V)
    → P v
    → All (λ (entry : K × V). P entry.1) m
    → All (λ (entry : K × V). P entry.1) (insert k v m)
unfolding insert
All-insert P k v [] p h = (p, tt)
All-insert ⦃e⦄ P k v ((j, w) ∷ m) p h = elim (Bool-cases (j == k)) [
  | inl same ↦ rw same (p, h.1)
  | inr off ↦ rw off (h.0, All-insert P k v m p h.1)
]

pub All-lookup :
    {K V : Type 0} ⦃e : Comparable K⦄ (P : K → Type 0) (k : K) {v : V} (m : GoMap K V)
    → All (λ (entry : K × V). P entry.0) m
    → lookup k m ≡ some v
    → P k
unfolding lookup
All-lookup P k [] h f = absurd (cc)
All-lookup ⦃e⦄ P k ((j, w) ∷ m) h f = elim (Bool-cases (j == k)) [
  | inl same ↦ subst P ((e.same_iff j k).0 same) h.0
  | inr off ↦ All-lookup P k m h.1 (rw off at f)
]

pub All-insert_key :
    {K V : Type 0} ⦃e : Comparable K⦄ (P : K → Type 0) (k : K) (v : V) (m : GoMap K V)
    → P k
    → All (λ (entry : K × V). P entry.0) m
    → All (λ (entry : K × V). P entry.0) (insert k v m)
unfolding insert
All-insert_key P k v [] p h = (p, tt)
All-insert_key ⦃e⦄ P k v ((j, w) ∷ m) p h = elim (Bool-cases (j == k)) [
  | inl same ↦ rw same (h.0, h.1)
  | inr off ↦ rw off (h.0, All-insert_key P k v m p h.1)
]

pub All-lookup_value :
    {K V : Type 0} ⦃e : Comparable K⦄ (P : V → Type 0) (k : K) {v : V} (m : GoMap K V)
    → All (λ (entry : K × V). P entry.1) m
    → lookup k m ≡ some v
    → P v
unfolding lookup
All-lookup_value P k [] h f = absurd (cc)
All-lookup_value ⦃e⦄ P k {v} ((j, w) ∷ m) h f = elim (Bool-cases (j == k)) [
  | inl same ↦ let here : w ≡ v = ground arith in subst P here h.0
  | inr off ↦ All-lookup_value P k m h.1 (rw off at f)
]

-- The same of entries, whose key may be that of an entry that is there.
pub All-insert_entry :
    {K V : Type 0} ⦃e : Comparable K⦄ (P : K × V → Type 0) (k : K) (v : V) (m : GoMap K V)
    → P (k, v)
    → All P m
    → All P (insert k v m)
unfolding insert
All-insert_entry P k v [] p h = (p, tt)
All-insert_entry ⦃e⦄ P k v ((j, w) ∷ m) p h = elim (Bool-cases (j == k)) [
  | inl same ↦
      let here : k ≡ j = sym ((e.same_iff j k).0 same) in
      rw same (subst (λ i. P (i, v)) here p, h.1)
  | inr off ↦ rw off (h.0, All-insert_entry P k v m p h.1)
]

pub All-lookup_entry :
    {K V : Type 0} ⦃e : Comparable K⦄ (P : K × V → Type 0) (k : K) {v : V} (m : GoMap K V)
    → All P m
    → lookup k m ≡ some v
    → P (k, v)
unfolding lookup
All-lookup_entry P k [] h f = absurd (cc)
All-lookup_entry ⦃e⦄ P k {v} ((j, w) ∷ m) h f = elim (Bool-cases (j == k)) [
  | inl same ↦
      let here : w ≡ v = ground arith in
      let key : j ≡ k = (e.same_iff j k).0 same in
      subst (λ i. P (i, v)) key (subst (λ x. P (j, x)) here h.0)
  | inr off ↦ All-lookup_entry P k m h.1 (rw off at f)
]

pub any-values :
    {K V : Type 0} ⦃e : Comparable K⦄ (test : V → Bool) (k : K) (m : GoMap K V) {v : V}
    → lookup k m ≡ some v
    → test v ≡ true
    → any test (values m) ≡ true
unfolding lookup
any-values test k [] h t = absurd (cc)
any-values test k ((j, q) ∷ m) {v} h t = elim (Bool-cases (j == k)) [
  | inl here ↦ let same : q ≡ v = ground arith in rw (same, t) refl
  | inr off ↦ rw (any-values test k m (rw off at h) t) (ground arith)
]
