-- ===== src/Common/Keyed.antt =====
-- Lists of items that carry a key: the first and the last item with a key, and distinct keys.
use mathlib.Core.Path.{subst, ◌≡◌, refl, ◌∙◌}
use mathlib.Core.Logic.{inl, inr}
use mathlib.Core.Bool.{Bool, false, ◌||◌}
use mathlib.Core.Option.{Option, none, some}
use mathlib.Core.List.{List, [], ◌∷◌, ◌++◌, Permᴰ}
use native.Mathlib.Omega.{arith}
use application_gateway_kube.Common.Tests.{
  Comparable, ◌==◌, if◌then◌else◌, Bool-cases, Option-cases,
}

abbrev pub All {ℓ κ} : {A : Type ℓ} → (A → Type κ) → List A → Type κ
All P [] = Unit
All P (x ∷ xs) = P x × All P xs

-- An item of a list passes a test.
abbrev pub any {ℓ} : {A : Type ℓ} → (A → Bool) → List A → Bool
any test [] = false
any test (x ∷ xs) = test x || any test xs

pub any-perm :
    {A : Type 0} (test : A → Bool) {xs ys : List A} → Permᴰ xs ys → any test xs ≡ any test ys
any-perm test Permᴰ.nil = refl
any-perm test (Permᴰ.cons e p) = rw (e, any-perm test p) refl
any-perm test (Permᴰ.swap e f) = rw (e, f) (ground arith)
any-perm test (Permᴰ.trans p q) = any-perm test p ∙ any-perm test q

pub All-perm {ℓ} :
    {A : Type 0} (P : A → Type ℓ) {xs ys : List A} → Permᴰ xs ys → All P xs → All P ys
All-perm P Permᴰ.nil h = tt
All-perm P (Permᴰ.cons e p) h = (subst P e h.0, All-perm P p h.1)
All-perm P (Permᴰ.swap e f) h = (subst P f h.1.0, (subst P e h.0, h.1.1))
All-perm P (Permᴰ.trans p q) h = All-perm P q (All-perm P p h)

pub All-map {ℓ} :
    {A : Type ℓ} (P Q : A → Type 0) → ((a : A) → P a → Q a) → (xs : List A) → All P xs → All Q xs
All-map P Q f [] h = tt
All-map P Q f (x ∷ xs) h = (f x h.0, All-map P Q f xs h.1)

pub All-append {ℓ κ} :
    {A : Type ℓ} (P : A → Type κ) (xs ys : List A) → All P xs → All P ys → All P (xs ++ ys)
All-append P [] ys h k = k
All-append P (x ∷ xs) ys (p, h) k = (p, All-append P xs ys h k)

-- The later of two results, where there is one.
abbrev pub later {ℓ} : {A : Type ℓ} → Option A → Option A → Option A
later (some b) a = some b
later none a = a

module _ {ℓ κ} {A : Type ℓ} {K : Type κ} ⦃e : Comparable K⦄ (key : A → K) where
  -- The first item with a key.
  unfoldable pub find_key : K → List A → Option A
  find_key k [] = none
  find_key k (x ∷ xs) = if key x == k then some x else find_key k xs

  -- The last item with a key.
  unfoldable pub last_key : K → List A → Option A
  last_key k [] = none
  last_key k (x ∷ xs) = later (last_key k xs) (if key x == k then some x else none)

  abbrev pub UniqueKeys : List A → Type ℓ
  UniqueKeys [] = Unit
  UniqueKeys (x ∷ xs) = (find_key (key x) xs ≡ none) × UniqueKeys xs

  pub key-find_key : (k : K) (xs : List A) {x : A} → find_key k xs ≡ some x → key x ≡ k
  unfolding find_key
  key-find_key k [] h = cc
  key-find_key k (y ∷ ys) {x} h = ground (arith, e.same_iff (key y) k, key-find_key k ys {x = x})

  pub All-find_key {λ'} :
      (P : A → Type λ') (k : K) (xs : List A) {x : A} → All P xs → find_key k xs ≡ some x → P x
  unfolding find_key
  All-find_key P k [] a h = absurd (cc)
  All-find_key P k (y ∷ ys) {x} a h = elim (Bool-cases (key y == k)) [
    | inl here ↦ let same : y ≡ x = ground arith in rw same at a.0
    | inr off ↦ All-find_key P k ys a.1 (rw off at h)
  ]

  pub All-last_key {λ'} :
      (P : A → Type λ') (k : K) (xs : List A) {x : A} → All P xs → last_key k xs ≡ some x → P x
  unfolding last_key
  All-last_key P k [] a h = absurd (cc)
  All-last_key P k (y ∷ ys) {x} a h = elim (Option-cases (last_key k ys)) [
    | inr (z, found) ↦ let same : z ≡ x = ground arith in rw same at (All-last_key P k ys a.1 found)
    | inl nothing ↦ let same : y ≡ x = ground (arith, Bool-cases (key y == k)) in rw same at a.0
  ]

  pub key-last_key : (k : K) (xs : List A) {x : A} → last_key k xs ≡ some x → key x ≡ k
  unfolding last_key
  key-last_key k [] h = absurd (cc)
  key-last_key k (y ∷ ys) {x} h = elim (Option-cases (last_key k ys)) [
    | inr (z, found) ↦ ground (arith, key-last_key k ys found)
    | inl nothing ↦ ground (arith, e.same_iff (key y) k)
  ]

  pub last_key-append :
      (k : K) (xs ys : List A) → last_key k (xs ++ ys) ≡ later (last_key k ys) (last_key k xs)
  unfolding last_key
  last_key-append k [] ys = ground arith
  last_key-append k (x ∷ xs) ys = ground (arith, last_key-append k xs ys)

module _ {ℓ κ} {A : Type ℓ} {K : Type κ} ⦃e : Comparable K⦄ (key : A → K) where
  -- What a rearrangement of items with distinct keys keeps.
  pub record SameByKey (xs ys : List A) : Type (ℓ ⊔ κ) where
    pub unique : UniqueKeys key xs → UniqueKeys key ys
    pub finds : UniqueKeys key xs → (k : K) → find_key key k ys ≡ find_key key k xs

  find_key-cons :
      (k : K) (x : A) (xs : List A)
      → find_key key k (x ∷ xs) ≡ (if key x == k then some x else find_key key k xs)
  unfolding find_key
  find_key-cons k x xs = refl

  SameByKey-cons :
      {a b : A} {xs ys : List A} → a ≡ b → SameByKey xs ys → SameByKey (a ∷ xs) (b ∷ ys)
  SameByKey-cons {a} {b} {xs} {ys} p s = record {
    unique = λ u. (rw (← p) (s.finds u.1 (key a) ∙ u.0), s.unique u.1);
    finds = λ u k. rw (find_key-cons k b ys, find_key-cons k a xs, p, s.finds u.1 k);
  }

  SameByKey-swap :
      {a b a' b' : A} {l : List A} → a ≡ b' → b ≡ a' → SameByKey (a ∷ b ∷ l) (a' ∷ b' ∷ l)
  unfolding find_key
  SameByKey-swap {a} {b} {a'} {b'} {l} p q =
      rw (← p, ← q)
        (record {
          unique = λ u. (
            ground (arith, e.same_iff (key a) (key b), e.same_iff (key b) (key a)),
            (ground (arith, e.same_iff (key b) (key a)), u.1.1),
          );
          finds = λ u k.
              ground
                (arith, e.same_iff (key a) k, e.same_iff (key b) k, e.same_iff (key b) (key a));
        })

  pub SameByKey-perm : {xs ys : List A} → Permᴰ xs ys → SameByKey xs ys
  SameByKey-perm Permᴰ.nil = record { unique = λ u. u; finds = λ u k. refl }
  SameByKey-perm (Permᴰ.cons p r) = SameByKey-cons p (SameByKey-perm r)
  SameByKey-perm (Permᴰ.swap p q) = SameByKey-swap p q
  SameByKey-perm (Permᴰ.trans p q) =
      let s = SameByKey-perm p in
      let t = SameByKey-perm q in
      record {
        unique = λ u. t.unique (s.unique u);
        finds = λ u k. t.finds (s.unique u) k ∙ s.finds u k;
      }

  -- Where keys are distinct the first and the last item of a key are one.
  pub last_key-eq-find_key :
      (k : K) (xs : List A) → UniqueKeys key xs → last_key key k xs ≡ find_key key k xs
  unfolding last_key find_key
  last_key-eq-find_key k [] u = refl
  last_key-eq-find_key k (x ∷ xs) u =
      ground (arith, last_key-eq-find_key k xs u.1, e.same_iff (key x) k)
