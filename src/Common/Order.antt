-- ===== src/Common/Order.antt =====
-- Ordering by a key, and the two steps that Go leaves open: the order in which a map is ranged
-- over, and what `sort.Sort` does with items that compare equal.
use application_gateway_kube.Common.Keyed.{All, find_key, All-find_key, UniqueKeys, SameByKey-perm}
use application_gateway_kube.Common.Strings.{Text, text_beq_iff, text_eq}
use application_gateway_kube.Common.Tests.{◌==◌, beq_refl, ltb, nat_beq, if◌then◌else◌, Bool-cases}
use mathlib.Core.Path.{◌≡◌, refl, ◌∙◌, sym}
use mathlib.Core.Bool.{Bool, true, false, ◌&&◌, ◌||◌}
use mathlib.Core.Logic.{◌⊎◌, inl, inr}
use mathlib.Core.Option.{none, some}
use mathlib.Core.List.{List, [], ◌∷◌, Permᴰ}
use native.Mathlib.Omega.{arith}

-- `s < t` on Go strings.
unfoldable pub text_less : Text → Text → Bool
text_less [] [] = false
text_less [] (d ∷ t) = true
text_less (c ∷ s) [] = false
text_less (c ∷ s) (d ∷ t) = ltb c d || (nat_beq c d && text_less s t)

pub text_less_antisym : (s t : Text) → text_less s t ≡ false → text_less t s ≡ false → s ≡ t
unfolding text_less
text_less_antisym [] [] h k = refl
text_less_antisym [] (d ∷ t) h k = absurd (cc)
text_less_antisym (c ∷ s) [] h k = absurd (cc)
text_less_antisym (c ∷ s) (d ∷ t) h k = ground (arith, text_less_antisym s t)

-- `for k, v := range m`: the entries in an order that Go does not say.
pub record MapOrder : Type 1 where
  pub iterate : (A : Type 0) → List A → List A
  pub iterate_perm : (A : Type 0) (xs : List A) → Permᴰ xs (iterate A xs)

module _ {A : Type 0} (key : A → Text) where
  abbrev pub less_by : A → A → Bool
  less_by a b = text_less (key a) (key b)

  -- No item is less than one that stands before it.
  abbrev pub IsSorted : List A → Type 0
  IsSorted [] = Unit
  IsSorted (x ∷ xs) = All (λ y. less_by y x ≡ false) xs × IsSorted xs

-- `sort.Sort` with a `Less` that compares a key: a sorted rearrangement.
pub record Sort : Type 1 where
  pub sort : (A : Type 0) → (A → A → Bool) → List A → List A
  pub sort_perm : (A : Type 0) (less : A → A → Bool) (xs : List A) → Permᴰ xs (sort A less xs)
  pub sort_sorted :
      (A : Type 0) (key : A → Text) (xs : List A) → IsSorted key (sort A (less_by key) xs)

module _ {A : Type 0} (key : A → Text) where
  head_first :
      (x y : A) (ys : List A)
      → All (λ z. less_by key z y ≡ false) ys
      → find_key key (key x) (y ∷ ys) ≡ some x
      → (x ≡ y) ⊎ (less_by key x y ≡ false)
  unfolding find_key
  head_first x y ys h f = elim (Bool-cases (key y == key x)) [
    | inl same ↦ inl (ground arith)
    | inr off ↦ inr (All-find_key key (λ z. less_by key z y ≡ false) (key x) ys h (rw off at f))
  ]

  find_own : (x : A) (xs : List A) → find_key key (key x) (x ∷ xs) ≡ some x
  unfolding find_key
  find_own x xs = rw (beq_refl (key x))

  heads_agree :
      (x y : A) (xs ys : List A)
      → IsSorted key (x ∷ xs)
      → IsSorted key (y ∷ ys)
      → ((k : Text) → find_key key k (x ∷ xs) ≡ find_key key k (y ∷ ys))
      → x ≡ y
  heads_agree x y xs ys s t f =
      let at_x = sym (f (key x)) ∙ find_own x xs in
      let at_y = f (key y) ∙ find_own y ys in
      elim (head_first x y ys t.0 at_x) [
        | inl same ↦ same
        | inr below ↦ elim (head_first y x xs s.0 at_y) [
          | inl same ↦ sym same
          | inr above ↦ agree (text_less_antisym (key x) (key y) below above) at_x
        ]
      ]
    where
      agree : key x ≡ key y → find_key key (key x) (y ∷ ys) ≡ some x → x ≡ y
      agree e h = ground (arith, find_own y ys)

  find_key-tail :
      (k : Text) (x : A) (xs : List A)
      → find_key key (key x) xs ≡ none
      → find_key key k xs ≡ (if key x == k then none else find_key key k (x ∷ xs))
  unfolding find_key
  find_key-tail k x xs u = ground (arith, text_beq_iff (key x) k)

  -- Two sorted lists with distinct keys that hold the same items are equal.
  pub sorted_unique :
      (xs ys : List A)
      → IsSorted key xs
      → IsSorted key ys
      → UniqueKeys key xs
      → UniqueKeys key ys
      → ((k : Text) → find_key key k xs ≡ find_key key k ys)
      → xs ≡ ys
  unfolding find_key
  sorted_unique [] [] s t u v f = refl
  sorted_unique [] (y ∷ ys) s t u v f = absurd (ground (arith, f (key y), find_own y ys))
  sorted_unique (x ∷ xs) [] s t u v f = absurd (ground (arith, f (key x), find_own x xs))
  sorted_unique (x ∷ xs) (y ∷ ys) s t u v f =
      let same = heads_agree x y xs ys s t f in
      cc (
        same,
        sorted_unique xs ys s.1 t.1 u.1 v.1
            (λ k. ground (arith, same, f k, find_key-tail k x xs u.0, find_key-tail k y ys v.0)),
      )

-- Sorting two rearrangements of the same items, all of distinct keys, gives one list.
pub sort_unique :
    {A : Type 0} (key : A → Text) (s t : Sort) (xs ys : List A)
    → UniqueKeys key xs
    → UniqueKeys key ys
    → ((k : Text) → find_key key k xs ≡ find_key key k ys)
    → s.sort A (less_by key) xs ≡ t.sort A (less_by key) ys
sort_unique {A} key s t xs ys u v f =
    let p = SameByKey-perm key (s.sort_perm A (less_by key) xs) in
    let q = SameByKey-perm key (t.sort_perm A (less_by key) ys) in
    sorted_unique key (s.sort A (less_by key) xs) (t.sort A (less_by key) ys)
      (s.sort_sorted A key xs) (t.sort_sorted A key ys) (p.unique u) (q.unique v)
      (λ k. p.finds u k ∙ f k ∙ sym (q.finds v k))
