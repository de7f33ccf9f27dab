-- ===== src/Common/Sorting.antt =====
-- A sort and a map order that run: insertion sort, and the order in which the entries stand.
use application_gateway_kube.Common.{
  Text, List, [], ◌∷◌, Bool, true, false, ◌≡◌, refl, inl, inr, Permᴰ, Bool-cases, if◌then◌else◌,
  All, arith,
}
use application_gateway_kube.Common.Order.{text_less, less_by, MapOrder, IsSorted, Sort}

pub perm_refl : {A : Type 0} (xs : List A) → Permᴰ xs xs
perm_refl [] = Permᴰ.nil
perm_refl (x ∷ xs) = Permᴰ.cons refl (perm_refl xs)

unfoldable pub insert_by : {A : Type 0} → (A → A → Bool) → A → List A → List A
insert_by less x [] = x ∷ []
insert_by less x (y ∷ ys) =
    let rest = insert_by less x ys in if less y x then y ∷ rest else x ∷ y ∷ ys

unfoldable pub insertion_sort : {A : Type 0} → (A → A → Bool) → List A → List A
insertion_sort less [] = []
insertion_sort less (x ∷ xs) = insert_by less x (insertion_sort less xs)

insert_by_perm :
    {A : Type 0} (less : A → A → Bool) (x : A) (ys : List A) → Permᴰ (x ∷ ys) (insert_by less x ys)
unfolding insert_by
insert_by_perm less x [] = perm_refl (x ∷ [])
insert_by_perm less x (y ∷ ys) = elim (Bool-cases (less y x)) [
  | inl e ↦ rw e (Permᴰ.trans (Permᴰ.swap refl refl) (Permᴰ.cons refl (insert_by_perm less x ys)))
  | inr e ↦ rw e (perm_refl (x ∷ y ∷ ys))
]

pub insertion_sort_perm :
    {A : Type 0} (less : A → A → Bool) (xs : List A) → Permᴰ xs (insertion_sort less xs)
unfolding insertion_sort
insertion_sort_perm less [] = perm_refl []
insertion_sort_perm less (x ∷ xs) =
    Permᴰ.trans (Permᴰ.cons refl (insertion_sort_perm less xs))
      (insert_by_perm less x (insertion_sort less xs))

-- If one text is less than another, a third one is above the first or below the second.
not_less_trans :
    (s t u : Text) → text_less s t ≡ false → text_less t u ≡ false → text_less s u ≡ false
unfolding text_less
not_less_trans [] [] u h k = k
not_less_trans [] (d ∷ t) u h k = absurd (cc)
not_less_trans (c ∷ s) [] [] h k = refl
not_less_trans (c ∷ s) [] (e ∷ u) h k = absurd (cc)
not_less_trans (c ∷ s) (d ∷ t) [] h k = refl
not_less_trans (c ∷ s) (d ∷ t) (e ∷ u) h k = ground (arith, not_less_trans s t u)

less_asym : (s t : Text) → text_less s t ≡ true → text_less t s ≡ false
unfolding text_less
less_asym [] [] h = refl
less_asym [] (d ∷ t) h = refl
less_asym (c ∷ s) [] h = absurd (cc)
less_asym (c ∷ s) (d ∷ t) h = ground (arith, less_asym s t)

module _ {A : Type 0} (key : A → Text) where
  insert_by-All :
      (P : A → Type 0) (x : A) (ys : List A) → P x → All P ys → All P (insert_by (less_by key) x ys)
  unfolding insert_by
  insert_by-All P x [] p h = (p, tt)
  insert_by-All P x (y ∷ ys) p h = elim (Bool-cases (less_by key y x)) [
    | inl e ↦ rw e (h.0, insert_by-All P x ys p h.1)
    | inr e ↦ rw e (p, h)
  ]

  above :
      (x y : A) (ys : List A)
      → less_by key y x ≡ false
      → All (λ z. less_by key z y ≡ false) ys
      → All (λ z. less_by key z x ≡ false) ys
  above x y [] e h = tt
  above x y (z ∷ ys) e h = (not_less_trans (key z) (key y) (key x) h.0 e, above x y ys e h.1)

  insert_by-IsSorted :
      (x : A) (ys : List A) → IsSorted key ys → IsSorted key (insert_by (less_by key) x ys)
  unfolding insert_by
  insert_by-IsSorted x [] s = (tt, tt)
  insert_by-IsSorted x (y ∷ ys) s = elim (Bool-cases (less_by key y x)) [
    | inl e ↦ rw e (
      insert_by-All (λ z. less_by key z y ≡ false) x ys (less_asym (key y) (key x) e) s.0,
      insert_by-IsSorted x ys s.1,
    )
    | inr e ↦ rw e ((e, above x y ys e s.0), s)
  ]

  pub insertion_sort-IsSorted : (xs : List A) → IsSorted key (insertion_sort (less_by key) xs)
  unfolding insertion_sort
  insertion_sort-IsSorted [] = tt
  insertion_sort-IsSorted (x ∷ xs) =
      insert_by-IsSorted x (insertion_sort (less_by key) xs) (insertion_sort-IsSorted xs)

abbrev pub by_insertion : Sort
by_insertion = record {
  sort = λ A less xs. insertion_sort less xs;
  sort_perm = λ A less xs. insertion_sort_perm less xs;
  sort_sorted = λ A key xs. insertion_sort-IsSorted key xs;
}

abbrev pub as_listed : MapOrder
as_listed = record { iterate = λ A xs. xs; iterate_perm = λ A xs. perm_refl xs }
