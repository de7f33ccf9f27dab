-- ===== src/Brownfield/Targets/Blacklist.antt =====
-- When a target is blacklisted.
pub use application_gateway_kube.Common.{Permᴰ, subst, Returns}
use application_gateway_kube.Common.{
  List, [], ◌∷◌, ◌++◌, Bool, true, false, ◌≡◌, ◌⊎◌, ◌↔◌, refl, text_eq, Run, returns, panics,
  to_lower, to_lower_idem, arith, Bool-cases, inl, inr, ◌&&◌,
}
use application_gateway_kube.Brownfield.Targets.{
  Target, host_is_blacklisted, path_is_blacklisted, is_blacklisted,
}
use application_gateway_kube.Brownfield.Targets.Contains.{contains-ne-panics, contains-to_lower}

-- A run that ends without a panic.
Run-cases {ℓ} : {A : Type ℓ} (m : Run A) → Returns m ⊎ (m ≡ panics)
Run-cases (returns a) = inl (a, refl)
Run-cases panics = inr refl

pub path_is_blacklisted-Returns : (bl t : Target) → Returns (path_is_blacklisted bl t)
path_is_blacklisted-Returns bl t = elim (Run-cases (path_is_blacklisted bl t)) [
  | inl r ↦ r
  | inr p ↦ absurd (unfold path_is_blacklisted in ground (arith, contains-ne-panics bl.path t.path))
]

-- Deciding whether a target is blacklisted never panics.
pub is_blacklisted-Returns :
    (t : Target) (blacklist : List Target) → Returns (is_blacklisted t blacklist)
unfolding is_blacklisted
is_blacklisted-Returns t [] = (false, refl)
is_blacklisted-Returns t (bl ∷ blacklist) =
    let (path, e) = path_is_blacklisted-Returns bl t in
    let rest = is_blacklisted-Returns t blacklist in
    elim (Bool-cases (host_is_blacklisted bl t && path)) [
      | inl h ↦ (true, rw (e, h))
      | inr h ↦ (rest.0, rw (e, h) rest.1)
    ]

abbrev lowered : Target → Target
lowered t = record { hostname = to_lower t.hostname; path = to_lower t.path }

host_is_blacklisted-lowered :
    (bl t : Target) → host_is_blacklisted bl (lowered t) ≡ host_is_blacklisted bl t
unfolding host_is_blacklisted
host_is_blacklisted-lowered bl t = simp to_lower_idem

path_is_blacklisted-lowered :
    (bl t : Target) → path_is_blacklisted bl (lowered t) ≡ path_is_blacklisted bl t
unfolding path_is_blacklisted
path_is_blacklisted-lowered bl t = simp (to_lower_idem, contains-to_lower)

-- The case of a target's host and path does not matter.
pub is_blacklisted-lowered :
    (t : Target) (blacklist : List Target)
    → is_blacklisted (lowered t) blacklist ≡ is_blacklisted t blacklist
unfolding is_blacklisted
is_blacklisted-lowered t [] = refl
is_blacklisted-lowered t (bl ∷ blacklist) =
    simp
      (host_is_blacklisted-lowered, path_is_blacklisted-lowered, is_blacklisted-lowered t blacklist)

-- An entry of the blacklist that covers a target.
abbrev pub Covers : Target → Target → Type 0
Covers bl t = (host_is_blacklisted bl t ≡ true) × (path_is_blacklisted bl t ≡ returns true)

abbrev pub Any {ℓ} : {A : Type ℓ} → (A → Type 0) → List A → Type 0
Any P [] = ⊥
Any P (x ∷ xs) = P x ⊎ Any P xs

-- A target is blacklisted exactly when an entry covers both its host and its path.
pub is_blacklisted_iff :
    (t : Target) (blacklist : List Target)
    → (is_blacklisted t blacklist ≡ returns true) ↔ Any (λ bl. Covers bl t) blacklist
unfolding is_blacklisted
is_blacklisted_iff t [] = ((λ h. cc), λ h. absurd h)
is_blacklisted_iff t (bl ∷ blacklist) =
    let (path, e) = path_is_blacklisted-Returns bl t in
    ground (arith, is_blacklisted_iff t blacklist, e)

pub Any-perm : {A : Type 0} (P : A → Type 0) {xs ys : List A} → Permᴰ xs ys → Any P xs → Any P ys
Any-perm P Permᴰ.nil h = h
Any-perm P (Permᴰ.cons e p) (inl h) = inl (subst P e h)
Any-perm P (Permᴰ.cons e p) (inr h) = inr (Any-perm P p h)
Any-perm P (Permᴰ.swap e f) (inl h) = inr (inl (subst P e h))
Any-perm P (Permᴰ.swap e f) (inr (inl h)) = inl (subst P f h)
Any-perm P (Permᴰ.swap e f) (inr (inr h)) = inr (inr h)
Any-perm P (Permᴰ.trans p q) h = Any-perm P q (Any-perm P p h)

pub Any-map {ℓ} :
    {A : Type ℓ} (P Q : A → Type 0) → ((a : A) → P a → Q a) → (xs : List A) → Any P xs → Any Q xs
Any-map P Q f [] h = h
Any-map P Q f (x ∷ xs) (inl h) = inl (f x h)
Any-map P Q f (x ∷ xs) (inr h) = inr (Any-map P Q f xs h)

pub Any-append_right {ℓ} :
    {A : Type ℓ} (P : A → Type 0) (xs ys : List A) → Any P ys → Any P (xs ++ ys)
Any-append_right P [] ys h = h
Any-append_right P (x ∷ xs) ys h = inr (Any-append_right P xs ys h)

pub Any-append_left {ℓ} :
    {A : Type ℓ} (P : A → Type 0) (xs ys : List A) → Any P xs → Any P (xs ++ ys)
Any-append_left P [] ys h = elim h [ ]
Any-append_left P (x ∷ xs) ys (inl h) = inl h
Any-append_left P (x ∷ xs) ys (inr h) = inr (Any-append_left P xs ys h)

-- The answer of a test that does not panic.
abbrev pub answer : Run Bool → Bool
answer (returns b) = b
answer panics = false

pub is_blacklisted-eq-answer :
    (t : Target) (blacklist : List Target)
    → is_blacklisted t blacklist ≡ returns (answer (is_blacklisted t blacklist))
is_blacklisted-eq-answer t blacklist = rw (is_blacklisted-Returns t blacklist).1
