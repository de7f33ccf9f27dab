-- ===== src/Common/Panics.antt =====
-- A Go computation that returns a value or stops with a run-time panic (a nil dereference or an
-- index out of range).
use mathlib.Core.Path.{◌≡◌, refl, ap, ◌∙◌}
use mathlib.Core.Logic.{◌⊎◌, inl, inr}
use mathlib.Core.Option.{Option, none, some}

pub data Run {ℓ} (A : Type ℓ) : Type ℓ where
  returns : A → Run A
  panics : Run A

infixl 5 ◌>>=◌
abbrev pub ◌>>=◌ {ℓ κ} : {A : Type ℓ} {B : Type κ} → Run A → (A → Run B) → Run B
returns a >>= f = f a
panics >>= f = panics

-- `*p`
abbrev pub deref {ℓ} : {A : Type ℓ} → Option A → Run A
deref none = panics
deref (some a) = returns a

-- An inversion for proofs in which the parts stay shut.
pub >>=-eq-returns {ℓ κ} :
    {A : Type ℓ} {B : Type κ} (m : Run A) (f : A → Run B) {b : B}
    → (m >>= f) ≡ returns b
    → (a : A) × (m ≡ returns a) × (f a ≡ returns b)
>>=-eq-returns (returns a) f h = (a, refl, h)
>>=-eq-returns panics f h = cc

pub Run-cases {ℓ} : {A : Type ℓ} (m : Run A) → (m ≡ panics) ⊎ ((a : A) × (m ≡ returns a))
Run-cases panics = inl refl
Run-cases (returns a) = inr (a, refl)

-- What holds of the value that a computation returns, if it does not panic.
abbrev pub OnReturn {ℓ κ} : {A : Type ℓ} → (A → Type κ) → Run A → Type κ
OnReturn P (returns a) = P a
OnReturn P panics = Unit

pub >>=-OnReturn {ℓ κ λ'} :
    {A : Type ℓ} {B : Type κ} (P : B → Type λ') (m : Run A) (f : A → Run B)
    → ((a : A) → m ≡ returns a → OnReturn P (f a))
    → OnReturn P (m >>= f)
>>=-OnReturn P (returns a) f h = h a refl
>>=-OnReturn P panics f h = tt

pub OnReturn-mono {ℓ κ λ'} :
    {A : Type ℓ} (P : A → Type κ) (Q : A → Type λ') (m : Run A)
    → ((a : A) → P a → Q a)
    → OnReturn P m
    → OnReturn Q m
OnReturn-mono P Q (returns a) f h = f a h
OnReturn-mono P Q panics f h = tt

pub OnReturn-at {ℓ κ} :
    {A : Type ℓ} (P : A → Type κ) (m : Run A) {a : A} → m ≡ returns a → OnReturn P m → P a
OnReturn-at P m e h = rw e at h

abbrev pub Returns {ℓ} : {A : Type ℓ} → Run A → Type ℓ
Returns {A = A} m = (a : A) × (m ≡ returns a)

pub >>=-Returns {ℓ κ} :
    {A : Type ℓ} {B : Type κ} (m : Run A) (f : A → Run B)
    → Returns m
    → ((a : A) → m ≡ returns a → Returns (f a))
    → Returns (m >>= f)
>>=-Returns m f (a, e) k = let (b, d) = k a e in (b, ap (λ x. x >>= f) e ∙ d)

pub deref-some {ℓ} : {A : Type ℓ} (o : Option A) {a : A} → deref o ≡ returns a → o ≡ some a
deref-some none d = absurd (cc)
deref-some (some x) d = cc

pub OnReturn-both {ℓ κ λ'} :
    {A : Type ℓ} (P : A → Type κ) (Q : A → Type λ') (m : Run A)
    → OnReturn P m
    → OnReturn Q m
    → OnReturn (λ a. P a × Q a) m
OnReturn-both P Q (returns a) h k = (h, k)
OnReturn-both P Q panics h k = tt
