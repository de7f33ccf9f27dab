-- ===== src/Common/Split.antt =====
-- Splitting a text at a separator.
use application_gateway_kube.Common.Tests.{nat_beq, nat_beq_iff, Bool-cases}
use application_gateway_kube.Common.Strings.{Text, length, cons_chunk, split, last_or}
use application_gateway_kube.Common.Keyed.{All}
use Prim.Native.Nat.{ℕ, ◌+◌}
use mathlib.Core.Path.{◌≡◌, refl, ap, ◌∙◌}
use mathlib.Core.Logic.{◌≢◌, inl, inr}
use mathlib.Core.List.{List, [], ◌∷◌, ◌++◌}
use native.Mathlib.Omega.{arith}

-- A split is never empty.
pub split-cons : (sep : ℕ) (s : Text) → (h : Text) × (t : List Text) × (split sep s ≡ h ∷ t)
unfolding split
split-cons sep [] = ([], [], refl)
split-cons sep (c ∷ s) = elim (Bool-cases (nat_beq c sep)) [
  | inl here ↦ ([], split sep s, rw here)
  | inr off ↦ let (h, t, e) = split-cons sep s in (c ∷ h, t, rw (off, e))
]

-- The bytes of the chunks, with one for each separator and one more.
abbrev pub weight : List Text → ℕ
weight [] = 0
weight (c ∷ cs) = length c + 1 + weight cs

pub weight-split : (sep : ℕ) (s : Text) → weight (split sep s) ≡ length s + 1
unfolding split
weight-split sep [] = omega arith
weight-split sep (c ∷ s) = elim (Bool-cases (nat_beq c sep)) [
  | inl here ↦ rw here (omega (arith, weight-split sep s))
  | inr off ↦
      let (h, t, e) = split-cons sep s in
      rw (off, e) (omega (arith, weight-split sep s, ap weight e))
]

cons_chunk-append :
    (c : ℕ) (h : Text) (t xs : List Text)
    → cons_chunk c ((h ∷ t) ++ xs) ≡ cons_chunk c (h ∷ t) ++ xs
cons_chunk-append c h t xs = refl

-- A separator between two texts splits them.
pub split-append : (sep : ℕ) (s t : Text) → split sep (s ++ sep ∷ t) ≡ split sep s ++ split sep t
unfolding split
split-append sep [] t = rw ((nat_beq_iff sep sep).1 refl)
split-append sep (c ∷ s) t = elim (Bool-cases (nat_beq c sep)) [
  | inl here ↦ rw here (ap (λ r. [] ∷ r) (split-append sep s t))
  | inr off ↦
      let (h, r, e) = split-cons sep s in rw off (ap (cons_chunk c) (split-append sep s t) ∙ rw e)
]

abbrev pub Lacks : ℕ → Text → Type 0
Lacks sep = All (λ c. c ≢ sep)

pub split_of_Lacks : (sep : ℕ) (s : Text) → Lacks sep s → split sep s ≡ s ∷ []
unfolding split
split_of_Lacks sep [] h = refl
split_of_Lacks sep (c ∷ s) (p, h) = ground (arith, split_of_Lacks sep s h, nat_beq_iff c sep)

pub last_or-append {ℓ} :
    {A : Type ℓ} (d x : A) (xs ys : List A) → last_or d (xs ++ x ∷ ys) ≡ last_or x ys
last_or-append d x [] ys = refl
last_or-append d x (y ∷ xs) ys = last_or-append y x xs ys
