-- ===== src/Common/Strings.antt =====
-- Go strings as lists of bytes, with the functions of package strings that the program calls.
-- `to_lower` is `strings.ToLower` on ASCII; bytes above 127 are left alone.
use Prim.Native.Nat.{ℕ, suc, ◌+◌}
use Prim.Native.Char.{code}
use Prim.Native.String.{String}
use mathlib.Core.Path.{◌≡◌, refl, ap}
use mathlib.Core.Logic.{◌↔◌}
use mathlib.Core.Bool.{Bool, true, false, ◌&&◌, ◌||◌}
use mathlib.Core.List.{List, [], ◌∷◌, ◌++◌, map}
use native.Mathlib.Omega.{arith}
use application_gateway_kube.Common.Tests.{nat_beq, nat_beq_iff, leb, Comparable, if◌then◌else◌}

abbrev pub Text : Type 0
Text = List ℕ

-- The bytes of an ASCII literal.
abbrev pub bytes : String → Text
bytes String.[] = []
bytes (String.◌∷◌ c s) = code c ∷ bytes s

abbrev pub length {ℓ} : {A : Type ℓ} → List A → ℕ
length [] = 0
length (x ∷ xs) = suc (length xs)

pub length-append {ℓ} : {A : Type ℓ} (xs ys : List A) → length (xs ++ ys) ≡ length xs + length ys
length-append [] ys = omega arith
length-append (x ∷ xs) ys = omega (arith, length-append xs ys)

abbrev pub text_beq : Text → Text → Bool
text_beq (b ∷ s) (c ∷ t) = nat_beq b c && text_beq s t
text_beq (b ∷ s) [] = false
text_beq [] (c ∷ t) = false
text_beq [] [] = true

pub text_beq_iff : (s t : Text) → (text_beq s t ≡ true) ↔ (s ≡ t)
text_beq_iff (b ∷ s) (c ∷ t) = ground (arith, text_beq_iff s t, nat_beq_iff b c)
text_beq_iff (b ∷ s) [] = ground arith
text_beq_iff [] (c ∷ t) = ground arith
text_beq_iff [] [] = ground arith

instance abbrev pub text_eq : Comparable Text
text_eq = record { same = text_beq; same_iff = text_beq_iff }

lower_byte : ℕ → ℕ
lower_byte c = if leb b'A' c && leb c b'Z' then c + 32 else c

unfoldable pub to_lower : Text → Text
unfolding lower_byte
to_lower = map lower_byte

lower_byte_idem : (c : ℕ) → lower_byte (lower_byte c) ≡ lower_byte c
unfolding lower_byte
lower_byte_idem c = ground arith

pub to_lower_idem : (s : Text) → to_lower (to_lower s) ≡ to_lower s
unfolding to_lower
to_lower_idem [] = refl
to_lower_idem (c ∷ s) = cc (lower_byte_idem c, to_lower_idem s)

pub length-to_lower : (s : Text) → length (to_lower s) ≡ length s
unfolding to_lower
length-to_lower [] = refl
length-to_lower (c ∷ s) = ap suc (length-to_lower s)

pub to_lower-append : (s t : Text) → to_lower (s ++ t) ≡ to_lower s ++ to_lower t
unfolding to_lower
to_lower-append [] t = refl
to_lower-append (c ∷ s) t = ap (λ r. lower_byte c ∷ r) (to_lower-append s t)

abbrev pub cons_chunk : ℕ → List Text → List Text
cons_chunk c [] = (c ∷ []) ∷ []
cons_chunk c (h ∷ t) = (c ∷ h) ∷ t

-- `strings.Split` at a separator of one byte.
unfoldable pub split : ℕ → Text → List Text
split sep [] = [] ∷ []
split sep (c ∷ s) = let rest = split sep s in if nat_beq c sep then [] ∷ rest else cons_chunk c rest

-- `strings.Join`
unfoldable pub join : Text → List Text → Text
join sep [] = []
join sep (s ∷ []) = s
join sep (s ∷ t ∷ ts) = s ++ (sep ++ join sep (t ∷ ts))

unfoldable pub has_byte : Text → ℕ → Bool
has_byte [] c = false
has_byte (d ∷ s) c = nat_beq d c || has_byte s c

abbrev pub is_nil {ℓ} : {A : Type ℓ} → List A → Bool
is_nil [] = true
is_nil (x ∷ xs) = false

-- `strings.TrimRight`: drops the trailing bytes that stand in the cutset.
unfoldable pub trim_right : Text → Text → Text
unfolding has_byte
trim_right cutset [] = []
trim_right cutset (c ∷ s) =
    let rest = trim_right cutset s in if is_nil rest && has_byte cutset c then [] else c ∷ rest

-- `strings.HasSuffix` at a suffix of one byte.
unfoldable pub ends_with : ℕ → Text → Bool
ends_with b [] = false
ends_with b (c ∷ []) = nat_beq c b
ends_with b (c ∷ d ∷ s) = ends_with b (d ∷ s)

abbrev pub last_or {ℓ} : {A : Type ℓ} → A → List A → A
last_or d [] = d
last_or d (x ∷ xs) = last_or x xs
