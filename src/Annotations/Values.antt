-- ===== src/Annotations/Values.antt =====
-- What the values and errors of the annotations are.
use application_gateway_kube.Common.{
  ◌+◌, ◌%◌, Option-cases, ℤ, pos, negsuc, ℕ, ◌-◌, ◌^◌, ◌<◌, Text, bytes, Option, none, some, Bool,
  true, false, ◌≡◌, refl, ◌↔◌, inl, inr, arith, lookup, text_eq, text_beq_iff, to_lower,
  if◌then◌else◌, ltb, Bool-cases, zero, suc,
}
use application_gateway_kube.Gateway.{http, https, Ingress}
use application_gateway_kube.Annotations.{
  AnnotationError, missing_annotations, invalid_content, atoi, low_word, to_int32, parse_int32,
  parse_string, string_at, backend_protocol_key, protocol_enum_lookup, protocol_of,
  backend_protocol,
}

-- A value of 32 bits with a sign.
abbrev pub IsInt32 : ℤ → Type 0
IsInt32 (pos n) = n < 2 ^ 31
IsInt32 (negsuc n) = n < 2 ^ 31

-- The value of a word of 32 bits.
word_value : ℕ → ℤ
word_value u = if ltb u (2 ^ 31) then pos u else negsuc (2 ^ 32 - u - 1)

word_value-IsInt32 : (u : ℕ) → u < 2 ^ 32 → IsInt32 (word_value u)
unfolding word_value
word_value-IsInt32 u h = elim (Bool-cases (ltb u (2 ^ 31))) [
  | inl e ↦ rw e (ground arith)
  | inr e ↦ rw e (ground arith)
]

low_word_lt : (negative : Bool) (n : ℕ) → low_word negative n < 2 ^ 32
low_word_lt true n = omega arith
low_word_lt false n = omega arith

to_int32-IsInt32 : (negative : Bool) (n : ℕ) → IsInt32 (to_int32 negative n)
unfolding to_int32 word_value
to_int32-IsInt32 negative n = word_value-IsInt32 (low_word negative n) (low_word_lt negative n)

-- The word of 32 bits that stands for an integer, in two's complement.
abbrev pub word_of : ℤ → ℕ
word_of (pos n) = n
word_of (negsuc n) = 2 ^ 32 - 1 - n

-- The integer of 32 bits differs from the one with the sign and the magnitude by a multiple of 2 ^ 32.
abbrev pub WrapsTo : Bool → ℕ → ℤ → Type 0
WrapsTo false n y = word_of y ≡ n % 2 ^ 32
WrapsTo true n y = (word_of y + n) % 2 ^ 32 ≡ 0

word_of-word_value : (u : ℕ) → u < 2 ^ 32 → word_of (word_value u) ≡ u
unfolding word_value
word_of-word_value u h = elim (Bool-cases (ltb u (2 ^ 31))) [
  | inl e ↦ rw e refl
  | inr e ↦ rw e (ground arith)
]

to_int32-WrapsTo : (negative : Bool) (n : ℕ) → WrapsTo negative n (to_int32 negative n)
unfolding to_int32 word_value
to_int32-WrapsTo false n = word_of-word_value (low_word false n) (low_word_lt false n)
to_int32-WrapsTo true n =
    let e : word_of (to_int32 true n) ≡ low_word true n =
      word_of-word_value (low_word true n) (low_word_lt true n) in
    rw e (omega arith)

-- How an annotation is read: it is missing, or is no integer, or is one, of which the lowest 32 bits
-- are taken.
pub data IsRead (ing : Ingress) (name : Text) : ℤ × Option AnnotationError → Type 0 where
  missing : lookup name ing.annotations ≡ none → IsRead ing name (pos 0, some missing_annotations)
  no_integer :
      (val : Text)
      → lookup name ing.annotations ≡ some val
      → atoi val ≡ none
      → IsRead ing name (pos 0, some (invalid_content name val))
  integer :
      (val : Text) (negative : Bool) (n : ℕ) (y : ℤ)
      → lookup name ing.annotations ≡ some val
      → atoi val ≡ some (negative, n)
      → IsInt32 y
      → WrapsTo negative n y
      → IsRead ing name (y, none)

-- An annotation that is missing and one that is no integer give 0 with an error that tells which. An
-- integer gives, without an error, the integer of 32 bits with a sign that differs from it by a
-- multiple of 2 ^ 32.
pub parse_int32-IsRead : (ing : Ingress) (name : Text) → IsRead ing name (parse_int32 ing name)
unfolding parse_int32
parse_int32-IsRead ing name = elim (Option-cases (lookup name ing.annotations)) [
  | inl absent ↦ rw absent (missing absent)
  | inr (val, present) ↦ elim (Option-cases (atoi val)) [
    | inl other ↦ rw (present, other) (no_integer val present other)
    | inr ((negative, n), read) ↦
        rw (present, read)
          (integer val negative n (to_int32 negative n) present read (to_int32-IsInt32 negative n)
            (to_int32-WrapsTo negative n))
  ]
]

-- The integer with a sign and a magnitude.
abbrev pub int_of : Bool → ℕ → ℤ
int_of false n = pos n
int_of true zero = pos 0
int_of true (suc n) = negsuc n

to_int32-int_of :
    (negative : Bool) (n : ℕ)
    → IsInt32 (int_of negative n)
    → to_int32 negative n ≡ int_of negative n
unfolding to_int32
to_int32-int_of false n h = ground arith
to_int32-int_of true zero h = refl
to_int32-int_of true (suc n) h =
    let u : low_word true (suc n) ≡ 2 ^ 32 - suc n = omega arith in rw u (ground arith)

-- A number that fits into 32 bits is the value of its annotation, and there is no error.
pub parse_int32_exact :
    (ing : Ingress) (name val : Text) (negative : Bool) (n : ℕ)
    → lookup name ing.annotations ≡ some val
    → atoi val ≡ some (negative, n)
    → IsInt32 (int_of negative n)
    → parse_int32 ing name ≡ (int_of negative n, none)
unfolding parse_int32
parse_int32_exact ing name val negative n present read h =
    rw (present, read, to_int32-int_of negative n h)

-- An annotation has a value, in any case.
abbrev pub HasValue : Ingress → Text → Text → Type 0
HasValue ing key value =
    (val : Text) × (lookup key ing.annotations ≡ some val) × (to_lower val ≡ value)

protocol_read :
    (o : Option Text)
    → ((protocol_of (string_at o).0 (string_at o).1 ≡ (https, none))
        ↔ ((val : Text) × (o ≡ some val) × (to_lower val ≡ bytes "https")))
      × ((protocol_of (string_at o).0 (string_at o).1 ≡ (http, none))
          ↔ ((val : Text) × (o ≡ some val) × (to_lower val ≡ bytes "http")))
unfolding protocol_enum_lookup
protocol_read none = (
  (λ h. absurd (cc), λ h. absurd (let e = h.1 in cc)),
  (λ h. absurd (cc), λ h. absurd (let e = h.1 in cc)),
)
protocol_read (some val) =
    let secure = text_beq_iff (to_lower val) (bytes "https") in
    let plain = text_beq_iff (to_lower val) (bytes "http") in
    (
      (
        λ e. (val, refl, ground (arith, secure, plain)),
        λ h. ground (arith, secure, plain, h.1, h.2),
      ),
      (
        λ e. (val, refl, ground (arith, secure, plain)),
        λ h. ground (arith, secure, plain, h.1, h.2),
      ),
    )

-- The protocol is HTTPS without an error exactly if the annotation says "https", in any case, and
-- HTTP without an error exactly if it says "http".
pub backend_protocol_iff :
    (ing : Ingress)
    → ((backend_protocol ing ≡ (https, none)) ↔ HasValue ing backend_protocol_key (bytes "https"))
      × ((backend_protocol ing ≡ (http, none)) ↔ HasValue ing backend_protocol_key (bytes "http"))
unfolding backend_protocol parse_string
backend_protocol_iff ing = protocol_read (lookup backend_protocol_key ing.annotations)
