-- ===== src/Brownfield/Targets/Contains.antt =====
-- When one path of the blacklist contains another path.
use application_gateway_kube.Common.{
  ℕ, ◌<◌, Text, bytes, List, [], ◌∷◌, ◌++◌, Bool, true, false, ◌≡◌, ◌≢◌, refl, ◌==◌, text_eq,
  text_beq_iff, length, length-append, length-to_lower, returns, panics, to_lower, split, arith,
  to_lower_idem, to_lower-append, trim_right, ends_with, nat_beq_iff, sym, append_assoc, ◌∙◌, ◌≤◌,
  ◌||◌, if◌then◌else◌,
}
use application_gateway_kube.Common.Split.{weight, weight-split, split-append}
use application_gateway_kube.Brownfield.Targets.{chunks_contain, contains}

-- An index past the end of the other path's chunks means that the other path is the shorter one.
panic_is_longer : (cs ds : List Text) → chunks_contain cs ds ≡ panics → weight ds < weight cs
unfolding chunks_contain
panic_is_longer [] ds h = absurd (cc)
panic_is_longer (c ∷ cs) [] h = omega arith
panic_is_longer (c ∷ cs) (d ∷ ds) h = ground (arith, text_beq_iff c d, panic_is_longer cs ds)

-- The comparison of two paths never indexes past the chunks of the other path.
pub contains-ne-panics : (p other : Text) → contains p other ≢ panics
unfolding contains
contains-ne-panics p other h =
    let p' = to_lower p in
    let o' = to_lower other in
    ground (
      arith,
      length-to_lower p,
      length-to_lower other,
      weight-split b'/' p',
      weight-split b'/' o',
      panic_is_longer (split b'/' p') (split b'/' o'),
    )

pub contains-to_lower : (p other : Text) → contains p (to_lower other) ≡ contains p other
unfolding contains
contains-to_lower p other = simp (to_lower_idem, length-to_lower)

ends_with-append : (b : ℕ) (s : Text) → ends_with b (s ++ b ∷ []) ≡ true
unfolding ends_with
ends_with-append b [] = (nat_beq_iff b b).1 refl
ends_with-append b (c ∷ []) = (nat_beq_iff b b).1 refl
ends_with-append b (c ∷ d ∷ s) = ends_with-append b (d ∷ s)

-- What is trimmed away as a whole is trimmed away behind any text.
trim_right-append :
    (cutset s t : Text)
    → trim_right cutset t ≡ []
    → trim_right cutset (s ++ t) ≡ trim_right cutset s
unfolding trim_right
trim_right-append cutset [] t h = h
trim_right-append cutset (c ∷ s) t h = rw (trim_right-append cutset s t h)

chunks_contain-append :
    (xs ys : List Text) → chunks_contain (xs ++ bytes "*" ∷ []) (xs ++ ys) ≡ returns true
unfolding chunks_contain
chunks_contain-append [] ys = refl
chunks_contain-append (x ∷ xs) ys = ground (arith, text_beq_iff x x, chunks_contain-append xs ys)

-- The lower-case form of a wildcard path.
pub wildcard_lower : (base : Text) → to_lower (base ++ bytes "/*") ≡ to_lower base ++ bytes "/*"
unfolding to_lower
wildcard_lower base = to_lower-append base (bytes "/*")

pub below_lower :
    (base rest : Text) → to_lower (base ++ b'/' ∷ rest) ≡ to_lower base ++ b'/' ∷ to_lower rest
unfolding to_lower
below_lower base rest = to_lower-append base (b'/' ∷ rest)

wildcard_chunks :
    (base rest : Text)
    → chunks_contain (split b'/' (base ++ bytes "/*")) (split b'/' (base ++ b'/' ∷ rest))
      ≡ returns true
wildcard_chunks base rest =
    rw (split-append b'/' base (bytes "*"), split-append b'/' base rest)
      (unfold split in chunks_contain-append (split b'/' base) (split b'/' rest))

wildcard_ends : (base : Text) → ends_with b'*' (base ++ bytes "/*") ≡ true
wildcard_ends base =
    rw (sym (append_assoc base (bytes "/") (bytes "*"))) (ends_with-append b'*' (base ++ bytes "/"))

trim_slash :
    (base t : Text)
    → trim_right (bytes "/*") t ≡ []
    → trim_right (bytes "/*") (base ++ t) ≡ trim_right (bytes "/*") base
trim_slash base t h = trim_right-append (bytes "/*") base t h

-- The two ways in which a path that ends in "*" is found to contain another one.
contains_of_trim :
    (p other : Text)
    → ends_with b'*' (to_lower p) ≡ true
    → trim_right (bytes "/*") (to_lower p) ≡ trim_right (bytes "/*") (to_lower other)
    → contains p other ≡ returns true
unfolding contains
contains_of_trim p other h e =
    let same =
      (text_beq_iff (trim_right (bytes "/*") (to_lower p))
          (trim_right (bytes "/*") (to_lower other))).1
        e in
    simp (h, same) (cond_same (p == [] || (p == bytes "*" || p == bytes "/*")))
  where
    cond_same : (b : Bool) → (if b then returns true else returns true) ≡ returns true
    cond_same true = refl
    cond_same false = refl

contains_of_chunks :
    (p other : Text)
    → ends_with b'*' (to_lower p) ≡ true
    → length p ≤ length other
    → chunks_contain (split b'/' (to_lower p)) (split b'/' (to_lower other)) ≡ returns true
    → contains p other ≡ returns true
unfolding contains
contains_of_chunks p other h le e = ground arith

-- A path that ends in "/*" contains every path below it.
pub contains-wildcard :
    (base rest : Text) → contains (base ++ bytes "/*") (base ++ b'/' ∷ rest) ≡ returns true
contains-wildcard base [] =
    contains_of_trim (base ++ bytes "/*") (base ++ bytes "/")
      (rw (wildcard_lower base) (wildcard_ends (to_lower base)))
      (rw (wildcard_lower base, below_lower base [])
        (trim_slash (to_lower base) (bytes "/*") (unfold trim_right in refl)
          ∙ sym (
              trim_slash (to_lower base) (b'/' ∷ to_lower [])
                (unfold trim_right to_lower in refl))))
contains-wildcard base (c ∷ rest) =
    contains_of_chunks (base ++ bytes "/*") (base ++ b'/' ∷ c ∷ rest)
      (rw (wildcard_lower base) (wildcard_ends (to_lower base)))
      (rw (length-append base (bytes "/*"), length-append base (b'/' ∷ c ∷ rest)) (omega arith))
      (rw (wildcard_lower base, below_lower base (c ∷ rest))
        (wildcard_chunks (to_lower base) (to_lower (c ∷ rest))))
