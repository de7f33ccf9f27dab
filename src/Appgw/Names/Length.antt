-- ===== src/Appgw/Names/Length.antt =====
-- The names of the gateway's parts are at most 80 bytes long.
use application_gateway_kube.Common.{
  ℕ, ◌-◌, ◌*◌, ◌≤◌, ◌<◌, Text, bytes, List, [], ◌∷◌, ◌++◌, length, leb, ◌≡◌, refl, arith,
  Bool-cases, inl, inr, zero, suc,
}
use application_gateway_kube.Common.{length-append}
use application_gateway_kube.Appgw.Names.{take, hex, format_prop_name}

length-hex : (bs : List ℕ) → length (hex bs) ≡ 2 * length bs
unfolding hex
length-hex [] = omega arith
length-hex (b ∷ bs) = omega (arith, length-hex bs)

length-take : {A : Type 0} (k : ℕ) (xs : List A) → k ≤ length xs → length (take k xs) ≡ k
unfolding take
length-take zero xs h = refl
length-take (suc k) [] h = omega arith
length-take (suc k) (x ∷ xs) h = omega (arith, length-take k xs (omega arith))

module _ (md5_sum : Text → List ℕ) (digest : (s : Text) → length (md5_sum s) ≡ 16) where
  -- A name of more than 80 bytes becomes one of exactly 80.
  length-format_prop_name_long :
      (val : Text) → 80 < length val → length (format_prop_name md5_sum val) ≡ 80
  unfolding format_prop_name
  length-format_prop_name_long val h =
      let hash = hex (md5_sum val) in
      let l : length hash ≡ 32 = omega (arith, length-hex (md5_sum val), digest val) in
      let kept : length (take (80 - length hash - 1) val) ≡ 47 =
        omega (arith, length-take (80 - length hash - 1) val (omega arith)) in
      elim (Bool-cases (leb (length val) 80)) [
        | inl e ↦ ground arith
        | inr e ↦
            rw (e, length-append (take (80 - length hash - 1) val) (bytes "-" ++ hash))
              (omega arith)
      ]

  format_prop_name_short : (val : Text) → length val ≤ 80 → format_prop_name md5_sum val ≡ val
  unfolding format_prop_name
  format_prop_name_short val h = ground arith

  -- A formatted name has at most 80 bytes, and does not change when it is formatted again; where
  -- MD5 gives 16 bytes.
  pub format_prop_name_bounds :
      (val : Text)
      → (length (format_prop_name md5_sum val) ≤ 80)
        × (format_prop_name md5_sum (format_prop_name md5_sum val) ≡ format_prop_name md5_sum val)
  format_prop_name_bounds val =
      let short : length (format_prop_name md5_sum val) ≤ 80 =
        elim (Bool-cases (leb (length val) 80)) [
          | inl e ↦ rw (format_prop_name_short val (ground arith)) (ground arith)
          | inr e ↦ rw (length-format_prop_name_long val (ground arith)) (omega arith)
        ] in
      (short, format_prop_name_short (format_prop_name md5_sum val) short)
