-- ===== src/Naming/Truncate/Suffix.antt =====
-- What the truncation leaves of a name with a fixed suffix.
use opentelemetry_operator.Prelude.{
  ℕ, zero, suc, ◌-◌, ◌≤◌, [], ◌∷◌, ◌++◌, ◌≡◌, refl, arith, ltb, length, if◌then◌else◌,
  length-append, Bool-cases, inl, inr,
}
use opentelemetry_operator.Naming.Truncate.{
  Bytes, take, trim_non_alpha_numeric, truncate, reduce, reduce_value, with_suffix,
}
use opentelemetry_operator.Naming.Truncate.Bounds.{take_all, length-take_le, cap_short}

take_zero : (n : ℕ) (s : Bytes) → n ≡ 0 → take n s ≡ []
unfolding take
take_zero zero s h = refl
take_zero (suc n) s h = ground (arith, h)

-- A text loses its excess at its end.
reduce_value-take :
    (e : ℕ) (s : Bytes) → e ≤ length s → (reduce_value e s).0 ≡ take (length s - e) s
unfolding reduce_value take
reduce_value-take zero s h = ground (arith, take_all (length s) s)
reduce_value-take (suc e) s h = ground (arith, take_zero (length s - suc e) s)

module _ (suffix : Bytes) (max : ℕ) (value : Bytes) where
  -- What the loop and the second fmt.Sprintf make of it.
  reduced :
      length suffix ≤ max
      → (if ltb max (length (value ++ suffix))
          then (reduce_value (length (value ++ suffix) - max) value).0 ++ suffix
          else value ++ suffix)
        ≡ take (max - length suffix) value ++ suffix
  reduced h =
      let total = length-append value suffix in
      let excess = length (value ++ suffix) - max in
      elim (Bool-cases (ltb max (length (value ++ suffix)))) [
        | inl over ↦
            let left : length value - excess ≡ max - length suffix =
              ground (arith, over, total, h) in
            let less : excess ≤ length value = omega (arith, total, h) in
            rw (over, reduce_value-take excess value less, left) refl
        | inr under ↦
            let whole : length value ≤ max - length suffix = ground (arith, under, total, h) in
            rw (under, take_all (max - length suffix) value whole) refl
      ]

  -- A value with a suffix, where the suffix alone fits: the suffix is kept whole, and the value is cut
  -- so that both have the bytes allowed; the hard cap is not reached. Both ends are trimmed.
  pub truncate-with_suffix :
      length suffix ≤ max
      → truncate (with_suffix suffix) max (value ∷ [])
        ≡ trim_non_alpha_numeric (take (max - length suffix) value ++ suffix)
  unfolding truncate reduce with_suffix
  truncate-with_suffix h =
      let kept = take (max - length suffix) value in
      let fits : length (kept ++ suffix) ≤ max =
        omega (arith, h, length-append kept suffix, length-take_le (max - length suffix) value) in
      rw (reduced h) (cap_short max (kept ++ suffix) fits)
