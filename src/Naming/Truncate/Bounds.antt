-- ===== src/Naming/Truncate/Bounds.antt =====
-- The length of a truncated name, and its first and last bytes.
use opentelemetry_operator.Prelude.{
  ℕ, zero, suc, ◌≤◌, ◌<◌, List, [], ◌∷◌, ◌≡◌, refl, arith, length, ap, ltb, false,
}
use opentelemetry_operator.Naming.Truncate.{
  Bytes, take, trim_end, trim_begin, trim_non_alpha_numeric, truncate, cap,
}

pub length-take : (n : ℕ) (bs : Bytes) → n ≤ length bs → length (take n bs) ≡ n
unfolding take
length-take zero bs h = refl
length-take (suc n) [] h = omega (arith, h)
length-take (suc n) (b ∷ bs) h = ap suc (length-take n bs (omega (arith, h)))

pub take_all : (n : ℕ) (bs : Bytes) → length bs ≤ n → take n bs ≡ bs
unfolding take
take_all zero [] h = refl
take_all zero (b ∷ bs) h = ground (arith, h)
take_all (suc n) [] h = refl
take_all (suc n) (b ∷ bs) h = ap (λ r. b ∷ r) (take_all n bs (omega (arith, h)))

-- A slice is never longer than its bound.
pub length-take_le : (n : ℕ) (bs : Bytes) → length (take n bs) ≤ n
unfolding take
length-take_le zero bs = omega arith
length-take_le (suc n) [] = omega arith
length-take_le (suc n) (b ∷ bs) = omega (arith, length-take_le n bs)

length-trim_end : (bs : Bytes) → length (trim_end bs) ≤ length bs
unfolding trim_end
length-trim_end [] = omega arith
length-trim_end (b ∷ bs) = ground (arith, length-trim_end bs)

length-trim_begin : (bs : Bytes) → length (trim_begin bs) ≤ length bs
unfolding trim_begin
length-trim_begin [] = omega arith
length-trim_begin (b ∷ bs) = ground (arith, length-trim_begin bs)

length-trim_non_alpha_numeric : (bs : Bytes) → length (trim_non_alpha_numeric bs) ≤ length bs
unfolding trim_non_alpha_numeric
length-trim_non_alpha_numeric bs =
    omega (arith, length-trim_begin (trim_end bs), length-trim_end bs)

-- The end of a text is trimmed by taking off its beginning too.
trim_end-trim_begin : (bs : Bytes) → trim_end (trim_begin bs) ≡ trim_begin (trim_end bs)
unfolding trim_end trim_begin
trim_end-trim_begin [] = refl
trim_end-trim_begin (b ∷ bs) = grind (arith, trim_end-trim_begin bs)

trim_end_idem : (bs : Bytes) → trim_end (trim_end bs) ≡ trim_end bs
unfolding trim_end
trim_end_idem [] = refl
trim_end_idem (b ∷ bs) = grind (arith, trim_end_idem bs)

trim_begin_idem : (bs : Bytes) → trim_begin (trim_begin bs) ≡ trim_begin bs
unfolding trim_begin
trim_begin_idem [] = refl
trim_begin_idem (b ∷ bs) = ground (arith, trim_begin_idem bs)

trim_idem :
    (bs : Bytes) → trim_non_alpha_numeric (trim_non_alpha_numeric bs) ≡ trim_non_alpha_numeric bs
unfolding trim_non_alpha_numeric
trim_idem bs =
    rw (trim_end-trim_begin (trim_end bs), trim_end_idem bs) (trim_begin_idem (trim_end bs))

pub cap_short : (max : ℕ) (bs : Bytes) → length bs ≤ max → cap max bs ≡ trim_non_alpha_numeric bs
unfolding cap
cap_short max bs h = ground (arith, h)

length-cap : (max : ℕ) (bs : Bytes) → length (cap max bs) ≤ max
unfolding cap
length-cap max bs = ground (arith, length-take max bs, length-trim_non_alpha_numeric bs)

cap-trimmed :
    (max : ℕ) (bs : Bytes)
    → length (cap max bs) < max
    → trim_non_alpha_numeric (cap max bs) ≡ cap max bs
unfolding cap
cap-trimmed max bs h = ground (arith, length-take max bs, trim_idem bs)

module _ (sprintf : List Bytes → Bytes) (max : ℕ) (values : List Bytes) where
  -- A truncated name has at most the bytes allowed.
  pub length-truncate : length (truncate sprintf max values) ≤ max
  unfolding truncate
  length-truncate = length-cap max _

  -- What fits and needs no trimming is left as it is.
  pub truncate_fits :
      length (sprintf values) ≤ max
      → trim_non_alpha_numeric (sprintf values) ≡ sprintf values
      → truncate sprintf max values ≡ sprintf values
  unfolding truncate cap
  truncate_fits short trimmed =
      let e : ltb max (length (sprintf values)) ≡ false = ground (arith, short) in
      rw (e, e, trimmed) refl

  -- A truncated name that is shorter than allowed begins and ends with a letter or a digit, or is
  -- empty: trimming it again changes nothing.
  pub truncate-trimmed :
      length (truncate sprintf max values) < max
      → trim_non_alpha_numeric (truncate sprintf max values) ≡ truncate sprintf max values
  unfolding truncate
  truncate-trimmed h = cap-trimmed max _ h
