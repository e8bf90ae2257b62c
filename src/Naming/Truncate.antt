-- ===== src/Naming/Truncate.antt =====
-- pkg/naming/triming.go: names cut to a length. A text is the list of its UTF-8 bytes, as len and
-- slices of a Go string count bytes; a value of Truncate is a text, as all its callers pass.
pub mod Bounds
pub mod Suffix
use opentelemetry_operator.Prelude.{
  ℕ, ◌-◌, zero, suc, List, [], ◌∷◌, ◌++◌, Bool, true, false, ◌&&◌, ◌||◌, not, ltb, leb, length,
  if◌then◌else◌,
}

abbrev pub Bytes : Type 0
Bytes = List ℕ

-- [A-Za-z0-9]
unfoldable pub is_alphanumeric : ℕ → Bool
is_alphanumeric b = (leb 65 b && leb b 90) || (leb 97 b && leb b 122) || (leb 48 b && leb b 57)

-- s[:n]
unfoldable pub take : ℕ → Bytes → Bytes
take zero bs = []
take (suc n) [] = []
take (suc n) (b ∷ bs) = b ∷ take n bs

abbrev pub is_empty : Bytes → Bool
is_empty [] = true
is_empty (b ∷ bs) = false

-- [^A-Za-z0-9]+$ replaced by nothing.
unfoldable pub trim_end : Bytes → Bytes
trim_end [] = []
trim_end (b ∷ bs) =
    let rest = trim_end bs in if is_empty rest && not (is_alphanumeric b) then [] else b ∷ rest

-- ^[^A-Za-z0-9]+ replaced by nothing.
unfoldable pub trim_begin : Bytes → Bytes
trim_begin [] = []
trim_begin (b ∷ bs) = let rest = trim_begin bs in if is_alphanumeric b then b ∷ bs else rest

unfoldable pub trim_non_alpha_numeric : Bytes → Bytes
trim_non_alpha_numeric text = trim_begin (trim_end text)

-- One value of the loop, and the excess that it leaves.
unfoldable pub reduce_value : ℕ → Bytes → Bytes × ℕ
reduce_value zero s = (s, 0)
reduce_value (suc e) s =
    if ltb (suc e) (length s) then (take (length s - suc e) s, 0) else ([], suc e - length s)

unfoldable pub reduce : ℕ → List Bytes → List Bytes
reduce excess [] = []
reduce excess (value ∷ values) = let r = reduce_value excess value in r.0 ∷ reduce r.1 values

-- The end of Truncate: the hard cap, or the trimming.
unfoldable pub cap : ℕ → Bytes → Bytes
cap max result = if ltb max (length result) then take max result else trim_non_alpha_numeric result

-- `sprintf` is fmt.Sprintf with the format.
unfoldable pub truncate : (List Bytes → Bytes) → ℕ → List Bytes → Bytes
truncate sprintf max values =
    let result = sprintf values in
    cap max
      (if ltb max (length result) then sprintf (reduce (length result - max) values) else result)

-- fmt.Sprintf("%s" + suffix, value), the format of the names of a collector's objects.
unfoldable pub with_suffix : Bytes → List Bytes → Bytes
with_suffix suffix [] = suffix
with_suffix suffix (value ∷ values) = value ++ suffix
