-- ===== src/Naming/Examples.antt =====
-- Short names cut to a few bytes: 97 is a, 45 is a dash.
use opentelemetry_operator.Prelude.{◌<◌, [], ◌∷◌, ◌++◌, ◌≡◌, refl, arith, length}
use opentelemetry_operator.Naming.Truncate.{
  Bytes, is_alphanumeric, take, trim_end, trim_begin, trim_non_alpha_numeric, truncate, cap, reduce,
  reduce_value, with_suffix,
}
use opentelemetry_operator.Naming.Truncate.Suffix.{truncate-with_suffix}

-- abcd
abbrev name : Bytes
name = 97 ∷ 98 ∷ 99 ∷ 100 ∷ []

-- -xy
abbrev suffix : Bytes
suffix = 45 ∷ 120 ∷ 121 ∷ []

runs : truncate (with_suffix suffix) 5 (name ∷ []) ≡ 97 ∷ 98 ∷ 45 ∷ 120 ∷ 121 ∷ []
unfolding truncate cap reduce reduce_value with_suffix take trim_non_alpha_numeric trim_begin
    trim_end is_alphanumeric
runs = refl

-- The dash before the name goes too.
runs_short : truncate (with_suffix suffix) 9 ((45 ∷ 97 ∷ []) ∷ []) ≡ 97 ∷ 45 ∷ 120 ∷ 121 ∷ []
unfolding truncate cap reduce reduce_value with_suffix take trim_non_alpha_numeric trim_begin
    trim_end is_alphanumeric
runs_short = refl

short : length (truncate (with_suffix suffix) 9 ((45 ∷ 97 ∷ []) ∷ [])) < 9
short = rw runs_short (omega arith)

truncate-with_suffix_example :
    truncate (with_suffix suffix) 5 (name ∷ []) ≡ trim_non_alpha_numeric (take 2 name ++ suffix)
truncate-with_suffix_example = truncate-with_suffix suffix 5 name (omega arith)
