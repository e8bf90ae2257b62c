-- ===== src/Prelude/Text.antt =====
-- The functions of Go's `strings` and `sort` packages that the code calls.
pub mod Fold
use Prim.Native.Nat.{ℕ, ◌+◌}
use Prim.Native.Char.{code}
use Prim.Native.Nat.{Ordering}
use Prim.Native.String
use Prim.Native.String.{String}
use mathlib.Core.Bool.{Bool, true, false, ◌&&◌, ◌||◌}
use mathlib.Core.Option.{Option, none, some}
use mathlib.Core.List.{List, [], ◌∷◌, map}
use text.Mathlib.Text.{◌==◌}
use opentelemetry_operator.Prelude.Tests.{leb, nat_eq, if◌then◌else◌}

-- s + t
infixr 65 ◌<+>◌
abbrev pub ◌<+>◌ : String → String → String
s <+> t = String.◌++◌ s t

unfoldable pub codes : String → List ℕ
codes String.[] = []
codes (String.◌∷◌ c s) = code c ∷ codes s

same_codes : List ℕ → List ℕ → Bool
same_codes [] [] = true
same_codes (m ∷ ms) (n ∷ ns) = nat_eq m n && same_codes ms ns
same_codes _ _ = false

-- The case folding of a character that can fold to an ASCII one; U+017F is ſ, U+212A the Kelvin sign.
fold_code : ℕ → ℕ
fold_code n =
    if leb 65 n && leb n 90
    then n + 32
    else if nat_eq n 383
    then 115
    else if nat_eq n 8490
    then 107
    else n

-- strings.EqualFold(s, t) for an ASCII `t`.
unfoldable pub equal_fold : String → String → Bool
unfolding codes same_codes fold_code
equal_fold s t = same_codes (map fold_code (codes s)) (map fold_code (codes t))

-- The lower case of a character whose lower case can be ASCII; U+0130 is İ.
lower_code : ℕ → ℕ
lower_code n =
    if leb 65 n && leb n 90
    then n + 32
    else if nat_eq n 304
    then 105
    else if nat_eq n 8490
    then 107
    else n

-- strings.ToLower(s) == t for an ASCII `t`.
unfoldable pub lower_is : String → String → Bool
unfolding codes same_codes lower_code
lower_is s t = same_codes (map lower_code (codes s)) (codes t)

-- unicode.IsSpace
is_space : ℕ → Bool
is_space n =
    leb 9 n && leb n 13
    || nat_eq n 32
    || nat_eq n 133
    || nat_eq n 160
    || nat_eq n 5760
    || leb 8192 n && leb n 8202
    || nat_eq n 8232
    || nat_eq n 8233
    || nat_eq n 8239
    || nat_eq n 8287
    || nat_eq n 12288

trim_start : String → String
unfolding is_space
trim_start String.[] = String.[]
trim_start (String.◌∷◌ c s) =
    let rest = trim_start s in if is_space (code c) then rest else String.◌∷◌ c s

-- The text without its trailing spaces.
trim_end : String → String
unfolding is_space
trim_end String.[] = String.[]
trim_end (String.◌∷◌ c s) =
    let rest = trim_end s in
    if is_space (code c) && rest == "" then String.[] else String.◌∷◌ c rest

unfoldable pub trim_space : String → String
unfolding trim_start trim_end
trim_space s = trim_end (trim_start s)

-- The first part and the others, none if there is no separator.
split_on : ℕ → String → String × List String
split_on sep String.[] = (String.[], [])
split_on sep (String.◌∷◌ c s) =
    let (first, rest) = split_on sep s in
    if nat_eq (code c) sep then (String.[], first ∷ rest) else (String.◌∷◌ c first, rest)

-- strings.Split with a separator of one character.
unfoldable pub split : String → ℕ → List String
unfolding split_on
split s sep = let (first, rest) = split_on sep s in first ∷ rest

-- strings.Cut with a separator of one character; `none` where there is none.
unfoldable pub cut : String → ℕ → Option (String × String)
cut String.[] sep = none
cut (String.◌∷◌ c s) sep = elim (nat_eq (code c) sep) [
  | true ↦ some (String.[], s)
  | false ↦ elim (cut s sep) [ none ↦ none | some (a, b) ↦ some (String.◌∷◌ c a, b) ]
]

unfoldable pub has_prefix : String → String → Bool
has_prefix s String.[] = true
has_prefix String.[] (String.◌∷◌ d t) = false
has_prefix (String.◌∷◌ c s) (String.◌∷◌ d t) = nat_eq (code c) (code d) && has_prefix s t

unfoldable pub contains : String → String → Bool
unfolding has_prefix
contains String.[] t = has_prefix String.[] t
contains (String.◌∷◌ c s) t = has_prefix (String.◌∷◌ c s) t || contains s t

unfoldable pub has_suffix : String → String → Bool
has_suffix String.[] t = t == String.[]
has_suffix (String.◌∷◌ c s) t = String.◌∷◌ c s == t || has_suffix s t

unfoldable pub join : List String → String → String
join [] sep = ""
join (s ∷ []) sep = s
join (s ∷ t ∷ rest) sep = s <+> sep <+> join (t ∷ rest) sep

insert_sorted : String → List String → List String
insert_sorted s [] = s ∷ []
insert_sorted s (t ∷ ts) = elim (String.compare s t) [
  | Ordering.gt ↦ t ∷ insert_sorted s ts
  | _ ↦ s ∷ t ∷ ts
]

-- sort.Strings
unfoldable pub sort : List String → List String
unfolding insert_sorted
sort [] = []
sort (s ∷ ss) = insert_sorted s (sort ss)
