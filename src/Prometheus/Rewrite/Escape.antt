-- ===== src/Prometheus/Rewrite/Escape.antt =====
-- Go's url.QueryEscape, over the UTF-8 encoding of a text.
use Prim.Native.Char.{code}
use Prim.Native.Nat.{◌/◌, ◌%◌}
use opentelemetry_operator.Prelude.{
  ℕ, zero, suc, ◌+◌, String, Bool, List, [], ◌∷◌, ◌&&◌, ◌||◌, ◌<+>◌, leb, ltb, nat_eq,
  if◌then◌else◌,
}

unfoldable pub utf8 : ℕ → List ℕ
utf8 n =
    if ltb n 128
    then n ∷ []
    else if ltb n 2048
    then (192 + n / 64) ∷ (128 + n % 64) ∷ []
    else if ltb n 65536
    then (224 + n / 4096) ∷ (128 + (n / 64) % 64) ∷ (128 + n % 64) ∷ []
    else (240 + n / 262144) ∷ (128 + (n / 4096) % 64) ∷ (128 + (n / 64) % 64) ∷ (128 + n % 64) ∷ []

-- The character at an index, as a text.
unfoldable pub char_at : ℕ → String → String
char_at n String.[] = String.[]
char_at zero (String.◌∷◌ c s) = String.◌∷◌ c String.[]
char_at (suc n) (String.◌∷◌ c s) = char_at n s

abbrev pub hex_digit : ℕ → String
hex_digit n = char_at n "0123456789ABCDEF"

unfoldable pub percent : List ℕ → String
percent [] = ""
percent (b ∷ bs) = "%" <+> hex_digit (b / 16) <+> hex_digit (b % 16) <+> percent bs

-- Letters, digits and - _ . ~
unfoldable pub is_unreserved : ℕ → Bool
is_unreserved n =
    leb 97 n && leb n 122
    || leb 65 n && leb n 90
    || leb 48 n && leb n 57
    || nat_eq n 45
    || nat_eq n 46
    || nat_eq n 95
    || nat_eq n 126

unfoldable pub query_escape : String → String
query_escape String.[] = String.[]
query_escape (String.◌∷◌ c s) =
    let rest = query_escape s in
    if is_unreserved (code c)
    then String.◌∷◌ c rest
    else if nat_eq (code c) 32
    then "+" <+> rest
    else percent (utf8 (code c)) <+> rest
