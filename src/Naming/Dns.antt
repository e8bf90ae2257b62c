-- ===== src/Naming/Dns.antt =====
-- pkg/naming/dns.go: DNSName, over the code points of a text.
pub mod Valid
use opentelemetry_operator.Prelude.{
  ℕ, ◌+◌, ◌-◌, List, [], ◌∷◌, Bool, ◌&&◌, ◌||◌, ltb, leb, nat_eq, length, if◌then◌else◌,
}

-- [a-z0-9]
unfoldable pub is_dns : ℕ → Bool
is_dns x = (leb 97 x && leb x 122) || (leb 48 x && leb x 57)

-- The bytes of a code point in UTF-8, by which range counts.
unfoldable pub width : ℕ → ℕ
width x = if ltb x 128 then 1 else if ltb x 2048 then 2 else if ltb x 65536 then 3 else 4

-- What stands for a code point at a byte index, in a name of so many code points: 97 is a, 45 a dash.
unfoldable pub dns_rune : ℕ → ℕ → ℕ → ℕ
dns_rune count i x = if is_dns x then x else if nat_eq i 0 || nat_eq i (count - 1) then 97 else 45

unfoldable pub dns_runes : ℕ → ℕ → List ℕ → List ℕ
dns_runes count i [] = []
dns_runes count i (x ∷ xs) = dns_rune count i x ∷ dns_runes count (i + width x) xs

-- strings.ToLower, one code point at a time.
unfoldable pub lower : (ℕ → ℕ) → List ℕ → List ℕ
lower to_lower [] = []
lower to_lower (x ∷ xs) = to_lower x ∷ lower to_lower xs

unfoldable pub dns_name : (ℕ → ℕ) → List ℕ → List ℕ
dns_name to_lower name = dns_runes (length name) 0 (lower to_lower name)
