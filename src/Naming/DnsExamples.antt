-- ===== src/Naming/DnsExamples.antt =====
-- Names made into labels: 65 is A, 46 a dot, 95 an underscore, 233 an e with an acute accent.
use opentelemetry_operator.Prelude.{
  ℕ, ◌+◌, List, [], ◌∷◌, ◌≡◌, refl, true, leb, ◌&&◌, if◌then◌else◌,
}
use opentelemetry_operator.Naming.Dns.{is_dns, width, dns_rune, dns_runes, lower, dns_name}
use opentelemetry_operator.Naming.Dns.Valid.{is_label, is_ascii, dns_name-label}

abbrev to_lower : ℕ → ℕ
to_lower x = if leb 65 x && leb x 90 then x + 32 else x

-- A.b_
abbrev dotted : List ℕ
dotted = 65 ∷ 46 ∷ 98 ∷ 95 ∷ []

runs : dns_name to_lower dotted ≡ 97 ∷ 45 ∷ 98 ∷ 97 ∷ []
unfolding dns_name dns_runes dns_rune lower is_dns width
runs = refl

-- range counts bytes and RuneCountInString code points: this name ends with a dash.
runs_accents : dns_name to_lower (233 ∷ 233 ∷ []) ≡ 97 ∷ 45 ∷ []
unfolding dns_name dns_runes dns_rune lower is_dns width
runs_accents = refl

dotted-is_ascii : is_ascii (lower to_lower dotted) ≡ true
unfolding is_ascii lower
dotted-is_ascii = refl

dns_name-label_example : is_label (dns_name to_lower dotted) ≡ true
dns_name-label_example = dns_name-label to_lower dotted dotted-is_ascii
