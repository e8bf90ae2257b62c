-- ===== src/Naming/Dns/Valid.antt =====
-- DNSName makes a label of RFC 1123.
use opentelemetry_operator.Prelude.{
  ℕ, ◌+◌, List, [], ◌∷◌, ◌≡◌, refl, Bool, true, ◌&&◌, ◌||◌, ltb, nat_eq, length, arith,
}
use opentelemetry_operator.Naming.Dns.{is_dns, width, dns_rune, dns_runes, lower, dns_name}

-- Letters, digits and dashes, with no dash at the end.
unfoldable pub is_tail : List ℕ → Bool
is_tail [] = true
is_tail (x ∷ []) = is_dns x
is_tail (x ∷ y ∷ ys) = (is_dns x || nat_eq x 45) && is_tail (y ∷ ys)

-- And no dash at the beginning.
unfoldable pub is_label : List ℕ → Bool
is_label [] = true
is_label (x ∷ xs) = is_dns x && is_tail (x ∷ xs)

unfoldable pub is_ascii : List ℕ → Bool
is_ascii [] = true
is_ascii (x ∷ xs) = ltb x 128 && is_ascii xs

dns_rune_inside :
    (count i x : ℕ) → (is_dns (dns_rune count i x) || nat_eq (dns_rune count i x) 45) ≡ true
unfolding dns_rune is_dns
dns_rune_inside count i x = ground arith

dns_rune_first : (count x : ℕ) → is_dns (dns_rune count 0 x) ≡ true
unfolding dns_rune is_dns
dns_rune_first count x = ground arith

dns_rune_last : (count i x : ℕ) → i + 1 ≡ count → is_dns (dns_rune count i x) ≡ true
unfolding dns_rune is_dns
dns_rune_last count i x e = ground (arith, e)

is_tail-dns_runes :
    (count i : ℕ) (xs : List ℕ)
    → is_ascii xs ≡ true
    → i + length xs ≡ count
    → is_tail (dns_runes count i xs) ≡ true
unfolding dns_runes is_tail is_ascii width
is_tail-dns_runes count i [] a e = refl
is_tail-dns_runes count i (x ∷ []) a e = dns_rune_last count i x e
is_tail-dns_runes count i (x ∷ y ∷ ys) a e =
    ground (arith, a, e, dns_rune_inside count i x, is_tail-dns_runes count (i + 1) (y ∷ ys))

length-lower : (to_lower : ℕ → ℕ) (xs : List ℕ) → length (lower to_lower xs) ≡ length xs
unfolding lower
length-lower to_lower [] = refl
length-lower to_lower (x ∷ xs) = omega (arith, length-lower to_lower xs)

is_label-dns_runes :
    (count : ℕ) (xs : List ℕ)
    → is_ascii xs ≡ true
    → length xs ≡ count
    → is_label (dns_runes count 0 xs) ≡ true
unfolding is_label dns_runes
is_label-dns_runes count [] a e = refl
is_label-dns_runes count (x ∷ xs) a e =
    let tail = is_tail-dns_runes count 0 (x ∷ xs) a (omega (arith, e)) in
    ground (arith, tail, dns_rune_first count x)

-- The DNS name of a text whose lower case is ASCII is a label: letters, digits and dashes, with no dash
-- at either end.
pub dns_name-label :
    (to_lower : ℕ → ℕ) (name : List ℕ)
    → is_ascii (lower to_lower name) ≡ true
    → is_label (dns_name to_lower name) ≡ true
unfolding dns_name
dns_name-label to_lower name a =
    is_label-dns_runes (length name) (lower to_lower name) a (length-lower to_lower name)

length-dns_runes : (count i : ℕ) (xs : List ℕ) → length (dns_runes count i xs) ≡ length xs
unfolding dns_runes
length-dns_runes count i [] = refl
length-dns_runes count i (x ∷ xs) = omega (arith, length-dns_runes count (i + width x) xs)

-- A DNS name has as many characters as the text it is made of.
pub length-dns_name :
    (to_lower : ℕ → ℕ) (name : List ℕ) → length (dns_name to_lower name) ≡ length name
unfolding dns_name
length-dns_name to_lower name =
    omega
      (arith, length-dns_runes (length name) 0 (lower to_lower name), length-lower to_lower name)
