-- ===== src/GoMap.antt =====
-- Go's maps with string keys, as association lists, and the order in which `range` visits them.
pub mod Laws
use opentelemetry_operator.Prelude.{
  String, ◌≡◌, refl, Bool, true, false, Option, none, some, List, [], ◌∷◌, arith, ◌==◌, elem,
  for_each, if◌then◌else◌, is_some,
}

abbrev pub Map {ℓ} : Type ℓ → Type ℓ
Map V = List (String × V)

module _ {ℓ} {V : Type ℓ} where
  -- m[k]
  unfoldable pub get : Map V → String → Option V
  get [] k = none
  get ((j, v) ∷ m) k = if j == k then some v else get m k

  -- _, ok := m[k]
  abbrev pub has : Map V → String → Bool
  has m k = is_some (get m k)

  -- m[k] = v
  unfoldable pub put : Map V → String → V → Map V
  put [] k v = (k, v) ∷ []
  put ((j, w) ∷ m) k v = if j == k then (j, v) ∷ m else (j, w) ∷ put m k v

  -- delete(m, k)
  unfoldable pub delete : Map V → String → Map V
  delete [] k = []
  delete ((j, w) ∷ m) k = let rest = delete m k in if j == k then rest else (j, w) ∷ rest

  unfoldable pub keys : Map V → List String
  keys [] = []
  keys ((k, v) ∷ m) = k ∷ keys m

abbrev pub or_empty : Option String → String
or_empty none = ""
or_empty (some v) = v

-- m[k] of a map of texts.
unfoldable pub read : Map String → String → String
read m k = or_empty (get m k)

-- `range` visits each key of a map, in an order that the language leaves open.
pub record Range : Type 1 where
  pub visit : (V : Type 0) → Map V → List String
  pub elem-visit : (V : Type 0) (m : Map V) (k : String) → elem k (visit V m) ≡ has m k

pub elem-keys : (V : Type 0) (m : Map V) (k : String) → elem k (keys m) ≡ has m k
unfolding get keys
elem-keys V [] k = refl
elem-keys V ((j, v) ∷ m) k = ground (arith, elem-keys V m k)

-- One such order.
abbrev pub in_order : Range
in_order = record { visit = λ V m. keys m; elem-visit = elem-keys }

-- The loop that copies a map: TargetItems, Collectors and GetConfig.
unfoldable pub copy_key {ℓ} : {V : Type ℓ} → Map V → Map V → String → Map V
copy_key m n k = elim (get m k) [ none ↦ n | some v ↦ put n k v ]

unfoldable pub copy : Range → {V : Type 0} → Map V → Map V
unfolding copy_key
copy r {V} m = for_each (copy_key m) [] (r.visit V m)

-- for k, v := range m { n[k] = v }
unfoldable pub copy_into : Range → {V : Type 0} → Map V → Map V → Map V
unfolding copy_key
copy_into r {V} m n = for_each (copy_key m) n (r.visit V m)
