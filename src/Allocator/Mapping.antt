-- ===== src/Allocator/Mapping.antt =====
-- The index targetItemsPerJobPerCollector of the strategies in cmd/otel-allocator/allocation:
-- collector -> job -> target hash -> true.
use opentelemetry_operator.Prelude.{
  String, [], Bool, true, false, not, ◌&&◌, ◌||◌, none, some, ◌≡◌, arith, ◌==◌, eq_iff,
  if◌then◌else◌,
}
use opentelemetry_operator.GoMap.{Map, get, has, put, delete}
use opentelemetry_operator.GoMap.Laws.{get-put, get-delete}

abbrev pub Mapping : Type 0
Mapping = Map (Map (Map Bool))

-- m[k] of a map of maps: the nil map, which reads as empty, where the key is missing.
abbrev pub sub_map {ℓ} : {V : Type ℓ} → Map (Map V) → String → Map V
sub_map m k = elim (get m k) [ none ↦ [] | some n ↦ n ]

-- addCollectorTargetItemMapping: the inner maps are made where they are nil.
unfoldable pub add_collector_target_item_mapping : Mapping → String → String → String → Mapping
add_collector_target_item_mapping m collector job hash =
    let jobs = sub_map m collector in
    let hashes = sub_map jobs job in put m collector (put jobs job (put hashes hash true))

-- delete(m[collector][job], hash), which does nothing on a nil map.
unfoldable pub delete_hash : Mapping → String → String → String → Mapping
delete_hash m collector job hash = elim (get m collector) [
  | none ↦ m
  | some jobs ↦ elim (get jobs job) [
    | none ↦ m
    | some hashes ↦ put m collector (put jobs job (delete hashes hash))
  ]
]

-- Whether the index lists a target under a collector and a job.
unfoldable pub listed : Mapping → String → String → String → Bool
listed m collector job hash = has (sub_map (sub_map m collector) job) hash

sub_map-put {ℓ} :
    {V : Type ℓ} (m : Map (Map V)) (k : String) (n : Map V) (j : String)
    → sub_map (put m k n) j ≡ (if k == j then n else sub_map m j)
sub_map-put m k n j = ground (arith, get-put m k n j)

module _ (m : Mapping) (c j h c' j' h' : String) where
  pub listed-add :
      listed (add_collector_target_item_mapping m c j h) c' j' h'
      ≡ ((c == c' && (j == j' && h == h')) || listed m c' j' h')
  unfolding listed add_collector_target_item_mapping
  listed-add = grind (arith, eq_iff c c', eq_iff j j', eq_iff h h', sub_map-put, get-put)

  pub listed-delete_hash :
      listed (delete_hash m c j h) c' j' h'
      ≡ (not (c == c' && (j == j' && h == h')) && listed m c' j' h')
  unfolding listed delete_hash get
  listed-delete_hash = grind (arith, eq_iff c c', eq_iff j j', eq_iff h h', get-put, get-delete)

  -- delete(m, collector)
  pub listed-delete : listed (delete m c) c' j' h' ≡ (if c == c' then false else listed m c' j' h')
  unfolding listed get
  listed-delete = grind (arith, get-delete)
