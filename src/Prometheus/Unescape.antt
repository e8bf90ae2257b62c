-- ===== src/Prometheus/Unescape.antt =====
-- UnescapeDollarSignsInPromConfig.
pub mod Laws
use Prim.Native.Char.{code}
use opentelemetry_operator.Prelude.{ℕ, String, Bool, true, false, Option, none, some, nat_eq, ◌&&◌}
use opentelemetry_operator.Yaml.{Value, str, seq, obj, Items, Fields, find, set, as_map}
use opentelemetry_operator.Upgrade.Types.{Yaml}
use opentelemetry_operator.Prometheus.Config.{
  Checked, valid, invalid, Problem, not_a_map_at, not_a_list_at, not_a_string_at, ◌>>=◌, as_list,
  each_item, edit_scrape_configs, config_to_prom_config,
}

abbrev pub dollar : ℕ
dollar = 36

-- strings.ReplaceAll(s, "$$", "$"); the test is whether the character before is a "$" that waits for
-- another.
unfoldable pub unescape_after : Bool → String → String
unescape_after true String.[] = String.[]
unescape_after false String.[] = String.[]
unescape_after true (String.◌∷◌ c s) = elim (nat_eq (code c) dollar) [
  | true ↦ unescape_after false s
  | false ↦ String.◌∷◌ c (unescape_after false s)
]
unescape_after false (String.◌∷◌ c s) = String.◌∷◌ c (unescape_after (nat_eq (code c) dollar) s)

abbrev pub unescape : String → String
unescape = unescape_after false

-- A relabel configuration, with the name of its component for the errors.
unfoldable pub unescape_replacement : String → ℕ → Value → Checked Value
unescape_replacement component i v = elim (as_map (some v)) [
  | none ↦ invalid (not_a_map_at component i)
  | some m ↦ elim (find m "replacement") [
    | none ↦ valid v
    | some (str s) ↦ valid (obj (set m "replacement" (str (unescape s))))
    | some w ↦ invalid (not_a_string_at "replacement" i)
  ]
]

-- The list at a key of the scrape configuration of an index.
unfoldable pub unescape_list : String → String → ℕ → Value → Fields → Checked Fields
unescape_list k component i v m = elim (as_list v) [
  | none ↦ invalid (not_a_list_at k i)
  | some xs ↦ do ys ← each_item (unescape_replacement component) 0 xs; valid (set m k (seq ys))
]

unfoldable pub unescape_metrics : ℕ → Fields → Checked Value
unescape_metrics i m = elim (find m "metric_relabel_configs") [
  | none ↦ valid (obj m)
  | some v ↦ do
    n ← unescape_list "metric_relabel_configs" "metric_relabel_config" i v m
    valid (obj n)
]

-- Without relabel_configs, the code goes on to the next scrape configuration.
unfoldable pub unescape_scrape_config : ℕ → Value → Checked Value
unescape_scrape_config i v = elim (as_map (some v)) [
  | none ↦ invalid (not_a_map_at "scrape_config" i)
  | some m ↦ elim (find m "relabel_configs") [
    | none ↦ valid v
    | some w ↦ do n ← unescape_list "relabel_configs" "relabel_config" i w m; unescape_metrics i n
  ]
]

unfoldable pub unescape_dollar_signs_in_prom_config : Yaml → String → Checked Fields
unescape_dollar_signs_in_prom_config y s = do
  prometheus ← config_to_prom_config y s
  edit_scrape_configs unescape_scrape_config prometheus
