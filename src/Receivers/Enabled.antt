-- ===== src/Receivers/Enabled.antt =====
-- pkg/collector/adapters/config_validate.go: the receivers that a pipeline uses.
pub mod Flags
pub mod Laws
pub mod Empty
use opentelemetry_operator.Prelude.{
  String, Bool, true, false, List, [], ◌∷◌, Option, none, some, ◌==◌, if◌then◌else◌,
}
use opentelemetry_operator.GoMap.{Map, get, put}
use opentelemetry_operator.Yaml.{
  Value, str, seq, obj, Items, nil, item, Fields, end, field, find, as_map,
}

-- Where the loop stands: it has a map of the receivers, or it has a nil map; or the function has returned
-- nil, or panics since it writes to a nil map.
pub data Progress : Type 0 where
  flags : Map Bool → Progress
  nil_map : Progress
  gives_up : Progress
  panics : Progress

-- All receivers, with false.
unfoldable pub available : Fields → Map Bool
available end = []
available (field k v m) = (k, false) ∷ available m

-- The loop over the receivers of a pipeline; `none` is one that is no text.
unfoldable pub enable : Items → Map Bool → Option (Map Bool)
enable nil m = some m
enable (item (str s) xs) m = enable xs (put m s true)
enable (item v xs) m = none

-- The loop that deletes what is false.
unfoldable pub only_enabled : Map Bool → Map Bool
only_enabled [] = []
only_enabled ((k, b) ∷ m) = let rest = only_enabled m in if b then (k, b) ∷ rest else rest

abbrev pub enabled_list : Option (Map Bool) → Progress
enabled_list none = gives_up
enabled_list (some m) = flags (only_enabled m)

-- A list with a receiver on a nil map: a text panics, another value returns.
abbrev pub on_nil : Value → Progress
on_nil (str s) = panics
on_nil _ = gives_up

unfoldable pub use_list : Items → Progress → Progress
use_list xs gives_up = gives_up
use_list xs panics = panics
use_list nil (flags m) = nil_map
use_list nil nil_map = nil_map
use_list (item v xs) (flags m) = enabled_list (enable (item v xs) m)
use_list (item v xs) nil_map = on_nil v

-- The receivers of a pipeline's description.
abbrev pub use_receivers : Option Value → Progress → Progress
use_receivers (some (seq xs)) p = use_list xs p
use_receivers _ p = p

abbrev pub use_pipeline : Value → Progress → Progress
use_pipeline (obj m) p = use_receivers (find m "receivers") p
use_pipeline _ p = gives_up

abbrev pub go_on : (Progress → Progress) → Progress → Progress
go_on rest (flags m) = rest (flags m)
go_on rest nil_map = rest nil_map
go_on rest gives_up = gives_up
go_on rest panics = panics

-- The loop over the pipelines; one without a name is left out.
unfoldable pub use_pipelines : Fields → Progress → Progress
use_pipelines end p = p
use_pipelines (field k v m) p = elim (k == "") [
  | true ↦ use_pipelines m p
  | false ↦ go_on (use_pipelines m) (use_pipeline v p)
]

unfoldable pub get_enabled_receivers : Fields → Progress
get_enabled_receivers config = elim (as_map (find config "receivers")) [
  | none ↦ gives_up
  | some receivers ↦ elim (as_map (find config "service")) [
    | none ↦ gives_up
    | some service ↦ elim (as_map (find service "pipelines")) [
      | none ↦ gives_up
      | some pipelines ↦ use_pipelines pipelines (flags (available receivers))
    ]
  ]
]

-- A look-up in the map that is returned.
abbrev pub flag : Option Bool → Bool
flag none = false
flag (some b) = b

unfoldable pub is_enabled : Map Bool → String → Bool
is_enabled enabled k = flag (get enabled k)
