-- ===== src/Allocator/PreHook.antt =====
-- cmd/otel-allocator/prehook/relabel.go: the filter that drops the targets that a job's relabel
-- configurations drop. relabel.Process of Prometheus is a parameter.
pub mod Laws
use opentelemetry_operator.Prelude.{
  String, List, [], ◌∷◌, Bool, true, false, Option, none, some, ◌==◌, for_each, map, length, nat_eq,
  if◌then◌else◌,
}
use opentelemetry_operator.GoMap.{Map, Range, get, put, delete, copy}
use opentelemetry_operator.Allocator.Target.{Item, LabelSet}

-- A relabel.Config: the text of its regular expression, and what else it says.
pub record Config : Type 0 where
  pub regex : String
  pub action : String

pub record RelabelConfigTargetFilter : Type 0 where
  pub relabel_cfg : Map (List Config)

abbrev pub new_relabel_config_target_filter : RelabelConfigTargetFilter
new_relabel_config_target_filter = record { relabel_cfg = [] }

labels_at : LabelSet → List String → List (String × String)
labels_at lbls [] = []
labels_at lbls (k ∷ ks) =
    let rest = labels_at lbls ks in elim (get lbls k) [ none ↦ rest | some v ↦ (k, v) ∷ rest ]

-- convertLabelToPromLabelSet
unfoldable pub convert_label_to_prom_label_set : Range → LabelSet → List (String × String)
unfolding labels_at
convert_label_to_prom_label_set r lbls = labels_at lbls (r.visit String lbls)

-- relabel.Process: the new labels, or `none` where the target is dropped.
abbrev pub Process : Type 0
Process = List (String × String) → Config → Option (List (String × String))

module _ (process : Process) where
  -- The inner loop: each configuration on the labels that the one before it left.
  unfoldable pub keep_target : List Config → List (String × String) → Bool
  keep_target [] lset = true
  keep_target (cfg ∷ cfgs) lset = elim (process lset cfg) [
    | none ↦ false
    | some lset' ↦ keep_target cfgs lset'
  ]

  abbrev pub configs_of : Option (List Config) → List Config
  configs_of none = []
  configs_of (some cfgs) = cfgs

  unfoldable pub keeps : Range → RelabelConfigTargetFilter → Item → Bool
  keeps r tf item =
      keep_target (configs_of (get tf.relabel_cfg item.job_name))
        (convert_label_to_prom_label_set r item.labels)

  unfoldable pub filter_target : Range → RelabelConfigTargetFilter → Map Item → String → Map Item
  filter_target r tf targets k = elim (get targets k) [
    | none ↦ targets
    | some item ↦ if keeps r tf item then targets else delete targets k
  ]

  unfoldable pub apply : Range → RelabelConfigTargetFilter → Map Item → Map Item
  apply r tf targets =
      if nat_eq (length tf.relabel_cfg) 0
      then targets
      else for_each (filter_target r tf) targets (r.visit Item targets)

unfoldable pub replace_regex : Config → Config
replace_regex cfg = if cfg.regex == "$(SHARD)" then record cfg { regex = "0" } else cfg

unfoldable pub replace_relabel_config : List Config → List Config
replace_relabel_config cfgs = map replace_regex cfgs

set_key : Map (List Config) → Map (List Config) → String → Map (List Config)
set_key cfgs m k = elim (get cfgs k) [ none ↦ m | some v ↦ put m k (replace_relabel_config v) ]

unfoldable pub set_config :
    Range → RelabelConfigTargetFilter → Map (List Config) → RelabelConfigTargetFilter
unfolding set_key
set_config r tf cfgs = record tf {
  relabel_cfg = for_each (set_key cfgs) [] (r.visit (List Config) cfgs);
}

unfoldable pub get_config : Range → RelabelConfigTargetFilter → Map (List Config)
get_config r tf = copy r tf.relabel_cfg
