-- ===== src/Reconcile/OwnedExamples.antt =====
-- Two collectors with labelled objects: one whose full name fits into a label, and one whose name has 60
-- letters, so that its label is cut.
use opentelemetry_operator.Prelude.{
  ◌-◌, String, Bool, true, false, Option, List, [], ◌∷◌, some, none, ◌≡◌, refl, ◌<+>◌, arith, split,
  inl, length,
}
use opentelemetry_operator.GoMap.{Map, get, put, keys, in_order, copy_into, copy_key}
use opentelemetry_operator.Naming.Truncate.{
  Bytes, is_alphanumeric, take, trim_end, trim_begin, trim_non_alpha_numeric, reduce_value, reduce,
  cap, truncate,
}
use opentelemetry_operator.Naming.Texts.{bytes, joined_by_dot}
use opentelemetry_operator.Prometheus.Rewrite.Escape.{utf8, char_at}
use opentelemetry_operator.Collector.Labels.{
  LabelledCollector, instance_label, selector_labels, keep_label, is_filtered_label,
  collector_labels, version_of, put_absent,
}
use opentelemetry_operator.Reconcile.Api.{Object, Error, selected, keeps}
use opentelemetry_operator.Reconcile.Task.{
  owned_by, updated, change, apply_answer, expect, expected, delete_extra, delete_unwanted,
  reconcile,
}
use opentelemetry_operator.Reconcile.Kinds.{agree, equal_maps, workload_kind}
use opentelemetry_operator.Reconcile.Kinds.Laws.{workload-Lawful}
use opentelemetry_operator.Reconcile.Memory.{find, remove, replace, matching}
use opentelemetry_operator.Reconcile.Memory.Store.{
  Store, memory, mem_read, mem_list, mem_create, mem_patch, mem_delete, mem_stored, created,
  patched, with_objects,
}
use opentelemetry_operator.Reconcile.Examples.{Daemons, daemon_set, foreign, owner}
use opentelemetry_operator.Reconcile.Owned.{
  instance_of, reconcile-HasLabels, reconcile_keeps_unwanted,
}

abbrev printable : String
printable =
    " !\"#$%&'()*+,-./0123456789:;<=>?@ABCDEFGHIJKLMNOPQRSTUVWXYZ[\\]^_`abcdefghijklmnopqrstuvwxyz{|}~"

-- The text of printable ASCII bytes.
pub decode : Bytes → String
decode [] = ""
decode (b ∷ bs) = char_at (b - 32) printable <+> decode bs

abbrev pub no_match : String → String → Bool
no_match pattern_ label = false

abbrev pub named : String → LabelledCollector
named name = record {
  namespace = "prod";
  name = name;
  labels = ("team", "web") ∷ [];
  image = "registry/otel:0.79.0";
}

abbrev own_labels : String → Map String
own_labels name = collector_labels decode no_match in_order (named name) "web-collector" []

abbrev object : String → String → String → Object Daemons
object collector name rest = record (daemon_set name [] rest) { labels = own_labels collector }

abbrev before : String → Store Daemons
before collector = record {
  objects =
      object collector "web-collector" "v1" ∷ object collector "old-collector" "v1" ∷ foreign ∷ [];
  faults = [];
  distinct = (refl, (refl, (refl, tt)));
}

abbrev wanted : String → List (Object Daemons)
wanted collector = object collector "web-collector" "v2" ∷ []

abbrev long : String
long = "aaaaaaaaaaaaaaaaaaaaaaaaaaaaaaaaaaaaaaaaaaaaaaaaaaaaaaaaaaaa"

runs : get (own_labels "web") "app.kubernetes.io/instance" ≡ some "prod.web"
unfolding collector_labels keep_label is_filtered_label selector_labels instance_label get put
    put_absent copy_into copy_key keys version_of split truncate cap trim_non_alpha_numeric trim_end
    trim_begin is_alphanumeric joined_by_dot bytes utf8 decode char_at
runs = refl

abbrev after : Option Error × Store Daemons
after =
    reconcile memory workload_kind in_order owner (instance_of (named "web")) (wanted "web")
      (before "web")

done :
    (after.0 ≡ none)
    × (mem_stored after.1 "prod" "web-collector" ≡ some (object "web" "web-collector" "v2"))
unfolding reconcile expected expect apply_answer change updated delete_unwanted delete_extra
    owned_by selected workload_kind equal_maps agree find remove replace matching mem_read mem_list
    mem_create mem_patch mem_delete mem_stored created patched with_objects get keys
    collector_labels keep_label is_filtered_label selector_labels instance_label put put_absent
    copy_into copy_key version_of split truncate cap trim_non_alpha_numeric trim_end trim_begin
    is_alphanumeric joined_by_dot bytes utf8 decode char_at
done = (refl, refl)

read : decode (bytes "prod.web") ≡ "prod.web"
unfolding decode char_at bytes utf8
read = refl

short : length (bytes "prod.web") ≡ 8
unfolding bytes utf8
short = refl

trimmed : trim_non_alpha_numeric (bytes "prod.web") ≡ bytes "prod.web"
unfolding bytes utf8 trim_non_alpha_numeric trim_end trim_begin is_alphanumeric
trimmed = refl

reconcile-HasLabels_example : keeps (wanted "web") "prod" "web-collector" ≡ true
reconcile-HasLabels_example =
    reconcile-HasLabels decode no_match in_order (named "web") memory workload_kind in_order owner
      (wanted "web") workload-Lawful (before "web") "web-collector"
      (object "web" "web-collector" "v2") read (omega (arith, short)) trimmed (refl, tt) done.0
      done.1 (inl ("web-collector", [], refl))

read_label :
    bytes (decode (truncate joined_by_dot 63 (bytes "prod" ∷ bytes long ∷ [])))
    ≡ truncate joined_by_dot 63 (bytes "prod" ∷ bytes long ∷ [])
unfolding decode char_at bytes utf8 truncate cap trim_non_alpha_numeric trim_end trim_begin
    is_alphanumeric joined_by_dot reduce reduce_value take
read_label = refl

too_long : length (bytes ("prod" <+> "." <+> long)) ≡ 65
unfolding bytes utf8
too_long = refl

held : mem_stored (before long) "prod" "old-collector" ≡ some (object long "old-collector" "v1")
unfolding mem_stored find
held = refl

reconcile_keeps_unwanted_example :
    mem_stored
      (reconcile memory workload_kind in_order owner
        (instance_of (named long))
        (wanted long)
        (before long)).1
      "prod"
      "old-collector"
    ≡ some (object long "old-collector" "v1")
reconcile_keeps_unwanted_example =
    reconcile_keeps_unwanted decode no_match in_order (named long) memory workload_kind in_order
      owner (wanted long) (before long) "prod" "old-collector" (object long "old-collector" "v1")
      read_label (omega (arith, too_long)) refl held (inl ("web-collector", [], refl))
