-- ===== src/Reconcile/Examples.antt =====
-- A collector in daemon set mode, and an API server that holds an old version of its daemon set, one
-- that it no longer wants, and a foreign one.
use opentelemetry_operator.Prelude.{
  String, true, false, List, [], ◌∷◌, Option, none, ◌≡◌, refl, eq_of_some, Bool-cases,
}
use opentelemetry_operator.GoMap.{Map, get, keys, in_order}
use opentelemetry_operator.Reconcile.Api.{Object, Error, ok, selected}
use opentelemetry_operator.Reconcile.Task.{
  Owner, Instance, owned_by, updated, change, apply_answer, expect, expected, delete_extra,
  delete_unwanted, reconcile,
}
use opentelemetry_operator.Reconcile.Task.Wanted.{AllPresent, AllSettled}
use opentelemetry_operator.Reconcile.Task.Deleted.{NoExtra}
use opentelemetry_operator.Reconcile.Task.Untouched.{reconcile-others, IsForeign}
use opentelemetry_operator.Reconcile.Task.Total.{reconcile_settles, reconcile_twice}
use opentelemetry_operator.Reconcile.Kinds.{agree, equal_maps, WorkloadSpec, workload_kind}
use opentelemetry_operator.Reconcile.Kinds.Laws.{workload-Lawful}
use opentelemetry_operator.Reconcile.Memory.{find, remove, matching}
use opentelemetry_operator.Reconcile.Memory.Store.{
  Store, memory, mem_read, mem_list, mem_create, mem_patch, mem_delete, mem_stored, created,
  patched, with_objects,
}

abbrev pub Daemons : Type 0
Daemons = WorkloadSpec String

abbrev pub labels : Map String
labels =
    ("app.kubernetes.io/managed-by", "opentelemetry-operator")
    ∷ ("app.kubernetes.io/instance", "prod.web")
    ∷ []

abbrev pub daemon_set : String → Map String → String → Object Daemons
daemon_set name selector rest = record {
  namespace = "prod";
  name = name;
  labels = labels;
  annotations = [];
  owners = [];
  spec = record { selector = selector; rest = rest };
}

abbrev wanted : List (Object Daemons)
wanted = daemon_set "web-collector" labels "v2" ∷ []

abbrev pub web : Instance
web = record { namespace = "prod"; name = "web" }

abbrev pub foreign : Object Daemons
foreign = record {
  namespace = "prod";
  name = "db";
  labels = [];
  annotations = [];
  owners = [];
  spec = record { selector = []; rest = "db" };
}

abbrev pub before : Store Daemons
before = record {
  objects = daemon_set "web-collector" [] "v1" ∷ daemon_set "old-collector" [] "v1" ∷ foreign ∷ [];
  faults = [];
  distinct = (refl, (refl, (refl, tt)));
}

same_owners : {S : Type 0} (o d : Object S) → ok o ≡ ok d → o ≡ d
same_owners o d h = cc h

pub keep_owners :
    {S : Type 0} (o d : Object S)
    → ok o ≡ ok d
    → (d.namespace ≡ o.namespace)
      × (d.name ≡ o.name)
      × (d.labels ≡ o.labels)
      × (d.annotations ≡ o.annotations)
      × (d.spec ≡ o.spec)
keep_owners o d h = rw (same_owners o d h) (refl, refl, refl, refl, refl)

abbrev pub owner : Owner Daemons
owner = record { set = λ o. ok o; set-keeps = keep_owners }

abbrev once : Option Error × Store Daemons
once = reconcile memory workload_kind in_order owner web wanted before

abbrev twice : Option Error × Store Daemons
twice = reconcile memory workload_kind in_order owner web wanted once.1

-- The selector differs, so that the first time only deletes.
runs_once : once.1.objects ≡ foreign ∷ []
unfolding reconcile expected expect apply_answer change updated delete_unwanted delete_extra
    owned_by selected workload_kind equal_maps agree find remove matching mem_read mem_list
    mem_create mem_patch mem_delete created patched with_objects get keys
runs_once = refl

abbrev faulty : Store Daemons
faulty = record before { faults = false ∷ false ∷ true ∷ [] }

is_foreign : IsForeign memory workload_kind in_order owner "prod" "db" web faulty
unfolding mem_stored find owned_by selected get
is_foreign o h ns = rw (← eq_of_some h) refl

reconcile-others_example :
    mem_stored (reconcile memory workload_kind in_order owner web wanted faulty).1 "prod" "db"
    ≡ mem_stored faulty "prod" "db"
reconcile-others_example =
    reconcile-others memory workload_kind in_order owner "prod" "db" web wanted faulty refl
      is_foreign

once_ok : once.0 ≡ none
unfolding reconcile expected expect apply_answer change updated delete_unwanted delete_extra
    owned_by selected workload_kind equal_maps agree find remove matching mem_read mem_list
    mem_create mem_patch mem_delete created patched with_objects get keys
once_ok = refl

twice_ok : twice.0 ≡ none
unfolding reconcile expected expect apply_answer change updated delete_unwanted delete_extra
    owned_by selected workload_kind equal_maps agree find remove matching mem_read mem_list
    mem_create mem_patch mem_delete created patched with_objects get keys Bool-cases
twice_ok = refl

reconcile_settles_example :
    AllSettled memory workload_kind workload-Lawful in_order owner before wanted once.1
    × NoExtra memory web wanted once.1
reconcile_settles_example =
    reconcile_settles memory workload_kind workload-Lawful in_order owner web wanted before
      (refl, tt) once_ok

reconcile_twice_example :
    AllPresent memory workload_kind workload-Lawful in_order owner wanted twice.1
    × NoExtra memory web wanted twice.1
reconcile_twice_example =
    reconcile_twice memory workload_kind workload-Lawful in_order owner web wanted before (refl, tt)
      once_ok twice_ok
