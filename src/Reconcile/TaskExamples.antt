-- ===== src/Reconcile/TaskExamples.antt =====
-- A collector that was changed from a daemon set to a deployment, and the tasks of the controller.
use opentelemetry_operator.Prelude.{
  ℕ, ◌+◌, ◌≤◌, String, true, false, List, [], ◌∷◌, none, some, ◌≡◌, refl, arith,
}
use opentelemetry_operator.GoMap.{get, keys, in_order}
use opentelemetry_operator.Reconcile.Api.{Object, Error, err, selected}
use opentelemetry_operator.Reconcile.Task.{
  owned_by, updated, change, apply_answer, expect, expected, delete_extra, delete_unwanted,
  reconcile,
}
use opentelemetry_operator.Reconcile.Kinds.{agree, equal_maps, workload_kind}
use opentelemetry_operator.Reconcile.Memory.{find, remove, matching}
use opentelemetry_operator.Reconcile.Memory.Store.{
  memory, mem_read, mem_list, mem_create, mem_patch, mem_delete, mem_stored, created, patched,
  with_objects,
}
use opentelemetry_operator.Reconcile.Loops.{expected_daemon_sets, delete_daemon_sets}
use opentelemetry_operator.Reconcile.Tasks.{Params, Built, daemon_sets, desired_daemon_sets}
use opentelemetry_operator.Reconcile.Controller.{Task, run_tasks}
use opentelemetry_operator.Reconcile.Controller.Laws.{run_tasks-Ran, Ran, route_tasks}
use opentelemetry_operator.Reconcile.Examples.{daemon_set, before, owner, web, labels, foreign}

abbrev pub params : Params
params = record {
  instance_ = web;
  mode = "deployment";
  service_account = "";
  target_allocator_enabled = false;
  target_allocator_service_account = "";
  ingress_type = "";
  max_replicas = none;
  autoscaler = none;
}

abbrev meta : {S : Type 0} → S → Object S
meta s = record {
  namespace = "prod";
  name = "web-collector";
  labels = labels;
  annotations = [];
  owners = [];
  spec = s;
}

abbrev pub built : Built String String
built = record {
  deployment = daemon_set "web-collector" labels "v2";
  target_allocator_deployment = daemon_set "web-targetallocator" labels "v2";
  daemon_set = daemon_set "web-collector" labels "v2";
  stateful_set = meta (record { selector = labels; claims = []; rest = "" });
  account = meta "";
  target_allocator_account = meta "";
  service = none;
  headless_service = none;
  monitoring_service = none;
  target_allocator_service = meta (record { ports = []; selector = labels; rest = "" });
  config_map = meta (record { data_map = []; binary_data = [] });
  target_allocator_config_map = err (Error.other "no configuration");
  ingress = none;
  routes = [];
  autoscaler = none;
}

gone_ok : (daemon_sets params built in_order memory owner before).0 ≡ none
unfolding daemon_sets desired_daemon_sets expected_daemon_sets delete_daemon_sets reconcile expected
    expect apply_answer change updated delete_unwanted delete_extra owned_by selected workload_kind
    equal_maps agree find remove matching mem_read mem_list mem_create mem_patch mem_delete created
    patched with_objects get keys
gone_ok = refl

foreign_left :
    mem_stored (daemon_sets params built in_order memory owner before).1 "prod" "db" ≡ some foreign
unfolding daemon_sets desired_daemon_sets expected_daemon_sets delete_daemon_sets reconcile expected
    expect apply_answer change updated delete_unwanted delete_extra owned_by selected workload_kind
    equal_maps agree find remove matching mem_read mem_list mem_create mem_patch mem_delete created
    patched with_objects get keys mem_stored
foreign_left = refl

-- A cluster that counts the tasks that were run.
abbrev counting : String → Task ℕ
counting name = record { do_task = λ n. (none, n + 1); name = name; bail_on_error = true }

abbrev tasks : List (Task ℕ)
tasks = counting "config maps" ∷ counting "routes" ∷ counting "services" ∷ []

one_route : route_tasks tasks ≤ 1
unfolding route_tasks
one_route = omega arith

tasks_ok : (run_tasks tasks 0).0 ≡ none
unfolding run_tasks
tasks_ok = refl

run_tasks-Ran_example : Ran tasks 0 (run_tasks tasks 0).1
run_tasks-Ran_example = run_tasks-Ran tasks 0 (refl, (refl, (refl, tt))) tasks_ok
