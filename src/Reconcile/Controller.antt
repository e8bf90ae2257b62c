-- ===== src/Reconcile/Controller.antt =====
-- controllers/opentelemetrycollector_controller.go: the list of tasks, and a round of it.
pub mod Laws
use opentelemetry_operator.Prelude.{
  ℕ, ◌+◌, zero, suc, String, Bool, true, false, List, [], ◌∷◌, ◌++◌, Option, none, some, ◌==◌, ltb,
  length, if◌then◌else◌,
}
use opentelemetry_operator.Reconcile.Api.{Error, namespace_terminating, Answer, ok, err}

-- `C` is the cluster that a task changes.
pub record Task (C : Type 0) : Type 0 where
  pub do_task : C → Option Error × C
  pub name : String
  pub bail_on_error : Bool

pub data Availability : Type 0 where
  available : Availability
  not_available : Availability

abbrev pub is_terminating : Error → Bool
is_terminating Error.namespace_terminating = true
is_terminating _ = false

module _ {C : Type 0} where
  -- The body of the loop of RunTasks after a task's error; `none` goes on.
  abbrev pub after_error : Task C → Error → Option (Option Error)
  after_error t e =
      if is_terminating e then some none else if t.bail_on_error then some (some e) else none

  abbrev pub resume : Task C → Option Error × C → (C → Option Error × C) → Option Error × C
  resume t (none, c) rest = rest c
  resume t (some e, c) rest = elim (after_error t e) [ some result ↦ (result, c) | none ↦ rest c ]

  unfoldable pub run_tasks : List (Task C) → C → Option Error × C
  run_tasks [] c = (none, c)
  run_tasks (t ∷ ts) c = resume t (t.do_task c) (run_tasks ts)

  -- Reconcile: a collector that is not found is no error, as it was deleted.
  unfoldable pub reconcile_request :
      {A : Type 0} → Answer A → (A → List (Task C)) → C → Option Error × C
  reconcile_request (err Error.not_found) tasks c = (none, c)
  reconcile_request (err e) tasks c = (some e, c)
  reconcile_request (ok a) tasks c = run_tasks (tasks a) c

  -- The index of the last task that is named routes; `none` is -1.
  unfoldable pub routes_index : List (Task C) → Option ℕ
  routes_index [] = none
  routes_index (t ∷ ts) = elim (routes_index ts) [
    | some i ↦ some (suc i)
    | none ↦ if t.name == "routes" then some 0 else none
  ]

  unfoldable pub add_route_task : Task C → Availability → Option ℕ → List (Task C) → List (Task C)
  add_route_task route available none tasks = route ∷ tasks
  add_route_task route available (some i) tasks = tasks
  add_route_task route not_available i tasks = tasks

  -- append(r.tasks[:i], r.tasks[i+1:]...)
  unfoldable pub drop_at : ℕ → List (Task C) → List (Task C)
  drop_at i [] = []
  drop_at zero (t ∷ ts) = ts
  drop_at (suc i) (t ∷ ts) = t ∷ drop_at i ts

  -- The error and the tasks. An index out of range would panic.
  unfoldable pub remove_route_task :
      Availability → Option ℕ → List (Task C) → Option Error × List (Task C)
  remove_route_task plt none tasks = (none, tasks)
  remove_route_task available (some i) tasks =
      if ltb (length tasks) i
      then (some (Error.other "can not remove route task from reconciler"), tasks)
      else (none, tasks)
  remove_route_task not_available (some i) tasks =
      if ltb (length tasks) i
      then (some (Error.other "can not remove route task from reconciler"), tasks)
      else (none, drop_at i tasks)

  -- `route` is the task of reconcile.Routes.
  unfoldable pub on_open_shift_routes_change :
      Task C → Availability → List (Task C) → Option Error × List (Task C)
  on_open_shift_routes_change route plt tasks =
      let index = routes_index tasks in
      remove_route_task plt index (add_route_task route plt index tasks)
