-- ===== src/Allocator/Examples.antt =====
-- Runs of the allocators of cmd/otel-allocator on small inputs.
use opentelemetry_operator.Prelude.{
  String, List, [], ◌∷◌, true, none, some, ◌≡◌, refl, sym, subst, ◌∙◌, eq_of_some, inl, arith,
  eq_iff, false,
}
use opentelemetry_operator.Prelude.Int.{pos, lt_int}
use opentelemetry_operator.GoMap.{Map, get, put, delete, keys, in_order}
use opentelemetry_operator.Allocator.Target.{Item, Collector, new_collector}
use opentelemetry_operator.Allocator.Diff.{maps}
use opentelemetry_operator.Allocator.Mapping.{add_collector_target_item_mapping}
use opentelemetry_operator.Allocator.State.{
  try_each, place, remove_target, add_target, handle_targets, reconcile_targets, clear_collector,
  insert_collector, items_at, get_targets_for_collector_and_job,
}
use opentelemetry_operator.Allocator.State.Invariant.{IsValid}
use opentelemetry_operator.Allocator.State.Targets.{IsHashed, Reconciles}
use opentelemetry_operator.Allocator.State.Collectors.{IsNamed}
use opentelemetry_operator.Allocator.LeastWeighted
use opentelemetry_operator.Allocator.LeastWeighted.{
  LeastWeighted, new_least_weighted_allocator, set_targets, set_collectors,
}
use opentelemetry_operator.Allocator.LeastWeighted.Add.{Anywhere}
use opentelemetry_operator.Allocator.LeastWeighted.Correct.{
  Rebalances, set_targets_total, set_collectors_total,
}
use opentelemetry_operator.Allocator.LeastWeighted.Next.{find_next_minimal}
use opentelemetry_operator.Allocator.LeastWeighted.Balance.{IsBalanced, set_targets-IsBalanced}
use opentelemetry_operator.Allocator.State.Listing.{Among, get_targets_sound, get_targets_complete}
use opentelemetry_operator.Allocator.LeastWeighted.History.{
  Call, call, run, targets, collectors, AreFormed, history-IsValid,
}

abbrev pub item : String → String → Item
item job hash = record {
  job_name = job;
  link = "";
  target_url = hash ∷ [];
  labels = [];
  collector_name = "";
  hash = hash;
}

abbrev collector : String → Collector
collector name = record { name = name; num_targets = pos 0 }

abbrev pub two_targets : Map Item
two_targets = ("x", item "job" "x") ∷ ("y", item "job" "y") ∷ []

abbrev pub two_collectors : Map Collector
two_collectors = ("a", collector "a") ∷ ("b", collector "b") ∷ []

abbrev pub one_collector : Map Collector
one_collector = ("b", collector "b") ∷ []

pub two_targets-IsHashed : IsHashed two_targets
unfolding get
two_targets-IsHashed k it e = ground (arith, eq_iff "x" k, eq_iff "y" k)

pub two_collectors-IsNamed : IsNamed two_collectors
unfolding get
two_collectors-IsNamed k c e = ground (arith, eq_iff "a" k, eq_iff "b" k)

pub one_collector-IsNamed : IsNamed one_collector
unfolding get
one_collector-IsNamed k c e = ground (arith, eq_iff "b" k)

abbrev script : List Call
script =
    collectors in_order two_collectors
    ∷ targets in_order two_targets
    ∷ collectors in_order one_collector
    ∷ []

script-AreFormed : AreFormed none script
script-AreFormed = (two_collectors-IsNamed, (two_targets-IsHashed, (one_collector-IsNamed, tt)))

history-IsValid_example :
    (b : LeastWeighted) × (run script (new_least_weighted_allocator none) ≡ some b)
    × IsValid b.state
history-IsValid_example = history-IsValid none script script-AreFormed

abbrev started : LeastWeighted
started = record {
  state = record {
    collectors = two_collectors;
    target_items = [];
    mapping = [];
    targets_per_collector = [];
  };
  filter = none;
  collectors_allocatable = 2;
  targets_remaining = 0;
}

abbrev assigned_item : String → String → Item
assigned_item hash owner = record (item "job" hash) { collector_name = owner }

abbrev loaded : LeastWeighted
loaded = record {
  state = record {
    collectors =
        ("a", record { name = "a"; num_targets = pos 1 })
        ∷ ("b", record { name = "b"; num_targets = pos 1 })
        ∷ [];
    target_items = ("x", assigned_item "x" "a") ∷ ("y", assigned_item "y" "b") ∷ [];
    mapping = ("a", ("job", ("x", true) ∷ []) ∷ []) ∷ ("b", ("job", ("y", true) ∷ []) ∷ []) ∷ [];
    targets_per_collector = ("a", pos 1) ∷ ("b", pos 1) ∷ [];
  };
  filter = none;
  collectors_allocatable = 2;
  targets_remaining = 2;
}

abbrev start_script : List Call
start_script = collectors in_order two_collectors ∷ []

abbrev load_script : List Call
load_script = collectors in_order two_collectors ∷ targets in_order two_targets ∷ []

run-start : run start_script (new_least_weighted_allocator none) ≡ some started
unfolding run call LeastWeighted.set_collectors LeastWeighted.handle_collectors maps clear_collector
    insert_collector new_collector LeastWeighted.reallocate try_each get put delete keys
run-start = refl

run-load : run load_script (new_least_weighted_allocator none) ≡ some loaded
unfolding run call LeastWeighted.set_collectors LeastWeighted.set_targets
    LeastWeighted.handle_collectors reconcile_targets handle_targets maps clear_collector
    insert_collector new_collector LeastWeighted.reallocate LeastWeighted.find_next_collector
    LeastWeighted.add_target_to_target_items remove_target add_target place
    add_collector_target_item_mapping try_each get put delete keys
run-load = refl

started-IsValid : IsValid started.state
started-IsValid =
    let (b, e, v) = history-IsValid none start_script (two_collectors-IsNamed, tt) in
    subst (λ (x : LeastWeighted). IsValid x.state) (eq_of_some (sym e ∙ run-start)) v

loaded-IsValid : IsValid loaded.state
loaded-IsValid =
    let (b, e, v) =
      history-IsValid none load_script (two_collectors-IsNamed, (two_targets-IsHashed, tt)) in
    subst (λ (x : LeastWeighted). IsValid x.state) (eq_of_some (sym e ∙ run-load)) v

set_targets_total_example :
    (b : LeastWeighted) × (set_targets in_order two_targets started ≡ some b)
    × Reconciles Anywhere two_targets started.state b.state
set_targets_total_example =
    set_targets_total in_order two_targets started "a" two_targets-IsHashed started-IsValid
      (unfold get in refl)

set_collectors_total_example :
    (b : LeastWeighted) × (set_collectors in_order one_collector loaded ≡ some b)
    × Rebalances one_collector loaded.state b.state
set_collectors_total_example =
    set_collectors_total in_order one_collector loaded "b" one_collector-IsNamed loaded-IsValid
      (unfold get in refl)

started-IsBalanced : IsBalanced started.state.collectors
unfolding get
started-IsBalanced c d x y ex ey = ground (arith, eq_iff "a" c, eq_iff "b" c)

set_started : set_targets in_order two_targets started ≡ some loaded
unfolding LeastWeighted.set_targets reconcile_targets handle_targets maps
    LeastWeighted.find_next_collector LeastWeighted.add_target_to_target_items remove_target
    add_target place add_collector_target_item_mapping try_each get put delete keys
set_started = refl

set_targets-IsBalanced_example : IsBalanced loaded.state.collectors
set_targets-IsBalanced_example =
    set_targets-IsBalanced in_order two_targets started loaded two_targets-IsHashed
      started-IsValid.consistent (λ h e. absurd (unfold get in cc)) set_started started-IsBalanced

find_next_minimal_example :
    (key : String) × (c : Collector) × (LeastWeighted.find_next_collector in_order
        loaded.state.collectors
      ≡ some (key, c))
    × (get loaded.state.collectors key ≡ some c)
    × (lt_int (pos 1) c.num_targets ≡ false)
find_next_minimal_example =
    find_next_minimal in_order loaded.state.collectors "b"
      (record { name = "b"; num_targets = pos 1 }) (unfold get in refl)

get_targets_sound_example :
    (it : Item) × (some (assigned_item "x" "a") ≡ some it)
    × (get loaded.state.target_items it.hash ≡ some it)
    × (it.collector_name ≡ "a")
    × (it.job_name ≡ "job")
get_targets_sound_example =
    get_targets_sound in_order loaded.state loaded-IsValid.consistent "a" "job"
      (some (assigned_item "x" "a"))
      (unfold get_targets_for_collector_and_job items_at get keys in inl refl)

get_targets_complete_example :
    Among
      (some (assigned_item "y" "b"))
      (get_targets_for_collector_and_job in_order loaded.state "b" "job")
get_targets_complete_example =
    get_targets_complete in_order loaded.state loaded-IsValid.consistent "b" "job" "y"
      (assigned_item "y" "b") (unfold get in refl) (unfold get in refl) refl refl
