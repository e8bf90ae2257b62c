-- ===== src/Allocator/LeastWeighted.antt =====
-- cmd/otel-allocator/allocation/least_weighted.go: a target goes to a collector with the fewest.
pub mod Next
pub mod Add
pub mod Reallocate
pub mod Correct
pub mod Balance
pub mod History
use opentelemetry_operator.Prelude.{
  ◌>>=◌, ℕ, ◌+◌, String, List, [], ◌∷◌, Bool, ◌&&◌, Option, none, some, length, nat_eq, for_each,
  if◌then◌else◌,
}
use opentelemetry_operator.Prelude.Int.{lt_int}
use opentelemetry_operator.GoMap.{Map, Range, get, has}
use opentelemetry_operator.Allocator.Target.{Item, Collector}
use opentelemetry_operator.Allocator.Diff.{Changes, maps}
use opentelemetry_operator.Allocator.State.{
  State, empty, try_each, place, clear_collector, insert_collector, reconcile_targets,
}

-- The hook of SetFilter.
abbrev pub Filter : Type 0
Filter = Map Item → Map Item

abbrev pub apply_filter : Option Filter → Map Item → Map Item
apply_filter none targets = targets
apply_filter (some f) targets = f targets

pub record LeastWeighted : Type 0 where
  pub state : State
  pub filter : Option Filter
  -- opentelemetry_allocator_collectors_allocatable
  pub collectors_allocatable : ℕ
  -- opentelemetry_allocator_targets_remaining
  pub targets_remaining : ℕ

abbrev pub new_least_weighted_allocator : Option Filter → LeastWeighted
new_least_weighted_allocator f = record {
  state = empty;
  filter = f;
  collectors_allocatable = 0;
  targets_remaining = 0;
}

abbrev pub set_filter : LeastWeighted → Filter → LeastWeighted
set_filter a f = record a { filter = some f }

-- One step of the search: the first collector, and then each that has fewer targets.
next_collector : Map Collector → Option (String × Collector) → String → Option (String × Collector)
next_collector collectors col k = elim (get collectors k) [
  | none ↦ col
  | some v ↦ elim col [
    | none ↦ some (k, v)
    | some (j, c) ↦ if lt_int v.num_targets c.num_targets then some (k, v) else some (j, c)
  ]
]

-- The pointer that it returns, as the key and the collector there; `none` is nil.
unfoldable pub find_next_collector : Range → Map Collector → Option (String × Collector)
unfolding next_collector
find_next_collector r collectors =
    for_each (next_collector collectors) none (r.visit Collector collectors)

unfoldable pub add_target_to_target_items : Range → Item → State → Option State
add_target_to_target_items r tg s = do
  chosen ← find_next_collector r s.collectors
  some (place s tg chosen.0 chosen.1.name chosen.1)

-- The loop that gives new owners to the targets of removed collectors.
unfoldable pub reallocate : Range → Map Collector → State → String → Option State
reallocate r removals s k = elim (get s.target_items k) [
  | none ↦ some s
  | some item ↦
      if has removals item.collector_name then add_target_to_target_items r item s else some s
]

unfoldable pub handle_collectors : Range → Changes Collector → State → Option State
handle_collectors r d s =
    let cleared = for_each (clear_collector d.removals) s (r.visit Collector d.removals) in
    let inserted =
      for_each (insert_collector d.additions) cleared (r.visit Collector d.additions) in
    try_each (reallocate r d.removals) inserted (r.visit Item inserted.target_items)

unfoldable pub set_targets : Range → Map Item → LeastWeighted → Option LeastWeighted
set_targets r targets a =
    let kept = apply_filter a.filter targets in
    let a' = record a { targets_remaining = a.targets_remaining + length kept } in
    do
      s ← reconcile_targets (add_target_to_target_items r) r kept a.state
      some (record a' { state = s })

unfoldable pub set_collectors : Range → Map Collector → LeastWeighted → Option LeastWeighted
set_collectors r collectors a =
    let a' = record a { collectors_allocatable = length collectors } in
    let d = maps r (λ (c : Collector). c.name) a.state.collectors collectors in
    if nat_eq (length collectors) 0
    then some a'
    else if nat_eq (length d.additions) 0 && nat_eq (length d.removals) 0
    then some a'
    else (do s ← handle_collectors r d a.state; some (record a' { state = s }))
