-- ===== src/Allocator/State.antt =====
-- What both allocation strategies of cmd/otel-allocator/allocation keep, and the steps that they
-- share. A pointer to a collector is its key in `collectors`; `none` is a nil dereference, a panic.
pub mod Invariant
pub mod Place
pub mod Take
pub mod Remove
pub mod Add
pub mod Targets
pub mod Collectors
pub mod Turnover
pub mod Listing
use opentelemetry_operator.Prelude.{
  String, List, [], ◌∷◌, ◌>>=◌, Bool, ◌&&◌, Option, none, some, length, nat_eq, for_each,
  if◌then◌else◌,
}
use opentelemetry_operator.Prelude.Int.{ℤ, pos, inc, dec}
use opentelemetry_operator.GoMap.{Map, Range, get, has, put, delete}
use opentelemetry_operator.Allocator.Target.{Item, Collector, new_collector}
use opentelemetry_operator.Allocator.Diff.{Changes, maps}
use opentelemetry_operator.Allocator.Mapping.{
  Mapping, add_collector_target_item_mapping, delete_hash, sub_map,
}

pub record State : Type 0 where
  pub collectors : Map Collector
  pub target_items : Map Item
  pub mapping : Mapping
  -- the gauge opentelemetry_allocator_targets_per_collector
  pub targets_per_collector : Map ℤ

-- make(map…) three times
abbrev pub empty : State
empty = record { collectors = []; target_items = []; mapping = []; targets_per_collector = [] }

-- A loop whose body may panic.
unfoldable pub try_each {ℓ} : {S : Type ℓ} → (S → String → Option S) → S → List String → Option S
try_each step s [] = some s
try_each step s (k ∷ ks) = do s' ← step s k; try_each step s' ks

-- tg.CollectorName = name; targetItems[tg.Hash()] = tg; the mapping; NumTargets++; the gauge.
unfoldable pub place : State → Item → String → String → Collector → State
place s tg key name chosen = record s {
  collectors = put s.collectors key (record chosen { num_targets = inc chosen.num_targets });
  target_items = put s.target_items tg.hash (record tg { collector_name = name });
  mapping = add_collector_target_item_mapping s.mapping name tg.job_name tg.hash;
  targets_per_collector = put s.targets_per_collector name (inc chosen.num_targets);
}

-- NumTargets--, the mapping and the gauge, for an item that its collector gives up.
unfoldable pub detach : State → Item → Collector → State
detach s item c = record s {
  collectors = put s.collectors item.collector_name (record c { num_targets = dec c.num_targets });
  mapping = delete_hash s.mapping item.collector_name item.job_name item.hash;
  targets_per_collector = put s.targets_per_collector item.collector_name (dec c.num_targets);
}

-- The body of the loop of handleTargets over targetItems.
unfoldable pub remove_target : Map Item → State → String → Option State
unfolding detach
remove_target removals s k = elim (get s.target_items k) [
  | none ↦ some s
  | some item ↦
      if has removals k
      then (do
        c ← get s.collectors item.collector_name
        some (record (detach s item c) { target_items = delete s.target_items k }))
      else some s
]

-- Removed collectors lose their entry, their targets and their gauge.
unfoldable pub clear_collector : Map Collector → State → String → State
clear_collector removals s k = elim (get removals k) [
  | none ↦ s
  | some c ↦ record s {
    collectors = delete s.collectors c.name;
    mapping = delete s.mapping c.name;
    targets_per_collector = put s.targets_per_collector c.name (pos 0);
  }
]

unfoldable pub insert_collector : Map Collector → State → String → State
insert_collector additions s k = elim (get additions k) [
  | none ↦ s
  | some c ↦ record s { collectors = put s.collectors c.name (new_collector c.name) }
]

-- targetItems[hash] for each hash of a set; a missing entry reads as nil.
unfoldable pub items_at : State → List String → List (Option Item)
items_at s [] = []
items_at s (h ∷ hs) = get s.target_items h ∷ items_at s hs

-- GetTargetsForCollectorAndJob; the two `ok` tests are the reads of an empty map.
unfoldable pub get_targets_for_collector_and_job :
    Range → State → String → String → List (Option Item)
unfolding items_at
get_targets_for_collector_and_job r s collector job =
    items_at s (r.visit Bool (sub_map (sub_map s.mapping collector) job))

-- The code that both strategies repeat, over their addTargetToTargetItems.
module _ (add : Item → State → Option State) where
  -- The loop of handleTargets over the additions.
  unfoldable pub add_target : Map Item → State → String → Option State
  add_target additions s k = elim (get additions k) [
    | none ↦ some s
    | some item ↦ if has s.target_items k then some s else add item s
  ]

  unfoldable pub handle_targets : Range → Changes Item → State → Option State
  handle_targets r d s = do
    s' ← try_each (remove_target d.removals) s (r.visit Item s.target_items)
    try_each (add_target d.additions) s' (r.visit Item d.additions)

  -- SetTargets once the filter has been applied and recorded.
  unfoldable pub reconcile_targets : Range → Map Item → State → Option State
  reconcile_targets r targets s =
      let d = maps r (λ (it : Item). it.hash) s.target_items targets in
      if nat_eq (length s.collectors) 0
      then some s
      else if nat_eq (length d.additions) 0 && nat_eq (length d.removals) 0
      then some s
      else handle_targets r d s
