-- ===== src/Allocator/LeastWeighted/Correct.antt =====
-- SetTargets and SetCollectors of the least-weighted strategy.
use opentelemetry_operator.Prelude.{
  ◌+◌, String, true, some, ◌≡◌, refl, ◌∙◌, arith, inl, inr, Bool-cases, length, nat_eq,
}
use opentelemetry_operator.GoMap.{Map, Range, get, has}
use opentelemetry_operator.Allocator.Target.{Item, Collector}
use opentelemetry_operator.Allocator.State.{State}
use opentelemetry_operator.Allocator.State.Invariant.{IsValid}
use opentelemetry_operator.Allocator.State.Add.{target_at}
use opentelemetry_operator.Allocator.State.Targets.{
  IsHashed, Reconciles, empty_map, reconcile_targets_total,
}
use opentelemetry_operator.Allocator.State.Collectors.{IsNamed}
use opentelemetry_operator.Allocator.State.Turnover.{
  Turns, changes, turned, same_collectors, turned-Turns,
}
use opentelemetry_operator.Allocator.LeastWeighted.{
  LeastWeighted, apply_filter, add_target_to_target_items, handle_collectors, set_targets,
  set_collectors,
}
use opentelemetry_operator.Allocator.LeastWeighted.Add.{Any, Anywhere, add_target-Contract}
use opentelemetry_operator.Allocator.LeastWeighted.Reallocate.{Moves, reallocate_targets_total}

-- With a live collector and targets that are keyed by their hash, SetTargets on a valid state does
-- not panic; the state stays valid, its targets become those that the filter keeps, and a target
-- that was held already keeps its collector.
pub set_targets_total :
    (r : Range) (targets : Map Item) (a : LeastWeighted) (c : String)
    → IsHashed (apply_filter a.filter targets)
    → IsValid a.state
    → has a.state.collectors c ≡ true
    → (b : LeastWeighted) × (set_targets r targets a ≡ some b)
      × Reconciles Anywhere (apply_filter a.filter targets) a.state b.state
unfolding set_targets
set_targets_total r targets a c hashed valid live =
    let kept = apply_filter a.filter targets in
    let (t, run, done) =
      reconcile_targets_total kept hashed a.state valid.consistent valid.placed r Anywhere
        (add_target_to_target_items r) Any (add_target-Contract r) (λ k it e. tt) c live in
    (record a { state = t; targets_remaining = a.targets_remaining + length kept }, rw run, done)

-- From `s` to `t` the live collectors have become `collectors`, and the targets of those that are
-- gone have moved to live ones.
pub record Rebalances (collectors : Map Collector) (s t : State) : Type 0 where
  pub valid : IsValid t
  pub live : (c : String) → has t.collectors c ≡ has collectors c
  pub items : (j : String) → target_at t.target_items j ≡ target_at s.target_items j
  pub stays :
      (j : String) (it : Item)
      → get s.target_items j ≡ some it
      → has collectors it.collector_name ≡ true
      → get t.target_items j ≡ some it

module _ (r : Range) (collectors : Map Collector) (named : IsNamed collectors) (s : State)
    (valid : IsValid s) where
  abbrev removed_collectors : Map Collector
  removed_collectors = (changes collectors r s).removals

  moved-Rebalances :
      (t u : State)
      → Turns collectors removed_collectors s t
      → Moves removed_collectors (r.visit Item t.target_items) t u
      → Rebalances collectors s u
  moved-Rebalances t u turn move = record {
    valid = record {
      consistent = move.consistent;
      placed = record {
        at_key = λ h it e. elim (move.moved h it e) [
          | inl f ↦ ground (
            arith,
            turn.live it.collector_name,
            turn.gone it.collector_name,
            move.live it.collector_name,
            move.done h it e,
            r.elem-visit Item t.target_items h,
            valid.placed.at_key h it (rw turn.items at f),
          )
          | inr f ↦ move.live it.collector_name ∙ f
        ];
      };
    };
    live = λ c. move.live c ∙ turn.live c;
    items = λ j. rw turn.items at (move.items j);
    stays =
        λ j it e f. move.stays j it (rw turn.items e) (ground (arith, turn.gone it.collector_name));
  }

  handle_collectors_total :
      (c : String)
      → has collectors c ≡ true
      → (t : State) × (handle_collectors r (changes collectors r s) s ≡ some t)
        × Rebalances collectors s t
  unfolding handle_collectors
  handle_collectors_total c lives =
      let t = turned collectors r s in
      let turn = turned-Turns collectors named r s valid.consistent valid.placed in
      let (u, run, move) =
        reallocate_targets_total r removed_collectors (r.visit Item t.target_items) t
          turn.consistent (λ b e. ground (arith, turn.gone b, turn.live b)) c
          (turn.live c ∙ lives) in
      (u, run, moved-Rebalances t u turn move)

  unchanged :
      nat_eq (length (changes collectors r s).additions) 0 ≡ true
      → nat_eq (length (changes collectors r s).removals) 0 ≡ true
      → Rebalances collectors s s
  unchanged a b = record {
    valid = valid;
    live = same_collectors collectors named r s valid.consistent a b;
    items = λ j. refl;
    stays = λ j it e f. e;
  }

-- With at least one collector given, keyed by its name, SetCollectors on a valid state does not
-- panic; the state stays valid, so that each target has a live collector, the live collectors
-- become those given, the targets are the same, and those whose collector stays are not moved.
pub set_collectors_total :
    (r : Range) (collectors : Map Collector) (a : LeastWeighted) (c : String)
    → IsNamed collectors
    → IsValid a.state
    → has collectors c ≡ true
    → (b : LeastWeighted) × (set_collectors r collectors a ≡ some b)
      × Rebalances collectors a.state b.state
unfolding set_collectors
set_collectors_total r collectors a c named valid lives =
    let s = a.state in
    let d = changes collectors r s in
    let a' = record a { collectors_allocatable = length collectors } in
    let (t, run, done) = handle_collectors_total r collectors named s valid c lives in
    elim (Bool-cases (nat_eq (length collectors) 0)) [
      | inl e ↦ absurd (cc (empty_map collectors c e))
      | inr some_given ↦ elim (Bool-cases (nat_eq (length d.additions) 0)) [
        | inr x ↦ (record a' { state = t }, rw some_given (rw x (rw run)), done)
        | inl x ↦ elim (Bool-cases (nat_eq (length d.removals) 0)) [
          | inr y ↦ (record a' { state = t }, rw some_given (rw x (rw y (rw run))), done)
          | inl y ↦ (a', rw some_given (rw x (rw y)), unchanged r collectors named s valid x y)
        ]
      ]
    ]
