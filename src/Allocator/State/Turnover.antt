-- ===== src/Allocator/State/Turnover.antt =====
-- After the first two loops of handleCollectors the live collectors are those given.
use opentelemetry_operator.Prelude.{
  String, true, false, none, some, ◌≡◌, ◌∙◌, arith, eq_iff, length, nat_eq, for_each, if◌then◌else◌,
}
use opentelemetry_operator.GoMap.{Map, Range, get, has}
use opentelemetry_operator.Allocator.Target.{Item, Collector}
use opentelemetry_operator.Allocator.Diff.{Changes, maps}
use opentelemetry_operator.Allocator.Diff.Laws.{get-additions-maps, get-removals-maps}
use opentelemetry_operator.Allocator.State.{State, clear_collector, insert_collector}
use opentelemetry_operator.Allocator.State.Invariant.{IsConsistent, IsPlaced}
use opentelemetry_operator.Allocator.State.Collectors.{
  IsNamed, clear_collectors-Clears, insert_collectors-Inserts,
}
use opentelemetry_operator.Allocator.State.Targets.{empty_map}

-- From `s` to `t` the live collectors have become `collectors`; the targets have not changed.
pub record Turns (collectors : Map Collector) (removals : Map Collector) (s t : State)
    : Type 0 where
  pub consistent : IsConsistent t
  pub items : t.target_items ≡ s.target_items
  pub live : (c : String) → has t.collectors c ≡ has collectors c
  pub gone :
      (c : String) → has removals c ≡ (if has collectors c then false else has s.collectors c)

module _ (collectors : Map Collector) (r : Range) (s : State) where
  abbrev pub changes : Changes Collector
  changes = maps r (λ (c : Collector). c.name) s.collectors collectors

  abbrev pub turned : State
  turned =
      for_each (insert_collector changes.additions)
        (for_each (clear_collector changes.removals) s (r.visit Collector changes.removals))
        (r.visit Collector changes.additions)

module _ (collectors : Map Collector) (named : IsNamed collectors) (r : Range) (s : State)
    (v : IsConsistent s) where
  pub additions_lem :
      (k : String)
      → get (changes collectors r s).additions k
        ≡ (if has s.collectors k then none else get collectors k)
  additions_lem k = rw get-additions-maps (grind (arith, named k, v.named k, eq_iff))

  pub removals_lem :
      (k : String)
      → get (changes collectors r s).removals k
        ≡ (if has collectors k then none else get s.collectors k)
  removals_lem k = rw get-removals-maps (grind (arith, named k, v.named k, eq_iff))

  -- No difference: the collectors given are live already.
  pub same_collectors :
      nat_eq (length (changes collectors r s).additions) 0 ≡ true
      → nat_eq (length (changes collectors r s).removals) 0 ≡ true
      → (c : String) → has s.collectors c ≡ has collectors c
  same_collectors a b c = ground (
    arith,
    additions_lem c,
    removals_lem c,
    empty_map (changes collectors r s).additions c a,
    empty_map (changes collectors r s).removals c b,
  )

  pub IsNamed-removals : IsNamed (changes collectors r s).removals
  IsNamed-removals k c e = ground (arith, removals_lem k, v.named k c)

  pub IsNamed-additions : IsNamed (changes collectors r s).additions
  IsNamed-additions k c e = ground (arith, additions_lem k, named k c)

  -- No target held is assigned to a collector that is about to be inserted.
  unowned :
      IsPlaced s
      → (h : String) (it : Item) → get s.target_items h ≡ some it
      → has (changes collectors r s).additions it.collector_name ≡ false
  unowned p h it e = ground (arith, additions_lem it.collector_name, p.at_key h it e)

  pub turned-Turns :
      IsPlaced s → Turns collectors (changes collectors r s).removals s (turned collectors r s)
  turned-Turns p =
      let cleared =
        clear_collectors-Clears (changes collectors r s).removals IsNamed-removals
          (r.visit Collector (changes collectors r s).removals) s v in
      let inserted =
        insert_collectors-Inserts (changes collectors r s).additions IsNamed-additions
          (r.visit Collector (changes collectors r s).additions) _ cleared.consistent
          (λ h it e. unowned p h it (rw cleared.items at e)) in
      record {
        consistent = inserted.consistent;
        items = inserted.items ∙ cleared.items;
        live = λ c. ground (
          arith,
          additions_lem c,
          removals_lem c,
          r.elem-visit Collector (changes collectors r s).additions c,
          r.elem-visit Collector (changes collectors r s).removals c,
          cleared.live c,
          inserted.live c,
        );
        gone = λ c. ground (arith, removals_lem c);
      }
