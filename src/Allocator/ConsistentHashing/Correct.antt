-- ===== src/Allocator/ConsistentHashing/Correct.antt =====
-- SetTargets and SetCollectors of the consistent-hashing strategy.
use opentelemetry_operator.Prelude.{
  ◌+◌, String, List, [], ◌∷◌, true, false, ◌&&◌, ◌||◌, some, ◌≡◌, refl, sym, ap, ◌∙◌, arith, eq_iff,
  inl, inr, Bool-cases, Option-cases, length, nat_eq, elem, for_each, if◌then◌else◌,
}
use opentelemetry_operator.GoMap.{Map, Range, get, has}
use opentelemetry_operator.Allocator.Target.{Item, Collector}
use opentelemetry_operator.Allocator.Diff.{Changes}
use opentelemetry_operator.Allocator.State.{State}
use opentelemetry_operator.Allocator.State.Invariant.{IsValid}
use opentelemetry_operator.Allocator.State.Add.{target_at}
use opentelemetry_operator.Allocator.State.Targets.{
  IsHashed, Reconciles, empty_map, reconcile_targets_total,
}
use opentelemetry_operator.Allocator.State.Collectors.{IsNamed}
use opentelemetry_operator.Allocator.State.Turnover.{
  Turns, changes, turned, same_collectors, turned-Turns, additions_lem, removals_lem,
  IsNamed-additions, IsNamed-removals,
}
use opentelemetry_operator.Allocator.LeastWeighted.{apply_filter}
use opentelemetry_operator.Allocator.ConsistentHashing.{
  Ring, ConsistentHashing, add_target_to_target_items, leave_ring, join_ring, handle_collectors,
  set_targets, set_collectors,
}
use opentelemetry_operator.Allocator.ConsistentHashing.Add.{
  IsRingOf, IsNew, IsHome, add_target-Contract,
}
use opentelemetry_operator.Allocator.ConsistentHashing.Reassign.{Homes, reassign_targets_total}

-- A valid state, whose live collectors are the ring's members and whose targets are all at home.
pub record IsSettled (ring : Ring) (s : State) (table : ring.Table) : Type 0 where
  pub valid : IsValid s
  pub members : IsRingOf ring table (has s.collectors)
  pub home :
      (h : String) (it : Item)
      → get s.target_items h ≡ some it
      → IsHome ring table h it.collector_name

-- No target given is assigned to a live collector yet.
abbrev pub AreNew : State → Map Item → Type 0
AreNew s m =
    (k : String) (it : Item) → get m k ≡ some it → has s.collectors it.collector_name ≡ false

-- With a live collector, and new targets that are keyed by their hash and not assigned yet,
-- SetTargets on a settled state does not panic and leaves it settled: each target is with the
-- collector where the ring locates its hash. The targets become those that the filter keeps.
pub set_targets-IsSettled :
    (ring : Ring) (r : Range) (targets : Map Item) (a : ConsistentHashing ring) (c : String)
    → IsHashed (apply_filter a.filter targets)
    → AreNew a.state (apply_filter a.filter targets)
    → IsSettled ring a.state a.consistent_hasher
    → has a.state.collectors c ≡ true
    → (b : ConsistentHashing ring) × (set_targets ring r targets a ≡ some b)
      × Reconciles (IsHome ring a.consistent_hasher) (apply_filter a.filter targets) a.state b.state
      × IsSettled ring b.state b.consistent_hasher
unfolding set_targets
set_targets-IsSettled ring r targets a c hashed fresh settled live =
    let kept = apply_filter a.filter targets in
    let table = a.consistent_hasher in
    let (t, run, done) =
      reconcile_targets_total kept hashed a.state settled.valid.consistent settled.valid.placed r
        (IsHome ring table) (add_target_to_target_items ring table) (IsNew ring table)
        (add_target-Contract ring table) (λ k it e. (fresh k it e, settled.members)) c live in
    (
      record a { state = t; targets_remaining = a.targets_remaining + length kept },
      rw run,
      done,
      record {
        valid = record { consistent = done.consistent; placed = done.placed };
        members = λ b. settled.members b ∙ sym (done.live b);
        home = λ h it e. elim (done.home h it e) [ inl f ↦ settled.home h it f | inr f ↦ f ];
      },
    )

module _ (ring : Ring) (m : Map Collector) (named : IsNamed m) where
  member-leave :
      (ks : List String) (t : ring.Table) (c : String)
      → ring.member (for_each (leave_ring ring m) t ks) c
        ≡ (if elem c ks && has m c then false else ring.member t c)
  unfolding leave_ring
  member-leave [] t c = refl
  member-leave (k ∷ ks) t c = elim (Option-cases (get m k)) [
    | inl e ↦ rw (member-leave ks (leave_ring ring m t k) c) (grind (arith, eq_iff k c))
    | inr (x, e) ↦
        rw (member-leave ks (leave_ring ring m t k) c) (
          rw (e, leave_ring)
            (grind (arith, named k x e, ring.member-remove t x.name c, eq_iff k c)))
  ]

  member-join :
      (ks : List String) (t : ring.Table) (c : String)
      → ring.member (for_each (join_ring ring m) t ks) c ≡ (elem c ks && has m c || ring.member t c)
  unfolding join_ring
  member-join [] t c = refl
  member-join (k ∷ ks) t c = elim (Option-cases (get m k)) [
    | inl e ↦ rw (member-join ks (join_ring ring m t k) c) (grind (arith, eq_iff k c))
    | inr (x, e) ↦
        rw (member-join ks (join_ring ring m t k) c)
          (rw (e, join_ring) (grind (arith, named k x e, ring.member-add t x.name c, eq_iff k c)))
  ]

-- From `s` to `t` the live collectors have become `collectors`; the targets held are the same.
pub record Changeover (collectors : Map Collector) (s t : State) : Type 0 where
  pub live : (c : String) → has t.collectors c ≡ has collectors c
  pub items : (j : String) → target_at t.target_items j ≡ target_at s.target_items j

module _ (ring : Ring) (r : Range) (collectors : Map Collector) (named : IsNamed collectors)
    (s : State) (table : ring.Table) (settled : IsSettled ring s table) where
  abbrev d : Changes Collector
  d = changes collectors r s

  abbrev next_table : ring.Table
  next_table =
      for_each (join_ring ring d.additions)
        (for_each (leave_ring ring d.removals) table (r.visit Collector d.removals))
        (r.visit Collector d.additions)

  member-next_table : (c : String) → ring.member next_table c ≡ has collectors c
  member-next_table c =
      rw
        (member-join ring d.additions
          (IsNamed-additions collectors named r s settled.valid.consistent))
        (rw
          (member-leave ring d.removals
            (IsNamed-removals collectors named r s settled.valid.consistent))
          (ground (
            arith,
            settled.members c,
            additions_lem collectors named r s settled.valid.consistent c,
            removals_lem collectors named r s settled.valid.consistent c,
            r.elem-visit Collector d.additions c,
            r.elem-visit Collector d.removals c,
          )))

  Homes-IsSettled :
      (t u : State)
      → Turns collectors d.removals s t
      → Homes ring next_table (r.visit Item t.target_items) t u
      → IsSettled ring u next_table
  Homes-IsSettled t u turn homes = record {
    valid = record {
      consistent = homes.consistent;
      placed = record {
        at_key = λ h it e. homes.live it.collector_name ∙ (homes.home h it e (visited h it e)).1;
      };
    };
    members = λ b. member-next_table b ∙ sym (homes.live b ∙ turn.live b);
    home = λ h it e. (homes.home h it e (visited h it e)).0;
  }
    where
      visited :
          (h : String) (it : Item)
          → get u.target_items h ≡ some it
          → elem h (r.visit Item t.target_items) ≡ true
      visited h it e = ground (arith, homes.items h, r.elem-visit Item t.target_items h)

  Homes-over :
      (t u : State)
      → Turns collectors d.removals s t
      → Homes ring next_table (r.visit Item t.target_items) t u
      → Changeover collectors s u
  Homes-over t u turn homes = record {
    live = λ b. homes.live b ∙ turn.live b;
    items = λ j. homes.items j ∙ ap (λ m. target_at m j) turn.items;
  }

  unchanged :
      nat_eq (length d.additions) 0 ≡ true
      → nat_eq (length d.removals) 0 ≡ true
      → Changeover collectors s s
  unchanged a b = record {
    live = same_collectors collectors named r s settled.valid.consistent a b;
    items = λ j. refl;
  }

  handle_collectors_total :
      (c : String)
      → has collectors c ≡ true
      → (t : State) × (handle_collectors ring r d s table ≡ some (t, next_table))
        × IsSettled ring t next_table
        × Changeover collectors s t
  unfolding handle_collectors
  handle_collectors_total c lives =
      let t = turned collectors r s in
      let turn = turned-Turns collectors named r s settled.valid.consistent settled.valid.placed in
      let (u, run, homes) =
        reassign_targets_total ring next_table (r.visit Item t.target_items) t turn.consistent
          (λ b. member-next_table b ∙ sym (turn.live b)) c (turn.live c ∙ lives) in
      (u, rw run, Homes-IsSettled t u turn homes, Homes-over t u turn homes)

-- With at least one collector given, keyed by its name, SetCollectors on a settled state does not
-- panic and leaves it settled, each target with the collector where the new ring locates its hash;
-- the live collectors become those given, and the targets are the same.
pub set_collectors-IsSettled :
    (ring : Ring) (r : Range) (collectors : Map Collector) (a : ConsistentHashing ring) (c : String)
    → IsNamed collectors
    → IsSettled ring a.state a.consistent_hasher
    → has collectors c ≡ true
    → (b : ConsistentHashing ring) × (set_collectors ring r collectors a ≡ some b)
      × IsSettled ring b.state b.consistent_hasher
      × Changeover collectors a.state b.state
unfolding set_collectors
set_collectors-IsSettled ring r collectors a c named settled lives =
    let s = a.state in
    let d = changes collectors r s in
    let a' = record a { collectors_allocatable = length collectors } in
    let table = next_table ring r collectors named s a.consistent_hasher settled in
    let (t, run, done, over) =
      handle_collectors_total ring r collectors named s a.consistent_hasher settled c lives in
    let b = record a' { state = t; consistent_hasher = table } in
    elim (Bool-cases (nat_eq (length collectors) 0)) [
      | inl e ↦ absurd (cc (empty_map collectors c e))
      | inr some_given ↦ elim (Bool-cases (nat_eq (length d.additions) 0)) [
        | inr x ↦ (b, rw some_given (rw x (rw run)), done, over)
        | inl x ↦ elim (Bool-cases (nat_eq (length d.removals) 0)) [
          | inr y ↦ (b, rw some_given (rw x (rw y (rw run))), done, over)
          | inl y ↦ (
            a',
            rw some_given (rw x (rw y)),
            settled,
            unchanged ring r collectors named s a.consistent_hasher settled x y,
          )
        ]
      ]
    ]
