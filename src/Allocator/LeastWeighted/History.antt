-- ===== src/Allocator/LeastWeighted/History.antt =====
-- Any history of calls on a new least-weighted allocator.
use opentelemetry_operator.Prelude.{
  ◌>>=◌, ◌+◌, List, [], ◌∷◌, true, Option, some, ◌≡◌, refl, arith, inl, inr, length, nat_eq,
}
use opentelemetry_operator.GoMap.{Map, Range, get}
use opentelemetry_operator.Allocator.Target.{Item, Collector}
use opentelemetry_operator.Allocator.Mapping.{listed}
use opentelemetry_operator.Allocator.State.{empty, reconcile_targets}
use opentelemetry_operator.Allocator.State.Invariant.{IsValid}
use opentelemetry_operator.Allocator.State.Targets.{IsHashed, some_key}
use opentelemetry_operator.Allocator.State.Collectors.{IsNamed}
use opentelemetry_operator.Allocator.LeastWeighted.{
  LeastWeighted, Filter, apply_filter, new_least_weighted_allocator, set_targets, set_collectors,
}
use opentelemetry_operator.Allocator.LeastWeighted.Correct.{set_targets_total, set_collectors_total}

-- A call of the allocator, with the order in which it happens to visit its maps.
pub data Call : Type 1 where
  targets : Range → Map Item → Call
  collectors : Range → Map Collector → Call

unfoldable pub call : Call → LeastWeighted → Option LeastWeighted
call (targets r m) a = set_targets r m a
call (collectors r m) a = set_collectors r m a

unfoldable pub run : List Call → LeastWeighted → Option LeastWeighted
run [] a = some a
run (c ∷ cs) a = do b ← call c a; run cs b

-- Targets are keyed by their hash, once filtered, and collectors by their name.
abbrev pub IsFormed : Option Filter → Call → Type 0
IsFormed f (targets r m) = IsHashed (apply_filter f m)
IsFormed f (collectors r m) = IsNamed m

abbrev pub AreFormed : Option Filter → List Call → Type 0
AreFormed f [] = Unit
AreFormed f (c ∷ cs) = IsFormed f c × AreFormed f cs

pub empty-IsValid : IsValid empty
unfolding get listed
empty-IsValid = record {
  consistent = record {
    named = λ c col e. absurd (cc);
    counted = λ c col e. absurd (cc);
    gauged = λ c. refl;
    listing = λ c j h. refl;
    keyed = λ h it e. absurd (cc);
    distinct = tt;
  };
  placed = record { at_key = λ h it e. absurd (cc) };
}

-- SetTargets keeps the filter.
filter-set_targets :
    (r : Range) (m : Map Item) (a b : LeastWeighted)
    → set_targets r m a ≡ some b
    → b.filter ≡ a.filter
unfolding set_targets
filter-set_targets r m a b e = ground arith

filter-set_collectors :
    (r : Range) (m : Map Collector) (a b : LeastWeighted)
    → set_collectors r m a ≡ some b
    → b.filter ≡ a.filter
unfolding set_collectors
filter-set_collectors r m a b e = ground arith

-- Without collectors SetTargets only counts the targets.
set_targets_idle :
    (r : Range) (m : Map Item) (a : LeastWeighted)
    → nat_eq (length a.state.collectors) 0 ≡ true
    → (b : LeastWeighted) × (set_targets r m a ≡ some b) × (b.state ≡ a.state)
unfolding set_targets reconcile_targets
set_targets_idle r m a e = (
  record a { targets_remaining = a.targets_remaining + length (apply_filter a.filter m) },
  rw e refl,
  refl,
)

call_total :
    (c : Call) (a : LeastWeighted)
    → IsFormed a.filter c
    → IsValid a.state
    → (b : LeastWeighted) × (call c a ≡ some b) × IsValid b.state × (b.filter ≡ a.filter)
unfolding call
call_total (targets r m) a formed valid = elim (some_key a.state.collectors) [
  | inl e ↦
      let (b, run, same) = set_targets_idle r m a e in
      (b, run, rw same valid, filter-set_targets r m a b run)
  | inr (c, live) ↦
      let (b, run, done) = set_targets_total r m a c formed valid live in
      (
        b,
        run,
        record { consistent = done.consistent; placed = done.placed },
        filter-set_targets r m a b run,
      )
]
call_total (collectors r m) a formed valid = elim (some_key m) [
  | inl e ↦ (
    record a { collectors_allocatable = length m },
    unfold set_collectors in rw e refl,
    valid,
    refl,
  )
  | inr (c, live) ↦
      let (b, run, done) = set_collectors_total r m a c formed valid live in
      (b, run, done.valid, filter-set_collectors r m a b run)
]

run_total :
    (cs : List Call) (a : LeastWeighted)
    → AreFormed a.filter cs
    → IsValid a.state
    → (b : LeastWeighted) × (run cs a ≡ some b) × IsValid b.state
unfolding run
run_total [] a formed valid = (a, refl, valid)
run_total (c ∷ cs) a formed valid =
    let (b, first, keeps, same) = call_total c a formed.0 valid in
    let (d, rest, ends) = run_total cs b (rw same formed.1) keeps in (d, rw first rest, ends)

-- No history of SetTargets and SetCollectors calls on a new allocator panics, if the targets are
-- keyed by their hash once filtered and the collectors by their name, and after it each target is
-- assigned to a live collector, and each live collector's counter, gauge and index entries are
-- those of the targets assigned to it.
pub history-IsValid :
    (f : Option Filter) (cs : List Call)
    → AreFormed f cs
    → (b : LeastWeighted) × (run cs (new_least_weighted_allocator f) ≡ some b) × IsValid b.state
history-IsValid f cs formed = run_total cs (new_least_weighted_allocator f) formed empty-IsValid
