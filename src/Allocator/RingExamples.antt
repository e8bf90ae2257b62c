-- ===== src/Allocator/RingExamples.antt =====
-- Runs of the consistent-hashing allocator on a ring that sends every key to its first member.
use opentelemetry_operator.Prelude.{
  String, List, [], ◌∷◌, true, false, Option, none, some, ◌≡◌, refl, sym, subst, ◌∙◌, eq_of_some,
  arith, ◌==◌, eq_iff, elem, if◌then◌else◌,
}
use opentelemetry_operator.GoMap.{get, has, put, delete, keys, in_order}
use opentelemetry_operator.Allocator.Target.{new_collector}
use opentelemetry_operator.Allocator.Diff.{maps}
use opentelemetry_operator.Allocator.State.{try_each, clear_collector, insert_collector}
use opentelemetry_operator.Allocator.State.Targets.{Reconciles}
use opentelemetry_operator.Allocator.ConsistentHashing.{
  Ring, ConsistentHashing, new_consistent_hashing_allocator,
}
use opentelemetry_operator.Allocator.ConsistentHashing
use opentelemetry_operator.Allocator.ConsistentHashing.Add.{IsHome}
use opentelemetry_operator.Allocator.ConsistentHashing.Correct.{
  IsSettled, AreNew, Changeover, set_targets-IsSettled, set_collectors-IsSettled,
}
use opentelemetry_operator.Allocator.LeastWeighted.History.{empty-IsValid}
use opentelemetry_operator.Allocator.Examples.{
  two_targets, two_collectors, two_targets-IsHashed, two_collectors-IsNamed,
}

without : List String → String → List String
without [] m = []
without (c ∷ cs) m = let rest = without cs m in if c == m then rest else c ∷ rest

first : List String → Option String
first [] = none
first (c ∷ cs) = some c

elem-without :
    (t : List String) (m c : String) → elem c (without t m) ≡ (if m == c then false else elem c t)
unfolding without
elem-without [] m c = ground arith
elem-without (x ∷ t) m c = ground (arith, eq_iff x m, eq_iff x c, eq_iff m c, elem-without t m c)

elem-first : (t : List String) (k c : String) → first t ≡ some c → elem c t ≡ true
unfolding first
elem-first [] k c e = cc
elem-first (x ∷ t) k c e = ground (arith, eq_iff x c)

first-some : (t : List String) (k c : String) → elem c t ≡ true → (d : String) × (first t ≡ some d)
unfolding first
first-some [] k c e = absurd (cc)
first-some (x ∷ t) k c e = (x, refl)

abbrev first_member : Ring
first_member = record {
  Table = List String;
  new = [];
  add = λ t m. m ∷ t;
  remove = without;
  locate_key = λ t k. first t;
  member = λ t c. elem c t;
  member-new = λ c. refl;
  member-add = λ t m c. refl;
  member-remove = elem-without;
  member-locate = elem-first;
  locate_some = first-some;
}

abbrev fresh : ConsistentHashing first_member
fresh = new_consistent_hashing_allocator first_member none

fresh-IsSettled : IsSettled first_member fresh.state fresh.consistent_hasher
unfolding get
fresh-IsSettled = record {
  valid = empty-IsValid;
  members = λ c. refl;
  home = λ h it e. absurd (cc);
}

set_collectors-IsSettled_example :
    (b : ConsistentHashing first_member) × (ConsistentHashing.set_collectors first_member in_order
        two_collectors fresh
      ≡ some b)
    × IsSettled first_member b.state b.consistent_hasher
    × Changeover two_collectors fresh.state b.state
set_collectors-IsSettled_example =
    set_collectors-IsSettled first_member in_order two_collectors fresh "a" two_collectors-IsNamed
      fresh-IsSettled (unfold get in refl)

-- The state that the call leaves.
abbrev ready : ConsistentHashing first_member
ready = record {
  state = record {
    collectors = two_collectors;
    target_items = [];
    mapping = [];
    targets_per_collector = [];
  };
  consistent_hasher = "b" ∷ "a" ∷ [];
  filter = none;
  collectors_allocatable = 2;
  targets_remaining = 0;
}

ready-run : ConsistentHashing.set_collectors first_member in_order two_collectors fresh ≡ some ready
unfolding ConsistentHashing.set_collectors ConsistentHashing.handle_collectors
    ConsistentHashing.join_ring ConsistentHashing.leave_ring ConsistentHashing.reassign maps
    clear_collector insert_collector new_collector try_each get put delete keys
ready-run = refl

ready-IsSettled : IsSettled first_member ready.state ready.consistent_hasher
ready-IsSettled =
    let (b, e, settled, over) =
      set_collectors-IsSettled first_member in_order two_collectors fresh "a" two_collectors-IsNamed
        fresh-IsSettled (unfold get in refl) in
    subst
      (λ (x : ConsistentHashing first_member). IsSettled first_member x.state x.consistent_hasher)
      (eq_of_some (sym e ∙ ready-run)) settled

stranger : (h : String) → (h == "") ≡ true → has two_collectors h ≡ false
unfolding get
stranger h e = ground (arith, eq_iff h "", eq_iff "a" h, eq_iff "b" h, eq_iff "a" "", eq_iff "b" "")

two_targets-AreNew : AreNew ready.state two_targets
unfolding get
two_targets-AreNew k it e =
    stranger it.collector_name
      (ground (arith, eq_iff "x" k, eq_iff "y" k, eq_iff it.collector_name ""))

set_targets-IsSettled_example :
    (b : ConsistentHashing first_member) × (ConsistentHashing.set_targets first_member in_order
        two_targets ready
      ≡ some b)
    × Reconciles (IsHome first_member ready.consistent_hasher) two_targets ready.state b.state
    × IsSettled first_member b.state b.consistent_hasher
set_targets-IsSettled_example =
    set_targets-IsSettled first_member in_order two_targets ready "a" two_targets-IsHashed
      two_targets-AreNew ready-IsSettled (unfold get in refl)
