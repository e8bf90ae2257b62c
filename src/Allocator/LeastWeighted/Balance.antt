-- ===== src/Allocator/LeastWeighted/Balance.antt =====
-- The load: collectors' counters differ by one at most as long as targets are only added.

use opentelemetry_operator.Prelude.{
  String, List, [], ◌∷◌, true, false, Option, none, some, ◌≡◌, refl, subst, ◌⊎◌, arith, eq_iff, inl,
  inr, ◌&&◌, eq_of_some, Bool-cases, Option-cases, String-cases, length, nat_eq,
}
use opentelemetry_operator.Prelude.Int.{ℤ, inc, lt_int}
use opentelemetry_operator.GoMap.{Map, Range, get, has}
use opentelemetry_operator.GoMap.Laws.{get-put}
use opentelemetry_operator.Allocator.Target.{Item, Collector}
use opentelemetry_operator.Allocator.Diff.{Changes, maps}
use opentelemetry_operator.Allocator.State.{
  State, try_each, place, remove_target, add_target, handle_targets, reconcile_targets,
}
use opentelemetry_operator.Allocator.State.Invariant.{IsConsistent}
use opentelemetry_operator.Allocator.State.Targets.{IsHashed, removals_lem}
use opentelemetry_operator.Allocator.LeastWeighted.{
  LeastWeighted, apply_filter, find_next_collector, add_target_to_target_items, set_targets,
}
use opentelemetry_operator.Allocator.LeastWeighted.Next.{NoMore-find_next, Stored-find_next}

-- No collector has two targets more than another.
abbrev pub IsBalanced : Map Collector → Type 0
IsBalanced m =
    (c d : String) (x y : Collector)
    → get m c ≡ some x
    → get m d ≡ some y
    → lt_int (inc y.num_targets) x.num_targets ≡ false

inc_mono : (y m : ℤ) → lt_int y m ≡ false → lt_int (inc y) (inc m) ≡ false
inc_mono y m h = ground arith

inc-grows : (m x : ℤ) → lt_int m x ≡ false → lt_int (inc m) x ≡ false
inc-grows m x h = ground arith

inc-not_lt : (m : ℤ) → lt_int (inc m) m ≡ false
inc-not_lt m = ground arith

module _ (s : State) (tg : Item) (key name : String) (col : Collector)
    (found : get s.collectors key ≡ some col) where
  -- After a placement a collector is the one that gained the target, or has not changed.
  placed_cases :
      (c : String) (x : Collector)
      → get (place s tg key name col).collectors c ≡ some x
      → (x.num_targets ≡ inc col.num_targets) ⊎ (get s.collectors c ≡ some x)
  unfolding place
  placed_cases c x e = elim (String-cases key c) [
    | inl p ↦ inl (
        ground (
          arith,
          get-put s.collectors key (record col { num_targets = inc col.num_targets }) c,
          eq_iff key c,
        ))
    | inr p ↦ inr (
        ground
          (arith, get-put s.collectors key (record col { num_targets = inc col.num_targets }) c))
  ]

  -- The one collector that gains a target had no more than any other.
  place-IsBalanced :
      ((d : String) (y : Collector)
        → get s.collectors d ≡ some y
        → lt_int y.num_targets col.num_targets ≡ false)
      → IsBalanced s.collectors
      → IsBalanced (place s tg key name col).collectors
  place-IsBalanced least h c d x y ex ey = elim (placed_cases c x ex) [
    | inl p ↦ elim (placed_cases d y ey) [
      | inl q ↦ rw (p, q) (inc-not_lt (inc col.num_targets))
      | inr q ↦ rw p (inc_mono y.num_targets col.num_targets (least d y q))
    ]
    | inr p ↦ elim (placed_cases d y ey) [
      | inl q ↦ rw q (inc-grows (inc col.num_targets) x.num_targets (h c key x col p found))
      | inr q ↦ h c d x y p q
    ]
  ]

-- A property that each step of a loop keeps, the loop keeps.
try_each_keeps {ℓ κ} :
    {S : Type ℓ} (P : S → Type κ) (step : S → String → Option S)
    → ((s t : S) (k : String) → step s k ≡ some t → P s → P t)
    → (ks : List String) (s t : S) → try_each step s ks ≡ some t
    → P s
    → P t
unfolding try_each
try_each_keeps P step keep [] s t e h = subst P (eq_of_some e) h
try_each_keeps P step keep (k ∷ ks) s t e h = elim (Option-cases (step s k)) [
  | inl f ↦ absurd (cc (rw f at e))
  | inr (u, f) ↦ try_each_keeps P step keep ks u t (rw f at e) (keep s u k f h)
]

abbrev IsBalancedState : State → Type 0
IsBalancedState s = IsBalanced s.collectors

module _ (r : Range) where
  add_target-IsBalanced :
      (tg : Item) (s t : State)
      → add_target_to_target_items r tg s ≡ some t
      → IsBalanced s.collectors
      → IsBalanced t.collectors
  unfolding add_target_to_target_items
  add_target-IsBalanced tg s t e h = elim (Option-cases (find_next_collector r s.collectors)) [
    | inl f ↦ absurd (cc (rw f at e))
    | inr ((key, col), f) ↦ subst IsBalancedState (eq_of_some (rw f at e)) (
        place-IsBalanced s tg key col.name col (rw f at (Stored-find_next r s.collectors))
          (λ d y g. rw f at (NoMore-find_next r s.collectors d y g)) h)
  ]

  add_one-IsBalanced :
      (additions : Map Item) (s t : State) (k : String)
      → add_target (add_target_to_target_items r) additions s k ≡ some t
      → IsBalanced s.collectors
      → IsBalanced t.collectors
  unfolding add_target
  add_one-IsBalanced additions s t k e h = elim (Option-cases (get additions k)) [
    | inl f ↦ subst IsBalancedState (eq_of_some (rw (f, add_target) at e)) h
    | inr (it, f) ↦ elim (Bool-cases (has s.target_items k)) [
      | inl g ↦ subst IsBalancedState (eq_of_some (rw g at (rw (f, add_target) at e))) h
      | inr g ↦ add_target-IsBalanced it s t (rw g at (rw (f, add_target) at e)) h
    ]
  ]

-- With nothing to remove the first loop of handleTargets leaves the state alone.
remove_none :
    (removals : Map Item) (s : State) (k : String)
    → get removals k ≡ none
    → remove_target removals s k ≡ some s
unfolding remove_target
remove_none removals s k h = ground arith

remove_nothing :
    (removals : Map Item) (ks : List String) (s : State)
    → ((k : String) → get removals k ≡ none)
    → try_each (remove_target removals) s ks ≡ some s
unfolding try_each
remove_nothing removals [] s h = refl
remove_nothing removals (k ∷ ks) s h =
    rw (remove_none removals s k (h k)) (remove_nothing removals ks s h)

module _ (r : Range) (targets : Map Item) (hashed : IsHashed targets) (s : State)
    (v : IsConsistent s)
    (kept : (h : String) → has s.target_items h ≡ true → has targets h ≡ true) where
  abbrev d : Changes Item
  d = maps r (λ (it : Item). it.hash) s.target_items targets

  nothing_removed : (k : String) → get d.removals k ≡ none
  nothing_removed k = ground (arith, removals_lem targets hashed s v r k, kept k)

  handle_targets-IsBalanced :
      (t : State)
      → handle_targets (add_target_to_target_items r) r d s ≡ some t
      → IsBalanced s.collectors
      → IsBalanced t.collectors
  unfolding handle_targets
  handle_targets-IsBalanced t e h =
      try_each_keeps IsBalancedState _ (add_one-IsBalanced r d.additions) (r.visit Item d.additions)
        s t (rw (remove_nothing d.removals (r.visit Item s.target_items) s nothing_removed) at e) h

  reconcile-IsBalanced :
      (t : State)
      → reconcile_targets (add_target_to_target_items r) r targets s ≡ some t
      → IsBalanced s.collectors
      → IsBalanced t.collectors
  unfolding reconcile_targets
  reconcile-IsBalanced t e h = elim (Bool-cases (nat_eq (length s.collectors) 0)) [
    | inl x ↦ subst IsBalancedState (eq_of_some (rw x at e)) h
    | inr x ↦ elim (Bool-cases (nat_eq (length d.additions) 0 && nat_eq (length d.removals) 0)) [
      | inl y ↦ subst IsBalancedState (eq_of_some (rw y at (rw x at e))) h
      | inr y ↦ handle_targets-IsBalanced t (rw y at (rw x at e)) h
    ]
  ]

-- While no target held is dropped, SetTargets keeps the collectors' counters within one of each
-- other.
pub set_targets-IsBalanced :
    (r : Range) (targets : Map Item) (a b : LeastWeighted)
    → IsHashed (apply_filter a.filter targets)
    → IsConsistent a.state
    → ((h : String)
        → has a.state.target_items h ≡ true
        → has (apply_filter a.filter targets) h ≡ true)
    → set_targets r targets a ≡ some b
    → IsBalanced a.state.collectors
    → IsBalanced b.state.collectors
unfolding set_targets
set_targets-IsBalanced r targets a b hashed v kept e h =
    let m = apply_filter a.filter targets in
    elim (Option-cases (reconcile_targets (add_target_to_target_items r) r m a.state)) [
      | inl f ↦ absurd (cc (rw f at e))
      | inr (t, f) ↦
          subst (λ (x : LeastWeighted). IsBalanced x.state.collectors) (eq_of_some (rw f at e))
            (reconcile-IsBalanced r m hashed a.state v kept t f h)
    ]
