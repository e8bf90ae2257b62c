-- ===== src/Allocator/State/Targets.antt =====
-- SetTargets of either strategy: the targets held become those given, and the ones that were
-- already held stay where they are.
use opentelemetry_operator.Prelude.{
  String, [], ◌∷◌, Bool, true, Option, none, some, ◌≡◌, refl, ◌∙◌, fun_ext, sym, subst, arith,
  eq_iff, eq_refl, ◌⊎◌, inl, inr, Bool-cases, length, nat_eq, if◌then◌else◌,
}
use opentelemetry_operator.GoMap.{Map, Range, get, has}
use opentelemetry_operator.Allocator.Target.{Item}
use opentelemetry_operator.Allocator.Diff.{Changes, maps}
use opentelemetry_operator.Allocator.Diff.Laws.{get-additions-maps, get-removals-maps}
use opentelemetry_operator.Allocator.State.{State, handle_targets, reconcile_targets}
use opentelemetry_operator.Allocator.State.Invariant.{IsConsistent, IsPlaced}
use opentelemetry_operator.Allocator.State.Remove.{Removes, remove_targets_total}
use opentelemetry_operator.Allocator.State.Add.{Contract, Adds, target_at, add_targets_total}

-- The key of each target is its hash.
abbrev pub IsHashed : Map Item → Type 0
IsHashed m = (k : String) (it : Item) → get m k ≡ some it → it.hash ≡ k

-- From `s` to `t` the targets held have become `targets`.
pub record Reconciles (Home : String → String → Type 0) (targets : Map Item) (s t : State)
    : Type 0 where
  pub consistent : IsConsistent t
  pub placed : IsPlaced t
  pub live : (c : String) → has t.collectors c ≡ has s.collectors c
  pub items :
      (j : String)
      → target_at t.target_items j ≡ (
          if has targets j
          then if has s.target_items j then target_at s.target_items j else target_at targets j
          else none)
  pub stays :
      (j : String) (it : Item)
      → get s.target_items j ≡ some it
      → has targets j ≡ true
      → get t.target_items j ≡ some it
  pub home :
      (j : String) (it : Item)
      → get t.target_items j ≡ some it
      → (get s.target_items j ≡ some it) ⊎ Home j it.collector_name

pub empty_map {ℓ} :
    {V : Type ℓ} (m : Map V) (k : String) → nat_eq (length m) 0 ≡ true → get m k ≡ none
unfolding get
empty_map [] k e = refl
empty_map ((j, v) ∷ m) k e = ground arith

module _ (targets : Map Item) (hashed : IsHashed targets) (s : State) (v : IsConsistent s)
    (r : Range) (j : String) where
  abbrev pub hash : Item → String
  hash it = it.hash

  -- With hashes for keys, a key is added if it is new and removed if it is gone.
  additions_lem :
      get (maps r hash s.target_items targets).additions j
      ≡ (if has s.target_items j then none else get targets j)
  additions_lem = rw get-additions-maps (grind (arith, hashed j, v.keyed j, eq_iff))

  pub removals_lem :
      get (maps r hash s.target_items targets).removals j
      ≡ (if has targets j then none else get s.target_items j)
  removals_lem = rw get-removals-maps (grind (arith, hashed j, v.keyed j, eq_iff))

module _ (targets : Map Item) (hashed : IsHashed targets) (s : State) (v : IsConsistent s)
    (p : IsPlaced s) (r : Range) (Home : String → String → Type 0) where
  abbrev d : Changes Item
  d = maps r (λ (it : Item). it.hash) s.target_items targets

  -- Nothing to add and nothing to remove: the targets are already held.
  unchanged :
      nat_eq (length d.additions) 0 ≡ true
      → nat_eq (length d.removals) 0 ≡ true
      → Reconciles Home targets s s
  unchanged a b = record {
    consistent = v;
    placed = p;
    live = λ c. refl;
    items = λ j. ground (
      arith,
      additions_lem targets hashed s v r j,
      removals_lem targets hashed s v r j,
      empty_map d.additions j a,
      empty_map d.removals j b,
    );
    stays = λ j it e f. e;
    home = λ j it e. inl e;
  }

  addition-target : (k : String) (it : Item) → get d.additions k ≡ some it → get targets k ≡ some it
  addition-target k it e = ground (arith, additions_lem targets hashed s v r k)

  handled :
      (t u : State)
      → Removes d.removals (r.visit Item s.target_items) s t
      → Adds Home d.additions (r.visit Item d.additions) t u
      → Reconciles Home targets s u
  handled t u gone new = record {
    consistent = new.consistent;
    placed = new.placed;
    live = λ c. new.live c ∙ gone.live c;
    items = λ j. ground (
      arith,
      additions_lem targets hashed s v r j,
      removals_lem targets hashed s v r j,
      r.elem-visit Item s.target_items j,
      r.elem-visit Item d.additions j,
      gone.items j,
      new.items j,
    );
    stays = λ j it e f.
        ground (arith, removals_lem targets hashed s v r j, gone.items j, new.stays j it);
    home = λ j it e. elim (new.home j it e) [
      | inl f ↦ inl (ground (arith, gone.items j))
      | inr f ↦ inr f
    ];
  }

  module _ (add : Item → State → Option State) (Ready : Item → (String → Bool) → Type 0)
      (contract : Contract Home add Ready)
      (ready : (k : String) (it : Item) → get targets k ≡ some it → Ready it (has s.collectors))
      (c : String) (lives : has s.collectors c ≡ true) where
    handle_targets_total :
        (t : State) × (handle_targets add r d s ≡ some t) × Reconciles Home targets s t
    unfolding handle_targets
    handle_targets_total =
        let (t, first, gone) =
          remove_targets_total d.removals (r.visit Item s.target_items) s v p in
        let same = fun_ext gone.live in
        let (u, rest, new) =
          add_targets_total Home add Ready contract d.additions
            (λ k it e. hashed k it (addition-target k it e)) (r.visit Item d.additions) t
            gone.consistent gone.placed
            (λ k it e. subst (Ready it) (sym same) (ready k it (addition-target k it e))) c
            (gone.live c ∙ lives) in
        (u, rw first rest, handled t u gone new)

    pub reconcile_targets_total :
        (t : State) × (reconcile_targets add r targets s ≡ some t) × Reconciles Home targets s t
    unfolding reconcile_targets
    reconcile_targets_total = elim (Bool-cases (nat_eq (length s.collectors) 0)) [
      | inl e ↦ absurd (cc (empty_map s.collectors c e))
      | inr some_live ↦ elim (Bool-cases (nat_eq (length d.additions) 0)) [
        | inr b ↦ rw some_live (rw b handle_targets_total)
        | inl a ↦ elim (Bool-cases (nat_eq (length d.removals) 0)) [
          | inr b ↦ rw some_live (rw a (rw b handle_targets_total))
          | inl b ↦ (s, rw some_live (rw a (rw b)), unchanged a b)
        ]
      ]
    ]

-- A map is empty, or has some key.
pub some_key {ℓ} :
    {V : Type ℓ} (m : Map V) → (nat_eq (length m) 0 ≡ true) ⊎ ((k : String) × (has m k ≡ true))
unfolding get
some_key [] = inl refl
some_key ((k, v) ∷ m) = inr (k, rw eq_refl)
