-- ===== src/Allocator/State/Remove.antt =====
-- The loop of handleTargets over the removals: it never panics, and removes just those targets.
use opentelemetry_operator.Prelude.{
  String, List, [], ◌∷◌, true, false, ◌&&◌, none, some, ◌≡◌, refl, ◌∙◌, arith, ◌⊎◌, eq_iff, inl,
  inr, Bool-cases, Option-cases, elem, if◌then◌else◌,
}
use opentelemetry_operator.GoMap.{Map, get, has, delete}
use opentelemetry_operator.GoMap.Laws.{get-put, get-delete}
use opentelemetry_operator.Allocator.Target.{Item, Collector}
use opentelemetry_operator.Allocator.State.{State, try_each, detach, remove_target}
use opentelemetry_operator.Allocator.State.Invariant.{IsConsistent, IsPlaced}
use opentelemetry_operator.Allocator.State.Take.{detach-IsConsistent}

-- From `s` to `t` the targets of `removals` among the keys `ks` have gone, and nothing else has.
pub record Removes (removals : Map Item) (ks : List String) (s t : State) : Type 0 where
  pub consistent : IsConsistent t
  pub placed : IsPlaced t
  pub live : (c : String) → has t.collectors c ≡ has s.collectors c
  pub items :
      (j : String)
      → get t.target_items j ≡ (if elem j ks && has removals j then none else get s.target_items j)

module _ (removals : Map Item) where
  taken :
      (s : State) (k : String) (it : Item) (col : Collector)
      → IsConsistent s
      → IsPlaced s
      → get s.target_items k ≡ some it
      → get s.collectors it.collector_name ≡ some col
      → has removals k ≡ true
      → Removes removals
          (k ∷ [])
          s
          (record (detach s it col) { target_items = delete s.target_items k })
  taken s k it col v p there live gone = record {
    consistent = detach-IsConsistent s k it col v there live;
    placed = record {
      at_key = λ h x e. unfold detach in grind (arith, p.at_key h x, get-delete, get-put, eq_iff);
    };
    live = λ c. unfold detach in grind (arith, get-put, eq_iff it.collector_name c);
    items = λ j. unfold detach in grind (arith, get-delete, eq_iff k j);
  }

  -- The step at a key that is missing, or that no removal names.
  untouched :
      (s : State) (k : String)
      → IsConsistent s
      → IsPlaced s
      → (get s.target_items k ≡ none) ⊎ (has removals k ≡ false)
      → Removes removals (k ∷ []) s s
  untouched s k v p h = record {
    consistent = v;
    placed = p;
    live = λ c. refl;
    items = λ j. grind (arith, eq_iff k j);
  }

  remove_target_total :
      (s : State) (k : String)
      → IsConsistent s
      → IsPlaced s
      → (t : State) × (remove_target removals s k ≡ some t) × Removes removals (k ∷ []) s t
  unfolding remove_target
  remove_target_total s k v p = elim (Option-cases (get s.target_items k)) [
    | inl e ↦ (s, rw (e, remove_target), untouched s k v p (ground arith))
    | inr (it, e) ↦ elim (Bool-cases (has removals k)) [
      | inl gone ↦ elim (Option-cases (get s.collectors it.collector_name)) [
        | inl dead ↦ absurd (cc (p.at_key k it e, dead))
        | inr (col, live) ↦ (
          record (detach s it col) { target_items = delete s.target_items k },
          rw (e, remove_target) (rw gone (rw live)),
          taken s k it col v p e live gone,
        )
      ]
      | inr stays ↦ (s, rw (e, remove_target) (rw stays), untouched s k v p (ground arith))
    ]
  ]

  -- On the way through any keys of a valid state the loop does not panic.
  pub remove_targets_total :
      (ks : List String) (s : State)
      → IsConsistent s
      → IsPlaced s
      → (t : State) × (try_each (remove_target removals) s ks ≡ some t) × Removes removals ks s t
  unfolding try_each
  remove_targets_total [] s v p =
      (s, refl, record { consistent = v; placed = p; live = λ c. refl; items = λ j. refl })
  remove_targets_total (k ∷ ks) s v p =
      let (t, first, done) = remove_target_total s k v p in
      let (u, rest, all) = remove_targets_total ks t done.consistent done.placed in
      (
        u,
        rw first rest,
        record {
          consistent = all.consistent;
          placed = all.placed;
          live = λ c. all.live c ∙ done.live c;
          items = λ j. ground (arith, all.items j, done.items j);
        },
      )
