-- ===== src/Allocator/LeastWeighted/Reallocate.antt =====
-- The loop of handleCollectors that gives the targets of removed collectors new owners.
use opentelemetry_operator.Prelude.{
  String, List, [], ◌∷◌, true, false, some, ◌≡◌, refl, sym, ◌∙◌, arith, eq_iff, ◌⊎◌, inl, inr,
  Bool-cases, Option-cases, elem,
}
use opentelemetry_operator.GoMap.{Map, Range, get, has}
use opentelemetry_operator.GoMap.Laws.{get-put}
use opentelemetry_operator.Allocator.Target.{Item, Collector}
use opentelemetry_operator.Allocator.State.{State, try_each}
use opentelemetry_operator.Allocator.State.Invariant.{IsConsistent, IsConsistent-without}
use opentelemetry_operator.Allocator.State.Add.{Stores, target_at}
use opentelemetry_operator.Allocator.LeastWeighted.{reallocate}
use opentelemetry_operator.Allocator.LeastWeighted.Add.{Anywhere, add_target-Contract}

-- From `s` to `t` the targets at `ks` whose collector was removed have moved to live collectors.
pub record Moves (removals : Map Collector) (ks : List String) (s t : State) : Type 0 where
  pub consistent : IsConsistent t
  pub live : (c : String) → has t.collectors c ≡ has s.collectors c
  pub items : (j : String) → target_at t.target_items j ≡ target_at s.target_items j
  pub stays :
      (j : String) (it : Item)
      → get s.target_items j ≡ some it
      → has removals it.collector_name ≡ false
      → get t.target_items j ≡ some it
  pub moved :
      (j : String) (it : Item)
      → get t.target_items j ≡ some it
      → (get s.target_items j ≡ some it) ⊎ (has s.collectors it.collector_name ≡ true)
  pub done :
      (j : String) (it : Item)
      → get t.target_items j ≡ some it
      → elem j ks ≡ true
      → has removals it.collector_name ≡ false

module _ (r : Range) (removals : Map Collector) where
  -- A collector that is live has not been removed.
  abbrev pub IsGone : State → Type 0
  IsGone s = (c : String) → has removals c ≡ true → has s.collectors c ≡ false

  stored :
      (s t : State) (k : String) (it : Item)
      → IsConsistent s
      → IsGone s
      → get s.target_items k ≡ some it
      → has removals it.collector_name ≡ true
      → Stores Anywhere it s t
      → Moves removals (k ∷ []) s t
  stored s t k it v gone e lost a = record {
    consistent = a.consistent;
    live = a.live;
    items = λ j. rw a.items (grind (arith, v.keyed k it e, get-put, eq_iff k j));
    stays = λ j x f g. rw a.items (grind (arith, v.keyed k it e, get-put, eq_iff k j));
    moved = λ j x f. grind (arith, a.items, a.owner_live, v.keyed k it e, get-put, eq_iff k j);
    done = λ j x f g.
        grind (arith, a.items, a.owner_live, gone a.owner, v.keyed k it e, get-put, eq_iff k j);
  }

  kept :
      (s : State) (k : String)
      → IsConsistent s
      → ((it : Item) → get s.target_items k ≡ some it → has removals it.collector_name ≡ false)
      → Moves removals (k ∷ []) s s
  kept s k v h = record {
    consistent = v;
    live = λ c. refl;
    items = λ j. refl;
    stays = λ j x f g. f;
    moved = λ j x f. inl f;
    done = λ j x f g. grind (arith, h x, eq_iff k j);
  }

  reallocate_total :
      (s : State) (k : String)
      → IsConsistent s
      → IsGone s
      → (c : String) → has s.collectors c ≡ true
      → (t : State) × (reallocate r removals s k ≡ some t) × Moves removals (k ∷ []) s t
  unfolding reallocate
  reallocate_total s k v gone c live = elim (Option-cases (get s.target_items k)) [
    | inl e ↦ (s, rw (e, reallocate), kept s k v (λ it f. cc))
    | inr (it, e) ↦ elim (Bool-cases (has removals it.collector_name)) [
      | inr stay ↦ (s, rw (e, reallocate) (rw stay), kept s k v (λ x f. ground arith))
      | inl lost ↦
          let h = v.keyed k it e in
          let room =
            IsConsistent-without s it.hash v (λ x f. ground (arith, gone it.collector_name)) in
          let (t, run, a) = add_target-Contract r it s room v.distinct tt c live in
          (t, rw (e, reallocate) (rw lost run), stored s t k it v gone e lost a)
    ]
  ]

  Moves-trans :
      {s t u : State} (k : String) (ks : List String)
      → IsGone s
      → Moves removals (k ∷ []) s t
      → Moves removals ks t u
      → Moves removals (k ∷ ks) s u
  Moves-trans {s} {t} k ks gone one rest = record {
    consistent = rest.consistent;
    live = λ c. rest.live c ∙ one.live c;
    items = λ j. rest.items j ∙ one.items j;
    stays = λ j x f g. rest.stays j x (one.stays j x f g) g;
    moved = λ j x f. elim (rest.moved j x f) [
      | inl g ↦ one.moved j x g
      | inr g ↦ inr (sym (one.live x.collector_name) ∙ g)
    ];
    done = λ j x f g. elim (rest.moved j x f) [
      | inl h ↦ ground (arith, one.done j x h, rest.done j x f)
      | inr h ↦ ground (arith, one.live x.collector_name, gone x.collector_name)
    ];
  }

  pub reallocate_targets_total :
      (ks : List String) (s : State)
      → IsConsistent s
      → IsGone s
      → (c : String) → has s.collectors c ≡ true
      → (t : State) × (try_each (reallocate r removals) s ks ≡ some t) × Moves removals ks s t
  unfolding try_each
  reallocate_targets_total [] s v gone c live = (
    s,
    refl,
    record {
      consistent = v;
      live = λ c. refl;
      items = λ j. refl;
      stays = λ j x f g. f;
      moved = λ j x f. inl f;
      done = λ j x f g. absurd (cc);
    },
  )
  reallocate_targets_total (k ∷ ks) s v gone c live =
      let (t, first, one) = reallocate_total s k v gone c live in
      let (u, more, rest) =
        reallocate_targets_total ks t one.consistent (λ b f. one.live b ∙ gone b f) c
          (one.live c ∙ live) in
      (u, rw first more, Moves-trans k ks gone one rest)
