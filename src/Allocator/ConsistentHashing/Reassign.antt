-- ===== src/Allocator/ConsistentHashing/Reassign.antt =====
-- The loop of handleCollectors that assigns every target again.
use opentelemetry_operator.Prelude.{
  String, List, [], ◌∷◌, true, false, none, some, ◌≡◌, refl, sym, subst, ◌∙◌, arith, eq_iff, inl,
  inr, Bool-cases, Option-cases, elem,
}
use opentelemetry_operator.GoMap.{get, has}
use opentelemetry_operator.GoMap.Laws.{get-put}
use opentelemetry_operator.Allocator.Target.{Item}
use opentelemetry_operator.Allocator.State.{State, try_each}
use opentelemetry_operator.Allocator.State.Invariant.{IsConsistent}
use opentelemetry_operator.Allocator.State.Add.{Stores, target_at, stored_cases}
use opentelemetry_operator.Allocator.ConsistentHashing.{Ring, reassign}
use opentelemetry_operator.Allocator.ConsistentHashing.Add.{IsRingOf, IsHome, reassign_one}

module _ (ring : Ring) (table : ring.Table) where
  -- From `s` to `t` the targets at `ks` have moved to their homes; the others have not changed.
  pub record Homes (ks : List String) (s t : State) : Type 0 where
    pub consistent : IsConsistent t
    pub live : (c : String) → has t.collectors c ≡ has s.collectors c
    pub items : (j : String) → target_at t.target_items j ≡ target_at s.target_items j
    pub others : (j : String) → elem j ks ≡ false → get t.target_items j ≡ get s.target_items j
    pub home :
        (j : String) (it : Item)
        → get t.target_items j ≡ some it
        → elem j ks ≡ true
        → IsHome ring table j it.collector_name × (has s.collectors it.collector_name ≡ true)

module _ (ring : Ring) (table : ring.Table) where
  stored :
      (s t : State) (k : String) (it : Item)
      → it.hash ≡ k
      → get s.target_items k ≡ some it
      → Stores (IsHome ring table) it s t
      → Homes ring table (k ∷ []) s t
  stored s t k it h e a = record {
    consistent = a.consistent;
    live = a.live;
    items = λ j. rw a.items (grind (arith, h, e, get-put, eq_iff k j));
    others = λ j f. rw a.items (grind (arith, h, get-put, eq_iff k j));
    home = λ j x f g. elim (stored_cases a j x f) [
      | inl q ↦ (
        subst (λ c. IsHome ring table j c) (sym q.1)
            (subst (λ y. IsHome ring table y a.owner) q.0 a.home),
        subst (λ c. has s.collectors c ≡ true) (sym q.1) a.owner_live,
      )
      | inr q ↦ absurd (ground (arith, g, h, q.0))
    ];
  }

  absent :
      (s : State) (k : String)
      → IsConsistent s
      → get s.target_items k ≡ none
      → Homes ring table (k ∷ []) s s
  absent s k v e = record {
    consistent = v;
    live = λ c. refl;
    items = λ j. refl;
    others = λ j f. refl;
    home = λ j x f g. absurd (ground (arith, e, f, g, eq_iff k j));
  }

  reassign_total :
      (s : State) (k : String)
      → IsConsistent s
      → IsRingOf ring table (has s.collectors)
      → (c : String) → has s.collectors c ≡ true
      → (t : State) × (reassign ring table s k ≡ some t) × Homes ring table (k ∷ []) s t
  unfolding reassign
  reassign_total s k v members c live = elim (Option-cases (get s.target_items k)) [
    | inl e ↦ (s, rw (e, reassign), absent s k v e)
    | inr (it, e) ↦
        let (t, run, a) = reassign_one ring table s k it v e members c live in
        (t, rw (e, reassign) run, stored s t k it (v.keyed k it e) e a)
  ]

  Homes-trans :
      {s t u : State} (k : String) (ks : List String)
      → Homes ring table (k ∷ []) s t
      → Homes ring table ks t u
      → Homes ring table (k ∷ ks) s u
  Homes-trans {s} {t} {u} k ks one rest = record {
    consistent = rest.consistent;
    live = λ c. rest.live c ∙ one.live c;
    items = λ j. rest.items j ∙ one.items j;
    others = λ j f. ground (arith, rest.others j, one.others j);
    home = λ j x f g. elim (Bool-cases (elem j ks)) [
      | inl later ↦ let h = rest.home j x f later in (h.0, sym (one.live x.collector_name) ∙ h.1)
      | inr now ↦ one.home j x (sym (rest.others j now) ∙ f) (ground arith)
    ];
  }

  pub reassign_targets_total :
      (ks : List String) (s : State)
      → IsConsistent s
      → IsRingOf ring table (has s.collectors)
      → (c : String) → has s.collectors c ≡ true
      → (t : State) × (try_each (reassign ring table) s ks ≡ some t) × Homes ring table ks s t
  unfolding try_each
  reassign_targets_total [] s v members c live = (
    s,
    refl,
    record {
      consistent = v;
      live = λ c. refl;
      items = λ j. refl;
      others = λ j f. refl;
      home = λ j x f g. absurd (cc);
    },
  )
  reassign_targets_total (k ∷ ks) s v members c live =
      let (t, first, one) = reassign_total s k v members c live in
      let (u, more, rest) =
        reassign_targets_total ks t one.consistent (λ b. members b ∙ sym (one.live b)) c
          (one.live c ∙ live) in
      (u, rw first more, Homes-trans k ks one rest)
