-- ===== src/Allocator/ConsistentHashing/Add.antt =====
-- addTargetToTargetItems of the consistent-hashing strategy.
use opentelemetry_operator.Prelude.{
  String, Bool, true, false, some, ◌≡◌, refl, sym, subst, ◌∙◌, arith, eq_iff, eq_refl, Option-cases,
  inl, inr,
}
use opentelemetry_operator.GoMap.{get, has, delete}
use opentelemetry_operator.GoMap.Laws.{Distinct, get-put}
use opentelemetry_operator.Allocator.Target.{Item, Collector}
use opentelemetry_operator.Allocator.State.{State, place, detach}
use opentelemetry_operator.Allocator.State.Invariant.{IsConsistent, IsConsistent-without}
use opentelemetry_operator.Allocator.State.Place.{place-IsConsistent}
use opentelemetry_operator.Allocator.State.Take.{detach-IsConsistent}
use opentelemetry_operator.Allocator.State.Add.{Stores, Contract}
use opentelemetry_operator.Allocator.ConsistentHashing.{
  Ring, leave_collector, add_target_to_target_items,
}

leave_stranger :
    (tg : Item) (s : State)
    → has s.collectors tg.collector_name ≡ false
    → leave_collector tg s ≡ some s
unfolding leave_collector
leave_stranger tg s e = ground arith

leave_owner :
    (tg : Item) (s : State) (p : Collector)
    → get s.collectors tg.collector_name ≡ some p
    → p.name ≡ tg.collector_name
    → leave_collector tg s ≡ some (detach s tg p)
unfolding leave_collector detach
leave_owner tg s p e same = rw (e, leave_collector) (rw same (rw get-put (rw eq_refl)))

module _ (ring : Ring) (table : ring.Table) where
  -- The ring's members are the live collectors.
  abbrev pub IsRingOf : (String → Bool) → Type 0
  IsRingOf live = (c : String) → ring.member table c ≡ live c

  -- A new target that no live collector owns.
  abbrev pub IsNew : Item → (String → Bool) → Type 0
  IsNew tg live = (live tg.collector_name ≡ false) × IsRingOf live

  -- A collector is a target's home if the ring locates the target's hash there.
  abbrev pub IsHome : String → String → Type 0
  IsHome hash c = ring.locate_key table hash ≡ some c

  located :
      (s s' : State) (tg : Item)
      → leave_collector tg s ≡ some s'
      → s'.target_items ≡ s.target_items
      → ((c : String) → has s'.collectors c ≡ has s.collectors c)
      → IsConsistent (record s' { target_items = delete s'.target_items tg.hash })
      → Distinct s.target_items
      → IsRingOf (has s.collectors)
      → (c : String) → has s.collectors c ≡ true
      → (t : State) × (add_target_to_target_items ring table tg s ≡ some t) × Stores IsHome tg s t
  unfolding add_target_to_target_items
  located s s' tg left items live v d members c lives =
      let (owner, home) = ring.locate_some table tg.hash c (members c ∙ lives) in
      let mine = sym (members owner) ∙ ring.member-locate table tg.hash owner home in
      elim (Option-cases (get s'.collectors owner)) [
        | inl e ↦ absurd (cc (live owner, mine, e))
        | inr (col, e) ↦ (
          place s' tg owner owner col,
          rw left (rw home (rw e)),
          record {
            consistent = place-IsConsistent s' tg owner col v (rw items d) e;
            owner = owner;
            owner_live = mine;
            home = home;
            live = λ b. unfold place in grind (arith, live b, get-put, eq_iff owner b);
            items = unfold place in rw items;
          },
        )
      ]

  pub add_target-Contract : Contract IsHome (add_target_to_target_items ring table) IsNew
  add_target-Contract tg s v d new c live =
      located s s tg (leave_stranger tg s new.0) refl (λ b. refl) v d new.1 c live

  -- A target that is held is assigned again, whether its collector is live or not.
  pub reassign_one :
      (s : State) (k : String) (it : Item)
      → IsConsistent s
      → get s.target_items k ≡ some it
      → IsRingOf (has s.collectors)
      → (c : String) → has s.collectors c ≡ true
      → (t : State) × (add_target_to_target_items ring table it s ≡ some t) × Stores IsHome it s t
  reassign_one s k it v e members c live =
      let h = v.keyed k it e in
      elim (Option-cases (get s.collectors it.collector_name)) [
        | inl f ↦
            located s s it (leave_stranger it s (rw f)) refl (λ b. refl)
              (IsConsistent-without s it.hash v (λ x g. ground arith)) v.distinct members c live
        | inr (p, f) ↦
            located s (detach s it p) it (leave_owner it s p f (v.named it.collector_name p f))
              (unfold detach in refl)
              (λ b. unfold detach in grind (arith, get-put, eq_iff it.collector_name b))
              (unfold detach in
                detach-IsConsistent s it.hash it p v
                  (subst (λ x. get s.target_items x ≡ some it) (sym h) e) f)
              v.distinct members c live
      ]
