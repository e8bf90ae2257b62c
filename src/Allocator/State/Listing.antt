-- ===== src/Allocator/State/Listing.antt =====
-- What the HTTP server reads: GetTargetsForCollectorAndJob.
use opentelemetry_operator.Prelude.{
  String, List, [], ◌∷◌, Bool, true, Option, some, ◌≡◌, arith, eq_iff, ◌⊎◌, inl, inr, Option-cases,
  String-cases, elem,
}
use opentelemetry_operator.GoMap.{Range, get, has}
use opentelemetry_operator.Allocator.Target.{Item}
use opentelemetry_operator.Allocator.Mapping.{listed, sub_map}
use opentelemetry_operator.Allocator.State.{State, items_at, get_targets_for_collector_and_job}
use opentelemetry_operator.Allocator.State.Invariant.{IsConsistent}

-- The entry stands in the list.
abbrev pub Among : {A : Type 0} → A → List A → Type 0
Among a [] = ⊥
Among a (x ∷ xs) = (x ≡ a) ⊎ Among a xs

module _ (s : State) where
  Among-items_at :
      (h : String) (hs : List String)
      → elem h hs ≡ true
      → Among (get s.target_items h) (items_at s hs)
  unfolding items_at
  Among-items_at h [] e = absurd (cc)
  Among-items_at h (k ∷ hs) e = elim (String-cases k h) [
    | inl p ↦ inl (rw p)
    | inr p ↦ inr (Among-items_at h hs (rw p at e))
  ]

  items_at-Among :
      (o : Option Item) (hs : List String)
      → Among o (items_at s hs)
      → (h : String) × (elem h hs ≡ true) × (get s.target_items h ≡ o)
  unfolding items_at
  items_at-Among o [] m = absurd m
  items_at-Among o (k ∷ hs) (inl e) = (k, ground (arith, eq_iff k k), e)
  items_at-Among o (k ∷ hs) (inr m) = let (h, e, f) = items_at-Among o hs m in (h, ground arith, f)

module _ (r : Range) (s : State) (v : IsConsistent s) (c j : String) where
  -- In a consistent state, every pointer returned is a target held, assigned to the collector, for
  -- the job: none is nil.
  pub get_targets_sound :
      (o : Option Item)
      → Among o (get_targets_for_collector_and_job r s c j)
      → (it : Item) × (o ≡ some it)
        × (get s.target_items it.hash ≡ some it)
        × (it.collector_name ≡ c)
        × (it.job_name ≡ j)
  unfolding get_targets_for_collector_and_job listed
  get_targets_sound o m =
      let (h, e, f) = items_at-Among s o _ m in
      let here = v.listing c j h in
      let seen = r.elem-visit Bool (sub_map (sub_map s.mapping c) j) h in
      elim (Option-cases (get s.target_items h)) [
        | inl gap ↦ absurd (ground (arith, here, seen))
        | inr (it, g) ↦ (
          it,
          ground arith,
          ground (arith, v.keyed h it g),
          ground (arith, here, seen, eq_iff it.collector_name c),
          ground (arith, here, seen, eq_iff it.job_name j),
        )
      ]

  -- In a consistent state, every target assigned to a live collector, for the job, is returned.
  pub get_targets_complete :
      (h : String) (it : Item)
      → get s.target_items h ≡ some it
      → has s.collectors c ≡ true
      → it.collector_name ≡ c
      → it.job_name ≡ j
      → Among (some it) (get_targets_for_collector_and_job r s c j)
  unfolding get_targets_for_collector_and_job listed
  get_targets_complete h it e live ec ej = rw (← e) (
      Among-items_at s h _ (
        ground (
          arith,
          r.elem-visit Bool (sub_map (sub_map s.mapping c) j) h,
          v.listing c j h,
          eq_iff it.collector_name c,
          eq_iff it.job_name j,
        )))
