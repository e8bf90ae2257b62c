-- ===== src/Allocator/State/Collectors.antt =====
-- The loops of handleCollectors that clear the removed collectors and insert the new ones.
use opentelemetry_operator.Prelude.{
  String, List, [], ◌∷◌, false, ◌&&◌, ◌||◌, some, ◌≡◌, refl, ◌∙◌, arith, eq_iff, inl, inr,
  Option-cases, elem, for_each, if◌then◌else◌,
}
use opentelemetry_operator.GoMap.{Map, get, has}
use opentelemetry_operator.GoMap.Laws.{count, count_none, get-put, get-delete}
use opentelemetry_operator.Allocator.Target.{Item, Collector, new_collector}
use opentelemetry_operator.Allocator.Mapping.{listed-delete}
use opentelemetry_operator.Allocator.State.{State, clear_collector, insert_collector}
use opentelemetry_operator.Allocator.State.Invariant.{IsConsistent, owned}

-- The key of each collector is its name.
abbrev pub IsNamed : Map Collector → Type 0
IsNamed m = (k : String) (c : Collector) → get m k ≡ some c → c.name ≡ k

-- From `s` to `t` the collectors of `removals` among the keys `ks` have gone.
pub record Clears (removals : Map Collector) (ks : List String) (s t : State) : Type 0 where
  pub consistent : IsConsistent t
  pub items : t.target_items ≡ s.target_items
  pub live :
      (c : String)
      → has t.collectors c ≡ (if elem c ks && has removals c then false else has s.collectors c)

module _ (removals : Map Collector) (named : IsNamed removals) where
  clear_one :
      (s : State) (k : String)
      → IsConsistent s
      → Clears removals (k ∷ []) s (clear_collector removals s k)
  unfolding clear_collector
  clear_one s k v = elim (Option-cases (get removals k)) [
    | inl e ↦
        rw (e, clear_collector)
          (record { consistent = v; items = refl; live = λ c. grind (arith, eq_iff k c) })
    | inr (x, e) ↦
        rw (e, clear_collector)
          (rw (named k x e) (record {
            consistent = record {
              named = λ c col f. grind (arith, v.named c col, get-delete);
              counted = λ c col f. grind (arith, v.counted c col, get-delete);
              gauged = λ c. grind (arith, v.gauged c, get-delete, get-put, eq_iff k c);
              listing = λ c j h. grind (
                arith,
                v.listing c j h,
                listed-delete s.mapping k j h c j h,
                get-delete,
                eq_iff k c,
              );
              keyed = v.keyed;
              distinct = v.distinct;
            };
            items = refl;
            live = λ c. grind (arith, get-delete, eq_iff k c);
          }))
  ]

  pub clear_collectors-Clears :
      (ks : List String) (s : State)
      → IsConsistent s
      → Clears removals ks s (for_each (clear_collector removals) s ks)
  clear_collectors-Clears [] s v = record { consistent = v; items = refl; live = λ c. refl }
  clear_collectors-Clears (k ∷ ks) s v =
      let one = clear_one s k v in
      let rest = clear_collectors-Clears ks (clear_collector removals s k) one.consistent in
      record {
        consistent = rest.consistent;
        items = rest.items ∙ one.items;
        live = λ c. ground (arith, rest.live c, one.live c);
      }

-- From `s` to `t` the collectors of `additions` at the keys `ks` have been inserted.
pub record Inserts (additions : Map Collector) (ks : List String) (s t : State) : Type 0 where
  pub consistent : IsConsistent t
  pub items : t.target_items ≡ s.target_items
  pub live :
      (c : String) → has t.collectors c ≡ (elem c ks && has additions c || has s.collectors c)

module _ (additions : Map Collector) (named : IsNamed additions) where
  insert_one :
      (s : State) (k : String)
      → IsConsistent s
      → ((h : String) (it : Item)
          → get s.target_items h ≡ some it
          → has additions it.collector_name ≡ false)
      → Inserts additions (k ∷ []) s (insert_collector additions s k)
  unfolding insert_collector new_collector
  insert_one s k v unowned = elim (Option-cases (get additions k)) [
    | inl e ↦
        rw (e, insert_collector)
          (record { consistent = v; items = refl; live = λ c. grind (arith, eq_iff k c) })
    | inr (x, e) ↦
        let nobody : count (owned k) s.target_items ≡ 0 =
          count_none (owned k) s.target_items v.distinct
            (λ h it f. ground (arith, unowned h it f, e, eq_iff it.collector_name k)) in
        rw (e, insert_collector)
          (rw (named k x e) (record {
            consistent = record {
              named = λ c col f. grind (arith, v.named c col, get-put, eq_iff k c);
              counted = λ c col f. grind (arith, v.counted c col, nobody, get-put, eq_iff k c);
              gauged = λ c. grind (arith, v.gauged c, v.counted c, nobody, get-put, eq_iff k c);
              listing = λ c j h. grind (arith, v.listing c j h, unowned h, e, get-put, eq_iff);
              keyed = v.keyed;
              distinct = v.distinct;
            };
            items = refl;
            live = λ c. grind (arith, get-put, eq_iff k c);
          }))
  ]

  pub insert_collectors-Inserts :
      (ks : List String) (s : State)
      → IsConsistent s
      → ((h : String) (it : Item)
          → get s.target_items h ≡ some it
          → has additions it.collector_name ≡ false)
      → Inserts additions ks s (for_each (insert_collector additions) s ks)
  insert_collectors-Inserts [] s v unowned = record {
    consistent = v;
    items = refl;
    live = λ c. refl;
  }
  insert_collectors-Inserts (k ∷ ks) s v unowned =
      let one = insert_one s k v unowned in
      let rest =
        insert_collectors-Inserts ks (insert_collector additions s k) one.consistent
          (λ h it e. unowned h it (rw one.items at e)) in
      record {
        consistent = rest.consistent;
        items = rest.items ∙ one.items;
        live = λ c. ground (arith, rest.live c, one.live c);
      }
