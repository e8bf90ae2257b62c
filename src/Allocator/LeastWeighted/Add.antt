-- ===== src/Allocator/LeastWeighted/Add.antt =====
-- addTargetToTargetItems of the least-weighted strategy keeps its contract for every target.
use opentelemetry_operator.Prelude.{String, Bool, refl, arith, eq_iff, Option-cases, inl, inr}
use opentelemetry_operator.GoMap.{Range, get}
use opentelemetry_operator.GoMap.Laws.{get-put}
use opentelemetry_operator.Allocator.Target.{Item}
use opentelemetry_operator.Allocator.State.{place}
use opentelemetry_operator.Allocator.State.Place.{place-IsConsistent}
use opentelemetry_operator.Allocator.State.Add.{Contract}
use opentelemetry_operator.Allocator.LeastWeighted.{add_target_to_target_items}
use opentelemetry_operator.Allocator.LeastWeighted.Next.{find_next_minimal}

-- This strategy assigns every target, to any collector.
abbrev pub Any : Item → (String → Bool) → Type 0
Any _ _ = Unit

abbrev pub Anywhere : String → String → Type 0
Anywhere _ _ = Unit

pub add_target-Contract : (r : Range) → Contract Anywhere (add_target_to_target_items r) Any
unfolding add_target_to_target_items
add_target-Contract r tg s v d _ c live = elim (Option-cases (get s.collectors c)) [
  | inl e ↦ absurd (cc (live, e))
  | inr (x, e) ↦
      let (key, col, found, stored, least) = find_next_minimal r s.collectors c x e in
      let same = v.named key col stored in
      (
        place s tg key col.name col,
        rw found,
        rw same (record {
          consistent = place-IsConsistent s tg key col v d stored;
          owner = key;
          owner_live = rw stored;
          home = tt;
          live = λ b. unfold place in grind (arith, get-put, eq_iff key b);
          items = unfold place in refl;
        }),
      )
]
