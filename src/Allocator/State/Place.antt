-- ===== src/Allocator/State/Place.antt =====
-- Placing a target keeps the state consistent.
use opentelemetry_operator.Prelude.{String, some, ◌≡◌, arith, eq_iff}
use opentelemetry_operator.GoMap.{get, delete}
use opentelemetry_operator.GoMap.Laws.{Distinct, Distinct-put, get-put, get-delete, count-put}
use opentelemetry_operator.Allocator.Target.{Item, Collector}
use opentelemetry_operator.Allocator.Mapping.{listed-add}
use opentelemetry_operator.Allocator.State.{State, place}
use opentelemetry_operator.Allocator.State.Invariant.{IsConsistent, owned}

module _ (s : State) (tg : Item) (name : String) (col : Collector)
    (v : IsConsistent (record s { target_items = delete s.target_items tg.hash }))
    (d : Distinct s.target_items) (live : get s.collectors name ≡ some col) where
  pub place-IsConsistent : IsConsistent (place s tg name name col)
  unfolding place
  place-IsConsistent = record {
    named = λ c x e. grind (arith, v.named, get-put, eq_iff name c);
    counted = λ c x e. grind (
      arith,
      v.counted c,
      v.counted name,
      get-put,
      eq_iff name c,
      count-put (owned c) s.target_items tg.hash (record tg { collector_name = name }) d,
    );
    gauged = λ c. grind (arith, v.gauged c, get-put, eq_iff name c);
    listing = λ c j h. grind (
      arith,
      v.listing c j h,
      listed-add s.mapping name tg.job_name tg.hash c j h,
      get-put,
      get-delete,
      eq_iff name c,
      eq_iff tg.hash h,
      eq_iff tg.job_name j,
    );
    keyed = λ h it e. grind (arith, v.keyed h, get-put, get-delete, eq_iff tg.hash h);
    distinct = Distinct-put s.target_items tg.hash _ d;
  }
