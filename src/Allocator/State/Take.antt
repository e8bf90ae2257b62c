-- ===== src/Allocator/State/Take.antt =====
-- Taking a target from its collector keeps the state consistent.
use opentelemetry_operator.Prelude.{String, some, ◌≡◌, arith, eq_iff}
use opentelemetry_operator.GoMap.{get, delete}
use opentelemetry_operator.GoMap.Laws.{Distinct-delete, get-put, get-delete, count-delete}
use opentelemetry_operator.Allocator.Target.{Item, Collector}
use opentelemetry_operator.Allocator.Mapping.{listed-delete_hash}
use opentelemetry_operator.Allocator.State.{State, detach}
use opentelemetry_operator.Allocator.State.Invariant.{IsConsistent, owned}

module _ (s : State) (k : String) (it : Item) (col : Collector) (v : IsConsistent s)
    (there : get s.target_items k ≡ some it)
    (live : get s.collectors it.collector_name ≡ some col) where
  pub detach-IsConsistent :
      IsConsistent (record (detach s it col) { target_items = delete s.target_items k })
  unfolding detach
  detach-IsConsistent = record {
    named = λ c x e. grind (arith, v.named, get-put, eq_iff it.collector_name c);
    counted = λ c x e. grind (
      arith,
      v.counted c,
      v.counted it.collector_name,
      get-put,
      eq_iff it.collector_name c,
      count-delete (owned c) s.target_items k v.distinct,
    );
    gauged = λ c. grind (arith, v.gauged c, get-put, eq_iff it.collector_name c);
    listing = λ c j h. grind (
      arith,
      v.listing c j h,
      v.keyed k it there,
      listed-delete_hash s.mapping it.collector_name it.job_name it.hash c j h,
      get-put,
      get-delete,
      eq_iff it.collector_name c,
      eq_iff it.hash h,
      eq_iff it.job_name j,
    );
    keyed = λ h x e. grind (arith, v.keyed h, get-delete);
    distinct = Distinct-delete s.target_items k v.distinct;
  }
