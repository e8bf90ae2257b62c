-- ===== src/Allocator/State/Invariant.antt =====
-- What holds of an allocator's state between the calls of the strategies.
use opentelemetry_operator.Prelude.{
  String, Bool, true, false, ◌&&◌, none, some, ◌≡◌, arith, ◌==◌, eq_iff,
}
use opentelemetry_operator.Prelude.Int.{ℤ, pos}
use opentelemetry_operator.GoMap.{Map, get, has, delete}
use opentelemetry_operator.GoMap.Laws.{
  Distinct, count, holds_at, get-delete, Distinct-delete, count-delete,
}
use opentelemetry_operator.Allocator.Target.{Item, Collector}
use opentelemetry_operator.Allocator.Mapping.{listed}
use opentelemetry_operator.Allocator.State.{State}

-- The target is assigned to the collector.
abbrev pub owned : String → Item → Bool
owned c it = it.collector_name == c

-- The target is assigned to the collector, for the job.
abbrev pub assigned : String → String → Item → Bool
assigned c j it = it.collector_name == c && it.job_name == j

abbrev pub gauge_at : Map ℤ → String → ℤ
gauge_at g c = elim (get g c) [ none ↦ pos 0 | some n ↦ n ]

abbrev pub num_at : Map Collector → String → ℤ
num_at m c = elim (get m c) [ none ↦ pos 0 | some col ↦ col.num_targets ]

-- Each live collector's counter, gauge and index entries are those of the targets assigned to it,
-- and the index lists nothing under other names.
pub record IsConsistent (s : State) : Type 0 where
  pub named : (c : String) (col : Collector) → get s.collectors c ≡ some col → col.name ≡ c
  pub counted :
      (c : String) (col : Collector)
      → get s.collectors c ≡ some col
      → col.num_targets ≡ pos (count (owned c) s.target_items)
  pub gauged : (c : String) → gauge_at s.targets_per_collector c ≡ num_at s.collectors c
  pub listing :
      (c j h : String)
      → listed s.mapping c j h
        ≡ (has s.collectors c && holds_at (assigned c j) (get s.target_items h))
  pub keyed : (h : String) (it : Item) → get s.target_items h ≡ some it → it.hash ≡ h
  pub distinct : Distinct s.target_items

-- Every target is assigned to a live collector.
pub record IsPlaced (s : State) : Type 0 where
  pub at_key :
      (h : String) (it : Item)
      → get s.target_items h ≡ some it
      → has s.collectors it.collector_name ≡ true

-- Leaving out a target that no live collector owns.
module _ (s : State) (h : String) (v : IsConsistent s)
    (orphan : (it : Item)
      → get s.target_items h ≡ some it
      → has s.collectors it.collector_name ≡ false) where
  pub IsConsistent-without : IsConsistent (record s { target_items = delete s.target_items h })
  IsConsistent-without = record {
    named = v.named;
    counted = λ c col e. grind (
      arith,
      v.counted c col,
      orphan,
      count-delete (owned c) s.target_items h v.distinct,
      eq_iff,
    );
    gauged = v.gauged;
    listing = λ c j k. grind (arith, v.listing c j k, orphan, get-delete, eq_iff);
    keyed = λ k it e. grind (arith, v.keyed k it, get-delete);
    distinct = Distinct-delete s.target_items h v.distinct;
  }

pub record IsValid (s : State) : Type 0 where
  pub consistent : IsConsistent s
  pub placed : IsPlaced s
