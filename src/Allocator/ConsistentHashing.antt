-- ===== src/Allocator/ConsistentHashing.antt =====
-- cmd/otel-allocator/allocation/consistent_hashing.go: a target goes to the member of a hash ring
-- that is nearest to its hash. The ring, github.com/buraksezer/consistent, is a parameter.
pub mod Add
pub mod Reassign
pub mod Correct
use opentelemetry_operator.Prelude.{
  ◌>>=◌, ℕ, ◌+◌, String, List, [], ◌∷◌, Bool, true, false, ◌&&◌, ◌||◌, Option, none, some, ◌≡◌,
  ◌==◌, length, nat_eq, for_each, if◌then◌else◌,
}
use opentelemetry_operator.Prelude.Int.{dec}
use opentelemetry_operator.GoMap.{Map, Range, get, put}
use opentelemetry_operator.Allocator.Target.{Item, Collector, new_collector}
use opentelemetry_operator.Allocator.Mapping.{delete_hash}
use opentelemetry_operator.Allocator.Diff.{Changes, maps}
use opentelemetry_operator.Allocator.State.{
  State, empty, try_each, place, clear_collector, insert_collector, reconcile_targets,
}
use opentelemetry_operator.Allocator.LeastWeighted.{Filter, apply_filter}

-- The package `consistent`: a set of members, and a key's home among them.
pub record Ring : Type 1 where
  pub Table : Type 0
  pub new : Table
  pub add : Table → String → Table
  pub remove : Table → String → Table
  pub locate_key : Table → String → Option String
  pub member : Table → String → Bool
  pub member-new : (c : String) → member new c ≡ false
  pub member-add : (t : Table) (m c : String) → member (add t m) c ≡ (m == c || member t c)
  pub member-remove :
      (t : Table) (m c : String) → member (remove t m) c ≡ (if m == c then false else member t c)
  -- A key's home is a member.
  pub member-locate : (t : Table) (k c : String) → locate_key t k ≡ some c → member t c ≡ true
  -- With a member there is a home.
  pub locate_some :
      (t : Table) (k c : String) → member t c ≡ true → (d : String) × (locate_key t k ≡ some d)

module _ (ring : Ring) where
  open ring use {Table, new, add, remove, locate_key}

  pub record ConsistentHashing : Type 0 where
    pub state : State
    pub consistent_hasher : Table
    pub filter : Option Filter
    pub collectors_allocatable : ℕ
    pub targets_remaining : ℕ

  abbrev pub new_consistent_hashing_allocator : Option Filter → ConsistentHashing
  new_consistent_hashing_allocator f = record {
    state = empty;
    consistent_hasher = new;
    filter = f;
    collectors_allocatable = 0;
    targets_remaining = 0;
  }

-- A target that is assigned again leaves its previous collector; the gauge is read back by name.
unfoldable pub leave_collector : Item → State → Option State
leave_collector tg s = elim (get s.collectors tg.collector_name) [
  | none ↦ some s
  | some previous ↦
      let less =
        put s.collectors tg.collector_name
          (record previous { num_targets = dec previous.num_targets }) in
      do
        col ← get less previous.name
        some (record s {
          collectors = less;
          mapping = delete_hash s.mapping tg.collector_name tg.job_name tg.hash;
          targets_per_collector = put s.targets_per_collector previous.name col.num_targets;
        })
]

module _ (ring : Ring) where
  open ring use {Table, new, add, remove, locate_key}

  unfoldable pub add_target_to_target_items : Table → Item → State → Option State
  add_target_to_target_items table tg s = do
    s' ← leave_collector tg s
    owner ← locate_key table tg.hash
    col ← get s'.collectors owner
    some (place s' tg owner owner col)

  -- The loop over the removed collectors, on the ring.
  unfoldable pub leave_ring : Map Collector → Table → String → Table
  leave_ring removals t k = elim (get removals k) [ none ↦ t | some c ↦ remove t c.name ]

  -- The loop over the new collectors, on the ring.
  unfoldable pub join_ring : Map Collector → Table → String → Table
  join_ring additions t k = elim (get additions k) [ none ↦ t | some c ↦ add t c.name ]

  -- The loop that assigns every target again.
  unfoldable pub reassign : Table → State → String → Option State
  reassign table s k = elim (get s.target_items k) [
    | none ↦ some s
    | some item ↦ add_target_to_target_items table item s
  ]

  -- The loops over the collectors write the state and the ring side by side.
  unfoldable pub handle_collectors :
      Range → Changes Collector → State → Table → Option (State × Table)
  handle_collectors r d s t =
      let gone = r.visit Collector d.removals in
      let new_ones = r.visit Collector d.additions in
      let s' =
        for_each (insert_collector d.additions) (for_each (clear_collector d.removals) s gone)
          new_ones in
      let t' =
        for_each (join_ring d.additions) (for_each (leave_ring d.removals) t gone) new_ones in
      do u ← try_each (reassign t') s' (r.visit Item s'.target_items); some (u, t')

  unfoldable pub set_targets :
      Range → Map Item → ConsistentHashing ring → Option (ConsistentHashing ring)
  set_targets r targets a =
      let kept = apply_filter a.filter targets in
      let a' = record a { targets_remaining = a.targets_remaining + length kept } in
      do
        s ← reconcile_targets (add_target_to_target_items a.consistent_hasher) r kept a.state
        some (record a' { state = s })

  unfoldable pub set_collectors :
      Range → Map Collector → ConsistentHashing ring → Option (ConsistentHashing ring)
  set_collectors r collectors a =
      let a' = record a { collectors_allocatable = length collectors } in
      let d = maps r (λ (c : Collector). c.name) a.state.collectors collectors in
      if nat_eq (length collectors) 0
      then some a'
      else if nat_eq (length d.additions) 0 && nat_eq (length d.removals) 0
      then some a'
      else (do
        done ← handle_collectors r d a.state a.consistent_hasher
        some (record a' { state = done.0; consistent_hasher = done.1 }))
