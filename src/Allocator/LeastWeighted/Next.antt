-- ===== src/Allocator/LeastWeighted/Next.antt =====
-- What findNextCollector returns.
use opentelemetry_operator.Prelude.{
  String, List, [], ◌∷◌, true, false, Option, none, some, ◌≡◌, refl, arith, elem, for_each,
  Bool-cases, String-cases, inl, inr,
}
use opentelemetry_operator.Prelude.Int.{ℤ, lt_int}
use opentelemetry_operator.GoMap.{Map, Range, get}
use opentelemetry_operator.Allocator.Target.{Collector}
use opentelemetry_operator.Allocator.LeastWeighted.{next_collector, find_next_collector}

-- The collector found has no more targets than `x`.
abbrev pub NoMore : Collector → Option (String × Collector) → Type 0
NoMore x none = ⊥
NoMore x (some (k, c)) = lt_int x.num_targets c.num_targets ≡ false

abbrev pub Stored : Map Collector → Option (String × Collector) → Type 0
Stored m none = Unit
Stored m (some (k, c)) = get m k ≡ some c

not-lt_int_trans : (x a c : ℤ) → lt_int x a ≡ false → lt_int c a ≡ true → lt_int x c ≡ false
not-lt_int_trans x a c p q = ground arith

lt_int_self : (x : ℤ) → lt_int x x ≡ false
lt_int_self x = ground arith

module _ (m : Map Collector) where
  Stored-next :
      (col : Option (String × Collector)) (k : String)
      → Stored m col
      → Stored m (next_collector m col k)
  unfolding next_collector
  Stored-next none k h = ground arith
  Stored-next (some (j, c)) k h = ground arith

  NoMore-next :
      (x : Collector) (col : Option (String × Collector)) (k : String)
      → NoMore x col
      → NoMore x (next_collector m col k)
  unfolding next_collector
  NoMore-next x none k h = absurd h
  NoMore-next x (some (j, c)) k h = grind (arith, not-lt_int_trans)

  NoMore-next_self :
      (x : Collector) (col : Option (String × Collector)) (k : String)
      → get m k ≡ some x
      → NoMore x (next_collector m col k)
  unfolding next_collector
  NoMore-next_self x none k h = rw (h, next_collector) (lt_int_self x.num_targets)
  NoMore-next_self x (some (j, c)) k h =
      rw (h, next_collector)
        (elim (Bool-cases (lt_int x.num_targets c.num_targets)) [
          | inl e ↦ rw e (lt_int_self x.num_targets)
          | inr e ↦ rw e e
        ])

  Stored-loop :
      (ks : List String) (col : Option (String × Collector))
      → Stored m col
      → Stored m (for_each (next_collector m) col ks)
  Stored-loop [] col h = h
  Stored-loop (k ∷ ks) col h = Stored-loop ks (next_collector m col k) (Stored-next col k h)

  NoMore-loop :
      (x : Collector) (ks : List String) (col : Option (String × Collector))
      → NoMore x col
      → NoMore x (for_each (next_collector m) col ks)
  NoMore-loop x [] col h = h
  NoMore-loop x (k ∷ ks) col h = NoMore-loop x ks (next_collector m col k) (NoMore-next x col k h)

  NoMore-visited :
      (x : Collector) (k : String) (ks : List String) (col : Option (String × Collector))
      → get m k ≡ some x
      → elem k ks ≡ true
      → NoMore x (for_each (next_collector m) col ks)
  NoMore-visited x k [] col h e = absurd (cc)
  NoMore-visited x k (j ∷ ks) col h e = elim (String-cases j k) [
    | inl p ↦ NoMore-loop x ks (next_collector m col j) (NoMore-next_self x col j (rw p h))
    | inr p ↦ NoMore-visited x k ks (next_collector m col j) h (rw p at e)
  ]

-- The collector found is the one stored under its key.
pub Stored-find_next : (r : Range) (m : Map Collector) → Stored m (find_next_collector r m)
unfolding find_next_collector
Stored-find_next r m = Stored-loop m (r.visit Collector m) none tt

-- No live collector has fewer targets than the one found.
pub NoMore-find_next :
    (r : Range) (m : Map Collector) (k : String) (x : Collector)
    → get m k ≡ some x
    → NoMore x (find_next_collector r m)
unfolding find_next_collector
NoMore-find_next r m k x h =
    NoMore-visited m x k (r.visit Collector m) none h (rw r.elem-visit (ground arith))

-- Where there is a live collector, one is found, it is stored under its key, and the live collector
-- has no fewer targets than the one found.
pub find_next_minimal :
    (r : Range) (m : Map Collector) (k : String) (x : Collector)
    → get m k ≡ some x
    → (key : String) × (c : Collector) × (find_next_collector r m ≡ some (key, c))
      × (get m key ≡ some c)
      × (lt_int x.num_targets c.num_targets ≡ false)
find_next_minimal r m k x h =
    go (find_next_collector r m) (NoMore-find_next r m k x h) (Stored-find_next r m)
  where
    go :
        (o : Option (String × Collector))
        → NoMore x o
        → Stored m o
        → (key : String) × (c : Collector) × (o ≡ some (key, c))
          × (get m key ≡ some c)
          × (lt_int x.num_targets c.num_targets ≡ false)
    go none n st = absurd n
    go (some (key, c)) n st = (key, c, refl, st, n)
