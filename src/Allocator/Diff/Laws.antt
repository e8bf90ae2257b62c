-- ===== src/Allocator/Diff/Laws.antt =====
-- What `maps` computes, at each key and whatever the order of the loops.
use opentelemetry_operator.Prelude.{
  String, List, [], ◌∷◌, Option, none, some, ◌≡◌, refl, ◌∙◌, arith, ◌==◌, eq_iff, elem, for_each,
  if◌then◌else◌,
}
use opentelemetry_operator.GoMap.{Map, Range, get}
use opentelemetry_operator.GoMap.Laws.{get-put}
use opentelemetry_operator.Allocator.Diff.{Changes, note_new, note_gone, maps}

abbrev or_old {ℓ} : {V : Type ℓ} → Option V → Option V → Option V
or_old none o = o
or_old (some v) o = some v

-- A loop whose steps write `target k` at their key `k` alone.
module _ {ℓ} {S V : Type ℓ} (step : S → String → S) (view : S → String → Option V)
    (target : String → Option V)
    (writes : (s : S) (k j : String)
      → view (step s k) j ≡ (if k == j then or_old (target j) (view s j) else view s j)) where
  for_each_writes :
      (ks : List String) (s : S) (j : String)
      → view (for_each step s ks) j ≡ (if elem j ks then or_old (target j) (view s j) else view s j)
  for_each_writes [] s j = refl
  for_each_writes (k ∷ ks) s j = ground (arith, for_each_writes ks (step s k) j, writes s k j)

module _ {ℓ} {V : Type ℓ} (hash : V → String) where
  -- What is to be added at a key, from the old value and the new one.
  abbrev pub added : Option V → Option V → Option V
  added _ none = none
  added none (some n) = some n
  added (some c) (some n) = if hash c == hash n then none else some n

  -- What is to be removed at a key.
  abbrev pub removed : Option V → Option V → Option V
  removed none _ = none
  removed (some c) none = some c
  removed (some c) (some n) = if hash c == hash n then none else some c

  abbrev replaced : Option V → Option V → Option V
  replaced _ none = none
  replaced none (some n) = none
  replaced (some c) (some n) = if hash c == hash n then none else some c

  abbrev gone : Option V → Option V → Option V
  gone none _ = none
  gone (some c) none = some c
  gone (some c) (some n) = none

module _ {ℓ} {V : Type ℓ} (hash : V → String) (current new : Map V) where
  additions-note_new :
      (d : Changes V) (k j : String)
      → get (note_new hash current new d k).additions j ≡ (
          if k == j
          then or_old (added hash (get current j) (get new j)) (get d.additions j)
          else get d.additions j)
  unfolding note_new
  additions-note_new d k j = grind (arith, eq_iff k j, get-put)

  removals-note_new :
      (d : Changes V) (k j : String)
      → get (note_new hash current new d k).removals j ≡ (
          if k == j
          then or_old (replaced hash (get current j) (get new j)) (get d.removals j)
          else get d.removals j)
  unfolding note_new
  removals-note_new d k j = grind (arith, eq_iff k j, get-put)

  removals-note_gone :
      (d : Changes V) (k j : String)
      → get (note_gone hash current new d k).removals j ≡ (
          if k == j
          then or_old (gone hash (get current j) (get new j)) (get d.removals j)
          else get d.removals j)
  unfolding note_gone
  removals-note_gone d k j = grind (arith, eq_iff k j, get-put)

  additions-note_gone :
      (d : Changes V) (k : String) → (note_gone hash current new d k).additions ≡ d.additions
  unfolding note_gone
  additions-note_gone d k = ground arith

  additions-loop :
      (ks : List String) (d : Changes V)
      → (for_each (note_gone hash current new) d ks).additions ≡ d.additions
  additions-loop [] d = refl
  additions-loop (k ∷ ks) d =
      additions-loop ks (note_gone hash current new d k) ∙ additions-note_gone d k

module _ (r : Range) {V : Type 0} (hash : V → String) (current new : Map V) (j : String) where
  -- A key is added exactly if it is new, or if its value's hash changed; the value is the new one.
  pub get-additions-maps :
      get (maps r hash current new).additions j ≡ added hash (get current j) (get new j)
  unfolding maps get
  get-additions-maps = rw additions-loop (
      rw
        (for_each_writes (note_new hash current new) (λ d. get d.additions)
          (λ k. added hash (get current k) (get new k)) (additions-note_new hash current new))
        (ground (arith, r.elem-visit V new j)))

  -- A key is removed exactly if it is gone, or if its value's hash changed; the value is the old one.
  pub get-removals-maps :
      get (maps r hash current new).removals j ≡ removed hash (get current j) (get new j)
  unfolding maps get
  get-removals-maps =
      rw
        (for_each_writes (note_gone hash current new) (λ d. get d.removals)
          (λ k. gone hash (get current k) (get new k)) (removals-note_gone hash current new))
        (rw
          (for_each_writes (note_new hash current new) (λ d. get d.removals)
            (λ k. replaced hash (get current k) (get new k)) (removals-note_new hash current new))
          (ground (arith, r.elem-visit V new j, r.elem-visit V current j)))
