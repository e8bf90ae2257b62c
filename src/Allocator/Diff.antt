-- ===== src/Allocator/Diff.antt =====
-- cmd/otel-allocator/diff/diff.go: what was added to a map and what was removed.
pub mod Laws
use opentelemetry_operator.Prelude.{
  String, List, [], Option, none, some, ◌==◌, for_each, if◌then◌else◌,
}
use opentelemetry_operator.GoMap.{Map, Range, get, put}

pub record Changes {ℓ} (V : Type ℓ) : Type ℓ where
  pub additions : Map V
  pub removals : Map V

module _ {ℓ} {V : Type ℓ} (hash : V → String) (current new : Map V) where
  -- The loop over `new`.
  pub note_new : Changes V → String → Changes V
  note_new d key = elim (get new key) [
    | none ↦ d
    | some new_value ↦ elim (get current key) [
      | none ↦ record d { additions = put d.additions key new_value }
      | some current_value ↦ if hash current_value == hash new_value then d else record d {
        additions = put d.additions key new_value;
        removals = put d.removals key current_value;
      }
    ]
  ]

  -- The loop over `current`.
  pub note_gone : Changes V → String → Changes V
  note_gone d key = elim (get current key) [
    | none ↦ d
    | some value ↦ elim (get new key) [
      | none ↦ record d { removals = put d.removals key value }
      | some _ ↦ d
    ]
  ]

unfoldable pub maps : Range → {V : Type 0} → (V → String) → Map V → Map V → Changes V
unfolding note_new note_gone
maps r {V} hash current new =
    let fresh : Changes V = record { additions = []; removals = [] } in
    let added = for_each (note_new hash current new) fresh (r.visit V new) in
    for_each (note_gone hash current new) added (r.visit V current)
