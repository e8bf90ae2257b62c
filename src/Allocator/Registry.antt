-- ===== src/Allocator/Registry.antt =====
-- The registries by name of cmd/otel-allocator/allocation/strategy.go and prehook/prehook.go: their
-- bodies differ in what New returns for an unknown name.
pub mod Laws
use opentelemetry_operator.Prelude.{
  String, List, Bool, Option, none, some, if◌then◌else◌, ◌<+>◌, is_some,
}
use opentelemetry_operator.GoMap.{Map, Range, get, has, put, keys}

module _ {ℓ} {P : Type ℓ} where
  -- The registry, and the error, if there is one.
  unfoldable pub register : Map P → String → P → Map P × Option String
  register registry name provider =
      if has registry name
      then (registry, some "already registered")
      else (put registry name provider, none)

  -- allocation.New: the provider called, or an error.
  unfoldable pub new {κ} : {A : Type κ} → Map P → (P → A) → String → Option A × Option String
  new registry call name = elim (get registry name) [
    | some p ↦ (some (call p), none)
    | none ↦ (none, some ("unregistered strategy: " <+> name))
  ]

  -- prehook.New: the provider called, or nil.
  unfoldable pub new_hook {κ} : {A : Type κ} → Map P → (P → A) → String → Option A
  new_hook registry call name = elim (get registry name) [ some p ↦ some (call p) | none ↦ none ]

unfoldable pub get_registered_allocator_names : Range → {P : Type 0} → Map P → List String
get_registered_allocator_names r {P} registry = r.visit P registry
