-- ===== src/Allocator/Registry/Laws.antt =====
-- What a registry returns after a registration.
use opentelemetry_operator.Prelude.{
  String, ◌&&◌, not, none, some, ◌≡◌, arith, ◌==◌, eq_iff, if◌then◌else◌, Option-cases, inl, inr,
}
use opentelemetry_operator.GoMap.{Map, get, has}
use opentelemetry_operator.GoMap.Laws.{get-put}
use opentelemetry_operator.Allocator.Registry.{register, new}

module _ {ℓ κ} {P : Type ℓ} {A : Type κ} (registry : Map P) (call : P → A) where
  -- After Register, New calls the new provider for its name, if that was free; for any other name, and
  -- where the name was taken, it does what it did before.
  pub new-register :
      (name : String) (p : P) (j : String)
      → new (register registry name p).0 call j ≡ (
          if (name == j) && not (has registry name)
          then (some (call p), none)
          else new registry call j)
  unfolding register new
  new-register name p j = elim (Option-cases (get registry name)) [
    | inl e ↦ ground (arith, e, get-put registry name p j, eq_iff name j)
    | inr (q, e) ↦ ground (arith, e)
  ]
