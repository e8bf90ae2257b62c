-- ===== src/Reconcile/Task.antt =====
-- pkg/collector/reconcile: the loops that each task has a copy of, for its kind of object.
pub mod Untouched
pub mod Wanted
pub mod Attempts
pub mod Converges
pub mod Deleted
pub mod Total
use opentelemetry_operator.Prelude.{
  String, Bool, true, false, List, [], ◌∷◌, Option, none, some, ◌≡◌, if◌then◌else◌, ◌<+>◌,
}
use opentelemetry_operator.GoMap.{Map, Range, copy_into}
use opentelemetry_operator.Reconcile.Api.{
  Object, Error, not_found, already_exists, Answer, ok, err, Api, keeps,
}

-- What differs from kind to kind. `replaced` compares the wanted object with the one that is there:
-- where a field differs that cannot be changed, the object is deleted. `merge` gives the patched
-- specification.
pub record Kind (S : Type 0) : Type 0 where
  pub replaced : S → S → Bool
  pub merge : S → S → S

-- What it means that a stored specification has what is wanted, and that changing to it suffices.
pub record Lawful {S : Type 0} (kind : Kind S) : Type 1 where
  pub Has : S → S → Type 0
  pub has_self : (d : S) → Has d d
  pub has-merge : (e d : S) → kind.replaced d e ≡ false → Has (kind.merge e d) d
  pub has-replaced : (e d : S) → Has e d → kind.replaced d e ≡ false

-- The collector that is reconciled.
pub record Instance : Type 0 where
  pub namespace : String
  pub name : String

-- The labels by which the objects of a collector are listed.
unfoldable pub owned_by : Instance → Map String
owned_by i =
    ("app.kubernetes.io/instance", i.namespace <+> "." <+> i.name)
    ∷ ("app.kubernetes.io/managed-by", "opentelemetry-operator")
    ∷ []

-- How a round of a loop ends: with the next one, or with a return.
pub data Flow : Type 0 where
  next : Flow
  stop : Option Error → Flow

abbrev pub on_error : Option Error → Flow
on_error none = next
on_error (some e) = stop (some e)

abbrev pub is_already_exists : Error → Bool
is_already_exists Error.already_exists = true
is_already_exists _ = false

-- controllerutil.SetControllerReference, which adds the collector to an object's owners.
pub record Owner (S : Type 0) : Type 0 where
  pub set : Object S → Answer (Object S)
  pub set-keeps :
      (o d : Object S)
      → set o ≡ ok d
      → (d.namespace ≡ o.namespace)
        × (d.name ≡ o.name)
        × (d.labels ≡ o.labels)
        × (d.annotations ≡ o.annotations)
        × (d.spec ≡ o.spec)

module _ {S : Type 0} (api : Api S) where
  open api use {Server}

  abbrev pub continue_with :
      Flow × Server → (Server → Option Error × Server) → Option Error × Server
  continue_with (next, s) rest = rest s
  continue_with (stop result, s) rest = (result, s)

  -- The second attempt of a task, where it makes one: after it the loop returns.
  abbrev pub after_create :
      Option (Server → Option Error × Server) → Option Error × Server → Flow × Server
  after_create again (none, s) = (next, s)
  after_create none (some e, s) = (stop (some e), s)
  after_create (some retry) (some e, s) =
      if is_already_exists e
      then (let (result, s') = retry s in (stop result, s'))
      else (stop (some e), s)

  abbrev pub delete_one : Object S → Server → Flow × Server
  delete_one o s = let (result, s') = api.delete s o in (on_error result, s')

  unfoldable pub delete_extra : List (Object S) → List (Object S) → Server → Option Error × Server
  delete_extra keep [] s = (none, s)
  delete_extra keep (o ∷ os) s = elim (keeps keep o.namespace o.name) [
    | true ↦ delete_extra keep os s
    | false ↦ continue_with (delete_one o s) (delete_extra keep os)
  ]

  abbrev pub delete_listed :
      List (Object S) → Answer (List (Object S)) × Server → Option Error × Server
  delete_listed keep (err e, s) = (some e, s)
  delete_listed keep (ok os, s) = delete_extra keep os s

  -- deleteDeployments and its like.
  unfoldable pub delete_unwanted : Instance → List (Object S) → Server → Option Error × Server
  delete_unwanted i keep s = delete_listed keep (api.list s i.namespace (owned_by i))

  abbrev pub and_then :
      Option Error × Server → (Server → Option Error × Server) → Option Error × Server
  and_then (some e, s) rest = (some e, s)
  and_then (none, s) rest = rest s

module _ {S : Type 0} (api : Api S) (kind : Kind S) (r : Range) (owner : Owner S) where
  open api use {Server}

  unfoldable pub updated : Object S → Object S → Object S
  updated existing desired = record existing {
    spec = kind.merge existing.spec desired.spec;
    owners = desired.owners;
    annotations = copy_into r desired.annotations existing.annotations;
    labels = copy_into r desired.labels existing.labels;
  }

  unfoldable pub change : Object S → Object S → Server → Flow × Server
  change desired existing s =
      let (result, s') =
        if kind.replaced desired.spec existing.spec
        then api.delete s existing
        else api.patch s (updated existing desired) in
      (on_error result, s')

  unfoldable pub apply_answer :
      Option (Server → Option Error × Server)
      → Object S
      → Answer (Object S) × Server
      → Flow × Server
  apply_answer again desired (ok existing, s) = change desired existing s
  apply_answer again desired (err Error.not_found, s) =
      after_create api again (api.create s desired)
  apply_answer again desired (err e, s) = (stop (some e), s)

  unfoldable pub expect :
      Option (Server → Option Error × Server) → Object S → Server → Flow × Server
  expect again obj s = elim (owner.set obj) [
    | err e ↦ (stop (some e), s)
    | ok desired ↦ apply_answer again desired (api.read s desired.namespace desired.name)
  ]

  -- expectedDeployments and its like.
  unfoldable pub expected :
      Option (Server → Option Error × Server) → List (Object S) → Server → Option Error × Server
  expected again [] s = (none, s)
  expected again (o ∷ os) s = continue_with api (expect again o s) (expected again os)

  -- Deployments and its like, with the objects that are wanted.
  unfoldable pub reconcile : Instance → List (Object S) → Server → Option Error × Server
  reconcile i desired s = and_then api (expected none desired s) (delete_unwanted api i desired)

  -- ConfigMaps makes a second attempt where another client has created an object meanwhile.
  unfoldable pub reconcile_with_retry : Instance → List (Object S) → Server → Option Error × Server
  reconcile_with_retry i desired s =
      and_then api (expected (some (expected none desired)) desired s)
        (delete_unwanted api i desired)
