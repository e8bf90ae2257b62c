-- ===== src/Sidecar/Mutator/Refusal.antt =====
-- A pod that refuses a sidecar has none.
use opentelemetry_operator.Prelude.{
  true, false, none, ◌≡◌, refl, arith, Bool-cases, inl, inr, equal_fold, refusal_not_empty,
  refusal_not_true,
}
use opentelemetry_operator.GoMap.{read}
use opentelemetry_operator.Kube.{Pod, Namespace}
use opentelemetry_operator.Sidecar.Mutator.{
  Client, Builder, annotation, annotation_value, named_sidecar, exists_in, remove, mutate,
}
use opentelemetry_operator.Sidecar.Mutator.Idempotent.{named-without_sidecar}

-- The pod's refusal goes before what the namespace says.
refused_value :
    (ns : Namespace) (p : Pod)
    → equal_fold (read p.annotations annotation) "false" ≡ true
    → annotation_value ns p ≡ read p.annotations annotation
unfolding annotation_value
refused_value ns p h = ground (
  arith,
  h,
  refusal_not_empty (read p.annotations annotation) h,
  refusal_not_true (read p.annotations annotation) h,
)

remove-exists : (p : Pod) → exists_in (remove p) ≡ false
unfolding remove exists_in
remove-exists p = elim (Bool-cases (named_sidecar p.containers)) [
  | inl e ↦ rw (e, named-without_sidecar p.containers) refl
  | inr e ↦ rw e e
]

-- If the pod's own annotation is false, in any case of its letters, Mutate returns it without a
-- sidecar and without an error, whatever the namespace says.
pub mutate_refused :
    (b : Builder) (client : Client) (ns : Namespace) (p : Pod)
    → equal_fold (read p.annotations annotation) "false" ≡ true
    → (exists_in (mutate b client ns p).0 ≡ false) × ((mutate b client ns p).1 ≡ none)
unfolding mutate
mutate_refused b client ns p h =
    let value = refused_value ns p h in
    let empty = refusal_not_empty (read p.annotations annotation) h in
    (rw (value, empty, h) (remove-exists p), rw (value, empty, h) refl)
