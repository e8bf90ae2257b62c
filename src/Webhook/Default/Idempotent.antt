-- ===== src/Webhook/Default/Idempotent.antt =====
-- The defaults are stable, and they enable an autoscaler exactly where a maximum is asked for.
use opentelemetry_operator.Prelude.{
  String, Bool, true, false, ◌&&◌, ◌||◌, Option, none, some, ◌≡◌, refl, ◌==◌, arith, if◌then◌else◌,
  is_some, Bool-cases, inl, inr, ap, sym, ◌∙◌,
}
use opentelemetry_operator.Prelude.Int.{ℤ, pos}
use opentelemetry_operator.GoMap.{Map, read, put}
use opentelemetry_operator.GoMap.Laws.{read-put}
use opentelemetry_operator.Kube.{ResourceRequirements}
use opentelemetry_operator.Webhook.Types.{
  AutoscalerSpec, TargetAllocator, Ingress, Spec, OpenTelemetryCollector,
}
use opentelemetry_operator.Webhook.Default.{
  or_value, or_default, first_of, managed_by, default_labels, default_resources,
  fill_target_allocator, default_target_allocator, empty_autoscaler, default_cpu_target,
  fill_autoscaler, autoscaler_max, default_autoscaler, default_ingress, default_spec, default,
}

if_true {ℓ} : {A : Type ℓ} (b : Bool) (x y : A) → b ≡ true → (if b then x else y) ≡ x
if_true b x y e = rw e refl

if_false {ℓ} : {A : Type ℓ} (b : Bool) (x y : A) → b ≡ false → (if b then x else y) ≡ y
if_false b x y e = rw e refl

labelled :
    (m : Map String) → (read (put m managed_by "opentelemetry-operator") managed_by == "") ≡ false
labelled m = rw (read-put m managed_by "opentelemetry-operator") refl

labels_idem : (m : Map String) → default_labels (default_labels m) ≡ default_labels m
unfolding default_labels
labels_idem m = elim (Bool-cases (read m managed_by == "")) [
  | inl e ↦
      let on = if_true (read m managed_by == "") (put m managed_by "opentelemetry-operator") m e in
      ap default_labels on
      ∙ if_false (read (put m managed_by "opentelemetry-operator") managed_by == "") _ _
          (labelled m)
      ∙ sym on
  | inr e ↦ ap default_labels (if_false (read m managed_by == "") _ m e)
]

first_of_idem {ℓ} : {A : Type ℓ} (o d : Option A) → first_of (first_of o d) d ≡ first_of o d
first_of_idem none none = refl
first_of_idem none (some d) = refl
first_of_idem (some a) d = refl

or_value_idem : (s d : String) → or_value (or_value s d) d ≡ or_value s d
or_value_idem s d = elim (Bool-cases (s == "")) [
  | inl e ↦ elim (Bool-cases (d == "")) [ inl f ↦ rw (e, f) refl | inr f ↦ rw (e, f) refl ]
  | inr e ↦ rw (e, e) refl
]

resources_idem :
    (r : ResourceRequirements) → default_resources (default_resources r) ≡ default_resources r
unfolding default_resources
resources_idem r = rw (first_of_idem, first_of_idem) refl

fill_target_allocator_idem :
    (ta : TargetAllocator)
    → fill_target_allocator (fill_target_allocator ta) ≡ fill_target_allocator ta
unfolding fill_target_allocator
fill_target_allocator_idem ta = rw (first_of_idem, resources_idem) refl

target_allocator_idem :
    (ta : TargetAllocator)
    → default_target_allocator (default_target_allocator ta) ≡ default_target_allocator ta
unfolding default_target_allocator
target_allocator_idem ta = elim (Bool-cases ta.enabled) [
  | inl e ↦
      let filled = fill_target_allocator ta in
      let on = if_true ta.enabled filled ta e in
      ap default_target_allocator on
      ∙ if_true ta.enabled (fill_target_allocator filled) filled e
      ∙ fill_target_allocator_idem ta
      ∙ sym on
  | inr e ↦ ap default_target_allocator (if_false ta.enabled (fill_target_allocator ta) ta e)
]

ingress_idem : (i : Ingress) → default_ingress (default_ingress i) ≡ default_ingress i
unfolding default_ingress
ingress_idem i = elim (Bool-cases (i.type_name == "route" && i.route_termination == "")) [
  | inl e ↦
      let edge = record i { route_termination = "edge" } in
      let on = if_true (i.type_name == "route" && i.route_termination == "") edge i e in
      ap default_ingress on
      ∙ if_false (i.type_name == "route" && edge.route_termination == "") _ edge (ground arith)
      ∙ sym on
  | inr e ↦
      ap default_ingress (if_false (i.type_name == "route" && i.route_termination == "") _ i e)
]

cpu_idem : (c m : Option ℤ) → default_cpu_target (default_cpu_target c m) m ≡ default_cpu_target c m
unfolding default_cpu_target
cpu_idem none none = refl
cpu_idem none (some m) = refl
cpu_idem (some c) m = refl

fill_idem :
    (s : Spec) (r : Option ℤ) (a : AutoscalerSpec)
    → fill_autoscaler s r (fill_autoscaler s r a) ≡ fill_autoscaler s r a
unfolding fill_autoscaler
fill_idem s r a =
    rw
      (
        first_of_idem a.max_replicas s.max_replicas,
        first_of_idem a.min_replicas (first_of s.min_replicas r),
        cpu_idem a.target_cpu_utilization a.target_memory_utilization,
      )
      refl

-- With its fields filled in, the autoscaler stays where a maximum is asked for.
asked :
    (s : Spec) (r : Option ℤ) (a : AutoscalerSpec)
    → (is_some s.max_replicas || is_some a.max_replicas) ≡ true
    → default_autoscaler (record s { autoscaler = some (fill_autoscaler s r a) }) r
      ≡ some (fill_autoscaler s r a)
unfolding default_autoscaler autoscaler_max fill_autoscaler
asked s r a e =
    if_true (is_some s.max_replicas || is_some (first_of a.max_replicas s.max_replicas)) _ _
      (ground (arith, e))
    ∙ ap some (fill_idem s r a)

autoscaler_idem :
    (s : Spec) (r : Option ℤ)
    → default_autoscaler (record s { autoscaler = default_autoscaler s r }) r
      ≡ default_autoscaler s r
unfolding default_autoscaler autoscaler_max
autoscaler_idem s r =
    let b = is_some s.max_replicas || is_some (autoscaler_max s.autoscaler) in
    let a = or_default s.autoscaler empty_autoscaler in
    elim (Bool-cases b) [
      | inl e ↦
          let on = if_true b (some (fill_autoscaler s r a)) s.autoscaler e in
          ap (λ x. default_autoscaler (record s { autoscaler = x }) r) on
          ∙ asked s r a (ground (arith, e))
          ∙ sym on
      | inr e ↦
          let off = if_false b (some (fill_autoscaler s r a)) s.autoscaler e in
          ap (λ x. default_autoscaler (record s { autoscaler = x }) r) off
    ]

-- Default on an OpenTelemetryCollector that it has filled in changes nothing.
pub default_idem : (r : OpenTelemetryCollector) → default (default r) ≡ default r
unfolding default default_spec
default_idem r =
    let replicas = first_of r.spec.replicas (some (pos 1)) in
    rw
      (
        labels_idem r.labels,
        or_value_idem r.spec.mode "deployment",
        or_value_idem r.spec.upgrade_strategy "automatic",
        first_of_idem r.spec.replicas (some (pos 1)),
        target_allocator_idem r.spec.target_allocator,
        autoscaler_idem r.spec replicas,
        ingress_idem r.spec.ingress,
      )
      refl
