-- ===== src/Sidecar/Mutator/Idempotent.antt =====
-- The sidecar mutator settles after one run, and keeps the other containers.
use opentelemetry_operator.Prelude.{
  String, List, [], ◌∷◌, ◌++◌, true, false, Option, none, some, ◌≡◌, refl, sym, ◌∙◌, ap, subst,
  arith, ◌==◌, eq_iff, Bool-cases, inl, inr, equal_fold, ◌⊎◌,
}
use opentelemetry_operator.Kube.{EnvVar, Container, Pod, Namespace}
use opentelemetry_operator.Sidecar.Mutator.{
  Result, ok, err, Collector, Client, Builder, sidecar_config, container_name, annotation_value,
  named_sidecar, exists_in, without_sidecar, remove, sidecar_container, with_sidecar, add, Selected,
  selected, failed, get_collector_instance, is_tolerated, inject, mutate,
}

pub named-without_sidecar : (cs : List Container) → named_sidecar (without_sidecar cs) ≡ false
unfolding named_sidecar without_sidecar
named-without_sidecar [] = refl
named-without_sidecar (c ∷ cs) = ground (arith, named-without_sidecar cs)

-- A container of the sidecar's name is added.
module _ (c : Container) (named : c.name ≡ container_name) where
  named-append : (cs : List Container) → named_sidecar (cs ++ (c ∷ [])) ≡ true
  unfolding named_sidecar
  named-append [] = ground (arith, named, eq_iff c.name container_name)
  named-append (d ∷ cs) = ground (arith, named-append cs)

  without-append : (cs : List Container) → without_sidecar (cs ++ (c ∷ [])) ≡ without_sidecar cs
  unfolding without_sidecar
  without-append [] = ground (arith, named, eq_iff c.name container_name)
  without-append (d ∷ cs) = ground (arith, without-append cs)

-- The run adds a sidecar that was missing.
pub record Added (ns : Namespace) (p q : Pod) : Type 0 where
  pub asked : (annotation_value ns p == "") ≡ false
  pub wanted : equal_fold (annotation_value ns p) "false" ≡ false
  pub annotations : q.annotations ≡ p.annotations
  pub there : exists_in q ≡ true
  pub others : without_sidecar q.containers ≡ without_sidecar p.containers

-- The run removes the sidecar, if there is one.
pub record Removed (ns : Namespace) (p q : Pod) : Type 0 where
  pub asked : (annotation_value ns p == "") ≡ false
  pub refused : equal_fold (annotation_value ns p) "false" ≡ true
  pub without : q ≡ remove p

Outcome : Namespace → Pod → Pod → Type 0
Outcome ns p q = (q ≡ p) ⊎ (Removed ns p q ⊎ Added ns p q)

module _ (b : Builder) (client : Client) (ns : Namespace) (p : Pod) where
  added :
      (otelcol : Collector) (config : String) (attributes : List EnvVar)
      → (annotation_value ns p == "") ≡ false
      → equal_fold (annotation_value ns p) "false" ≡ false
      → Added ns p (with_sidecar b otelcol p config attributes)
  unfolding with_sidecar exists_in sidecar_container
  added otelcol config attributes e f =
      let c = sidecar_container (b.container otelcol) config attributes in
      record {
        asked = e;
        wanted = f;
        annotations = refl;
        there = named-append c (b.container-name otelcol) p.containers;
        others = without-append c (b.container-name otelcol) p.containers;
      }

  add_err :
      (otelcol : Collector) (attributes : List EnvVar) (x : String)
      → sidecar_config b otelcol ≡ err x
      → add b otelcol p attributes ≡ (p, some x)
  unfolding add
  add_err otelcol attributes x r = ground (arith, r)

  add_ok :
      (otelcol : Collector) (attributes : List EnvVar) (config : String)
      → sidecar_config b otelcol ≡ ok config
      → add b otelcol p attributes ≡ (with_sidecar b otelcol p config attributes, none)
  unfolding add
  add_ok otelcol attributes config r = ground (arith, r)

  add-Outcome :
      (otelcol : Collector) (attributes : List EnvVar) (r : Result String)
      → sidecar_config b otelcol ≡ r
      → (annotation_value ns p == "") ≡ false
      → equal_fold (annotation_value ns p) "false" ≡ false
      → Outcome ns p (add b otelcol p attributes).0
  unfolding Outcome
  add-Outcome otelcol attributes (err x) r e f = rw (add_err otelcol attributes x r) (inl refl)
  add-Outcome otelcol attributes (ok config) r e f =
      rw (add_ok otelcol attributes config r) (inr (inr (added otelcol config attributes e f)))

  inject-Outcome :
      (s : Selected)
      → (annotation_value ns p == "") ≡ false
      → equal_fold (annotation_value ns p) "false" ≡ false
      → Outcome ns p (inject b client ns p s).0
  unfolding inject Outcome
  inject-Outcome (failed x) e f = elim (Bool-cases (is_tolerated x)) [
    | inl t ↦ rw t (inl refl)
    | inr t ↦ rw t (inl refl)
  ]
  inject-Outcome (selected otelcol) e f = add-Outcome otelcol _ (sidecar_config b otelcol) refl e f

  mutate-Outcome : Outcome ns p (mutate b client ns p).0
  unfolding mutate Outcome
  mutate-Outcome = elim (Bool-cases (annotation_value ns p == "")) [
    | inl e ↦ rw e (inl refl)
    | inr e ↦ elim (Bool-cases (equal_fold (annotation_value ns p) "false")) [
      | inl f ↦ rw e (rw f (inr (inl (record { asked = e; refused = f; without = refl }))))
      | inr f ↦ elim (Bool-cases (exists_in p)) [
        | inl g ↦ rw e (rw f (rw g (inl refl)))
        | inr g ↦ rw e (
            rw f (
              rw g (inject-Outcome (get_collector_instance client ns (annotation_value ns p)) e f)))
      ]
    ]
  ]

remove_idem : (p : Pod) → remove (remove p) ≡ remove p
unfolding remove exists_in
remove_idem p = elim (Bool-cases (named_sidecar p.containers)) [
  | inl e ↦ rw (e, named-without_sidecar p.containers) refl
  | inr e ↦ rw (e, e) refl
]

remove_annotations : (p : Pod) → (remove p).annotations ≡ p.annotations
unfolding remove
remove_annotations p = elim (Bool-cases (exists_in p)) [ inl e ↦ rw e refl | inr e ↦ rw e refl ]

annotation_same :
    (ns : Namespace) (p q : Pod)
    → q.annotations ≡ p.annotations
    → annotation_value ns q ≡ annotation_value ns p
unfolding annotation_value
annotation_same ns p q e = rw e refl

module _ (b : Builder) (client : Client) (ns : Namespace) where
  settled :
      (p q : Pod)
      → Outcome ns p q
      → mutate b client ns p ≡ (q, none)
      → mutate b client ns q ≡ (q, none)
  unfolding mutate Outcome
  settled p q (inl same) run = subst (λ x. mutate b client ns x ≡ (q, none)) (sym same) run
  settled p q (inr (inl x)) run =
      let ann =
        annotation_same ns p q (ap (λ (y : Pod). y.annotations) x.without ∙ remove_annotations p) in
      let again : remove q ≡ q = ap remove x.without ∙ remove_idem p ∙ sym x.without in
      rw (ann, x.asked, x.refused, again) refl
  settled p q (inr (inr x)) run =
      let ann = annotation_same ns p q x.annotations in rw (ann, x.asked, x.wanted, x.there) refl

  -- If Mutate returns a pod without an error, it returns that pod unchanged the next time: a sidecar
  -- is added or removed once.
  pub mutate_idem :
      (p q : Pod) → mutate b client ns p ≡ (q, none) → mutate b client ns q ≡ (q, none)
  mutate_idem p q run =
      settled p q
        (subst (Outcome ns p) (ap (λ (y : Pod × Option String). y.0) run)
          (mutate-Outcome b client ns p))
        run
