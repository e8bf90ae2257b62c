-- ===== src/Upgrade/Late/Laws.antt =====
-- The autoscalers that v0_56_0.go leaves alone.
use opentelemetry_operator.Prelude.{
  String, Bool, true, false, some, List, [], ◌∷◌, ◌≡◌, refl, ◌∙◌, ◌==◌, Bool-cases, inl, inr, arith,
  is_some,
}
use opentelemetry_operator.Prelude.Int.{pos}
use opentelemetry_operator.Reconcile.Api.{Object, Api, Answer, at, keeps, selected}
use opentelemetry_operator.Upgrade.Types.{Otelcol}
use opentelemetry_operator.Upgrade.Late.{
  ScaleTarget, collector_target, autoscaler_labels, retarget, retargeted, retarget_listed,
  upgrade0_56_0,
}

module _ (api : Api ScaleTarget) (a b : String) where
  retarget-others :
      (new : ScaleTarget) (os : List (Object ScaleTarget)) (s : api.Server)
      → keeps os a b ≡ false
      → api.stored (retarget api new os s).1 a b ≡ api.stored s a b
  unfolding retarget
  retarget-others new [] s h = refl
  retarget-others new (o ∷ os) s h =
      let apart : at o a b ≡ false = ground (arith, h) in
      let later : keeps os a b ≡ false = ground (arith, h) in
      elim (Bool-cases (o.spec.kind == "Deployment")) [
        | inr e ↦ rw (e, retarget) (retarget-others new os s later)
        | inl e ↦
            let p = record o { spec = new } in
            rw (e, retarget)
              (retarget-others new os (api.patch s p).1 later ∙ api.patch-others s p a b apart)
      ]

  retargeted-others : (o : Otelcol) (r : Bool × api.Server) → (retargeted api o r).1 ≡ r.1
  retargeted-others o (true, s) = refl
  retargeted-others o (false, s) = refl

  -- What is there is no autoscaler of the collector.
  abbrev pub IsForeign : Otelcol → api.Server → Type 0
  IsForeign o s =
      (h : Object ScaleTarget)
      → api.stored s a b ≡ some h
      → h.namespace ≡ o.namespace
      → selected (autoscaler_labels o) h.labels ≡ false

  listed-others :
      (new : ScaleTarget) (o : Otelcol) (r : Answer (List (Object ScaleTarget)) × api.Server)
      → ((os : List (Object ScaleTarget)) → r.0 ≡ Answer.ok os → keeps os a b ≡ false)
      → api.stored (retarget_listed api new o r).1 a b ≡ api.stored r.1 a b
  listed-others new o (Answer.err e, s) h = refl
  listed-others new o (Answer.ok os, s) h =
      rw (retargeted-others o (retarget api new os s)) (retarget-others new os s (h os refl))

  unlisted :
      (o : Otelcol) (s : api.Server) (os : List (Object ScaleTarget))
      → IsForeign o s
      → (api.list s o.namespace (autoscaler_labels o)).0 ≡ Answer.ok os
      → keeps os a b ≡ false
  unlisted o s os foreign l = elim (Bool-cases (keeps os a b)) [
    | inr f ↦ f
    | inl f ↦
        let (h, at_h, ns, sel) = api.list-sound s o.namespace (autoscaler_labels o) os a b l f in
        absurd (cc (sel, foreign h at_h ns))
  ]

  -- Whatever calls fail, the routine of v0.56.0 leaves what is no autoscaler of the collector, by its
  -- namespace and labels, as it was.
  pub upgrade0_56_0-others :
      (collector_name : String → String) (o : Otelcol) (s : api.Server)
      → IsForeign o s
      → api.stored (upgrade0_56_0 api collector_name o s).1 a b ≡ api.stored s a b
  unfolding upgrade0_56_0
  upgrade0_56_0-others collector_name o s foreign = elim (Bool-cases (is_some o.max_replicas)) [
    | inr e ↦ rw (e, upgrade0_56_0) refl
    | inl e ↦
        rw (e, upgrade0_56_0)
          (listed-others (collector_target (collector_name o.name))
              (record o { min_replicas = some (pos 1) })
              (api.list s o.namespace (autoscaler_labels o)) (λ os. unlisted o s os foreign)
            ∙ api.list-stored s o.namespace (autoscaler_labels o) a b)
  ]
