-- ===== src/Reconcile/Task/Converges.antt =====
-- Where a task returns no error, its objects are settled; after a second time they are there.
use opentelemetry_operator.Prelude.{
  false, List, [], ◌∷◌, Option, none, some, ◌≡◌, ◌∙◌, sym, arith, eq_iff, inl, inr, subst,
}
use opentelemetry_operator.GoMap.{Range}
use opentelemetry_operator.Reconcile.Api.{Object, Error, ok, Api, at, keeps}
use opentelemetry_operator.Reconcile.Task.{Kind, Lawful, Owner, next, expect, expected}
use opentelemetry_operator.Reconcile.Task.Untouched.{expect-others, expected-others}
use opentelemetry_operator.Reconcile.Task.Attempts.{continue_result, expect_stop}
use opentelemetry_operator.Reconcile.Task.Wanted.{
  Distinct, IsPresent, IsSettled, AllPresent, AllSettled, IsPresent-from, expect-Outcome,
}

-- An object at no place of the others is not at that of the first.
apart_from :
    {S : Type 0} (p : Object S) (os : List (Object S)) (o : Object S)
    → keeps (p ∷ os) o.namespace o.name ≡ false
    → at o p.namespace p.name ≡ false
apart_from p os o f = ground (
  arith,
  f,
  eq_iff o.namespace p.namespace,
  eq_iff p.namespace o.namespace,
  eq_iff o.name p.name,
  eq_iff p.name o.name,
)

module _ {S : Type 0} (api : Api S) (kind : Kind S) (laws : Lawful kind) (r : Range)
    (owner : Owner S) where
  open api use {Server, stored}

  expect_settles :
      (again : Option (Server → Option Error × Server)) (o : Object S) (s : Server)
      → (expect api kind r owner again o s).0 ≡ next
      → IsSettled api kind laws r owner s o (expect api kind r owner again o s).1
  expect_settles again o s h =
      let (d, set, result) = expect-Outcome api kind laws r owner again o s h in
      let same = owner.set-keeps o d set in
      let s' = (expect api kind r owner again o s).1 in
      elim result [
        | inl (e, found, replaced, gone) ↦ inl (
          d,
          e,
          set,
          subst (λ x. stored s x o.name ≡ some e) same.0
              (subst (λ x. stored s d.namespace x ≡ some e) same.1
                (api.read-found s d.namespace d.name e found)),
          replaced,
          subst (λ x. stored s' x o.name ≡ none) same.0
              (subst (λ x. stored s' d.namespace x ≡ none) same.1 gone),
        )
        | inr (e, there, f) ↦ inr (IsPresent-from api kind laws r owner o d s' e set there f)
      ]

  -- What the read finds has what is wanted, so that it is not deleted.
  not_replaced :
      (o d e : Object S) (before s : Server)
      → IsSettled api kind laws r owner before o s
      → owner.set o ≡ ok d
      → (api.read s d.namespace d.name).0 ≡ ok e
      → kind.replaced d.spec e.spec ≡ false
  not_replaced o d e before s settled set found =
      let same = owner.set-keeps o d set in
      let there : stored s o.namespace o.name ≡ some e =
        subst (λ x. stored s x o.name ≡ some e) same.0
          (subst (λ x. stored s d.namespace x ≡ some e) same.1
            (api.read-found s d.namespace d.name e found)) in
      elim settled [
        | inl (d', e', set', was, replaced, gone) ↦ absurd (cc (there, gone))
        | inr (d', e', set', there', f) ↦
            let same_d : d' ≡ d = cc (set, set') in
            let same_e : e' ≡ e = cc (there, there') in
            laws.has-replaced e.spec d.spec (
              subst (λ x. laws.Has x.spec d.spec) same_e
                (subst (λ x. laws.Has e'.spec x.spec) same_d f.spec))
      ]

  expect_presents :
      (o : Object S) (before s : Server)
      → IsSettled api kind laws r owner before o s
      → (expect api kind r owner none o s).0 ≡ next
      → IsPresent api kind laws r owner o (expect api kind r owner none o s).1
  expect_presents o before s settled h =
      let (d, set, result) = expect-Outcome api kind laws r owner none o s h in
      elim result [
        | inl (e, found, replaced, gone) ↦
            absurd (cc (replaced, not_replaced o d e before s settled set found))
        | inr (e, there, f) ↦
            IsPresent-from api kind laws r owner o d (expect api kind r owner none o s).1 e set
              there f
      ]

  pub IsSettled-same :
      (o : Object S) (before s t : Server)
      → stored t o.namespace o.name ≡ stored s o.namespace o.name
      → IsSettled api kind laws r owner before o s
      → IsSettled api kind laws r owner before o t
  IsSettled-same o before s t h (inl (d, e, set, was, replaced, gone)) =
      inl (d, e, set, was, replaced, h ∙ gone)
  IsSettled-same o before s t h (inr (d, e, set, there, f)) = inr (d, e, set, h ∙ there, f)

  pub IsPresent-same :
      (o : Object S) (s t : Server)
      → stored t o.namespace o.name ≡ stored s o.namespace o.name
      → IsPresent api kind laws r owner o s
      → IsPresent api kind laws r owner o t
  IsPresent-same o s t h (d, e, set, there, f) = (d, e, set, h ∙ there, f)

  -- The objects of another place were there before a round as they are after it.
  AllSettled-before :
      (os : List (Object S)) (o : Object S) (s t : Server)
      → keeps os o.namespace o.name ≡ false
      → AllSettled api kind laws r owner (expect api kind r owner none o s).1 os t
      → AllSettled api kind laws r owner s os t
  AllSettled-before [] o s t f a = tt
  AllSettled-before (p ∷ os) o s t f a =
      let same =
        expect-others api kind r owner p.namespace p.name none o s tt (apart_from p os o f) in
      let rest : keeps os o.namespace o.name ≡ false = ground (arith, f) in
      (
        elim a.0 [
          | inl (d, e, set, was, replaced, gone) ↦ inl (d, e, set, sym same ∙ was, replaced, gone)
          | inr there ↦ inr there
        ],
        AllSettled-before os o s t rest a.1,
      )

  pub expected_settles :
      (os : List (Object S)) (s : Server)
      → Distinct os
      → (expected api kind r owner none os s).0 ≡ none
      → AllSettled api kind laws r owner s os (expected api kind r owner none os s).1
  unfolding expected
  expected_settles [] s ds h = tt
  expected_settles (o ∷ os) s ds h =
      let t = expect api kind r owner none o s in
      elim (continue_result api kind r owner t (expected api kind r owner none os) h) [
        | inr (early, same) ↦ absurd (expect_stop api kind r owner none (λ _. ⊥) o s tt early)
        | inl (go, rest, same) ↦
            let kept = expected-others api kind r owner o.namespace o.name none os t.1 tt ds.0 in
            rw same (
              IsSettled-same o s t.1 _ kept (expect_settles none o s go),
              AllSettled-before os o s _ ds.0 (expected_settles os t.1 ds.1 rest),
            )
      ]

  AllSettled-expect :
      (os : List (Object S)) (o : Object S) (before s : Server)
      → keeps os o.namespace o.name ≡ false
      → AllSettled api kind laws r owner before os s
      → AllSettled api kind laws r owner before os (expect api kind r owner none o s).1
  AllSettled-expect [] o before s f a = tt
  AllSettled-expect (p ∷ os) o before s f a =
      let same =
        expect-others api kind r owner p.namespace p.name none o s tt (apart_from p os o f) in
      let rest : keeps os o.namespace o.name ≡ false = ground (arith, f) in
      (IsSettled-same p before s _ same a.0, AllSettled-expect os o before s rest a.1)

  pub expected_presents :
      (os : List (Object S)) (before s : Server)
      → Distinct os
      → AllSettled api kind laws r owner before os s
      → (expected api kind r owner none os s).0 ≡ none
      → AllPresent api kind laws r owner os (expected api kind r owner none os s).1
  unfolding expected
  expected_presents [] before s ds a h = tt
  expected_presents (o ∷ os) before s ds a h =
      let t = expect api kind r owner none o s in
      elim (continue_result api kind r owner t (expected api kind r owner none os) h) [
        | inr (early, same) ↦ absurd (expect_stop api kind r owner none (λ _. ⊥) o s tt early)
        | inl (go, rest, same) ↦
            let kept = expected-others api kind r owner o.namespace o.name none os t.1 tt ds.0 in
            rw same (
              IsPresent-same o t.1 _ kept (expect_presents o before s a.0 go),
              expected_presents os before t.1 ds.1 (AllSettled-expect os o before s ds.0 a.1) rest,
            )
      ]
