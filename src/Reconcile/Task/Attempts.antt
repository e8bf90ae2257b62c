-- ===== src/Reconcile/Task/Attempts.antt =====
-- How a loop of a task ends: by its last round, or by a second attempt.
use opentelemetry_operator.Prelude.{
  List, [], ◌∷◌, Option, none, some, ◌≡◌, refl, ◌∙◌, sym, Bool-cases, inl, inr, ◌⊎◌, ap, ◌≢◌,
}
use opentelemetry_operator.GoMap.{Range}
use opentelemetry_operator.Reconcile.Api.{Object, Error, Answer, ok, err, Api}
use opentelemetry_operator.Reconcile.Task.{
  Kind, Owner, Flow, next, stop, change, apply_answer, expect, expected, after_create, on_error,
  continue_with, is_already_exists,
}
use opentelemetry_operator.Reconcile.Task.Untouched.{Answer-cases}

stop_eq : {x : Option Error} → stop x ≡ stop none → x ≡ none
stop_eq h = cc h

stop_ne_next : {x : Option Error} → stop x ≢ next
stop_ne_next h = cc h

stop_some : {e : Error} → stop (some e) ≢ stop none
stop_some h = cc h

module _ {S : Type 0} (api : Api S) (kind : Kind S) (r : Range) (owner : Owner S) where
  open api use {Server, stored}

  -- A loop that returns no error went on, or returned early.
  pub continue_result :
      (t : Flow × Server) (rest : Server → Option Error × Server)
      → (continue_with api t rest).0 ≡ none
      → ((t.0 ≡ next) × ((rest t.1).0 ≡ none) × (continue_with api t rest ≡ rest t.1))
        ⊎ ((t.0 ≡ stop none) × ((continue_with api t rest).1 ≡ t.1))
  continue_result (next, s) rest h = inl (refl, h, refl)
  continue_result (stop none, s) rest h = inr (refl, refl)
  continue_result (stop (some e), s) rest h = cc h

  on_error_goes_on : (x : Option Error) → on_error x ≢ stop none
  on_error_goes_on none h = cc h
  on_error_goes_on (some e) h = cc h

  change_goes_on : (d e : Object S) (s : Server) → (change api kind r owner d e s).0 ≢ stop none
  unfolding change
  change_goes_on d e s h = on_error_goes_on _ h

  -- What a second attempt brings about.
  abbrev pub Brings : Option (Server → Option Error × Server) → (Server → Type 0) → Type 0
  Brings none P = Unit
  Brings (some retry) P = (s : Server) → (retry s).0 ≡ none → P (retry s).1

  after_create_stop :
      (again : Option (Server → Option Error × Server)) (P : Server → Type 0)
      (t : Option Error × Server)
      → Brings again P
      → (after_create api again t).0 ≡ stop none
      → P (after_create api again t).1
  after_create_stop again P (none, s) b h = cc h
  after_create_stop none P (some e, s) b h = cc h
  after_create_stop (some retry) P (some e, s) b h = elim (Bool-cases (is_already_exists e)) [
    | inl f ↦ rw f (b s (stop_eq (rw f at h)))
    | inr f ↦ absurd (stop_some (rw f at h))
  ]

  apply_stop :
      (again : Option (Server → Option Error × Server)) (P : Server → Type 0) (d : Object S)
      (t : Answer (Object S) × Server)
      → Brings again P
      → (apply_answer api kind r owner again d t).0 ≡ stop none
      → P (apply_answer api kind r owner again d t).1
  unfolding apply_answer
  apply_stop again P d (ok e, s) b h = absurd (change_goes_on d e s h)
  apply_stop again P d (err Error.not_found, s) b h = after_create_stop again P (api.create s d) b h
  apply_stop again P d (err Error.already_exists, s) b h = cc h
  apply_stop again P d (err Error.namespace_terminating, s) b h = cc h
  apply_stop again P d (err (Error.other x), s) b h = cc h

  pub expect_stop :
      (again : Option (Server → Option Error × Server)) (P : Server → Type 0) (o : Object S)
      (s : Server)
      → Brings again P
      → (expect api kind r owner again o s).0 ≡ stop none
      → P (expect api kind r owner again o s).1
  unfolding expect
  expect_stop again P o s b h = elim (Answer-cases (owner.set o)) [
    | inl (d, e) ↦
        rw (e, expect)
          (apply_stop again P d (api.read s d.namespace d.name) b (rw (e, expect) at h))
    | inr (x, e) ↦ absurd (stop_some (rw (e, expect) at h))
  ]

  after_create_again :
      (again : Option (Server → Option Error × Server)) (t : Option Error × Server)
      → (after_create api again t).0 ≡ next
      → after_create api again t ≡ after_create api none t
  after_create_again again (none, s) h = refl
  after_create_again none (some e, s) h = refl
  after_create_again (some retry) (some e, s) h = elim (Bool-cases (is_already_exists e)) [
    | inl f ↦ absurd (stop_ne_next (rw f at h))
    | inr f ↦ absurd (stop_ne_next (rw f at h))
  ]

  apply_again :
      (again : Option (Server → Option Error × Server)) (d : Object S)
      (t : Answer (Object S) × Server)
      → (apply_answer api kind r owner again d t).0 ≡ next
      → apply_answer api kind r owner again d t ≡ apply_answer api kind r owner none d t
  unfolding apply_answer
  apply_again again d (ok e, s) h = refl
  apply_again again d (err Error.not_found, s) h = after_create_again again (api.create s d) h
  apply_again again d (err Error.already_exists, s) h = refl
  apply_again again d (err Error.namespace_terminating, s) h = refl
  apply_again again d (err (Error.other x), s) h = refl

  -- A round that goes on made no second attempt.
  expect_again :
      (again : Option (Server → Option Error × Server)) (o : Object S) (s : Server)
      → (expect api kind r owner again o s).0 ≡ next
      → expect api kind r owner again o s ≡ expect api kind r owner none o s
  unfolding expect
  expect_again again o s h = elim (Answer-cases (owner.set o)) [
    | inl (d, e) ↦
        rw (e, expect) (apply_again again d (api.read s d.namespace d.name) (rw (e, expect) at h))
    | inr (x, e) ↦ rw (e, expect) refl
  ]

  continue_go :
      (t : Flow × Server) (rest : Server → Option Error × Server)
      → t.0 ≡ next
      → continue_with api t rest ≡ rest t.1
  continue_go (next, s) rest h = refl
  continue_go (stop x, s) rest h = absurd (stop_ne_next h)

  -- A loop that returns no error made a successful second attempt, or none.
  pub expected_result :
      (again : Option (Server → Option Error × Server)) (P : Server → Type 0) (os : List (Object S))
      (s : Server)
      → Brings again P
      → (expected api kind r owner again os s).0 ≡ none
      → P (expected api kind r owner again os s).1
        ⊎ (expected api kind r owner again os s ≡ expected api kind r owner none os s)
  unfolding expected
  expected_result again P [] s b h = inr refl
  expected_result again P (o ∷ os) s b h =
      let t = expect api kind r owner again o s in
      elim (continue_result t (expected api kind r owner again os) h) [
        | inr (early, same) ↦ inl (rw same (expect_stop again P o s b early))
        | inl (go, rest, same) ↦
            let plain = expect_again again o s go in
            elim (expected_result again P os t.1 b rest) [
              | inl p ↦ inl (rw same p)
              | inr q ↦ inr (
                  same
                  ∙ q
                  ∙ sym (continue_go t (expected api kind r owner none os) go)
                  ∙ ap (λ x. continue_with api x (expected api kind r owner none os)) plain)
            ]
      ]
