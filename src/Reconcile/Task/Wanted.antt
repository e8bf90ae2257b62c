-- ===== src/Reconcile/Task/Wanted.antt =====
-- What a task has brought about where it returns no error.
use opentelemetry_operator.Prelude.{
  String, true, false, List, [], ◌∷◌, Option, none, some, ◌≡◌, refl, ◌∙◌, arith, eq_iff, Bool-cases,
  inl, inr, ◌⊎◌, ◌≢◌, ap, subst,
}
use opentelemetry_operator.GoMap.{Map, Range, get, copy_into}
use opentelemetry_operator.GoMap.Laws.{get-copy_into, or_old}
use opentelemetry_operator.Reconcile.Api.{Object, Error, Answer, ok, err, Api, at, keeps}
use opentelemetry_operator.Reconcile.Task.{
  Kind, Lawful, Owner, next, stop, updated, change, apply_answer, expect, after_create, on_error,
  is_already_exists,
}
use opentelemetry_operator.Reconcile.Task.Untouched.{Answer-cases}

-- An object has what is wanted: its specification, owners, labels and annotations. It may have more
-- labels and annotations.
pub record Fulfils {S : Type 0} {kind : Kind S} (laws : Lawful kind) (d e : Object S) : Type 0 where
  pub spec : laws.Has e.spec d.spec
  pub owners : e.owners ≡ d.owners
  pub labels : (k : String) → get e.labels k ≡ or_old (get d.labels k) (get e.labels k)
  pub annotations :
      (k : String) → get e.annotations k ≡ or_old (get d.annotations k) (get e.annotations k)

or_old_self : (o : Option String) → o ≡ or_old o o
or_old_self none = refl
or_old_self (some v) = refl

or_old_twice : (o p : Option String) → or_old o p ≡ or_old o (or_old o p)
or_old_twice none p = refl
or_old_twice (some v) p = refl

stop_ne_next : {x : Option Error} → stop x ≢ next
stop_ne_next h = cc h

-- No two of the objects have one place.
abbrev pub Distinct : {S : Type 0} → List (Object S) → Type 0
Distinct [] = Unit
Distinct (o ∷ os) = (keeps os o.namespace o.name ≡ false) × Distinct os

module _ {S : Type 0} (api : Api S) (kind : Kind S) (laws : Lawful kind) (r : Range)
    (owner : Owner S) where
  open api use {Server, stored}

  Fulfils-self : (d : Object S) → Fulfils laws d d
  Fulfils-self d = record {
    spec = laws.has_self d.spec;
    owners = refl;
    labels = λ k. or_old_self (get d.labels k);
    annotations = λ k. or_old_self (get d.annotations k);
  }

  copy_fulfils :
      (m n : Map String) (k : String)
      → get (copy_into r m n) k ≡ or_old (get m k) (get (copy_into r m n) k)
  copy_fulfils m n k = rw (get-copy_into r m n k) (or_old_twice (get m k) (get n k))

  Fulfils-updated :
      (e d : Object S)
      → kind.replaced d.spec e.spec ≡ false
      → Fulfils laws d (updated api kind r owner e d)
  unfolding updated
  Fulfils-updated e d h = record {
    spec = laws.has-merge e.spec d.spec h;
    owners = refl;
    labels = λ k. copy_fulfils d.labels e.labels k;
    annotations = λ k. copy_fulfils d.annotations e.annotations k;
  }

  -- The object that is wanted is there.
  abbrev pub IsPresent : Object S → Server → Type 0
  IsPresent o s =
      (d e : Object S) × (owner.set o ≡ ok d)
      × (stored s o.namespace o.name ≡ some e)
      × Fulfils laws d e

  -- It is there, or one was there before that cannot be changed into it, and that is deleted.
  abbrev pub IsSettled : Server → Object S → Server → Type 0
  IsSettled before o s =
      ((d : Object S) × (e : Object S) × (owner.set o ≡ ok d)
        × (stored before o.namespace o.name ≡ some e)
        × (kind.replaced d.spec e.spec ≡ true)
        × (stored s o.namespace o.name ≡ none))
      ⊎ IsPresent o s

  abbrev pub AllPresent : List (Object S) → Server → Type 0
  AllPresent [] s = Unit
  AllPresent (o ∷ os) s = IsPresent o s × AllPresent os s

  abbrev pub AllSettled : Server → List (Object S) → Server → Type 0
  AllSettled before [] s = Unit
  AllSettled before (o ∷ os) s = IsSettled before o s × AllSettled before os s

  pub IsPresent-from :
      (o d : Object S) (s : Server) (e : Object S)
      → owner.set o ≡ ok d
      → stored s d.namespace d.name ≡ some e
      → Fulfils laws d e
      → IsPresent o s
  IsPresent-from o d s e set at_d f =
      let same = owner.set-keeps o d set in
      (
        d,
        e,
        set,
        subst (λ x. stored s x o.name ≡ some e) same.0
            (subst (λ x. stored s d.namespace x ≡ some e) same.1 at_d),
        f,
      )

  abbrev pub Retry : Type 0
  Retry = Option (Server → Option Error × Server)

  after_create_next :
      (again : Retry) (t : Option Error × Server)
      → (after_create api again t).0 ≡ next
      → (t.0 ≡ none) × ((after_create api again t).1 ≡ t.1)
  after_create_next again (none, s) h = (refl, refl)
  after_create_next none (some e, s) h = cc h
  after_create_next (some retry) (some e, s) h = elim (Bool-cases (is_already_exists e)) [
    | inl f ↦ absurd (stop_ne_next (rw f at h))
    | inr f ↦ absurd (stop_ne_next (rw f at h))
  ]

  -- The wanted object `d` was put there, or the one that was there is deleted.
  abbrev pub Outcome : Object S → Answer (Object S) → Server → Type 0
  Outcome d answer s =
      ((e : Object S) × (answer ≡ ok e)
        × (kind.replaced d.spec e.spec ≡ true)
        × (stored s d.namespace d.name ≡ none))
      ⊎ ((e : Object S) × (stored s d.namespace d.name ≡ some e) × Fulfils laws d e)

  on_error_next : (x : Option Error) → on_error x ≡ next → x ≡ none
  on_error_next none h = refl
  on_error_next (some e) h = cc h

  same_place :
      (e d : Object S)
      → at e d.namespace d.name ≡ true
      → (e.namespace ≡ d.namespace) × (e.name ≡ d.name)
  same_place e d h = (
    ground (arith, h, eq_iff e.namespace d.namespace),
    ground (arith, h, eq_iff e.namespace d.namespace, eq_iff e.name d.name),
  )

  change-Outcome :
      (d e : Object S) (s : Server)
      → at e d.namespace d.name ≡ true
      → (change api kind r owner d e s).0 ≡ next
      → Outcome d (ok e) (change api kind r owner d e s).1
  unfolding change updated
  change-Outcome d e s h g =
      let (ns, n) = same_place e d h in
      elim (Bool-cases (kind.replaced d.spec e.spec)) [
        | inl f ↦
            let done : (api.delete s e).0 ≡ none = on_error_next _ (rw (f, change) at g) in
            rw (f, change)
              (inl (
                e,
                refl,
                f,
                subst (λ x. stored (api.delete s e).1 x d.name ≡ none) ns
                    (subst (λ x. stored (api.delete s e).1 e.namespace x ≡ none) n
                      (api.delete-done s e done)),
              ))
        | inr f ↦
            let u = updated api kind r owner e d in
            let done : (api.patch s u).0 ≡ none = on_error_next _ (rw (f, change) at g) in
            rw (f, change)
              (inr (
                u,
                subst (λ x. stored (api.patch s u).1 x d.name ≡ some u) ns
                    (subst (λ x. stored (api.patch s u).1 e.namespace x ≡ some u) n
                      (api.patch-done s u done)),
                Fulfils-updated e d f,
              ))
      ]

  apply-Outcome :
      (again : Retry) (d : Object S) (t : Answer (Object S) × Server)
      → ((e : Object S) → t.0 ≡ ok e → at e d.namespace d.name ≡ true)
      → (apply_answer api kind r owner again d t).0 ≡ next
      → Outcome d t.0 (apply_answer api kind r owner again d t).1
  unfolding apply_answer
  apply-Outcome again d (ok e, s) p h = change-Outcome d e s (p e refl) h
  apply-Outcome again d (err Error.not_found, s) p h =
      let (done, same) = after_create_next again (api.create s d) h in
      inr (d, ap (λ x. stored x d.namespace d.name) same ∙ api.create-done s d done, Fulfils-self d)
  apply-Outcome again d (err Error.already_exists, s) p h = cc h
  apply-Outcome again d (err Error.namespace_terminating, s) p h = cc h
  apply-Outcome again d (err (Error.other x), s) p h = cc h

  read_at :
      (d : Object S) (s : Server) (e : Object S)
      → (api.read s d.namespace d.name).0 ≡ ok e
      → at e d.namespace d.name ≡ true
  read_at d s e h = api.stored-at s d.namespace d.name e (api.read-found s d.namespace d.name e h)

  -- A round that goes on has settled its object.
  pub expect-Outcome :
      (again : Retry) (o : Object S) (s : Server)
      → (expect api kind r owner again o s).0 ≡ next
      → (d : Object S) × (owner.set o ≡ ok d)
        × Outcome d (api.read s d.namespace d.name).0 (expect api kind r owner again o s).1
  unfolding expect
  expect-Outcome again o s h = elim (Answer-cases (owner.set o)) [
    | inl (d, e) ↦ (
      d,
      e,
      rw (e, expect)
          (apply-Outcome again d (api.read s d.namespace d.name) (read_at d s)
            (rw (e, expect) at h)),
    )
    | inr (x, e) ↦ absurd (stop_ne_next (rw (e, expect) at h))
  ]
