-- ===== src/Reconcile/Task/Untouched.antt =====
-- What a task leaves alone, whatever calls fail.
use opentelemetry_operator.Prelude.{
  String, true, false, List, [], ◌∷◌, Option, none, some, ◌≡◌, refl, ◌∙◌, sym, arith, eq_iff,
  Bool-cases, inl, inr, ◌⊎◌,
}
use opentelemetry_operator.GoMap.{Range}
use opentelemetry_operator.Reconcile.Api.{Object, Error, Answer, ok, err, Api, at, keeps, selected}
use opentelemetry_operator.Reconcile.Task.{
  Kind, Owner, Instance, owned_by, Flow, next, stop, updated, change, apply_answer, expect,
  expected, delete_extra, delete_unwanted, reconcile, reconcile_with_retry, after_create,
  is_already_exists, continue_with, delete_one, delete_listed, and_then,
}

pub Answer-cases :
    {A : Type 0} (x : Answer A) → ((a : A) × (x ≡ ok a)) ⊎ ((e : Error) × (x ≡ err e))
Answer-cases (ok a) = inl (a, refl)
Answer-cases (err e) = inr (e, refl)

module _ {S : Type 0} where
  -- An object that is at one place is not at another.
  pub at_apart :
      (o p : Object S) (a b : String)
      → at o p.namespace p.name ≡ true
      → at p a b ≡ false
      → at o a b ≡ false
  at_apart o p a b e f = ground (
    arith,
    eq_iff o.namespace p.namespace,
    eq_iff o.name p.name,
    eq_iff o.namespace a,
    eq_iff o.name b,
    eq_iff p.namespace a,
    eq_iff p.name b,
  )

  pub keeps_at :
      (os : List (Object S)) (o : Object S) (a b : String)
      → at o a b ≡ true
      → keeps os a b ≡ keeps os o.namespace o.name
  keeps_at os o a b e =
      let ns : o.namespace ≡ a = ground (arith, e, eq_iff o.namespace a) in
      let n : o.name ≡ b = ground (arith, e, eq_iff o.namespace a, eq_iff o.name b) in
      rw (ns, n) refl

  spared-tail :
      (keep : List (Object S)) (o : Object S) (os : List (Object S)) (a b : String)
      → (keeps keep a b ≡ true) ⊎ (keeps (o ∷ os) a b ≡ false)
      → (keeps keep a b ≡ true) ⊎ (keeps os a b ≡ false)
  spared-tail keep o os a b (inl e) = inl e
  spared-tail keep o os a b (inr e) = inr (ground (arith, e))

  spared-apart :
      (keep : List (Object S)) (o : Object S) (os : List (Object S)) (a b : String)
      → (keeps keep a b ≡ true) ⊎ (keeps (o ∷ os) a b ≡ false)
      → keeps keep o.namespace o.name ≡ false
      → at o a b ≡ false
  spared-apart keep o os a b (inl e) f = elim (Bool-cases (at o a b)) [
    | inl g ↦ cc (e, f, keeps_at keep o a b g)
    | inr g ↦ g
  ]
  spared-apart keep o os a b (inr e) f = ground (arith, e)

module _ {S : Type 0} (api : Api S) (kind : Kind S) (r : Range) (owner : Owner S)
    (a b : String) where
  open api use {Server, stored}

  -- A second attempt that leaves the object at this place alone.
  abbrev pub Spares : Option (Server → Option Error × Server) → Type 0
  Spares none = Unit
  Spares (some retry) = (s : Server) → stored (retry s).1 a b ≡ stored s a b

  after_create-others :
      (again : Option (Server → Option Error × Server)) (t : Option Error × Server)
      → Spares again
      → stored (after_create api again t).1 a b ≡ stored t.1 a b
  after_create-others again (none, s) h = refl
  after_create-others none (some e, s) h = refl
  after_create-others (some retry) (some e, s) h = elim (Bool-cases (is_already_exists e)) [
    | inl f ↦ rw f (h s)
    | inr f ↦ rw f refl
  ]

  change-others :
      (d e : Object S) (s : Server)
      → at e a b ≡ false
      → stored (change api kind r owner d e s).1 a b ≡ stored s a b
  unfolding change updated
  change-others d e s f = elim (Bool-cases (kind.replaced d.spec e.spec)) [
    | inl g ↦ rw g (api.delete-others s e a b f)
    | inr g ↦ rw g (api.patch-others s (updated api kind r owner e d) a b f)
  ]

  apply_answer-others :
      (again : Option (Server → Option Error × Server)) (d : Object S)
      (t : Answer (Object S) × Server)
      → Spares again
      → at d a b ≡ false
      → ((e : Object S) → t.0 ≡ ok e → at e a b ≡ false)
      → stored (apply_answer api kind r owner again d t).1 a b ≡ stored t.1 a b
  unfolding apply_answer
  apply_answer-others again d (ok e, s) h f g = change-others d e s (g e refl)
  apply_answer-others again d (err Error.not_found, s) h f g =
      after_create-others again (api.create s d) h ∙ api.create-others s d a b f
  apply_answer-others again d (err Error.already_exists, s) h f g = refl
  apply_answer-others again d (err Error.namespace_terminating, s) h f g = refl
  apply_answer-others again d (err (Error.other t), s) h f g = refl

  pub expect-others :
      (again : Option (Server → Option Error × Server)) (o : Object S) (s : Server)
      → Spares again
      → at o a b ≡ false
      → stored (expect api kind r owner again o s).1 a b ≡ stored s a b
  unfolding expect
  expect-others again o s h f = elim (Answer-cases (owner.set o)) [
    | inl (d, e) ↦
        let same = owner.set-keeps o d e in
        let apart : at d a b ≡ false = rw (same.0, same.1) f in
        let answer = api.read s d.namespace d.name in
        let found : (x : Object S) → answer.0 ≡ ok x → at x a b ≡ false = λ x g.
          at_apart x d a b
            (api.stored-at s d.namespace d.name x (api.read-found s d.namespace d.name x g))
            apart in
        rw (e, expect)
          (apply_answer-others again d answer h apart found
            ∙ api.read-stored s d.namespace d.name a b)
    | inr (x, e) ↦ rw (e, expect) refl
  ]

  continue_with-others :
      (t : Flow × Server) (rest : Server → Option Error × Server)
      → ((s : Server) → stored (rest s).1 a b ≡ stored s a b)
      → stored (continue_with api t rest).1 a b ≡ stored t.1 a b
  continue_with-others (next, s) rest h = h s
  continue_with-others (stop x, s) rest h = refl

  pub expected-others :
      (again : Option (Server → Option Error × Server)) (os : List (Object S)) (s : Server)
      → Spares again
      → keeps os a b ≡ false
      → stored (expected api kind r owner again os s).1 a b ≡ stored s a b
  unfolding expected
  expected-others again [] s h f = refl
  expected-others again (o ∷ os) s h f =
      let apart : at o a b ≡ false = ground (arith, f) in
      let later : keeps os a b ≡ false = ground (arith, f) in
      continue_with-others (expect api kind r owner again o s) (expected api kind r owner again os)
        (λ t. expected-others again os t h later)
      ∙ expect-others again o s h apart

  -- A listed object is deleted only if it is not to be kept.
  pub delete_extra-others :
      (keep os : List (Object S)) (s : Server)
      → (keeps keep a b ≡ true) ⊎ (keeps os a b ≡ false)
      → stored (delete_extra api keep os s).1 a b ≡ stored s a b
  unfolding delete_extra
  delete_extra-others keep [] s h = refl
  delete_extra-others keep (o ∷ os) s h = elim (Bool-cases (keeps keep o.namespace o.name)) [
    | inl f ↦ rw (f, delete_extra) (delete_extra-others keep os s (spared-tail keep o os a b h))
    | inr f ↦
        rw (f, delete_extra)
          (continue_with-others (delete_one api o s) (delete_extra api keep os)
              (λ t. delete_extra-others keep os t (spared-tail keep o os a b h))
            ∙ api.delete-others s o a b (spared-apart keep o os a b h f))
  ]

  delete_listed-others :
      (keep : List (Object S)) (t : Answer (List (Object S)) × Server)
      → ((os : List (Object S)) → t.0 ≡ ok os → (keeps keep a b ≡ true) ⊎ (keeps os a b ≡ false))
      → stored (delete_listed api keep t).1 a b ≡ stored t.1 a b
  delete_listed-others keep (ok os, s) h = delete_extra-others keep os s (h os refl)
  delete_listed-others keep (err e, s) h = refl

  -- What is there is not among the collector's own objects.
  abbrev pub IsForeign : Instance → Server → Type 0
  IsForeign i s =
      (o : Object S)
      → stored s a b ≡ some o
      → o.namespace ≡ i.namespace
      → selected (owned_by i) o.labels ≡ false

  unlisted :
      (i : Instance) (keep : List (Object S)) (s : Server) (os : List (Object S))
      → (keeps keep a b ≡ true) ⊎ IsForeign i s
      → (api.list s i.namespace (owned_by i)).0 ≡ ok os
      → (keeps keep a b ≡ true) ⊎ (keeps os a b ≡ false)
  unlisted i keep s os (inl e) l = inl e
  unlisted i keep s os (inr h) l = elim (Bool-cases (keeps os a b)) [
    | inr f ↦ inr f
    | inl f ↦
        let (o, at_o, ns, sel) = api.list-sound s i.namespace (owned_by i) os a b l f in
        absurd (cc (sel, h o at_o ns))
  ]

  pub delete_unwanted-others :
      (i : Instance) (keep : List (Object S)) (s : Server)
      → (keeps keep a b ≡ true) ⊎ IsForeign i s
      → stored (delete_unwanted api i keep s).1 a b ≡ stored s a b
  unfolding delete_unwanted
  delete_unwanted-others i keep s h =
      delete_listed-others keep (api.list s i.namespace (owned_by i))
        (λ os l. unlisted i keep s os h l)
      ∙ api.list-stored s i.namespace (owned_by i) a b

  and_then-others :
      (t : Option Error × Server) (rest : Server → Option Error × Server)
      → stored (rest t.1).1 a b ≡ stored t.1 a b
      → stored (and_then api t rest).1 a b ≡ stored t.1 a b
  and_then-others (some e, s) rest h = refl
  and_then-others (none, s) rest h = h

  task-others :
      (again : Option (Server → Option Error × Server)) (i : Instance) (os : List (Object S))
      (s : Server)
      → Spares again
      → keeps os a b ≡ false
      → IsForeign i s
      → stored
          (and_then api (expected api kind r owner again os s) (delete_unwanted api i os)).1
          a
          b
        ≡ stored s a b
  task-others again i os s h f g =
      let t = expected api kind r owner again os s in
      let same : stored t.1 a b ≡ stored s a b = expected-others again os s h f in
      let foreign : IsForeign i t.1 = λ o e. g o (sym same ∙ e) in
      and_then-others t (delete_unwanted api i os) (delete_unwanted-others i os t.1 (inr foreign))
      ∙ same

  -- Whatever calls fail, a task leaves an object alone that it does not want and that is not in the
  -- collector's namespace with the collector's labels.
  pub reconcile-others :
      (i : Instance) (desired : List (Object S)) (s : Server)
      → keeps desired a b ≡ false
      → IsForeign i s
      → stored (reconcile api kind r owner i desired s).1 a b ≡ stored s a b
  unfolding reconcile
  reconcile-others i desired s f g = task-others none i desired s tt f g

  pub reconcile_with_retry-others :
      (i : Instance) (desired : List (Object S)) (s : Server)
      → keeps desired a b ≡ false
      → IsForeign i s
      → stored (reconcile_with_retry api kind r owner i desired s).1 a b ≡ stored s a b
  unfolding reconcile_with_retry
  reconcile_with_retry-others i desired s f g =
      task-others (some (expected api kind r owner none desired)) i desired s
        (λ t. expected-others none desired t tt f) f g
