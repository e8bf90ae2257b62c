-- ===== src/Reconcile/Task/Deleted.antt =====
-- What a task has deleted where it returns no error.
use opentelemetry_operator.Prelude.{
  String, true, false, List, [], ◌∷◌, Option, none, some, ◌≡◌, refl, ◌∙◌, sym, arith, eq_iff,
  Bool-cases, inl, inr, ◌⊎◌, subst,
}
use opentelemetry_operator.GoMap.{Range}
use opentelemetry_operator.Reconcile.Api.{Object, Error, Answer, ok, err, Api, at, keeps, selected}
use opentelemetry_operator.Reconcile.Task.{
  Kind, Owner, Instance, owned_by, delete_extra, delete_unwanted, on_error, continue_with,
  delete_listed,
}
use opentelemetry_operator.Reconcile.Task.Untouched.{delete_extra-others, keeps_at}

module _ {S : Type 0} (api : Api S) where
  open api use {Server, stored}

  after_delete_ok :
      (t : Option Error × Server) (rest : Server → Option Error × Server)
      → (continue_with api (let (x, s) = t in (on_error x, s)) rest).0 ≡ none
      → (t.0 ≡ none)
        × ((rest t.1).0 ≡ none)
        × (continue_with api (let (x, s) = t in (on_error x, s)) rest ≡ rest t.1)
  after_delete_ok (none, s) rest h = (refl, h, refl)
  after_delete_ok (some e, s) rest h = cc h

  keeps-tail :
      (o : Object S) (os : List (Object S)) (a b : String)
      → keeps (o ∷ os) a b ≡ true
      → at o a b ≡ false
      → keeps os a b ≡ true
  keeps-tail o os a b h f = ground (arith, h, f)

  delete-done_at :
      (s : Server) (o : Object S) (a b : String)
      → at o a b ≡ true
      → (api.delete s o).0 ≡ none
      → stored (api.delete s o).1 a b ≡ none
  delete-done_at s o a b h e =
      let ns : o.namespace ≡ a = ground (arith, h, eq_iff o.namespace a) in
      let n : o.name ≡ b = ground (arith, h, eq_iff o.namespace a, eq_iff o.name b) in
      subst (λ x. stored (api.delete s o).1 x b ≡ none) ns
        (subst (λ x. stored (api.delete s o).1 o.namespace x ≡ none) n (api.delete-done s o e))

  delete_step :
      (s : Server) (o : Object S) (os : List (Object S)) (a b : String)
      → (api.delete s o).0 ≡ none
      → (keeps (o ∷ os) a b ≡ true) ⊎ (stored s a b ≡ none)
      → (keeps os a b ≡ true) ⊎ (stored (api.delete s o).1 a b ≡ none)
  delete_step s o os a b e g = elim (Bool-cases (at o a b)) [
    | inl f ↦ inr (delete-done_at s o a b f e)
    | inr f ↦ elim g [
      | inl k ↦ inl (keeps-tail o os a b k f)
      | inr n ↦ inr (api.delete-others s o a b f ∙ n)
    ]
  ]

  kept_step :
      (keep : List (Object S)) (s : Server) (o : Object S) (os : List (Object S)) (a b : String)
      → keeps keep o.namespace o.name ≡ true
      → keeps keep a b ≡ false
      → (keeps (o ∷ os) a b ≡ true) ⊎ (stored s a b ≡ none)
      → (keeps os a b ≡ true) ⊎ (stored s a b ≡ none)
  kept_step keep s o os a b f k (inr n) = inr n
  kept_step keep s o os a b f k (inl g) = elim (Bool-cases (at o a b)) [
    | inl e ↦ absurd (cc (f, k, keeps_at keep o a b e))
    | inr e ↦ inl (keeps-tail o os a b g e)
  ]

  -- What is listed and not kept is gone.
  delete_extra_gone :
      (keep os : List (Object S)) (s : Server) (a b : String)
      → (delete_extra api keep os s).0 ≡ none
      → keeps keep a b ≡ false
      → (keeps os a b ≡ true) ⊎ (stored s a b ≡ none)
      → stored (delete_extra api keep os s).1 a b ≡ none
  unfolding delete_extra
  delete_extra_gone keep [] s a b h k (inl e) = cc e
  delete_extra_gone keep [] s a b h k (inr e) = e
  delete_extra_gone keep (o ∷ os) s a b h k g = elim (Bool-cases (keeps keep o.namespace o.name)) [
    | inl f ↦
        rw (f, delete_extra)
          (delete_extra_gone keep os s a b (rw (f, delete_extra) at h) k
            (kept_step keep s o os a b f k g))
    | inr f ↦
        let (done, rest, same) =
          after_delete_ok (api.delete s o) (delete_extra api keep os) (rw (f, delete_extra) at h) in
        rw (f, delete_extra)
          (rw same (
            delete_extra_gone keep os (api.delete s o).1 a b rest k
              (delete_step s o os a b done g)))
  ]

  -- In the collector's namespace, what has its labels is wanted.
  abbrev pub NoExtra : Instance → List (Object S) → Server → Type 0
  NoExtra i desired s =
      (n : String) (e : Object S)
      → stored s i.namespace n ≡ some e
      → selected (owned_by i) e.labels ≡ true
      → keeps desired i.namespace n ≡ true

  delete_listed_ok :
      (keep : List (Object S)) (t : Answer (List (Object S)) × Server)
      → (delete_listed api keep t).0 ≡ none
      → (os : List (Object S)) × (t.0 ≡ ok os)
        × ((delete_extra api keep os t.1).0 ≡ none)
        × (delete_listed api keep t ≡ delete_extra api keep os t.1)
  delete_listed_ok keep (ok os, s) h = (os, refl, h, refl)
  delete_listed_ok keep (err e, s) h = cc h

module _ {S : Type 0} (api : Api S) (kind : Kind S) (r : Range) (owner : Owner S) where
  open api use {Server, stored}

  pub delete_unwanted-NoExtra :
      (i : Instance) (keep : List (Object S)) (s : Server)
      → (delete_unwanted api i keep s).0 ≡ none
      → NoExtra api i keep (delete_unwanted api i keep s).1
  unfolding delete_unwanted
  delete_unwanted-NoExtra i keep s h n e at_e sel =
      let listed = api.list s i.namespace (owned_by i) in
      let (os, found, done, same) = delete_listed_ok api keep listed h in
      let there : stored (delete_extra api keep os listed.1).1 i.namespace n ≡ some e =
        rw same at at_e in
      elim (Bool-cases (keeps keep i.namespace n)) [
        | inl k ↦ k
        | inr k ↦ elim (Bool-cases (keeps os i.namespace n)) [
          | inl l ↦
              absurd
                (cc (there, delete_extra_gone api keep os listed.1 i.namespace n done k (inl l)))
          | inr l ↦
              let untouched =
                delete_extra-others api kind r owner i.namespace n keep os listed.1 (inr l) in
              let before : stored s i.namespace n ≡ some e =
                sym (api.list-stored s i.namespace (owned_by i) i.namespace n)
                ∙ sym untouched
                ∙ there in
              absurd (cc (l, api.list-complete s i.namespace (owned_by i) os n e found before sel))
        ]
      ]
