-- ===== src/Reconcile/Task/Total.antt =====
-- What holds after a task that returns no error, and after a second one.
use opentelemetry_operator.Prelude.{
  String, true, List, [], ◌∷◌, Option, none, some, ◌≡◌, refl, sym, Bool-cases, inl, inr, subst,
  eq_refl,
}
use opentelemetry_operator.GoMap.{Range}
use opentelemetry_operator.Reconcile.Api.{Object, Error, Api, at, keeps}
use opentelemetry_operator.Reconcile.Task.{
  Kind, Lawful, Owner, Instance, expected, delete_unwanted, reconcile, reconcile_with_retry,
  and_then,
}
use opentelemetry_operator.Reconcile.Task.Untouched.{delete_unwanted-others}
use opentelemetry_operator.Reconcile.Task.Wanted.{Distinct, AllPresent, AllSettled}
use opentelemetry_operator.Reconcile.Task.Deleted.{NoExtra, delete_unwanted-NoExtra}
use opentelemetry_operator.Reconcile.Task.Attempts.{expected_result}
use opentelemetry_operator.Reconcile.Task.Converges.{
  expected_settles, expected_presents, IsSettled-same, IsPresent-same,
}

module _ {S : Type 0} (api : Api S) (kind : Kind S) (laws : Lawful kind) (r : Range)
    (owner : Owner S) where
  open api use {Server, stored}

  abbrev Within : List (Object S) → List (Object S) → Type 0
  Within os keep = (a b : String) → keeps os a b ≡ true → keeps keep a b ≡ true

  Within-head :
      (o : Object S) (os keep : List (Object S))
      → Within (o ∷ os) keep
      → keeps keep o.namespace o.name ≡ true
  Within-head o os keep w = w o.namespace o.name (rw (eq_refl o.namespace, eq_refl o.name) refl)

  Within-tail : (o : Object S) (os keep : List (Object S)) → Within (o ∷ os) keep → Within os keep
  Within-tail o os keep w a b h =
      w a b (elim (Bool-cases (at o a b)) [ inl e ↦ rw e refl | inr e ↦ rw e h ])

  AllSettled-delete :
      (os keep : List (Object S)) (i : Instance) (before s : Server)
      → Within os keep
      → AllSettled api kind laws r owner before os s
      → AllSettled api kind laws r owner before os (delete_unwanted api i keep s).1
  AllSettled-delete [] keep i before s w a = tt
  AllSettled-delete (o ∷ os) keep i before s w a =
      let kept = inl (Within-head o os keep w) in
      (
        IsSettled-same api kind laws r owner o before s _
            (delete_unwanted-others api kind r owner o.namespace o.name i keep s kept) a.0,
        AllSettled-delete os keep i before s (Within-tail o os keep w) a.1,
      )

  AllPresent-delete :
      (os keep : List (Object S)) (i : Instance) (s : Server)
      → Within os keep
      → AllPresent api kind laws r owner os s
      → AllPresent api kind laws r owner os (delete_unwanted api i keep s).1
  AllPresent-delete [] keep i s w a = tt
  AllPresent-delete (o ∷ os) keep i s w a =
      let kept = inl (Within-head o os keep w) in
      (
        IsPresent-same api kind laws r owner o s _
            (delete_unwanted-others api kind r owner o.namespace o.name i keep s kept) a.0,
        AllPresent-delete os keep i s (Within-tail o os keep w) a.1,
      )

  and_then-none :
      (t : Option Error × Server) (rest : Server → Option Error × Server)
      → (and_then api t rest).0 ≡ none
      → (t.0 ≡ none) × ((rest t.1).0 ≡ none) × (and_then api t rest ≡ rest t.1)
  and_then-none (none, s) rest h = (refl, h, refl)
  and_then-none (some e, s) rest h = cc h

  -- Where the wanted objects are at different places, a task that returns no error has put each in
  -- its place, but for one where an object was stored before that cannot be changed into it, and
  -- that it has deleted; and nothing else in the collector's namespace has the collector's labels.
  pub reconcile_settles :
      (i : Instance) (desired : List (Object S)) (s : Server)
      → Distinct desired
      → (reconcile api kind r owner i desired s).0 ≡ none
      → AllSettled api kind laws r owner s desired (reconcile api kind r owner i desired s).1
        × NoExtra api i desired (reconcile api kind r owner i desired s).1
  unfolding reconcile
  reconcile_settles i desired s ds h =
      let (first, second, same) =
        and_then-none (expected api kind r owner none desired s) (delete_unwanted api i desired)
          h in
      let s' = (expected api kind r owner none desired s).1 in
      let settled = expected_settles api kind laws r owner desired s ds first in
      rw same (
        AllSettled-delete desired desired i s s' (λ a b k. k) settled,
        delete_unwanted-NoExtra api kind r owner i desired s' second,
      )

  -- Settled by one of the two attempts, from what the server held at its beginning.
  abbrev pub Retried : List (Object S) → Server → Type 0
  Retried desired t = (before : Server) × AllSettled api kind laws r owner before desired t

  -- The task of the config maps too, whether it made a second attempt or not.
  pub reconcile_with_retry_settles :
      (i : Instance) (desired : List (Object S)) (s : Server)
      → Distinct desired
      → (reconcile_with_retry api kind r owner i desired s).0 ≡ none
      → Retried desired (reconcile_with_retry api kind r owner i desired s).1
        × NoExtra api i desired (reconcile_with_retry api kind r owner i desired s).1
  unfolding reconcile_with_retry
  reconcile_with_retry_settles i desired s ds h =
      let inner = expected api kind r owner none desired in
      let t = expected api kind r owner (some inner) desired s in
      let (first, second, same) = and_then-none t (delete_unwanted api i desired) h in
      let P : Server → Type 0 = λ u. Retried desired u in
      let brings : (u : Server) → (inner u).0 ≡ none → P (inner u).1 =
        λ u e. (u, expected_settles api kind laws r owner desired u ds e) in
      let settled : P t.1 =
        elim (expected_result api kind r owner (some inner) P desired s brings first) [
          | inl p ↦ p
          | inr q ↦
              subst (λ u. P u.1) (sym q)
                (s, expected_settles api kind laws r owner desired s ds (rw q at first))
        ] in
      let (before, all) = settled in
      rw same (
        (before, AllSettled-delete desired desired i before t.1 (λ a b k. k) all),
        delete_unwanted-NoExtra api kind r owner i desired t.1 second,
      )

  -- Where the wanted objects are at different places, after a second task without an error, with
  -- the same server and the same wishes, all that is wanted is there, and nothing else in the
  -- collector's namespace has the collector's labels.
  pub reconcile_twice :
      (i : Instance) (desired : List (Object S)) (s : Server)
      → Distinct desired
      → (reconcile api kind r owner i desired s).0 ≡ none
      → (reconcile api kind r owner i desired (reconcile api kind r owner i desired s).1).0 ≡ none
      → let t = reconcile api kind r owner i desired (reconcile api kind r owner i desired s).1 in
        AllPresent api kind laws r owner desired t.1 × NoExtra api i desired t.1
  unfolding reconcile
  reconcile_twice i desired s ds h g =
      let (settled, _) = reconcile_settles i desired s ds h in
      let s' = (reconcile api kind r owner i desired s).1 in
      let (first, second, same) =
        and_then-none (expected api kind r owner none desired s') (delete_unwanted api i desired)
          g in
      let t = (expected api kind r owner none desired s').1 in
      let there = expected_presents api kind laws r owner desired s s' ds settled first in
      rw same (
        AllPresent-delete desired desired i t (λ a b k. k) there,
        delete_unwanted-NoExtra api kind r owner i desired t second,
      )
