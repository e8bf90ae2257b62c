-- ===== src/Reconcile/Memory.antt =====
-- The objects of one kind as a list, for the API server in memory.
pub mod Store
use opentelemetry_operator.Prelude.{
  String, Bool, true, false, List, [], ◌∷◌, Option, none, some, ◌≡◌, refl, ◌∙◌, sym, ◌==◌, ◌&&◌,
  arith, if◌then◌else◌, eq_iff, eq_refl, Bool-cases, inl, inr, ◌⊎◌, not,
}
use opentelemetry_operator.GoMap.{Map}
use opentelemetry_operator.Reconcile.Api.{
  Object, Error, not_found, already_exists, Answer, ok, err, Api, at, keeps, selected,
}
use opentelemetry_operator.Reconcile.Task.Wanted.{Distinct}

some_eq : {A : Type 0} (x y : A) → some x ≡ some y → x ≡ y
some_eq x y h = cc h

module _ {S : Type 0} where
  unfoldable pub find : List (Object S) → String → String → Option (Object S)
  find [] a b = none
  find (o ∷ os) a b = if at o a b then some o else find os a b

  unfoldable pub replace : List (Object S) → Object S → List (Object S)
  replace [] p = []
  replace (o ∷ os) p = if at o p.namespace p.name then p ∷ os else o ∷ replace os p

  unfoldable pub remove : List (Object S) → Object S → List (Object S)
  remove [] p = []
  remove (o ∷ os) p = if at o p.namespace p.name then os else o ∷ remove os p

  unfoldable pub matching : List (Object S) → String → Map String → List (Object S)
  matching [] ns sel = []
  matching (o ∷ os) ns sel =
      let rest = matching os ns sel in
      if o.namespace == ns && selected sel o.labels then o ∷ rest else rest

  pub find-at :
      (os : List (Object S)) (a b : String) (o : Object S) → find os a b ≡ some o → at o a b ≡ true
  unfolding find
  find-at [] a b o h = cc h
  find-at (p ∷ os) a b o h = elim (Bool-cases (at p a b)) [
    | inl e ↦ rw (← some_eq p o (rw (e, find) at h)) e
    | inr e ↦ find-at os a b o (rw (e, find) at h)
  ]

  pub keeps-find : (os : List (Object S)) (a b : String) → keeps os a b ≡ false → find os a b ≡ none
  unfolding find
  keeps-find [] a b h = refl
  keeps-find (o ∷ os) a b h = ground (arith, h, keeps-find os a b)

  pub same_key : (o : Object S) (a b : String) → at o a b ≡ true → (o.namespace ≡ a) × (o.name ≡ b)
  same_key o a b h = (
    ground (arith, h, eq_iff o.namespace a),
    ground (arith, h, eq_iff o.namespace a, eq_iff o.name b),
  )

  pub at_same :
      (o p : Object S) (a b : String) → at o p.namespace p.name ≡ true → at o a b ≡ at p a b
  at_same o p a b h = let (ns, n) = same_key o p.namespace p.name h in rw (ns, n) refl

  pub find-replace :
      (os : List (Object S)) (p : Object S) (a b : String)
      → at p a b ≡ false
      → find (replace os p) a b ≡ find os a b
  unfolding find replace
  find-replace [] p a b h = refl
  find-replace (o ∷ os) p a b h = elim (Bool-cases (at o p.namespace p.name)) [
    | inl e ↦ rw (e, at_same o p a b e, h) refl
    | inr e ↦ rw (e, find-replace os p a b h) refl
  ]

  pub find-replace_at :
      (os : List (Object S)) (p q : Object S)
      → find os p.namespace p.name ≡ some q
      → find (replace os p) p.namespace p.name ≡ some p
  unfolding find replace
  find-replace_at [] p q h = cc h
  find-replace_at (o ∷ os) p q h = elim (Bool-cases (at o p.namespace p.name)) [
    | inl e ↦ rw (e, eq_refl p.namespace, eq_refl p.name) refl
    | inr e ↦ rw (e, find-replace_at os p q (rw (e, find) at h), e) refl
  ]

  pub keeps-replace :
      (os : List (Object S)) (p : Object S) (a b : String) → keeps (replace os p) a b ≡ keeps os a b
  unfolding replace
  keeps-replace [] p a b = refl
  keeps-replace (o ∷ os) p a b = elim (Bool-cases (at o p.namespace p.name)) [
    | inl e ↦ rw (e, at_same o p a b e) refl
    | inr e ↦ rw (e, keeps-replace os p a b) refl
  ]

  pub Distinct-replace :
      (os : List (Object S)) (p : Object S) → Distinct os → Distinct (replace os p)
  unfolding replace
  Distinct-replace [] p d = tt
  Distinct-replace (o ∷ os) p d = elim (Bool-cases (at o p.namespace p.name)) [
    | inl e ↦ let (ns, n) = same_key o p.namespace p.name e in rw e ((rw (← ns, ← n) d.0), d.1)
    | inr e ↦ rw e (keeps-replace os p o.namespace o.name ∙ d.0, Distinct-replace os p d.1)
  ]

  pub find-remove :
      (os : List (Object S)) (p : Object S) (a b : String)
      → at p a b ≡ false
      → find (remove os p) a b ≡ find os a b
  unfolding find remove
  find-remove [] p a b h = refl
  find-remove (o ∷ os) p a b h = elim (Bool-cases (at o p.namespace p.name)) [
    | inl e ↦ rw (e, at_same o p a b e, h) refl
    | inr e ↦ rw (e, find-remove os p a b h) refl
  ]

  pub find-remove_at :
      (os : List (Object S)) (p : Object S)
      → Distinct os
      → find (remove os p) p.namespace p.name ≡ none
  unfolding find remove
  find-remove_at [] p d = refl
  find-remove_at (o ∷ os) p d = elim (Bool-cases (at o p.namespace p.name)) [
    | inl e ↦
        let (ns, n) = same_key o p.namespace p.name e in
        rw e (keeps-find os p.namespace p.name (rw (← ns, ← n) d.0))
    | inr e ↦ rw (e, find-remove_at os p d.1, e) refl
  ]

  keeps-remove :
      (os : List (Object S)) (p : Object S) (a b : String)
      → keeps os a b ≡ false
      → keeps (remove os p) a b ≡ false
  unfolding remove
  keeps-remove [] p a b h = refl
  keeps-remove (o ∷ os) p a b h = ground (arith, h, keeps-remove os p a b)

  pub Distinct-remove : (os : List (Object S)) (p : Object S) → Distinct os → Distinct (remove os p)
  unfolding remove
  Distinct-remove [] p d = tt
  Distinct-remove (o ∷ os) p d = elim (Bool-cases (at o p.namespace p.name)) [
    | inl e ↦ rw e d.1
    | inr e ↦ rw e (keeps-remove os p o.namespace o.name d.0, Distinct-remove os p d.1)
  ]

  pub matching_complete :
      (os : List (Object S)) (ns : String) (sel : Map String) (n : String) (o : Object S)
      → find os ns n ≡ some o
      → selected sel o.labels ≡ true
      → keeps (matching os ns sel) ns n ≡ true
  unfolding find matching
  matching_complete [] ns sel n o h s = cc h
  matching_complete (p ∷ os) ns sel n o h s = elim (Bool-cases (at p ns n)) [
    | inl e ↦
        let same = some_eq p o (rw (e, find) at h) in
        let here : (p.namespace == ns) ≡ true = ground (arith, e) in
        let labelled : selected sel p.labels ≡ true = rw same s in rw (here, labelled, e) refl
    | inr e ↦ ground (arith, e, matching_complete os ns sel n o (rw (e, find) at h) s)
  ]

  keeps-matching :
      (os : List (Object S)) (ns : String) (sel : Map String) (a b : String)
      → keeps os a b ≡ false
      → keeps (matching os ns sel) a b ≡ false
  unfolding matching
  keeps-matching [] ns sel a b h = refl
  keeps-matching (o ∷ os) ns sel a b h = ground (arith, h, keeps-matching os ns sel a b)

  pub matching_sound :
      (os : List (Object S)) (ns : String) (sel : Map String) (a b : String)
      → Distinct os
      → keeps (matching os ns sel) a b ≡ true
      → (o : Object S) × (find os a b ≡ some o)
        × (o.namespace ≡ ns)
        × (selected sel o.labels ≡ true)
  unfolding find matching
  matching_sound [] ns sel a b d h = cc h
  matching_sound (o ∷ os) ns sel a b d h = elim (Bool-cases (at o a b)) [
    | inl e ↦ elim (Bool-cases (o.namespace == ns && selected sel o.labels)) [
      | inl f ↦ (o, rw e refl, ground (arith, f, eq_iff o.namespace ns), ground (arith, f))
      | inr f ↦
          let (x, n) = same_key o a b e in
          let gone : keeps (matching os ns sel) a b ≡ false =
            keeps-matching os ns sel a b (rw (← x, ← n) d.0) in
          absurd (cc (gone, rw (f, matching) at h))
    ]
    | inr e ↦
        let rest : keeps (matching os ns sel) a b ≡ true = ground (arith, h, e) in
        let (p, f, x, y) = matching_sound os ns sel a b d.1 rest in (p, rw (e, find) f, x, y)
  ]
