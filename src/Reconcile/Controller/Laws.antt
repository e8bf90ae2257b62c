-- ===== src/Reconcile/Controller/Laws.antt =====
-- The tasks that a round runs, and the task of the routes.
use opentelemetry_operator.Prelude.{
  ℕ, ◌+◌, suc, ◌≤◌, ◌<◌, true, false, List, [], ◌∷◌, Option, none, some, ◌==◌, ◌≡◌, refl, arith,
  ltb, length, if◌then◌else◌, Bool-cases, Option-cases, inl, inr, bit,
}
use opentelemetry_operator.Reconcile.Api.{Error}
use opentelemetry_operator.Reconcile.Controller.{
  Task, Availability, available, not_available, run_tasks, resume, routes_index, add_route_task,
  drop_at, remove_route_task, on_open_shift_routes_change,
}

abbrev pub wanted_routes : Availability → ℕ
wanted_routes available = 1
wanted_routes not_available = 0

module _ {C : Type 0} where
  -- How many tasks are named routes, and the others in their order.
  unfoldable pub route_tasks : List (Task C) → ℕ
  route_tasks [] = 0
  route_tasks (t ∷ ts) = bit (t.name == "routes") + route_tasks ts

  unfoldable pub other_tasks : List (Task C) → List (Task C)
  other_tasks [] = []
  other_tasks (t ∷ ts) = let rest = other_tasks ts in if t.name == "routes" then rest else t ∷ rest

  no_index : (ts : List (Task C)) → routes_index ts ≡ none → route_tasks ts ≡ 0
  unfolding routes_index route_tasks
  no_index [] h = refl
  no_index (t ∷ ts) h = ground (arith, h, no_index ts)

  index_found :
      (ts : List (Task C)) (i : ℕ)
      → routes_index ts ≡ some i
      → (i < length ts) × (1 ≤ route_tasks ts)
  unfolding routes_index route_tasks
  index_found [] i h = cc h
  index_found (t ∷ ts) i h = elim (Option-cases (routes_index ts)) [
    | inr (j, e) ↦
        let same : i ≡ suc j = ground (arith, h, e) in
        let (x, y) = index_found ts j e in omega (arith, same, x, y)
    | inl e ↦ elim (Bool-cases (t.name == "routes")) [
      | inl f ↦ ground (arith, h, e, f)
      | inr f ↦ ground (arith, h, e, f)
    ]
  ]

  dropped :
      (ts : List (Task C)) (i : ℕ)
      → routes_index ts ≡ some i
      → (route_tasks (drop_at i ts) + 1 ≡ route_tasks ts)
        × (other_tasks (drop_at i ts) ≡ other_tasks ts)
  unfolding routes_index route_tasks other_tasks drop_at
  dropped [] i h = cc h
  dropped (t ∷ ts) i h = elim (Option-cases (routes_index ts)) [
    | inr (j, e) ↦
        let same : i ≡ suc j = ground (arith, h, e) in
        let (x, y) = dropped ts j e in rw same (omega (arith, x), rw y refl)
    | inl e ↦ elim (Bool-cases (t.name == "routes")) [
      | inl f ↦ let same : i ≡ 0 = ground (arith, h, e, f) in rw (same, f) (omega arith, refl)
      | inr f ↦ absurd (ground (arith, h, e, f))
    ]
  ]

  absent :
      (route : Task C) (plt : Availability) (tasks : List (Task C))
      → (route.name == "routes") ≡ true
      → route_tasks tasks ≡ 0
      → let result = remove_route_task plt none (add_route_task route plt none tasks) in
        (result.0 ≡ none)
        × (route_tasks result.1 ≡ wanted_routes plt)
        × (other_tasks result.1 ≡ other_tasks tasks)
  unfolding add_route_task remove_route_task route_tasks other_tasks
  absent route available tasks e h = rw e (refl, omega (arith, h), refl)
  absent route not_available tasks e h = (refl, h, refl)

  present :
      (route : Task C) (plt : Availability) (tasks : List (Task C)) (i : ℕ)
      → routes_index tasks ≡ some i
      → route_tasks tasks ≤ 1
      → let result = remove_route_task plt (some i) (add_route_task route plt (some i) tasks) in
        (result.0 ≡ none)
        × (route_tasks result.1 ≡ wanted_routes plt)
        × (other_tasks result.1 ≡ other_tasks tasks)
  unfolding add_route_task remove_route_task
  present route available tasks i f h =
      let (x, y) = index_found tasks i f in
      let inside : ltb (length tasks) i ≡ false = ground (arith, x) in
      rw inside (refl, omega (arith, y, h), refl)
  present route not_available tasks i f h =
      let (x, y) = index_found tasks i f in
      let (u, v) = dropped tasks i f in
      let inside : ltb (length tasks) i ≡ false = ground (arith, x) in
      rw inside (refl, omega (arith, u, h), v)

  -- After a change of the platform the task of the routes is in the list exactly if routes are
  -- available, the other tasks are there in their order, and there is no error.
  pub on_change-routes :
      (route : Task C) (plt : Availability) (tasks : List (Task C))
      → (route.name == "routes") ≡ true
      → route_tasks tasks ≤ 1
      → let result = on_open_shift_routes_change route plt tasks in
        (result.0 ≡ none)
        × (route_tasks result.1 ≡ wanted_routes plt)
        × (other_tasks result.1 ≡ other_tasks tasks)
  unfolding on_open_shift_routes_change
  on_change-routes route plt tasks e h = elim (Option-cases (routes_index tasks)) [
    | inl f ↦ rw f (absent route plt tasks e (no_index tasks f))
    | inr (i, f) ↦ rw f (present route plt tasks i f h)
  ]

  -- The tasks that a round has run: all of them, or those up to one that found the namespace
  -- terminating.
  pub data Ran : List (Task C) → C → C → Type 0 where
    all_done : {c : C} → Ran [] c c
    done :
        {t : Task C} {ts : List (Task C)} {b c d : C}
        → t.do_task b ≡ (none, c)
        → Ran ts c d
        → Ran (t ∷ ts) b d
    terminating :
        {t : Task C} {ts : List (Task C)} {b c : C}
        → t.do_task b ≡ (some Error.namespace_terminating, c)
        → Ran (t ∷ ts) b c

  abbrev pub AllBail : List (Task C) → Type 0
  AllBail [] = Unit
  AllBail (t ∷ ts) = (t.bail_on_error ≡ true) × AllBail ts

  resumed :
      (t : Task C) (ts : List (Task C)) (b : C) (x : Option Error × C)
      → t.bail_on_error ≡ true
      → t.do_task b ≡ x
      → ((c : C) → (run_tasks ts c).0 ≡ none → Ran ts c (run_tasks ts c).1)
      → (resume t x (run_tasks ts)).0 ≡ none
      → Ran (t ∷ ts) b (resume t x (run_tasks ts)).1
  resumed t ts b (none, c) bail e ih h = done e (ih c h)
  resumed t ts b (some Error.namespace_terminating, c) bail e ih h = terminating e
  resumed t ts b (some Error.not_found, c) bail e ih h = absurd (ground (arith, bail, h))
  resumed t ts b (some Error.already_exists, c) bail e ih h = absurd (ground (arith, bail, h))
  resumed t ts b (some (Error.other m), c) bail e ih h = absurd (ground (arith, bail, h))

  -- A round without an error has run every task, each without an error and in order, unless one found
  -- that the namespace is being terminated.
  pub run_tasks-Ran :
      (ts : List (Task C)) (c : C)
      → AllBail ts
      → (run_tasks ts c).0 ≡ none
      → Ran ts c (run_tasks ts c).1
  unfolding run_tasks
  run_tasks-Ran [] c b h = all_done
  run_tasks-Ran (t ∷ ts) c b h =
      resumed t ts c (t.do_task c) b.0 refl (λ d g. run_tasks-Ran ts d b.1 g) h
