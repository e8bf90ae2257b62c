-- ===== src/Allocator/State/Add.antt =====
-- The loop of handleTargets over the additions, for any addTargetToTargetItems that keeps its
-- contract: it never panics, and adds just the targets that are missing.
use opentelemetry_operator.Prelude.{
  String, List, [], ◌∷◌, Bool, true, false, Option, none, some, ◌≡◌, refl, ◌∙◌, fun_ext, arith, ◌⊎◌,
  ◌==◌, eq_iff, inl, inr, subst, sym, String-cases, Option-cases, elem, if◌then◌else◌,
}
use opentelemetry_operator.GoMap.{Map, get, has, put, delete}
use opentelemetry_operator.GoMap.Laws.{Distinct, get-put}
use opentelemetry_operator.Allocator.Target.{Item}
use opentelemetry_operator.Allocator.State.{State, try_each, add_target}
use opentelemetry_operator.Allocator.State.Invariant.{IsConsistent, IsPlaced, IsConsistent-without}

-- A target without its assignment.
abbrev pub unassigned : Item → Item
unassigned it = record it { collector_name = "" }

abbrev pub target_at : Map Item → String → Option Item
target_at m k = elim (get m k) [ none ↦ none | some it ↦ some (unassigned it) ]

-- From `s` to `t` the target has been stored, assigned to a live collector that is a home for it.
pub record Stores (Home : String → String → Type 0) (tg : Item) (s t : State) : Type 0 where
  pub consistent : IsConsistent t
  pub owner : String
  pub owner_live : has s.collectors owner ≡ true
  pub home : Home tg.hash owner
  pub live : (c : String) → has t.collectors c ≡ has s.collectors c
  pub items : t.target_items ≡ put s.target_items tg.hash (record tg { collector_name = owner })

-- The contract of addTargetToTargetItems, for targets that are ready to be assigned.
abbrev pub Contract :
    (String → String → Type 0)
    → (Item → State → Option State)
    → (Item → (String → Bool) → Type 0)
    → Type 0
Contract Home add Ready =
    (tg : Item) (s : State)
    → IsConsistent (record s { target_items = delete s.target_items tg.hash })
    → Distinct s.target_items
    → Ready tg (has s.collectors)
    → (c : String) → has s.collectors c ≡ true
    → (t : State) × (add tg s ≡ some t) × Stores Home tg s t

-- From `s` to `t` the targets of `additions` at the keys `ks` have been added where missing.
pub record Adds (Home : String → String → Type 0) (additions : Map Item) (ks : List String)
    (s t : State) : Type 0 where
  pub consistent : IsConsistent t
  pub placed : IsPlaced t
  pub live : (c : String) → has t.collectors c ≡ has s.collectors c
  pub stays :
      (j : String) (it : Item) → get s.target_items j ≡ some it → get t.target_items j ≡ some it
  pub items :
      (j : String)
      → target_at t.target_items j ≡ (
          if has s.target_items j
          then target_at s.target_items j
          else if elem j ks
          then target_at additions j
          else none)
  pub home :
      (j : String) (it : Item)
      → get t.target_items j ≡ some it
      → (get s.target_items j ≡ some it) ⊎ Home j it.collector_name

Stores-IsPlaced :
    {Home : String → String → Type 0} {tg : Item} {s t : State}
    → IsPlaced s
    → Stores Home tg s t
    → IsPlaced t
Stores-IsPlaced {tg = tg} {s = s} {t = t} p a = record {
  at_key = λ h it e. grind (arith, p.at_key h it, a.items, a.live, a.owner_live, get-put);
}

-- A target held afterwards is the one stored, or was held before.
pub stored_cases :
    {Home : String → String → Type 0} {tg : Item} {s t : State} (a : Stores Home tg s t)
    (j : String) (x : Item)
    → get t.target_items j ≡ some x
    → ((tg.hash ≡ j) × (x.collector_name ≡ a.owner))
      ⊎ (((tg.hash == j) ≡ false) × (get s.target_items j ≡ some x))
stored_cases {tg = tg} {s = s} a j x f =
    let law = get-put s.target_items tg.hash (record tg { collector_name = a.owner }) j in
    elim (String-cases tg.hash j) [
      | inl q ↦ inl (q, ground (arith, a.items, law, eq_iff tg.hash j))
      | inr q ↦ inr (q, ground (arith, a.items, law))
    ]

Adds-trans :
    {Home : String → String → Type 0} {additions : Map Item} {s t u : State} (k : String)
    (ks : List String)
    → Adds Home additions (k ∷ []) s t
    → Adds Home additions ks t u
    → Adds Home additions (k ∷ ks) s u
Adds-trans k ks d e = record {
  consistent = e.consistent;
  placed = e.placed;
  live = λ c. e.live c ∙ d.live c;
  stays = λ j x f. e.stays j x (d.stays j x f);
  items = λ j. ground (arith, e.items j, d.items j);
  home = λ j x f. elim (e.home j x f) [ inl g ↦ d.home j x g | inr g ↦ inr g ];
}

IsConsistent-put_room :
    (s : State) (h : String)
    → IsConsistent s
    → get s.target_items h ≡ none
    → IsConsistent (record s { target_items = delete s.target_items h })
IsConsistent-put_room s h v e = IsConsistent-without s h v (λ it f. cc)

module _ (Home : String → String → Type 0) (add : Item → State → Option State)
    (Ready : Item → (String → Bool) → Type 0) (contract : Contract Home add Ready)
    (additions : Map Item)
    (hashed : (k : String) (it : Item) → get additions k ≡ some it → it.hash ≡ k) where
  added :
      (s t : State) (k : String) (it : Item)
      → IsPlaced s
      → get additions k ≡ some it
      → get s.target_items k ≡ none
      → Stores Home it s t
      → Adds Home additions (k ∷ []) s t
  added s t k it p e gap a = record {
    consistent = a.consistent;
    placed = Stores-IsPlaced p a;
    live = a.live;
    stays = λ j x f. grind (arith, a.items, hashed k it e, get-put, eq_iff k j);
    items = λ j. rw a.items (grind (arith, hashed k it e, get-put, eq_iff k j));
    home = λ j x f. elim (stored_cases a j x f) [
      | inl q ↦ inr (subst (λ c. Home j c) (sym q.1) (subst (λ h. Home h a.owner) q.0 a.home))
      | inr q ↦ inl q.1
    ];
  }

  skipped :
      (s : State) (k : String)
      → IsConsistent s
      → IsPlaced s
      → (has s.target_items k ≡ true) ⊎ (get additions k ≡ none)
      → Adds Home additions (k ∷ []) s s
  skipped s k v p h = record {
    consistent = v;
    placed = p;
    live = λ c. refl;
    stays = λ j x f. f;
    items = λ j. grind (arith, eq_iff k j);
    home = λ j x f. inl f;
  }

  add_target_total :
      (s : State) (k : String)
      → IsConsistent s
      → IsPlaced s
      → ((it : Item) → get additions k ≡ some it → Ready it (has s.collectors))
      → (c : String) → has s.collectors c ≡ true
      → (t : State) × (add_target add additions s k ≡ some t) × Adds Home additions (k ∷ []) s t
  unfolding add_target
  add_target_total s k v p ready c live = elim (Option-cases (get additions k)) [
    | inl e ↦ (s, rw (e, add_target), skipped s k v p (inr e))
    | inr (it, e) ↦ elim (Option-cases (get s.target_items k)) [
      | inr (old, f) ↦ (s, rw (e, add_target) (rw f), skipped s k v p (inl (rw f)))
      | inl gap ↦
          let room = IsConsistent-put_room s it.hash v (rw (hashed k it e) gap) in
          let (t, done, stores) = contract it s room v.distinct (ready it e) c live in
          (t, rw (e, add_target) (rw gap done), added s t k it p e gap stores)
    ]
  ]

  -- The loop over any keys of the additions does not panic.
  pub add_targets_total :
      (ks : List String) (s : State)
      → IsConsistent s
      → IsPlaced s
      → ((k : String) (it : Item) → get additions k ≡ some it → Ready it (has s.collectors))
      → (c : String) → has s.collectors c ≡ true
      → (t : State) × (try_each (add_target add additions) s ks ≡ some t)
        × Adds Home additions ks s t
  unfolding try_each
  add_targets_total [] s v p ready c live = (
    s,
    refl,
    record {
      consistent = v;
      placed = p;
      live = λ c. refl;
      stays = λ j x f. f;
      items = λ j. ground arith;
      home = λ j x f. inl f;
    },
  )
  add_targets_total (k ∷ ks) s v p ready c live =
      let (t, first, done) = add_target_total s k v p (ready k) c live in
      let same = fun_ext done.live in
      let (u, rest, all) =
        add_targets_total ks t done.consistent done.placed (λ j it e. rw same (ready j it e)) c
          (done.live c ∙ live) in
      (u, rw first rest, Adds-trans k ks done all)
