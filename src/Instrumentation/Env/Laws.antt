-- ===== src/Instrumentation/Env/Laws.antt =====
-- What the helpers on environment variables do to the first definition of a name, the one that a
-- lookup finds.
use opentelemetry_operator.Prelude.{
  ℕ, String, List, [], ◌∷◌, ◌++◌, false, Option, none, some, ◌≡◌, refl, sym, ◌∙◌, ap, arith, ◌==◌,
  eq_iff, get_elem?, set, if◌then◌else◌, Option-cases, String-cases, inl, inr,
}
use opentelemetry_operator.Kube.{EnvVar}
use opentelemetry_operator.Instrumentation.Env.{
  get_index_of_env, without, move_env_to_list_end, add_env_if_missing, inject_env, env_var,
  update_value, set_or_update,
}

unfoldable pub find_env : List EnvVar → String → Option EnvVar
find_env [] n = none
find_env (e ∷ es) n = if e.name == n then some e else find_env es n

abbrev pub or_else {ℓ} : {A : Type ℓ} → Option A → Option A → Option A
or_else none b = b
or_else (some a) b = some a

or_else_assoc {ℓ} :
    {A : Type ℓ} (a b c : Option A) → or_else (or_else a b) c ≡ or_else a (or_else b c)
or_else_assoc none b c = refl
or_else_assoc (some x) b c = refl

or_else-none {ℓ} : {A : Type ℓ} (a : Option A) → or_else a none ≡ a
or_else-none none = refl
or_else-none (some x) = refl

pub find-append :
    (xs ys : List EnvVar) (n : String)
    → find_env (xs ++ ys) n ≡ or_else (find_env xs n) (find_env ys n)
unfolding find_env
find-append [] ys n = refl
find-append (e ∷ xs) ys n = ground (arith, find-append xs ys n)

-- The index of a name is that of its first definition.
pub index-none :
    (envs : List EnvVar) (n : String) → get_index_of_env envs n ≡ none → find_env envs n ≡ none
unfolding find_env get_index_of_env
index-none [] n p = refl
index-none (e ∷ envs) n p = elim (Option-cases (get_index_of_env envs n)) [
  | inl q ↦ ground (arith, index-none envs n q)
  | inr (i, q) ↦ ground arith
]

pub index-some :
    (envs : List EnvVar) (n : String) (i : ℕ)
    → get_index_of_env envs n ≡ some i
    → (e : EnvVar) × (get_elem? envs i ≡ some e) × (find_env envs n ≡ some e) × (e.name ≡ n)
unfolding find_env get_index_of_env
index-some [] n i p = absurd (cc)
index-some (e ∷ envs) n i p = elim (String-cases e.name n) [
  | inl q ↦ (e, ground (arith, eq_iff e.name n), ground (arith, eq_iff e.name n), q)
  | inr q ↦ elim (Option-cases (get_index_of_env envs n)) [
    | inl u ↦ absurd (ground arith)
    | inr (j, u) ↦
        let (x, at, found, named) = index-some envs n j u in (x, ground arith, ground arith, named)
  ]
]

pub find-add_env :
    (envs : List EnvVar) (e : EnvVar) (n : String)
    → find_env (add_env_if_missing envs e) n ≡ or_else (find_env envs n) (find_env (e ∷ []) n)
unfolding add_env_if_missing find_env
find-add_env envs e n = elim (Option-cases (get_index_of_env envs e.name)) [
  | inl p ↦ ground (arith, p, find-append envs (e ∷ []) n)
  | inr (i, p) ↦
      let (x, at, found, named) = index-some envs e.name i p in
      ground (arith, p, found, eq_iff e.name n)
]

pub find-inject_env :
    (envs es : List EnvVar) (n : String)
    → find_env (inject_env envs es) n ≡ or_else (find_env envs n) (find_env es n)
unfolding inject_env find_env
find-inject_env envs [] n = ground (arith, or_else-none (find_env envs n))
find-inject_env envs (e ∷ es) n =
    find-inject_env (add_env_if_missing envs e) es n
    ∙ (ap (λ x. or_else x (find_env es n)) (find-add_env envs e n))
    ∙ or_else_assoc (find_env envs n) (find_env (e ∷ []) n) (find_env es n)
    ∙ sym (ap (or_else (find_env envs n)) (find-append (e ∷ []) es n))

-- A write at the index of a name changes that definition and no other.
find-set :
    (envs : List EnvVar) (m n : String) (i : ℕ) (e : EnvVar)
    → get_index_of_env envs m ≡ some i
    → e.name ≡ m
    → find_env (set envs i e) n ≡ (if m == n then some e else find_env envs n)
unfolding find_env get_index_of_env
find-set [] m n i e p q = absurd (cc)
find-set (x ∷ envs) m n i e p q = elim (String-cases x.name m) [
  | inl u ↦ ground (arith, eq_iff x.name m, eq_iff x.name n, eq_iff e.name n, eq_iff m n)
  | inr u ↦ elim (Option-cases (get_index_of_env envs m)) [
    | inl v ↦ absurd (ground arith)
    | inr (j, v) ↦
        ground (arith, find-set envs m n j e v q, eq_iff x.name m, eq_iff x.name n, eq_iff m n)
  ]
]

-- The variable's definition is made from the one found, or is a new one; the others are the same.
abbrev pub changed : Option EnvVar → String → String → (String → String) → EnvVar
changed none name value f = env_var name value
changed (some e) name value f = record e { value = f e.value }

pub find-set_or_update :
    (envs : List EnvVar) (m value : String) (f : String → String) (n : String)
    → find_env (set_or_update envs m value f) n
      ≡ (if m == n then some (changed (find_env envs m) m value f) else find_env envs n)
unfolding set_or_update update_value find_env
find-set_or_update envs m value f n = elim (Option-cases (get_index_of_env envs m)) [
  | inl p ↦
      let absent = index-none envs m p in
      ground (
        arith,
        p,
        absent,
        find-append envs (env_var m value ∷ []) n,
        eq_iff m n,
        or_else-none (find_env envs n),
      )
  | inr (i, p) ↦
      let (x, at, found, named) = index-some envs m i p in
      ground
        (arith, p, at, found, named, find-set envs m n i (record x { value = f x.value }) p named)
]

find-without :
    (envs : List EnvVar) (m n : String) (i : ℕ)
    → get_index_of_env envs m ≡ some i
    → (m == n) ≡ false
    → find_env (without envs i) n ≡ find_env envs n
unfolding find_env get_index_of_env without
find-without [] m n i p q = absurd (cc)
find-without (x ∷ envs) m n i p q = elim (String-cases x.name m) [
  | inl u ↦ ground (arith, eq_iff x.name m, eq_iff x.name n, eq_iff m n)
  | inr u ↦ elim (Option-cases (get_index_of_env envs m)) [
    | inl v ↦ absurd (ground arith)
    | inr (j, v) ↦ ground (arith, find-without envs m n j v q)
  ]
]

-- The move keeps the first definitions of the other names.
pub find-move_env :
    (envs : List EnvVar) (m n : String)
    → (m == n) ≡ false
    → find_env (move_env_to_list_end envs (get_index_of_env envs m)) n ≡ find_env envs n
unfolding move_env_to_list_end find_env
find-move_env envs m n q = elim (Option-cases (get_index_of_env envs m)) [
  | inl p ↦ ground (arith, p)
  | inr (i, p) ↦
      let (x, at, found, named) = index-some envs m i p in
      ground (
        arith,
        p,
        at,
        named,
        q,
        find-append (without envs i) (x ∷ []) n,
        find-without envs m n i p q,
        eq_iff x.name n,
        eq_iff m n,
        or_else-none (find_env envs n),
      )
]
