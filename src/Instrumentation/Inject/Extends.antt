-- ===== src/Instrumentation/Inject/Extends.antt =====
-- What every step of the injection keeps: the containers' positions, and the mark of an injected pod.
use opentelemetry_operator.Prelude.{
  ℕ, zero, suc, String, List, [], ◌∷◌, ◌++◌, true, ◌||◌, some, ◌≡◌, refl, ◌∙◌, arith, is_some,
  get_elem?, set, length, Bool-cases, inl, inr,
}
use opentelemetry_operator.Kube.{EnvVar, Container, Pod}
use opentelemetry_operator.Instrumentation.Agents.{
  agent_name, has_container, is_init_container_missing, is_auto_instrumentation_injected,
  mount_agent, agent_mount, init_container,
}
use opentelemetry_operator.Instrumentation.Types.{Agent}
use opentelemetry_operator.Instrumentation.Sdk.{with_env}

abbrev pub HasContainer : Pod → ℕ → Type 0
HasContainer p i = is_some (get_elem? p.containers i) ≡ true

-- The container at a position is still there, with its name and its image.
abbrev pub Stays : List Container → List Container → Type 0
Stays xs ys =
    (i : ℕ) (c : Container)
    → get_elem? xs i ≡ some c
    → (d : Container) × (get_elem? ys i ≡ some d) × (d.name ≡ c.name) × (d.image ≡ c.image)

pub record Extends (p q : Pod) : Type 0 where
  pub stays : Stays p.containers q.containers
  pub has : (i : ℕ) → HasContainer p i → HasContainer q i
  pub injected :
      is_auto_instrumentation_injected p ≡ true → is_auto_instrumentation_injected q ≡ true

pub Extends-refl : (p : Pod) → Extends p p
Extends-refl p = record { stays = λ i c e. (c, e, refl, refl); has = λ i h. h; injected = λ h. h }

Stays-trans : (xs ys zs : List Container) → Stays xs ys → Stays ys zs → Stays xs zs
Stays-trans xs ys zs a b i c e =
    let (d, f, name1, image1) = a i c e in
    let (d', g, name2, image2) = b i d f in (d', g, name2 ∙ name1, image2 ∙ image1)

pub Extends-trans : (p q r : Pod) → Extends p q → Extends q r → Extends p r
Extends-trans p q r a b = record {
  stays = Stays-trans p.containers q.containers r.containers a.stays b.stays;
  has = λ i h. b.has i (a.has i h);
  injected = λ h. b.injected (a.injected h);
}

is_some-set :
    (xs : List Container) (j i : ℕ) (v : Container)
    → is_some (get_elem? (set xs j v) i) ≡ is_some (get_elem? xs i)
is_some-set [] j i v = refl
is_some-set (x ∷ xs) zero zero v = refl
is_some-set (x ∷ xs) zero (suc i) v = refl
is_some-set (x ∷ xs) (suc j) zero v = refl
is_some-set (x ∷ xs) (suc j) (suc i) v = is_some-set xs j i v

Stays-set :
    (xs : List Container) (j : ℕ) (c v : Container)
    → get_elem? xs j ≡ some c
    → v.name ≡ c.name
    → v.image ≡ c.image
    → Stays xs (set xs j v)
Stays-set [] j c v e f g i d h = absurd (cc)
Stays-set (x ∷ xs) zero c v e f g zero d h =
    let same : c ≡ d = cc (e, h) in (v, refl, rw (← same) f, rw (← same) g)
Stays-set (x ∷ xs) zero c v e f g (suc i) d h = (d, h, refl, refl)
Stays-set (x ∷ xs) (suc j) c v e f g zero d h = (d, h, refl, refl)
Stays-set (x ∷ xs) (suc j) c v e f g (suc i) d h = Stays-set xs j c v e f g i d h

Stays-append : (xs ys : List Container) → Stays xs (xs ++ ys)
Stays-append [] ys i c h = absurd (cc)
Stays-append (x ∷ xs) ys zero c h = (c, h, refl, refl)
Stays-append (x ∷ xs) ys (suc i) c h = Stays-append xs ys i c h

is_some-append :
    (xs ys : List Container) (i : ℕ)
    → is_some (get_elem? xs i) ≡ true
    → is_some (get_elem? (xs ++ ys) i) ≡ true
is_some-append [] ys i h = absurd (cc)
is_some-append (x ∷ xs) ys zero h = refl
is_some-append (x ∷ xs) ys (suc i) h = is_some-append xs ys i h

pub get_elem?-append_last :
    (xs : List Container) (y : Container) → get_elem? (xs ++ (y ∷ [])) (length xs) ≡ some y
get_elem?-append_last [] y = refl
get_elem?-append_last (x ∷ xs) y = get_elem?-append_last xs y

has_container-set :
    (xs : List Container) (i : ℕ) (c v : Container) (n : String)
    → get_elem? xs i ≡ some c
    → v.name ≡ c.name
    → has_container (set xs i v) n ≡ has_container xs n
unfolding has_container
has_container-set [] i c v n e f = refl
has_container-set (x ∷ xs) zero c v n e f = ground arith
has_container-set (x ∷ xs) (suc i) c v n e f = ground (arith, has_container-set xs i c v n e f)

has_container-append :
    (xs ys : List Container) (n : String)
    → has_container (xs ++ ys) n ≡ (has_container xs n || has_container ys n)
unfolding has_container
has_container-append [] ys n = refl
has_container-append (x ∷ xs) ys n = ground (arith, has_container-append xs ys n)

abbrev pub KeepsNames : List Container → List Container → Type 0
KeepsNames xs ys = (n : String) → has_container xs n ≡ true → has_container ys n ≡ true

pub KeepsNames-append : (xs ys : List Container) → KeepsNames xs (xs ++ ys)
KeepsNames-append xs ys n h = ground (arith, has_container-append xs ys n)

-- A container is replaced by one of its name, and init containers may be added.
pub Extends-set :
    (p q : Pod) (i : ℕ) (c v : Container)
    → get_elem? p.containers i ≡ some c
    → v.name ≡ c.name
    → v.image ≡ c.image
    → q.containers ≡ set p.containers i v
    → KeepsNames p.init_containers q.init_containers
    → Extends p q
unfolding is_auto_instrumentation_injected
Extends-set p q i c v e f same g k = record {
  stays = rw g (Stays-set p.containers i c v e f same);
  has = λ j h. rw (g, is_some-set p.containers i j v ∙ h);
  injected =
      λ h. ground (arith, g, k agent_name, has_container-set p.containers i c v agent_name e f);
}

pub Extends-append :
    (p q : Pod) (cs : List Container)
    → q.containers ≡ p.containers ++ cs
    → KeepsNames p.init_containers q.init_containers
    → Extends p q
unfolding is_auto_instrumentation_injected
Extends-append p q cs e k = record {
  stays = rw e (Stays-append p.containers cs);
  has = λ j h. rw (e, is_some-append p.containers cs j h);
  injected = λ h. ground (arith, e, k agent_name, has_container-append p.containers cs agent_name);
}

pub Extends-with_env :
    (p : Pod) (i : ℕ) (c : Container) (envs : List EnvVar)
    → get_elem? p.containers i ≡ some c
    → Extends p (with_env p i c envs)
unfolding with_env
Extends-with_env p i c envs e =
    Extends-set p _ i c (record c { env = envs }) e refl refl refl (λ n h. h)

module _ (spec : Agent) (command : List String) (p : Pod) (i : ℕ) (c : Container)
    (envs : List EnvVar) where
  abbrev mounted : Container
  mounted = record c { env = envs; volume_mounts = c.volume_mounts ++ (agent_mount ∷ []) }

  pub Extends-mount_agent :
      get_elem? p.containers i ≡ some c → Extends p (mount_agent spec command p i c envs)
  unfolding mount_agent is_init_container_missing
  Extends-mount_agent e = elim (Bool-cases (has_container p.init_containers agent_name)) [
    | inl h ↦ rw h (Extends-set p _ i c mounted e refl refl refl (λ n x. x))
    | inr h ↦ rw h (
        Extends-set p _ i c mounted e refl refl refl
          (KeepsNames-append p.init_containers (init_container spec command ∷ [])))
  ]

  pub mount_agent_injects :
      is_auto_instrumentation_injected (mount_agent spec command p i c envs) ≡ true
  unfolding mount_agent is_init_container_missing is_auto_instrumentation_injected has_container
  mount_agent_injects = elim (Bool-cases (has_container p.init_containers agent_name)) [
    | inl h ↦ ground (arith, h)
    | inr h ↦ ground (
      arith,
      h,
      has_container-append p.init_containers (init_container spec command ∷ []) agent_name,
    )
  ]
