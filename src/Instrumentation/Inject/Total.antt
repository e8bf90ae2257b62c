-- ===== src/Instrumentation/Inject/Total.antt =====
-- `inject` reads no container out of range, and the pod that it returns extends the one given.
use opentelemetry_operator.Prelude.{
  ℕ, String, List, Option, [], none, some, ◌≡◌, refl, arith, Bool, ◌⊎◌, sym, subst, ◌>>=◌,
  get_elem?, Option-cases, inl, inr,
}
use opentelemetry_operator.GoMap.{Map}
use opentelemetry_operator.Kube.{EnvVar, Container, OwnerReference, Pod, Namespace}
use opentelemetry_operator.Instrumentation.Types.{Agent, Instrumentation}
use opentelemetry_operator.Instrumentation.Env.{inject_env}
use opentelemetry_operator.Instrumentation.Agents.{inject_agent, mount_agent}
use opentelemetry_operator.Instrumentation.Resources.{
  Owners, add_parent_resource_labels, own_resources, existing, add_attributes, add_resources,
  create_resource_map, choose_service_name,
}
use opentelemetry_operator.Instrumentation.Sdk.{
  with_env, sdk_env, inject_common_env_var, inject_common_sdk_config, inject_common,
  inject_language,
}
use opentelemetry_operator.Instrumentation.Inject.Extends.{
  HasContainer, Extends, Extends-refl, Extends-trans, Extends-with_env, Extends-mount_agent,
}

-- The step returns a pod with the property, or the owners of a ReplicaSet have no end.
abbrev pub Gives : Type 0 → (Pod → Type 0) → Option Pod → Type 0
Gives Endless P r = ((q : Pod) × (r ≡ some q) × P q) ⊎ ((r ≡ none) × Endless)

-- The pod that is returned extends the one given.
abbrev pub Runs : Type 0 → Pod → Option Pod → Type 0
Runs Endless p r = Gives Endless (λ q. Extends p q) r

pub Gives-map :
    {Endless : Type 0} {P Q : Pod → Type 0} (r : Option Pod)
    → Gives Endless P r
    → ((q : Pod) → P q → Q q)
    → Gives Endless Q r
Gives-map r (inl (q, e, x)) h = inl (q, e, h q x)
Gives-map r (inr (e, x)) h = inr (e, x)

pub Gives-same :
    {Endless : Type 0} {P : Pod → Type 0} (r s : Option Pod)
    → r ≡ s
    → Gives Endless P s
    → Gives Endless P r
Gives-same {Endless} {P} r s e x = subst (λ o. Gives Endless P o) (sym e) x

-- One step after another.
pub Gives-bind :
    {Endless : Type 0} {P Q : Pod → Type 0} (r : Option Pod) (f : Pod → Option Pod)
    → Gives Endless P r
    → ((q : Pod) → P q → Gives Endless Q (f q))
    → Gives Endless Q (r >>= f)
Gives-bind r f (inl (q, e, x)) h = rw e (h q x)
Gives-bind r f (inr (e, x)) h = inr (rw e refl, x)

pub Runs-bind :
    {Endless : Type 0} (p : Pod) (r : Option Pod) (f : Pod → Option Pod)
    → Runs Endless p r
    → ((q : Pod) → Extends p q → Runs Endless q (f q))
    → Runs Endless p (r >>= f)
Runs-bind p r f a h =
    Gives-bind r f a (λ q x. Gives-map (f q) (h q x) (λ q'. Extends-trans p q q' x))

-- The owners of the owners in the namespace end within the fuel, or not.
abbrev pub LabelsOrEndless : Type 0 → ℕ → Owners → Namespace → Type 0
LabelsOrEndless Endless fuel owners ns =
    (uid : Bool) (os : List OwnerReference) (m : Map String)
    → ((m' : Map String) × (add_parent_resource_labels fuel owners uid ns.name os m ≡ some m'))
      ⊎ ((add_parent_resource_labels fuel owners uid ns.name os m ≡ none) × Endless)

-- A position is a container of the pod.
pub container_at :
    (p : Pod) (i : ℕ) → HasContainer p i → (c : Container) × (get_elem? p.containers i ≡ some c)
container_at p i h = elim (Option-cases (get_elem? p.containers i)) [
  | inl e ↦ absurd (cc)
  | inr x ↦ x
]

module _ (Endless : Type 0) (fuel : ℕ) (owners : Owners) (otelinst : Instrumentation)
    (ns : Namespace) (labels : LabelsOrEndless Endless fuel owners ns) where
  common_env_at :
      (p : Pod) (i : ℕ) (x : (c : Container) × (get_elem? p.containers i ≡ some c))
      → Runs Endless p (inject_common_env_var otelinst p i)
  unfolding inject_common_env_var
  common_env_at p i (c, e) =
      inl
        (with_env p i c (inject_env c.env otelinst.spec.env), rw e refl, Extends-with_env p i c _ e)

  abbrev pub MapOrEndless : Pod → ℕ → Type 0
  MapOrEndless p i =
      ((m : Map String) × (create_resource_map fuel owners otelinst ns p i ≡ some m))
      ⊎ ((create_resource_map fuel owners otelinst ns p i ≡ none) × Endless)

  pub create_resource_map_at :
      (p : Pod) (i : ℕ) (c : Container) → get_elem? p.containers i ≡ some c → MapOrEndless p i
  unfolding create_resource_map
  create_resource_map_at p i c e =
      elim (labels otelinst.spec.add_k8s_uid_attributes p.owner_references (own_resources ns p c)) [
        | inl (m, f) ↦ inl (
          add_resources (existing c.env) m
              (add_attributes (existing c.env) otelinst.spec.resource_attributes []),
          rw (create_resource_map, e, f) refl,
        )
        | inr (f, x) ↦ inr (rw (create_resource_map, e, f) refl, x)
      ]

  sdk_config_at :
      (p : Pod) (i j : ℕ) (c a : Container)
      → get_elem? p.containers i ≡ some c
      → get_elem? p.containers j ≡ some a
      → MapOrEndless p j
      → Runs Endless p (inject_common_sdk_config fuel owners otelinst ns p i j)
  unfolding inject_common_sdk_config
  sdk_config_at p i j c a e f (inl (m, g)) =
      let envs = sdk_env otelinst.spec (choose_service_name a m) m c.env in
      inl (with_env p i c envs, rw (e, g, f) refl, Extends-with_env p i c envs e)
  sdk_config_at p i j c a e f (inr (g, x)) = inr (rw (e, g) refl, x)

  Runs-sdk_config :
      (p : Pod) (i j : ℕ)
      → HasContainer p i
      → HasContainer p j
      → Runs Endless p (inject_common_sdk_config fuel owners otelinst ns p i j)
  Runs-sdk_config p i j h k =
      let (c, e) = container_at p i h in
      let (a, f) = container_at p j k in
      sdk_config_at p i j c a e f (create_resource_map_at p j a f)

  pub Runs-inject_common :
      (p : Pod) (i j : ℕ)
      → HasContainer p i
      → HasContainer p j
      → Runs Endless p (inject_common fuel owners otelinst ns p i j)
  unfolding inject_common
  Runs-inject_common p i j h k =
      Runs-bind p _ _ (common_env_at p i (container_at p i h))
        (λ q x. Runs-sdk_config q i j (x.has i h) (x.has j k))

-- An agent that is refused leaves the pod as it is.
abbrev pub RunsAgent : Pod → Option (Pod × Option String) → Type 0
RunsAgent p r = (q : Pod) × (refused : Option String) × (r ≡ some (q, refused)) × Extends p q

pub agent_at :
    (spec : Agent) (command : List String) (refuse : List EnvVar → Option String)
    (change : List EnvVar → List EnvVar) (p : Pod) (i : ℕ)
    (x : (c : Container) × (get_elem? p.containers i ≡ some c))
    → RunsAgent p (inject_agent spec command refuse change p i)
unfolding inject_agent
agent_at spec command refuse change p i (c, e) = elim (Option-cases (refuse c.env)) [
  | inl f ↦ (
    mount_agent spec command p i c (change (inject_env c.env spec.env)),
    none,
    ground (arith, e, f),
    Extends-mount_agent spec command p i c _ e,
  )
  | inr (err, f) ↦ (p, some err, ground (arith, e, f), Extends-refl p)
]

module _ (Endless : Type 0) (fuel : ℕ) (owners : Owners) (ns : Namespace)
    (labels : LabelsOrEndless Endless fuel owners ns) where
  language_at :
      (agent : Instrumentation → Pod → ℕ → Option (Pod × Option String)) (x : Instrumentation)
      (p : Pod) (i : ℕ)
      → RunsAgent p (agent x p i)
      → HasContainer p i
      → Runs Endless p (inject_language fuel owners agent (some x) ns p i)
  unfolding inject_language
  language_at agent x p i (q, none, e, extends) h =
      rw (inject_language, e)
        (Gives-map _
          (Runs-inject_common Endless fuel owners x ns labels q i i (extends.has i h)
            (extends.has i h))
          (λ q'. Extends-trans p q q' extends))
  language_at agent x p i (q, some err, e, extends) h = inl (q, ground (arith, e), extends)

  pub Runs-language :
      (agent : Instrumentation → Pod → ℕ → Option (Pod × Option String))
      (inst : Option Instrumentation) (p : Pod) (i : ℕ)
      → ((x : Instrumentation) → RunsAgent p (agent x p i))
      → HasContainer p i
      → Runs Endless p (inject_language fuel owners agent inst ns p i)
  unfolding inject_language
  Runs-language agent none p i total h = inl (p, refl, Extends-refl p)
  Runs-language agent (some x) p i total h = language_at agent x p i (total x) h
