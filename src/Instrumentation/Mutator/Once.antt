-- ===== src/Instrumentation/Mutator/Once.antt =====
-- A pod that the mutator has given the Java agent is not instrumented again.
use opentelemetry_operator.Prelude.{
  ℕ, String, List, [], ◌∷◌, true, false, Option, none, some, ◌≡◌, ◌>>=◌, refl, arith, get_elem?,
  Bool-cases, Option-cases, inl, inr, trim_space, split,
}
use opentelemetry_operator.Kube.{Container, Pod, Namespace}
use opentelemetry_operator.Instrumentation.Types.{Instrumentation}
use opentelemetry_operator.Instrumentation.Env.{inject_env, validate_container_env}
use opentelemetry_operator.Instrumentation.Agents.{
  is_auto_instrumentation_injected, inject_agent, mount_agent, inject_javaagent, refuse_value_from,
  java_env, java_command,
}
use opentelemetry_operator.Instrumentation.Resources.{Owners, add_parent_resource_labels}
use opentelemetry_operator.Instrumentation.Sdk.{inject_common, inject_language}
use opentelemetry_operator.Instrumentation.Inject.{
  LanguageInstrumentations, find_container, inject_at, inject,
}
use opentelemetry_operator.Instrumentation.Inject.Extends.{
  HasContainer, Extends, Extends-trans, Extends-mount_agent, mount_agent_injects,
}
use opentelemetry_operator.Instrumentation.Inject.Total.{
  Gives, Gives-map, Gives-bind, Gives-same, LabelsOrEndless, Runs-inject_common, container_at,
}
use opentelemetry_operator.Instrumentation.Mutator.{
  ok, Client, Gates, are_none, is_none, inject_each, mutate_with, get_instances, mutate,
}
use opentelemetry_operator.Instrumentation.Mutator.Total.{
  after_java, Runs-after_java, inject_at-split, found_container, Runs-inject_each,
}

-- No container of the pod reads JAVA_TOOL_OPTIONS from elsewhere.
abbrev pub AcceptsJava : Pod → Type 0
AcceptsJava p =
    (i : ℕ) (c : Container)
    → get_elem? p.containers i ≡ some c
    → validate_container_env c.env ("JAVA_TOOL_OPTIONS" ∷ []) ≡ none

-- The pod that the step returns has the mark of an agent.
abbrev Marks : Option Pod → Type 0
Marks r = Gives Unit (λ q. is_auto_instrumentation_injected q ≡ true) r

module _ (fuel : ℕ) (owners : Owners) (insts : LanguageInstrumentations) (x : Instrumentation)
    (ns : Namespace) (java : insts.java ≡ some x) where
  labels : LabelsOrEndless Unit fuel owners ns
  labels uid os m = elim (Option-cases (add_parent_resource_labels fuel owners uid ns.name os m)) [
    | inl e ↦ inr (e, tt)
    | inr x ↦ inl x
  ]

  -- The Java agent itself, on the container `c` at `i`.
  agent_marks :
      (p : Pod) (i : ℕ) (c : Container)
      → get_elem? p.containers i ≡ some c
      → validate_container_env c.env ("JAVA_TOOL_OPTIONS" ∷ []) ≡ none
      → (q : Pod) × (inject_javaagent x.spec.java p i ≡ some (q, none))
        × Extends p q
        × (is_auto_instrumentation_injected q ≡ true)
  unfolding inject_javaagent inject_agent refuse_value_from
  agent_marks p i c e v =
      let envs = java_env (inject_env c.env x.spec.java.env) in
      (
        mount_agent x.spec.java java_command p i c envs,
        ground (arith, e, v),
        Extends-mount_agent x.spec.java java_command p i c envs e,
        mount_agent_injects x.spec.java java_command p i c envs,
      )

  first_step :
      (p q : Pod) (i : ℕ)
      → inject_javaagent x.spec.java p i ≡ some (q, none)
      → inject_at fuel owners insts ns p i
        ≡ (inject_common fuel owners x ns q i i >>= (λ q1. after_java fuel owners insts ns q1 i))
  unfolding inject_language
  first_step p q i e = rw (inject_at-split fuel owners insts ns p i, inject_language, java, e) refl

  language-Marks :
      (p q : Pod) (i : ℕ)
      → HasContainer p 0
      → HasContainer p i
      → inject_javaagent x.spec.java p i ≡ some (q, none)
      → Extends p q
      → is_auto_instrumentation_injected q ≡ true
      → Marks (inject_at fuel owners insts ns p i)
  unfolding inject_language
  language-Marks p q i z h e extends marked = Gives-same _ _ (first_step p q i e) (
      Gives-bind _ _
        (Runs-inject_common Unit fuel owners x ns labels q i i (extends.has i h) (extends.has i h))
        (λ q1 x1.
          let to1 = Extends-trans p q q1 extends x1 in
          Gives-map _
            (Runs-after_java Unit fuel owners insts ns labels q1 i (to1.has 0 z) (to1.has i h))
            (λ q2 x2. x2.injected (x1.injected marked))))

  inject-Marks :
      (p : Pod) (c : Container) (cs : List Container) (name : String)
      → p.containers ≡ c ∷ cs
      → AcceptsJava p
      → Marks (inject fuel owners insts ns p name)
  unfolding inject
  inject-Marks p c cs name e accepts =
      let i = find_container name (c ∷ cs) 0 0 in
      let at = found_container p c cs name e in
      let (k, f) = container_at p i at in
      let (q, r, extends, marked) = agent_marks p i k f (accepts i k f) in
      rw (inject, e) (language-Marks p q i (rw e refl) at r extends marked)

  each-Marks :
      (p : Pod) (c : Container) (cs : List Container) (name : String) (names : List String)
      → p.containers ≡ c ∷ cs
      → AcceptsJava p
      → Marks (inject_each fuel owners insts ns p (name ∷ names))
  unfolding inject_each
  each-Marks p c cs name names e accepts =
      Gives-bind _ _ (inject-Marks p c cs (trim_space name) e accepts) (λ q marked.
        Gives-map _ (Runs-inject_each Unit fuel owners insts ns labels q names)
          (λ q' extends. extends.injected marked))

  not_none : are_none insts ≡ false
  unfolding are_none is_none
  not_none = ground (arith, java)

  with-Marks :
      (p : Pod) (c : Container) (cs : List Container)
      → p.containers ≡ c ∷ cs
      → AcceptsJava p
      → Marks (mutate_with fuel owners insts ns p)
  unfolding mutate_with split
  with-Marks p c cs e accepts = rw not_none (each-Marks p c cs _ _ e accepts)

module _ (fuel : ℕ) (owners : Owners) (client : Client) (gates : Gates) (ns : Namespace) where
  mutated_mark :
      (p q : Pod) (insts : LanguageInstrumentations)
      → get_instances client gates ns p ≡ ok insts
      → Marks (mutate_with fuel owners insts ns p)
      → mutate fuel owners client gates ns p ≡ some (q, none)
      → is_auto_instrumentation_injected q ≡ true
  unfolding mutate
  mutated_mark p q insts e r run = elim (Bool-cases (is_auto_instrumentation_injected p)) [
    | inl h ↦ ground (arith, h, run)
    | inr h ↦ elim r [
      | inl (q', r', marked) ↦ ground (arith, h, e, r', marked, run)
      | inr (r', endless) ↦ ground (arith, h, e, r', run)
    ]
  ]

  -- Where a pod asks for the Java agent, has a container, and none of them reads JAVA_TOOL_OPTIONS
  -- from elsewhere, Mutate marks the pod that it returns, and Mutate on that pod changes nothing.
  pub mutate_once :
      (p q : Pod) (insts : LanguageInstrumentations) (x : Instrumentation) (c : Container)
      (cs : List Container)
      → get_instances client gates ns p ≡ ok insts
      → insts.java ≡ some x
      → p.containers ≡ c ∷ cs
      → AcceptsJava p
      → mutate fuel owners client gates ns p ≡ some (q, none)
      → (is_auto_instrumentation_injected q ≡ true)
        × (mutate fuel owners client gates ns q ≡ some (q, none))
  unfolding mutate
  mutate_once p q insts x c cs e java f accepts run =
      let marks = with-Marks fuel owners insts x ns java p c cs f accepts in
      let mark = mutated_mark p q insts e marks run in (mark, rw mark refl)
