-- ===== src/Instrumentation/Mutator/Total.antt =====
-- The pod mutator returns a pod, where the owners of the ReplicaSets end: no index is out of range.
use opentelemetry_operator.Prelude.{
  ℕ, zero, suc, ◌+◌, ◌<◌, ◌≤◌, String, List, [], ◌∷◌, true, false, Option, none, some, ◌≡◌, refl,
  arith, ◌==◌, ◌>>=◌, is_some, get_elem?, length, if◌then◌else◌, Bool-cases, inl, inr, trim_space,
}
use opentelemetry_operator.Kube.{Container, Pod, Namespace}
use opentelemetry_operator.Instrumentation.Agents.{
  is_auto_instrumentation_injected, inject_javaagent, inject_node_js_sdk, inject_python_sdk,
  inject_dot_net_sdk,
}
use opentelemetry_operator.Instrumentation.Resources.{Owners}
use opentelemetry_operator.Instrumentation.Resources.Fuel.{IsRanked, labels_end}
use opentelemetry_operator.Instrumentation.Sdk.{inject_language, inject_go}
use opentelemetry_operator.Instrumentation.Inject.{
  LanguageInstrumentations, find_container, inject_apache, inject_sdk, inject_at, inject,
}
use opentelemetry_operator.Instrumentation.Inject.Extends.{HasContainer, Extends, Extends-refl}
use opentelemetry_operator.Instrumentation.Inject.Total.{
  Runs, Runs-bind, Gives-same, LabelsOrEndless, agent_at, container_at, Runs-language,
}
use opentelemetry_operator.Instrumentation.Inject.Languages.{Runs-go, Runs-apache, Runs-sdk}
use opentelemetry_operator.Instrumentation.Mutator.{
  Result, ok, err, Client, Gates, are_none, inject_each, mutate_with, get_instances, mutate,
}

module _ (fuel : ℕ) (owners : Owners) (insts : LanguageInstrumentations) (ns : Namespace) where
  -- The languages after Java.
  pub after_java : Pod → ℕ → Option Pod
  after_java p1 index = do
    p2 ←
        inject_language fuel owners (λ i. inject_node_js_sdk i.spec.node_js) insts.node_js ns p1
          index
    p3 ← inject_language fuel owners (λ i. inject_python_sdk i.spec.python) insts.python ns p2 index
    p4 ←
        inject_language fuel owners (λ i. inject_dot_net_sdk i.spec.dot_net) insts.dot_net ns p3
          index
    p5 ← inject_go fuel owners insts.go ns p4
    p6 ← inject_apache fuel owners insts.apache_httpd ns p5 index
    inject_sdk fuel owners insts.sdk ns p6 index

  pub inject_at-split :
      (p : Pod) (i : ℕ)
      → inject_at fuel owners insts ns p i ≡ (
          inject_language fuel owners (λ x. inject_javaagent x.spec.java) insts.java ns p i
          >>= (λ p1. after_java p1 i))
  unfolding inject_at after_java
  inject_at-split p i = refl

module _ (Endless : Type 0) (fuel : ℕ) (owners : Owners) (insts : LanguageInstrumentations)
    (ns : Namespace) (labels : LabelsOrEndless Endless fuel owners ns) where
  pub Runs-after_java :
      (p : Pod) (i : ℕ)
      → HasContainer p 0
      → HasContainer p i
      → Runs Endless p (after_java fuel owners insts ns p i)
  unfolding after_java inject_node_js_sdk inject_python_sdk inject_dot_net_sdk
  Runs-after_java p i z h =
      Runs-bind p _ _
        (Runs-language Endless fuel owners ns labels (λ x. inject_node_js_sdk x.spec.node_js)
          insts.node_js p i (λ x. agent_at x.spec.node_js _ _ _ p i (container_at p i h)) h)
        (λ p2 x2.
          Runs-bind p2 _ _
            (Runs-language Endless fuel owners ns labels (λ x. inject_python_sdk x.spec.python)
              insts.python p2 i
              (λ x. agent_at x.spec.python _ _ _ p2 i (container_at p2 i (x2.has i h)))
              (x2.has i h))
            (λ p3 x3.
              Runs-bind p3 _ _
                (Runs-language Endless fuel owners ns labels
                  (λ x. inject_dot_net_sdk x.spec.dot_net) insts.dot_net p3 i
                  (λ x.
                    agent_at x.spec.dot_net _ _ _ p3 i (container_at p3 i (x3.has i (x2.has i h))))
                  (x3.has i (x2.has i h)))
                (λ p4 x4.
                  Runs-bind p4 _ _
                    (Runs-go Endless fuel owners ns labels insts.go p4
                      (x4.has 0 (x3.has 0 (x2.has 0 z))))
                    (λ p5 x5.
                      let at = x5.has i (x4.has i (x3.has i (x2.has i h))) in
                      Runs-bind p5 _ _
                        (Runs-apache Endless fuel owners ns labels insts.apache_httpd p5 i at)
                        (λ p6 x6.
                          Runs-sdk Endless fuel owners ns labels insts.sdk p6 i (x6.has i at))))))

  Runs-java :
      (p : Pod) (i : ℕ)
      → HasContainer p i
      → Runs Endless p
          (inject_language fuel owners (λ x. inject_javaagent x.spec.java) insts.java ns p i)
  unfolding inject_javaagent
  Runs-java p i h =
      Runs-language Endless fuel owners ns labels (λ x. inject_javaagent x.spec.java) insts.java p i
        (λ x. agent_at x.spec.java _ _ _ p i (container_at p i h)) h

  Runs-inject_at :
      (p : Pod) (i : ℕ)
      → HasContainer p 0
      → HasContainer p i
      → Runs Endless p (inject_at fuel owners insts ns p i)
  Runs-inject_at p i z h =
      rw (inject_at-split fuel owners insts ns p i)
        (Runs-bind p _ _ (Runs-java p i h) (λ q x. Runs-after_java q i (x.has 0 z) (x.has i h)))

below-HasContainer : (cs : List Container) (i : ℕ) → i < length cs → is_some (get_elem? cs i) ≡ true
below-HasContainer [] i h = absurd (omega (arith, h))
below-HasContainer (c ∷ cs) zero h = refl
below-HasContainer (c ∷ cs) (suc i) h = below-HasContainer cs i (omega (arith, h))

find_container-lt :
    (name : String) (cs : List Container) (i index n : ℕ)
    → index < n
    → i + length cs ≤ n
    → find_container name cs i index < n
unfolding find_container
find_container-lt name [] i index n h k = h
find_container-lt name (c ∷ cs) i index n h k =
    find_container-lt name cs (suc i) (if c.name == name then i else index) n
      (elim (Bool-cases (c.name == name)) [ inl e ↦ rw e (omega (arith, k)) | inr e ↦ rw e h ])
      (omega (arith, k))

-- The name's container, or the first one.
pub found_container :
    (p : Pod) (c : Container) (cs : List Container) (name : String)
    → p.containers ≡ c ∷ cs
    → HasContainer p (find_container name (c ∷ cs) 0 0)
found_container p c cs name e = rw (
  e,
  below-HasContainer (c ∷ cs) (find_container name (c ∷ cs) 0 0)
      (find_container-lt name (c ∷ cs) 0 0 (length (c ∷ cs)) (omega arith) (omega arith)),
)

module _ (Endless : Type 0) (fuel : ℕ) (owners : Owners) (insts : LanguageInstrumentations)
    (ns : Namespace) (labels : LabelsOrEndless Endless fuel owners ns) where
  inject_into :
      (p : Pod) (cs : List Container) (name : String)
      → p.containers ≡ cs
      → Runs Endless p (inject fuel owners insts ns p name)
  unfolding inject
  inject_into p [] name e = inl (p, ground (arith, e), Extends-refl p)
  inject_into p (c ∷ cs) name e = Gives-same _ _ (ground (arith, e)) (
      Runs-inject_at Endless fuel owners insts ns labels p (find_container name (c ∷ cs) 0 0)
        (rw e refl) (found_container p c cs name e))

  pub Runs-inject_each :
      (p : Pod) (names : List String) → Runs Endless p (inject_each fuel owners insts ns p names)
  unfolding inject_each
  Runs-inject_each p [] = inl (p, refl, Extends-refl p)
  Runs-inject_each p (name ∷ names) =
      Runs-bind p _ _ (inject_into p p.containers (trim_space name) refl)
        (λ q x. Runs-inject_each q names)

  Runs-mutate_with : (p : Pod) → Runs Endless p (mutate_with fuel owners insts ns p)
  unfolding mutate_with
  Runs-mutate_with p = elim (Bool-cases (are_none insts)) [
    | inl e ↦ inl (p, rw e refl, Extends-refl p)
    | inr e ↦ rw e (Runs-inject_each p _)
  ]

module _ (fuel : ℕ) (owners : Owners) (client : Client) (gates : Gates) (ns : Namespace)
    (rank : String → ℕ) (ranked : IsRanked rank owners ns.name)
    (enough : (name : String) → rank name + 2 ≤ fuel) where
  labels : LabelsOrEndless ⊥ fuel owners ns
  labels uid os m = inl (
      labels_end owners uid ns.name rank ranked fuel os m (λ i o at is. enough o.name)
        (omega (arith, enough "")))

  mutated_with :
      (insts : LanguageInstrumentations) (p : Pod)
      → is_auto_instrumentation_injected p ≡ false
      → get_instances client gates ns p ≡ ok insts
      → Runs ⊥ p (mutate_with fuel owners insts ns p)
      → (q : Pod) × (e : Option String) × (mutate fuel owners client gates ns p ≡ some (q, e))
        × Extends p q
  unfolding mutate
  mutated_with insts p n f (inl (q, r, x)) = (q, none, ground (arith, n, f, r), x)
  mutated_with insts p n f (inr (r, x)) = absurd x

  mutated :
      (p : Pod) (r : Result LanguageInstrumentations)
      → is_auto_instrumentation_injected p ≡ false
      → get_instances client gates ns p ≡ r
      → (q : Pod) × (e : Option String) × (mutate fuel owners client gates ns p ≡ some (q, e))
        × Extends p q
  unfolding mutate
  mutated p (err e) n f = (p, some e, ground (arith, n, f), Extends-refl p)
  mutated p (ok insts) n f =
      mutated_with insts p n f (Runs-mutate_with ⊥ fuel owners insts ns labels p)

  -- Where the ReplicaSets of the namespace own each other in no circle, and the fuel is above their
  -- ranks by two, Mutate returns for every pod, without a panic: no container that it reads is out of
  -- range, each of the pod's is at its place with its name and its image, and a pod with an agent's
  -- mark keeps it.
  pub mutate_total :
      (p : Pod)
      → (q : Pod) × (e : Option String) × (mutate fuel owners client gates ns p ≡ some (q, e))
        × Extends p q
  unfolding mutate
  mutate_total p = elim (Bool-cases (is_auto_instrumentation_injected p)) [
    | inl h ↦ (p, none, rw h refl, Extends-refl p)
    | inr h ↦ mutated p (get_instances client gates ns p) h refl
  ]
