-- ===== src/Instrumentation/Inject/Languages.antt =====
-- Each language of `inject` in turn.
use opentelemetry_operator.Prelude.{
  ℕ, ◌-◌, String, List, [], ◌∷◌, ◌++◌, Option, none, some, ◌≡◌, refl, arith, get_elem?, length,
  Option-cases, inl, inr, length-append,
}
use opentelemetry_operator.GoMap.{Map}
use opentelemetry_operator.Kube.{Container, Pod, Namespace}
use opentelemetry_operator.Instrumentation.Types.{Instrumentation}
use opentelemetry_operator.Instrumentation.Env.{get_index_of_env}
use opentelemetry_operator.Instrumentation.GoAgent.{inject_go_sdk}
use opentelemetry_operator.Instrumentation.GoAgent.Cases.{GoCases, go_cases}
use opentelemetry_operator.Instrumentation.Resources.{Owners, create_resource_map}
use opentelemetry_operator.Instrumentation.Sdk.{inject_common, inject_go}
use opentelemetry_operator.Instrumentation.Apache.{inject_apache_httpdagent}
use opentelemetry_operator.Instrumentation.Apache.Shape.{ApacheShape, apache_shape}
use opentelemetry_operator.Instrumentation.Inject.{inject_apache, inject_sdk}
use opentelemetry_operator.Instrumentation.Inject.Extends.{
  HasContainer, Extends, Extends-refl, Extends-trans, Extends-append, Extends-set,
  KeepsNames-append, get_elem?-append_last,
}
use opentelemetry_operator.Instrumentation.Inject.Total.{
  Runs, Gives-map, LabelsOrEndless, MapOrEndless, container_at, create_resource_map_at,
  Runs-inject_common,
}

last_position :
    (cs : List Container) (agent : Container) → length (cs ++ (agent ∷ [])) - 1 ≡ length cs
last_position cs agent = omega (arith, length-append cs (agent ∷ []))

-- The container that was added is the last.
last_is :
    (q : Pod) (cs : List Container) (agent : Container)
    → q.containers ≡ cs ++ (agent ∷ [])
    → HasContainer q (length q.containers - 1)
last_is q cs agent e = rw (e, last_position cs agent, get_elem?-append_last cs agent) refl

module _ (Endless : Type 0) (fuel : ℕ) (owners : Owners) (ns : Namespace)
    (labels : LabelsOrEndless Endless fuel owners ns) where
  -- The pod is the one with the agent, or the one before it.
  go_ends :
      (x : Instrumentation) (p q q' : Pod) (c : Container)
      → inject_go_sdk x.spec.go p ≡ (q, none)
      → inject_common fuel owners x ns q (length q.containers - 1) 0 ≡ some q'
      → get_elem? q'.containers (length q.containers - 1) ≡ some c
      → Extends p q'
      → Runs Endless p (inject_go fuel owners (some x) ns p)
  unfolding inject_go
  go_ends x p q q' c e f g extends =
      elim (Option-cases (get_index_of_env c.env "OTEL_GO_AUTO_TARGET_EXE")) [
        | inl n ↦ inl (p, ground (arith, e, f, g, n), Extends-refl p)
        | inr (i, n) ↦ inl (q', ground (arith, e, f, g, n), extends)
      ]

  go_rest :
      (x : Instrumentation) (p q : Pod)
      → inject_go_sdk x.spec.go p ≡ (q, none)
      → Extends p q
      → HasContainer q (length q.containers - 1)
      → Runs Endless q (inject_common fuel owners x ns q (length q.containers - 1) 0)
      → Runs Endless p (inject_go fuel owners (some x) ns p)
  unfolding inject_go
  go_rest x p q e added last (inl (q', f, x')) =
      let (c, g) = container_at q' (length q.containers - 1) (x'.has _ last) in
      go_ends x p q q' c e f g (Extends-trans p q q' added x')
  go_rest x p q e added last (inr (f, x')) = inr (ground (arith, e, f), x')

  go_at :
      (x : Instrumentation) (p : Pod)
      → GoCases p (inject_go_sdk x.spec.go p)
      → HasContainer p 0
      → Runs Endless p (inject_go fuel owners (some x) ns p)
  unfolding inject_go
  go_at x p (inl (err, e)) h = inl (p, ground (arith, e), Extends-refl p)
  go_at x p (inr (q, agent, e, cs, is)) h =
      let added : Extends p q = Extends-append p q (agent ∷ []) cs (λ n k. rw is k) in
      let last = last_is q p.containers agent cs in
      go_rest x p q e added last (
        Runs-inject_common Endless fuel owners x ns labels q (length q.containers - 1) 0 last
          (added.has 0 h))

  pub Runs-go :
      (inst : Option Instrumentation) (p : Pod)
      → HasContainer p 0
      → Runs Endless p (inject_go fuel owners inst ns p)
  unfolding inject_go
  Runs-go none p h = inl (p, refl, Extends-refl p)
  Runs-go (some x) p h = go_at x p (go_cases x.spec.go p) h

  apache_at :
      (x : Instrumentation) (p : Pod) (i : ℕ) (c : Container) (m : Map String) (q : Pod)
      → get_elem? p.containers i ≡ some c
      → HasContainer p i
      → create_resource_map fuel owners x ns p i ≡ some m
      → inject_apache_httpdagent x.spec.apache_httpd p i x.spec.exporter_endpoint m ≡ some q
      → ApacheShape p i c q
      → Runs Endless p (inject_apache fuel owners (some x) ns p i)
  unfolding inject_apache
  apache_at x p i c m q e h f g (v, is, named, image, cs, inits) =
      let extends =
        Extends-set p q i c v e named image cs
          (λ n k. rw (inits, KeepsNames-append p.init_containers is n k)) in
      rw (inject_apache, f, g)
        (Gives-map _
          (Runs-inject_common Endless fuel owners x ns labels q i i (extends.has i h)
            (extends.has i h))
          (λ q'. Extends-trans p q q' extends))

  apache_from :
      (x : Instrumentation) (p : Pod) (i : ℕ) (c : Container)
      → get_elem? p.containers i ≡ some c
      → HasContainer p i
      → MapOrEndless Endless fuel owners x ns labels p i
      → Runs Endless p (inject_apache fuel owners (some x) ns p i)
  unfolding inject_apache
  apache_from x p i c e h (inl (m, f)) =
      let (q, g, shape) = apache_shape x.spec.apache_httpd p i c x.spec.exporter_endpoint m e in
      apache_at x p i c m q e h f g shape
  apache_from x p i c e h (inr (f, x')) = inr (rw (inject_apache, f) refl, x')

  pub Runs-apache :
      (inst : Option Instrumentation) (p : Pod) (i : ℕ)
      → HasContainer p i
      → Runs Endless p (inject_apache fuel owners inst ns p i)
  unfolding inject_apache
  Runs-apache none p i h = inl (p, refl, Extends-refl p)
  Runs-apache (some x) p i h =
      let (c, e) = container_at p i h in
      apache_from x p i c e h (create_resource_map_at Endless fuel owners x ns labels p i c e)

  pub Runs-sdk :
      (inst : Option Instrumentation) (p : Pod) (i : ℕ)
      → HasContainer p i
      → Runs Endless p (inject_sdk fuel owners inst ns p i)
  unfolding inject_sdk
  Runs-sdk none p i h = inl (p, refl, Extends-refl p)
  Runs-sdk (some x) p i h = Runs-inject_common Endless fuel owners x ns labels p i i h h
