-- ===== src/Instrumentation/GoAgent/Cases.antt =====
-- The two outcomes of injectGoSDK.
use opentelemetry_operator.Prelude.{
  String, [], ◌∷◌, ◌++◌, Option, none, some, ◌≡◌, refl, ◌⊎◌, inl, inr, Bool-cases,
}
use opentelemetry_operator.GoMap.{get}
use opentelemetry_operator.Kube.{Container, Pod}
use opentelemetry_operator.Instrumentation.Types.{Agent}
use opentelemetry_operator.Instrumentation.GoAgent.{
  inject_go_sdk, is_disabled, names_several, add_go_agent, disabled_error, several_error,
}

-- The Go agent is refused, or it is one more container.
abbrev pub GoCases : Pod → Pod × Option String → Type 0
GoCases p r =
    ((err : String) × (r ≡ (p, some err)))
    ⊎ ((q : Pod) × (agent : Container) × (r ≡ (q, none))
        × (q.containers ≡ p.containers ++ (agent ∷ []))
        × (q.init_containers ≡ p.init_containers))

abbrev container_names : String
container_names = "instrumentation.opentelemetry.io/container-names"

pub go_cases : (spec : Agent) (p : Pod) → GoCases p (inject_go_sdk spec p)
unfolding inject_go_sdk add_go_agent
go_cases spec p = elim (Bool-cases (is_disabled p.share_process_namespace)) [
  | inl e ↦ inl (disabled_error, rw e refl)
  | inr e ↦ elim (Bool-cases (names_several (get p.annotations container_names))) [
    | inl f ↦ inl (several_error, rw (e, f) refl)
    | inr f ↦ inr (add_go_agent spec p, _, rw (e, f) refl, refl, refl)
  ]
]
