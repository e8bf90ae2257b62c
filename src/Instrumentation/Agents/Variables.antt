-- ===== src/Instrumentation/Agents/Variables.antt =====
-- Which variables of a container an agent's injection changes.
use opentelemetry_operator.Prelude.{
  String, List, true, false, some, ◌≡◌, refl, ◌∙◌, arith, ◌==◌, eq_iff, if◌then◌else◌, ◌<+>◌,
  Bool-cases, inl, inr,
}
use opentelemetry_operator.Kube.{EnvVar}
use opentelemetry_operator.Instrumentation.Env.{inject_env}
use opentelemetry_operator.Instrumentation.Env.Laws.{
  find_env, or_else, changed, find-inject_env, find-set_or_update,
}
use opentelemetry_operator.Instrumentation.Agents.{java_env, set_dot_net_env_var, dot_net_env}

abbrev pub java_argument : String
java_argument = " -javaagent:/otel-auto-instrumentation/javaagent.jar"

-- After injectJavaagent, a lookup finds the container's definition of a variable, or else the
-- spec's; JAVA_TOOL_OPTIONS has the agent's argument after that value, or alone.
pub find-java_env :
    (envs spec : List EnvVar) (n : String)
    → let layered = or_else (find_env envs n) (find_env spec n) in
      find_env (java_env (inject_env envs spec)) n ≡ (
        if "JAVA_TOOL_OPTIONS" == n
        then some (changed layered "JAVA_TOOL_OPTIONS" java_argument (λ v. v <+> java_argument))
        else layered)
unfolding java_env
find-java_env envs spec n = ground (
  arith,
  find-set_or_update (inject_env envs spec) "JAVA_TOOL_OPTIONS" java_argument
      (λ v. v <+> java_argument) n,
  find-inject_env envs spec n,
  eq_iff "JAVA_TOOL_OPTIONS" n,
)

find-set_dot_net :
    (envs : List EnvVar) (name value : String) (n : String)
    → (name == n) ≡ false
    → find_env (set_dot_net_env_var envs name value true) n ≡ find_env envs n
unfolding set_dot_net_env_var
find-set_dot_net envs name value n other =
    find-set_or_update envs name value (λ v. v <+> ":" <+> value) n ∙ rw other refl

-- A variable that the code only sets where it is missing.
keeps-set_dot_net :
    (envs : List EnvVar) (name value : String) (n : String) (e : EnvVar)
    → find_env envs n ≡ some e
    → find_env (set_dot_net_env_var envs name value false) n ≡ some e
unfolding set_dot_net_env_var
keeps-set_dot_net envs name value n e p = elim (Bool-cases (name == n)) [
  | inl q ↦ ground (arith, find-set_or_update envs name value (λ v. v) n, q, p, eq_iff name n)
  | inr q ↦ ground (arith, find-set_or_update envs name value (λ v. v) n, q, p)
]

-- injectDotNetSDK changes no variable that the container or the spec defines, but for the three that
-- it extends.
pub dot_net_env_keeps :
    (envs : List EnvVar) (n : String) (e : EnvVar)
    → ("DOTNET_STARTUP_HOOKS" == n) ≡ false
    → ("DOTNET_ADDITIONAL_DEPS" == n) ≡ false
    → ("DOTNET_SHARED_STORE" == n) ≡ false
    → find_env envs n ≡ some e
    → find_env (dot_net_env envs) n ≡ some e
unfolding dot_net_env
dot_net_env_keeps envs n e hooks deps store p =
    find-set_dot_net _ "DOTNET_SHARED_STORE" _ n store
    ∙ keeps-set_dot_net _ "OTEL_DOTNET_AUTO_HOME" _ n e (
        find-set_dot_net _ "DOTNET_ADDITIONAL_DEPS" _ n deps
        ∙ find-set_dot_net _ "DOTNET_STARTUP_HOOKS" _ n hooks
        ∙ keeps-set_dot_net _ "CORECLR_PROFILER_PATH" _ n e (
            keeps-set_dot_net _ "CORECLR_PROFILER" _ n e
              (keeps-set_dot_net envs "CORECLR_ENABLE_PROFILING" _ n e p)))
