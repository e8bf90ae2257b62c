-- ===== src/Instrumentation/Sdk.antt =====
-- The injector of pkg/instrumentation/sdk.go: injectCommonEnvVar, injectCommonSDKConfig and inject.
pub mod Keeps
pub mod Last
use opentelemetry_operator.Prelude.{
  ℕ, suc, ◌-◌, String, List, [], ◌∷◌, ◌++◌, Bool, true, false, Option, none, some, ◌==◌, ◌>>=◌,
  get_elem?, set, length, is_some, if◌then◌else◌, ◌<+>◌, has_suffix, join,
}
use opentelemetry_operator.GoMap.{read, Map, put}
use opentelemetry_operator.Kube.{EnvVar, Container, Pod, Namespace}
use opentelemetry_operator.Instrumentation.Types.{Agent, Instrumentation, Spec, Sampler}
use opentelemetry_operator.Instrumentation.Env.{
  get_index_of_env, move_env_to_list_end, add_env_if_missing, inject_env, env_var, env_from_field,
  set_or_update,
}
use opentelemetry_operator.Instrumentation.Agents.{
  inject_javaagent, inject_node_js_sdk, inject_python_sdk, inject_dot_net_sdk,
}
use opentelemetry_operator.Instrumentation.GoAgent.{inject_go_sdk}
use opentelemetry_operator.Instrumentation.Resources.{
  Owners, create_resource_map, resource_map_to_str, choose_service_name,
}

-- container.Env = envs
unfoldable pub with_env : Pod → ℕ → Container → List EnvVar → Pod
with_env pod index c envs = record pod {
  containers = set pod.containers index (record c { env = envs });
}

unfoldable pub inject_common_env_var : Instrumentation → Pod → ℕ → Option Pod
inject_common_env_var otelinst pod index = do
  c ← get_elem? pod.containers index
  some (with_env pod index c (inject_env c.env otelinst.spec.env))

-- An attribute without a value is read from the pod's fields.
from_field : String → String → String → List EnvVar × Map String → List EnvVar × Map String
from_field key name path (envs, res) =
    if read res key == ""
    then (envs ++ (env_from_field name path ∷ []), put res key ("$(" <+> name <+> ")"))
    else (envs, res)

unfoldable pub from_fields : Bool → List EnvVar × Map String → List EnvVar × Map String
unfolding from_field
from_fields uid x =
    let named = from_field "k8s.pod.name" "OTEL_RESOURCE_ATTRIBUTES_POD_NAME" "metadata.name" x in
    let y =
      if uid
      then from_field "k8s.pod.uid" "OTEL_RESOURCE_ATTRIBUTES_POD_UID" "metadata.uid" named
      else named in
    from_field "k8s.node.name" "OTEL_RESOURCE_ATTRIBUTES_NODE_NAME" "spec.nodeName" y

-- OTEL_RESOURCE_ATTRIBUTES is set, or what it holds is extended.
unfoldable pub set_resource_attributes : List EnvVar → String → List EnvVar
set_resource_attributes envs res_str =
    set_or_update envs "OTEL_RESOURCE_ATTRIBUTES" res_str
      (λ v. if has_suffix v "," then v <+> res_str else v <+> "," <+> res_str)

pub set_endpoint : String → List EnvVar → List EnvVar
set_endpoint endpoint envs =
    if endpoint == ""
    then envs
    else add_env_if_missing envs (env_var "OTEL_EXPORTER_OTLP_ENDPOINT" endpoint)

pub set_propagators : List String → List EnvVar → List EnvVar
set_propagators [] envs = envs
set_propagators (p ∷ ps) envs =
    add_env_if_missing envs (env_var "OTEL_PROPAGATORS" (join (p ∷ ps) ","))

sampler_vars : Sampler → List EnvVar
sampler_vars sampler =
    env_var "OTEL_TRACES_SAMPLER" sampler.type_name
    ∷ (if sampler.argument == ""
        then []
        else env_var "OTEL_TRACES_SAMPLER_ARG" sampler.argument ∷ [])

pub set_sampler : Sampler → List EnvVar → List EnvVar
unfolding sampler_vars
set_sampler sampler envs =
    if is_some (get_index_of_env envs "OTEL_TRACES_SAMPLER")
    then envs
    else if sampler.type_name == ""
    then envs
    else if is_some (get_index_of_env envs "OTEL_TRACES_SAMPLER_ARG")
    then envs
    else envs ++ sampler_vars sampler

-- The environment that injectCommonSDKConfig leaves.
unfoldable pub sdk_env : Spec → String → Map String → List EnvVar → List EnvVar
unfolding from_fields set_endpoint set_propagators set_sampler
sdk_env spec service_name resource_map envs =
    let e1 = add_env_if_missing envs (env_var "OTEL_SERVICE_NAME" service_name) in
    let e2 = set_endpoint spec.exporter_endpoint e1 in
    let (e3, res) = from_fields spec.add_k8s_uid_attributes (e2, resource_map) in
    let e4 = set_resource_attributes e3 (resource_map_to_str res) in
    let e5 = set_propagators spec.propagators e4 in
    let e6 = set_sampler spec.sampler e5 in
    move_env_to_list_end e6 (get_index_of_env e6 "OTEL_RESOURCE_ATTRIBUTES")

module _ (fuel : ℕ) (owners : Owners) where
  unfoldable pub inject_common_sdk_config : Instrumentation → Namespace → Pod → ℕ → ℕ → Option Pod
  inject_common_sdk_config otelinst ns pod agent_index app_index = do
    c ← get_elem? pod.containers agent_index
    resource_map ← create_resource_map fuel owners otelinst ns pod app_index
    app ← get_elem? pod.containers app_index
    some (
        with_env pod agent_index c
          (sdk_env otelinst.spec (choose_service_name app resource_map) resource_map c.env))

  unfoldable pub inject_common : Instrumentation → Namespace → Pod → ℕ → ℕ → Option Pod
  inject_common otelinst ns pod agent_index app_index = do
    pod' ← inject_common_env_var otelinst pod agent_index
    inject_common_sdk_config otelinst ns pod' agent_index app_index

  -- One language: its agent, and the common configuration unless the agent is refused.
  unfoldable pub inject_language :
      (Instrumentation → Pod → ℕ → Option (Pod × Option String))
      → Option Instrumentation
      → Namespace
      → Pod
      → ℕ
      → Option Pod
  inject_language agent none ns pod index = some pod
  inject_language agent (some otelinst) ns pod index = elim (agent otelinst pod index) [
    | none ↦ none
    | some (pod', some err) ↦ some pod'
    | some (pod', none) ↦ inject_common otelinst ns pod' index index
  ]

  -- Go: the configuration goes to the sidecar, and without OTEL_GO_AUTO_TARGET_EXE all is undone.
  unfoldable pub inject_go : Option Instrumentation → Namespace → Pod → Option Pod
  inject_go none ns pod = some pod
  inject_go (some otelinst) ns pod =
      let (pod', refused) = inject_go_sdk otelinst.spec.go pod in
      elim refused [
        | some err ↦ some pod'
        | none ↦ (do
          let last = length pod'.containers - 1
          pod'' ← inject_common otelinst ns pod' last 0
          c ← get_elem? pod''.containers last
          some (if is_some (get_index_of_env c.env "OTEL_GO_AUTO_TARGET_EXE") then pod'' else pod))
      ]
