-- ===== src/Instrumentation/Agents.antt =====
-- The language agents: javaagent.go, nodejs.go, python.go and dotnet.go of
-- pkg/instrumentation, with helper.go. The result is Go's pair of a pod and an error, as a text where
-- there is one; `none` is a panic, an index out of range.
pub mod Variables
use opentelemetry_operator.Prelude.{
  ℕ, String, List, [], ◌∷◌, ◌++◌, Bool, true, false, Option, none, some, ◌==◌, ◌||◌, not, get_elem?,
  set, is_some, if◌then◌else◌, ◌<+>◌, split, length, leb,
}
use opentelemetry_operator.GoMap.{get}
use opentelemetry_operator.Kube.{
  EnvVar, Container, Pod, Volume, VolumeMount, VolumeSource, ResourceRequirements,
}
use opentelemetry_operator.Instrumentation.Types.{Agent}
use opentelemetry_operator.Instrumentation.Env.{
  get_index_of_env, inject_env, set_or_update, validate_container_env, env_var,
}

abbrev pub agent_name : String
agent_name = "opentelemetry-auto-instrumentation"

unfoldable pub has_container : List Container → String → Bool
has_container [] name = false
has_container (c ∷ cs) name = c.name == name || has_container cs name

unfoldable pub is_init_container_missing : Pod → Bool
is_init_container_missing pod = not (has_container pod.init_containers agent_name)

unfoldable pub is_auto_instrumentation_injected : Pod → Bool
is_auto_instrumentation_injected pod =
    has_container pod.init_containers agent_name || has_container pod.containers agent_name

abbrev pub agent_mount : VolumeMount
agent_mount = record { name = agent_name; mount_path = "/otel-auto-instrumentation" }

-- The init container that copies the agent to the volume.
unfoldable pub init_container : Agent → List String → Container
init_container spec command = record {
  name = agent_name;
  image = spec.image;
  command = command;
  args = [];
  env = [];
  volume_mounts = agent_mount ∷ [];
  resources = spec.resources;
  security_context = none;
}

-- The end of each agent's injection: the container's mount, and the volume and the init container of
-- the first processed container.
unfoldable pub mount_agent : Agent → List String → Pod → ℕ → Container → List EnvVar → Pod
unfolding init_container is_init_container_missing
mount_agent spec command pod index c envs =
    let c' = record c { env = envs; volume_mounts = c.volume_mounts ++ (agent_mount ∷ []) } in
    let pod' = record pod { containers = set pod.containers index c' } in
    if is_init_container_missing pod'
    then record pod' {
      volumes = pod.volumes ++ (record { name = agent_name; source = VolumeSource.empty_dir } ∷ []);
      init_containers = pod.init_containers ++ (init_container spec command ∷ []);
    }
    else pod'

-- An injection over the environment of the container, unless it is refused.
unfoldable pub inject_agent :
    Agent
    → List String
    → (List EnvVar → Option String)
    → (List EnvVar → List EnvVar)
    → Pod
    → ℕ
    → Option (Pod × Option String)
inject_agent spec command refuse change pod index = elim (get_elem? pod.containers index) [
  | none ↦ none
  | some c ↦ elim (refuse c.env) [
    | some err ↦ some (pod, some err)
    | none ↦ some (mount_agent spec command pod index c (change (inject_env c.env spec.env)), none)
  ]
]

value_from_error : Option String → Option String
value_from_error none = none
value_from_error (some name) =
    some ("the container defines env var value via ValueFrom, envVar: " <+> name)

-- validateContainerEnv(container.Env, names…)
unfoldable pub refuse_value_from : List String → List EnvVar → Option String
unfolding value_from_error
refuse_value_from names envs = value_from_error (validate_container_env envs names)

unfoldable pub java_env : List EnvVar → List EnvVar
java_env envs =
    let arg : String = " -javaagent:/otel-auto-instrumentation/javaagent.jar" in
    set_or_update envs "JAVA_TOOL_OPTIONS" arg (λ v. v <+> arg)

abbrev pub java_command : List String
java_command = "cp" ∷ "/javaagent.jar" ∷ "/otel-auto-instrumentation/javaagent.jar" ∷ []

unfoldable pub inject_javaagent : Agent → Pod → ℕ → Option (Pod × Option String)
inject_javaagent spec =
    inject_agent spec java_command (refuse_value_from ("JAVA_TOOL_OPTIONS" ∷ [])) java_env

abbrev copy_all : List String
copy_all = "cp" ∷ "-a" ∷ "/autoinstrumentation/." ∷ "/otel-auto-instrumentation/" ∷ []

unfoldable pub node_env : List EnvVar → List EnvVar
node_env envs =
    let arg : String = " --require /otel-auto-instrumentation/autoinstrumentation.js" in
    set_or_update envs "NODE_OPTIONS" arg (λ v. v <+> arg)

unfoldable pub inject_node_js_sdk : Agent → Pod → ℕ → Option (Pod × Option String)
inject_node_js_sdk spec =
    inject_agent spec copy_all (refuse_value_from ("NODE_OPTIONS" ∷ [])) node_env

abbrev python_path_prefix : String
python_path_prefix = "/otel-auto-instrumentation/opentelemetry/instrumentation/auto_instrumentation"

abbrev python_path_suffix : String
python_path_suffix = "/otel-auto-instrumentation"

unfoldable pub python_env : List EnvVar → List EnvVar
python_env envs =
    inject_env
      (set_or_update envs "PYTHONPATH" (python_path_prefix <+> ":" <+> python_path_suffix)
        (λ v. python_path_prefix <+> ":" <+> v <+> ":" <+> python_path_suffix))
      (env_var "OTEL_TRACES_EXPORTER" "otlp"
        ∷ env_var "OTEL_EXPORTER_OTLP_TRACES_PROTOCOL" "http/protobuf"
        ∷ env_var "OTEL_METRICS_EXPORTER" "otlp"
        ∷ env_var "OTEL_EXPORTER_OTLP_METRICS_PROTOCOL" "http/protobuf"
        ∷ [])

unfoldable pub inject_python_sdk : Agent → Pod → ℕ → Option (Pod × Option String)
inject_python_sdk spec =
    inject_agent spec copy_all (refuse_value_from ("PYTHONPATH" ∷ [])) python_env

unfoldable pub set_dot_net_env_var : List EnvVar → String → String → Bool → List EnvVar
set_dot_net_env_var envs name value concat_values =
    set_or_update envs name value (λ v. if concat_values then v <+> ":" <+> value else v)

unfoldable pub dot_net_env : List EnvVar → List EnvVar
dot_net_env envs =
    let e1 = set_dot_net_env_var envs "CORECLR_ENABLE_PROFILING" "1" false in
    let e2 =
      set_dot_net_env_var e1 "CORECLR_PROFILER" "{918728DD-259F-4A6A-AC2B-B85E1B658318}" false in
    let e3 =
      set_dot_net_env_var e2 "CORECLR_PROFILER_PATH"
        "/otel-auto-instrumentation/linux-x64/OpenTelemetry.AutoInstrumentation.Native.so" false in
    let e4 =
      set_dot_net_env_var e3 "DOTNET_STARTUP_HOOKS"
        "/otel-auto-instrumentation/net/OpenTelemetry.AutoInstrumentation.StartupHook.dll" true in
    let e5 =
      set_dot_net_env_var e4 "DOTNET_ADDITIONAL_DEPS" "/otel-auto-instrumentation/AdditionalDeps"
        true in
    let e6 = set_dot_net_env_var e5 "OTEL_DOTNET_AUTO_HOME" "/otel-auto-instrumentation" false in
    set_dot_net_env_var e6 "DOTNET_SHARED_STORE" "/otel-auto-instrumentation/store" true

-- The checks of injectDotNetSDK, in their order.
unfoldable pub refuse_dot_net : Agent → List EnvVar → Option String
refuse_dot_net spec envs =
    let names = "DOTNET_STARTUP_HOOKS" ∷ "DOTNET_ADDITIONAL_DEPS" ∷ "DOTNET_SHARED_STORE" ∷ [] in
    let home : String = "OTEL_DOTNET_AUTO_HOME" in
    elim (refuse_value_from names envs) [
      | some err ↦ some err
      | none ↦
          if is_some (get_index_of_env envs home)
          then some "OTEL_DOTNET_AUTO_HOME environment variable is already set in the container"
          else if is_some (get_index_of_env spec.env home)
          then some
              "OTEL_DOTNET_AUTO_HOME environment variable is already set in the .NET instrumentation spec"
          else none
    ]

unfoldable pub inject_dot_net_sdk : Agent → Pod → ℕ → Option (Pod × Option String)
inject_dot_net_sdk spec = inject_agent spec copy_all (refuse_dot_net spec) dot_net_env
