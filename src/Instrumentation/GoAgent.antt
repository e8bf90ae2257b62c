-- ===== src/Instrumentation/GoAgent.antt =====
-- pkg/instrumentation/golang.go: the agent of Go programs is a container of its own.
pub mod Cases
use opentelemetry_operator.Prelude.{
  ℕ, String, List, [], ◌∷◌, ◌++◌, Bool, true, false, Option, none, some, ◌==◌, ◌||◌, not, get_elem?,
  set, is_some, if◌then◌else◌, ◌<+>◌, split, length, leb,
}
use opentelemetry_operator.GoMap.{get}
use opentelemetry_operator.Kube.{
  EnvVar, Container, Pod, Volume, VolumeMount, VolumeSource, ResourceRequirements,
}
use opentelemetry_operator.Instrumentation.Types.{Agent}
use opentelemetry_operator.Instrumentation.Env.{
  get_index_of_env, inject_env, set_or_update, validate_container_env, env_var,
}
use opentelemetry_operator.Instrumentation.Agents.{agent_name}

-- The sidecar that instruments Go programs.
go_agent : Agent → List EnvVar → Container
go_agent spec envs = record {
  name = agent_name;
  image = spec.image;
  command = [];
  args = [];
  env = envs;
  volume_mounts = record { name = "kernel-debug"; mount_path = "/sys/kernel/debug" } ∷ [];
  resources = spec.resources;
  security_context = some (record {
    run_as_user = some 0;
    privileged = some true;
    capabilities_add = "SYS_PTRACE" ∷ [];
  });
}

-- The annotation goes before the variables of the spec.
exec_path_env : Option String → List EnvVar
exec_path_env none = []
exec_path_env (some path) = env_var "OTEL_GO_AUTO_TARGET_EXE" path ∷ []

is_disabled : Option Bool → Bool
is_disabled none = false
is_disabled (some b) = not b

-- More than one name in the annotation, if there is one.
names_several : Option String → Bool
names_several none = false
names_several (some names) = leb 2 (length (split names 44))

abbrev disabled_error : String
disabled_error = "shared process namespace has been explicitly disabled"

abbrev several_error : String
several_error =
    "go instrumentation cannot be injected into a pod using instrumentation.opentelemetry.io/container-names with more than 1 container"

-- The pod with the sidecar, the volume of its mount, and a shared process namespace.
add_go_agent : Agent → Pod → Pod
unfolding go_agent exec_path_env
add_go_agent spec pod =
    let envs =
      exec_path_env
        (get pod.annotations "instrumentation.opentelemetry.io/otel-go-auto-target-exe") in
    record pod {
      share_process_namespace = some true;
      containers = pod.containers ++ (go_agent spec (inject_env envs spec.env) ∷ []);
      volumes =
          pod.volumes
          ++ (record { name = "kernel-debug"; source = VolumeSource.host_path "/sys/kernel/debug" }
              ∷ []);
    }

unfoldable pub inject_go_sdk : Agent → Pod → Pod × Option String
unfolding add_go_agent is_disabled names_several
inject_go_sdk spec pod =
    if is_disabled pod.share_process_namespace
    then (pod, some disabled_error)
    else if names_several (get pod.annotations "instrumentation.opentelemetry.io/container-names")
    then (pod, some several_error)
    else (add_go_agent spec pod, none)
