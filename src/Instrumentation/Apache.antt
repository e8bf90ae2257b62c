-- ===== src/Instrumentation/Apache.antt =====
-- pkg/instrumentation/apachehttpd.go: an agent that is configured by files on a shared volume.
pub mod Shape
use opentelemetry_operator.Prelude.{
  ℕ, zero, suc, String, List, [], ◌∷◌, ◌++◌, Bool, Option, none, some, ◌==◌, not, for_each,
  get_elem?, set, if◌then◌else◌, ◌<+>◌, contains, sort,
}
use opentelemetry_operator.GoMap.{read, Map, put, keys}
use opentelemetry_operator.Kube.{EnvVar, Container, Pod, VolumeMount, VolumeSource}
use opentelemetry_operator.Instrumentation.Types.{ApacheHttpd}
use opentelemetry_operator.Instrumentation.Env.{inject_env, env_var, env_from_field, without}
use opentelemetry_operator.Instrumentation.Agents.{has_container}
use opentelemetry_operator.Instrumentation.Resources.{choose_service_name}

abbrev config_directory : String
config_directory = "/usr/local/apache2/conf"

abbrev agent_dir_full : String
agent_dir_full = "/opt/opentelemetry-webserver/agent"

abbrev agent_conf_dir_full : String
agent_conf_dir_full = "/opt/opentelemetry-webserver/source-conf"

abbrev agent_config_file : String
agent_config_file = "opentemetry_agent.conf"

abbrev config_volume : String
config_volume = "otel-apache-conf-dir"

abbrev agent_volume : String
agent_volume = "otel-apache-agent"

abbrev pub clone_name : String
clone_name = "otel-agent-source-container-clone"

abbrev pub attach_name : String
attach_name = "otel-agent-attach-apache"

unfoldable pub is_apache_init_container_missing : Pod → String → Bool
is_apache_init_container_missing pod name = not (has_container pod.init_containers name)

-- The mounts without the first that may pass an Apache configuration.
drop_config_mount : List VolumeMount → List VolumeMount
drop_config_mount [] = []
drop_config_mount (v ∷ vs) =
    let rest = drop_config_mount vs in
    if contains v.mount_path config_directory then vs else v ∷ rest

-- The init container that copies the configuration of the container's image.
clone_container : ApacheHttpd → Container → Container
clone_container spec c = record c {
  name = clone_name;
  command = "/bin/sh" ∷ "-c" ∷ [];
  args = ("cp -r /usr/local/apache2/conf/* " <+> agent_conf_dir_full) ∷ [];
  volume_mounts =
      c.volume_mounts ++ (record { name = config_volume; mount_path = agent_conf_dir_full } ∷ []);
  resources = spec.resources;
}

-- The instrumented container with the agent and the configuration mounted.
mount_apache : Container → Container
unfolding drop_config_mount
mount_apache c = record c {
  volume_mounts =
      drop_config_mount c.volume_mounts
      ++ (record { name = agent_volume; mount_path = agent_dir_full }
          ∷ record { name = config_volume; mount_path = config_directory }
          ∷ []);
}

load_line : String → String
load_line file = "LoadFile " <+> agent_dir_full <+> "/sdk_lib/lib/" <+> file <+> ".so\n"

module_line : String → String → String
module_line prefix suffix =
    prefix <+> "LoadModule otel_apache_module " <+> agent_dir_full
    <+> "/WebServerModule/Apache/libmod_apache_otel" <+> suffix <+> ".so\n"

-- The template with the agent's directory and the version's suffix.
template : String → String
unfolding load_line module_line
template version_suffix =
    "\n#Load the Otel Webserver SDK\n"
    <+> load_line "libopentelemetry_common"
    <+> load_line "libopentelemetry_resources"
    <+> load_line "libopentelemetry_trace"
    <+> load_line "libopentelemetry_otlp_recordable"
    <+> load_line "libopentelemetry_exporter_ostream_span"
    <+> load_line "libopentelemetry_exporter_otlp_grpc"
    <+> "#Load the Otel ApacheModule SDK\n"
    <+> load_line "libopentelemetry_webserver_sdk"
    <+> "#Load the Apache Module. In this example for Apache 2.4\n"
    <+> module_line "#" ""
    <+> "#Load the Apache Module. In this example for Apache 2.2\n"
    <+> module_line "#" "22"
    <+> module_line "" version_suffix
    <+> "#Attributes\n"

put_attrs : Map String → List EnvVar → Map String
put_attrs m [] = m
put_attrs m (a ∷ attrs) = put_attrs (put m a.name a.value) attrs

config_line : Map String → String → String → String
config_line m text key = text <+> key <+> " " <+> read m key <+> "\n"

unfoldable pub get_apache_otel_config : Pod → ApacheHttpd → Container → String → Map String → String
unfolding template put_attrs config_line
get_apache_otel_config pod spec c endpoint resource_map =
    let attrs : Map String =
      ("ApacheModuleEnabled", "ON")
      ∷ ("ApacheModuleOtelSpanExporter", "otlp")
      ∷ (
        "ApacheModuleOtelExporterEndpoint",
        if endpoint == "" then "http://localhost:4317/" else endpoint,
      )
      ∷ ("ApacheModuleServiceName", choose_service_name c resource_map)
      ∷ ("ApacheModuleServiceNamespace", pod.namespace)
      ∷ ("ApacheModuleServiceInstanceId", "<<SID-PLACEHOLDER>>")
      ∷ ("ApacheModuleResolveBackends", " ON")
      ∷ ("ApacheModuleTraceAsError", " ON")
      ∷ [] in
    let attr_map = put_attrs attrs spec.attrs in
    for_each (config_line attr_map) (template (if spec.version == "2.2" then "22" else ""))
      (sort (keys attr_map))

attach_script : String
attach_script =
    "cp -ar /opt/opentelemetry/* " <+> agent_dir_full <+> " && export agentLogDir=$(echo \""
    <+> agent_dir_full <+> "/logs\" | sed 's,/,\\\\/,g') && cat " <+> agent_dir_full
    <+> "/conf/appdynamics_sdk_log4cxx.xml.template | sed 's/__agent_log_dir__/'${agentLogDir}'/g'  > "
    <+> agent_dir_full <+> "/conf/appdynamics_sdk_log4cxx.xml &&echo \"$OTEL_APACHE_AGENT_CONF\" > "
    <+> agent_conf_dir_full <+> "/" <+> agent_config_file
    <+> " && sed -i 's/<<SID-PLACEHOLDER>>/'${APACHE_SERVICE_INSTANCE_ID}'/g' "
    <+> agent_conf_dir_full <+> "/" <+> agent_config_file <+> " && echo 'Include "
    <+> config_directory <+> "/" <+> agent_config_file <+> "' >> " <+> agent_conf_dir_full
    <+> "/httpd.conf"

-- The init container with the agent's module.
attach_container : ApacheHttpd → String → Container
unfolding attach_script
attach_container spec config = record {
  name = attach_name;
  image = spec.image;
  command = "/bin/sh" ∷ "-c" ∷ [];
  args = attach_script ∷ [];
  env =
      env_var "OTEL_APACHE_AGENT_CONF" config
      ∷ env_from_field "APACHE_SERVICE_INSTANCE_ID" "metadata.name"
      ∷ [];
  volume_mounts =
      record { name = agent_volume; mount_path = agent_dir_full }
      ∷ record { name = config_volume; mount_path = agent_conf_dir_full }
      ∷ [];
  resources = spec.resources;
  security_context = none;
}

-- The volume, the clone and the mounts, for the first processed container.
unfoldable pub clone_apache : ApacheHttpd → Pod → ℕ → Container → Pod
unfolding clone_container mount_apache
clone_apache spec pod index c =
    if is_apache_init_container_missing pod clone_name
    then record pod {
      containers = set pod.containers index (mount_apache c);
      init_containers = pod.init_containers ++ (clone_container spec c ∷ []);
      volumes =
          pod.volumes ++ (record { name = config_volume; source = VolumeSource.empty_dir } ∷ []);
    }
    else record pod { containers = set pod.containers index c }

unfoldable pub attach_apache : ApacheHttpd → Pod → Container → String → Map String → Pod
unfolding attach_container
attach_apache spec pod c endpoint resource_map =
    if is_apache_init_container_missing pod attach_name
    then record pod {
      init_containers =
          pod.init_containers
          ++ (attach_container spec (get_apache_otel_config pod spec c endpoint resource_map) ∷ []);
      volumes =
          pod.volumes ++ (record { name = agent_volume; source = VolumeSource.empty_dir } ∷ []);
    }
    else pod

unfoldable pub inject_apache_httpdagent : ApacheHttpd → Pod → ℕ → String → Map String → Option Pod
inject_apache_httpdagent spec pod index endpoint resource_map =
    elim (get_elem? pod.containers index) [
      | none ↦ none
      | some c ↦
          let c' = record c { env = inject_env c.env spec.env } in
          some (attach_apache spec (clone_apache spec pod index c') c' endpoint resource_map)
    ]
