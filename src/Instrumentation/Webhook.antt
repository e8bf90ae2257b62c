-- ===== src/Instrumentation/Webhook.antt =====
-- apis/v1alpha1/instrumentation_webhook.go: the defaults and the validation of an Instrumentation.
pub mod Laws
pub mod Stable
use opentelemetry_operator.Prelude.{
  String, List, [], ◌∷◌, Bool, true, false, ◌&&◌, ◌||◌, not, Option, none, some, ◌==◌,
  if◌then◌else◌, has_prefix,
}
use opentelemetry_operator.GoMap.{Map, get, read, put}
use opentelemetry_operator.Kube.{EnvVar, ResourceRequirements}
use opentelemetry_operator.Instrumentation.Types.{
  Agent, ApacheHttpd, Sampler, Spec, Instrumentation,
}

abbrev or_resources : Option (Map String) → Map String → Option (Map String)
or_resources none d = some d
or_resources (some r) d = some r

abbrev or_image : Option String → String → String
or_image none image = image
or_image (some val) image = val

-- The image of the annotation, if none is given and there is one.
default_image : Map String → String → String → String
default_image annotations annotation image =
    if image == "" then or_image (get annotations annotation) image else image

default_resources : String → String → String → ResourceRequirements → ResourceRequirements
default_resources memory cpu_limit cpu r = record {
  limits = or_resources r.limits (("cpu", cpu_limit) ∷ ("memory", memory) ∷ []);
  requests = or_resources r.requests (("cpu", cpu) ∷ ("memory", memory) ∷ []);
}

default_agent : Map String → String → String → Agent → Agent
unfolding default_image default_resources
default_agent annotations annotation memory a = record a {
  image = default_image annotations annotation a.image;
  resources = default_resources memory "500m" "50m" a.resources;
}

default_apache : Map String → ApacheHttpd → ApacheHttpd
unfolding default_image default_resources
default_apache annotations a = record a {
  image =
      default_image annotations
        "instrumentation.opentelemetry.io/default-auto-instrumentation-apache-httpd-image" a.image;
  resources = default_resources "128Mi" "500m" "1m" a.resources;
  version = if a.version == "" then "2.4" else a.version;
  config_path = if a.config_path == "" then "/usr/local/apache2/conf" else a.config_path;
}

default_labels : Map String → Map String
default_labels labels =
    if read labels "app.kubernetes.io/managed-by" == ""
    then put labels "app.kubernetes.io/managed-by" "opentelemetry-operator"
    else labels

unfoldable pub default_spec : Map String → Spec → Spec
unfolding default_agent default_apache
default_spec annotations s = record s {
  java =
      default_agent annotations
        "instrumentation.opentelemetry.io/default-auto-instrumentation-java-image" "64Mi" s.java;
  node_js =
      default_agent annotations
        "instrumentation.opentelemetry.io/default-auto-instrumentation-nodejs-image" "128Mi"
        s.node_js;
  python =
      default_agent annotations
        "instrumentation.opentelemetry.io/default-auto-instrumentation-python-image" "32Mi"
        s.python;
  dot_net =
      default_agent annotations
        "instrumentation.opentelemetry.io/default-auto-instrumentation-dotnet-image" "128Mi"
        s.dot_net;
  go =
      default_agent annotations
        "instrumentation.opentelemetry.io/default-auto-instrumentation-go-image" "32Mi" s.go;
  apache_httpd = default_apache annotations s.apache_httpd;
}

unfoldable pub default : Instrumentation → Instrumentation
unfolding default_labels
default r = record r { labels = default_labels r.labels; spec = default_spec r.annotations r.spec }

-- strconv.ParseFloat, and the comparisons of its result.
pub record Floats : Type 1 where
  pub Float : Type 0
  pub parse_float : String → Option Float
  pub below_zero : Float → Bool
  pub above_one : Float → Bool

pub data Error : Type 0 where
  not_a_number : Error
  out_of_range : Error
  bad_env_name : String → Error

-- The first error, if there is one.
abbrev pub or_error : Option Error → Option Error → Option Error
or_error none e = e
or_error (some x) e = some x

abbrev pub is_ratio : String → Bool
is_ratio t = t == "traceidratio" || t == "parentbased_traceidratio"

module _ (floats : Floats) where
  abbrev check_rate : Option floats.Float → Option Error
  check_rate none = some not_a_number
  check_rate (some rate) =
      if floats.below_zero rate || floats.above_one rate then some out_of_range else none

  unfoldable pub validate_sampler : Sampler → Option Error
  validate_sampler s =
      if is_ratio s.type_name && not (s.argument == "")
      then check_rate (floats.parse_float s.argument)
      else none

abbrev pub has_env_prefix : String → Bool
has_env_prefix name = has_prefix name "OTEL_" || has_prefix name "SPLUNK_"

unfoldable pub validate_env : List EnvVar → Option Error
validate_env [] = none
validate_env (e ∷ envs) =
    let rest = validate_env envs in
    if not (has_prefix e.name "OTEL_") && not (has_prefix e.name "SPLUNK_")
    then some (bad_env_name e.name)
    else rest

unfoldable pub validate : Floats → Spec → Option Error
validate floats s = or_error (validate_sampler floats s.sampler) (
    or_error (validate_env s.env) (
      or_error (validate_env s.java.env) (
        or_error (validate_env s.node_js.env) (
          or_error (validate_env s.python.env) (
            or_error (validate_env s.dot_net.env)
              (or_error (validate_env s.go.env) (validate_env s.apache_httpd.env)))))))
