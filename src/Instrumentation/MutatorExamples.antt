-- ===== src/Instrumentation/MutatorExamples.antt =====
-- Runs of the instrumentation mutator on the pod of Examples.
use opentelemetry_operator.Prelude.{
  ℕ, String, [], ◌∷◌, true, Option, none, some, ◌≡◌, refl, arith, get_elem?, zero, suc, subst, sym,
  eq_of_some, equal_fold, lower_is, trim_space, split, has_suffix, join, sort,
}
use opentelemetry_operator.GoMap.{read, get, put, keys}
use opentelemetry_operator.Kube.{Container, OwnerReference, Pod, Namespace}
use opentelemetry_operator.Instrumentation.Env.{
  get_index_of_env, without, move_env_to_list_end, add_env_if_missing, inject_env, update_value,
  set_or_update, defined_from, validate_container_env,
}
use opentelemetry_operator.Instrumentation.Agents.{
  java_env, has_container, is_init_container_missing, is_auto_instrumentation_injected, mount_agent,
  init_container, inject_agent, refuse_value_from, inject_javaagent,
}
use opentelemetry_operator.Instrumentation.Resources.{
  existing, add_parent_resource_labels, create_resource_map, resource_map_to_str,
  choose_service_name,
}
use opentelemetry_operator.Instrumentation.Resources.Fuel.{IsRanked}
use opentelemetry_operator.Instrumentation.Sdk.{
  with_env, inject_common_env_var, from_fields, set_resource_attributes, sdk_env,
  inject_common_sdk_config, inject_common, inject_language, inject_go,
}
use opentelemetry_operator.Instrumentation.Inject.{
  find_container, inject_apache, inject_sdk, inject_at, inject, LanguageInstrumentations,
}
use opentelemetry_operator.Instrumentation.Inject.Extends.{Extends}
use opentelemetry_operator.Instrumentation.Mutator.{
  ok, annotation_value, only, select_instance, get_instrumentation_instance, get_instances, is_none,
  are_none, inject_each, mutate_with, mutate,
}
use opentelemetry_operator.Instrumentation.Mutator.Total.{mutate_total}
use opentelemetry_operator.Instrumentation.Mutator.Once.{mutate_once}
use opentelemetry_operator.Instrumentation.Examples.{
  pod, namespace, owners, client, gates, app, instrumentation,
}

ranked : IsRanked (λ name. 0) owners namespace.name
unfolding lower_is
ranked name zero o e is = absurd (
    cc
      (subst (λ (x : OwnerReference). lower_is x.kind "replicaset" ≡ true) (sym (eq_of_some e)) is))
ranked name (suc i) o e is = absurd (cc)

mutate_total_example :
    (q : Pod) × (e : Option String) × (mutate 2 owners client gates namespace pod ≡ some (q, e))
    × Extends pod q
mutate_total_example =
    mutate_total 2 owners client gates namespace (λ name. 0) ranked (λ name. omega arith) pod

result_of : Option (Pod × Option String) → Pod
result_of none = pod
result_of (some (q, e)) = q

-- The pod that Mutate returns.
instrumented : Pod
unfolding result_of
instrumented = result_of (mutate 2 owners client gates namespace pod)

abbrev only_java : LanguageInstrumentations
only_java = record {
  java = some instrumentation;
  node_js = none;
  python = none;
  dot_net = none;
  apache_httpd = none;
  go = none;
  sdk = none;
}

asks_java : get_instances client gates namespace pod ≡ ok only_java
unfolding get_instances get_instrumentation_instance select_instance only annotation_value read
    equal_fold get
asks_java = refl

mutated : mutate 2 owners client gates namespace pod ≡ some (instrumented, none)
unfolding instrumented result_of mutate mutate_with get_instances get_instrumentation_instance
    select_instance only annotation_value read equal_fold get are_none is_none inject_each inject
    inject_at inject_language inject_go inject_apache inject_sdk inject_common inject_common_env_var
    inject_common_sdk_config with_env sdk_env set_resource_attributes from_fields
    create_resource_map add_parent_resource_labels existing resource_map_to_str choose_service_name
    inject_javaagent inject_agent refuse_value_from mount_agent init_container
    is_init_container_missing is_auto_instrumentation_injected has_container java_env inject_env
    add_env_if_missing get_index_of_env set_or_update update_value move_env_to_list_end without
    validate_container_env defined_from find_container split trim_space lower_is has_suffix join
    sort put keys
mutated = refl

accepts :
    (i : ℕ) (c : Container)
    → get_elem? pod.containers i ≡ some c
    → validate_container_env c.env ("JAVA_TOOL_OPTIONS" ∷ []) ≡ none
unfolding validate_container_env defined_from
accepts zero c e =
    subst (λ (x : Container). validate_container_env x.env ("JAVA_TOOL_OPTIONS" ∷ []) ≡ none)
      (eq_of_some e) refl
accepts (suc i) c e = absurd (cc)

mutate_once_example :
    (is_auto_instrumentation_injected instrumented ≡ true)
    × (mutate 2 owners client gates namespace instrumented ≡ some (instrumented, none))
mutate_once_example =
    mutate_once 2 owners client gates namespace pod instrumented only_java instrumentation app []
      asks_java refl refl accepts mutated

abbrev refusing : Pod
refusing = record pod {
  annotations = ("instrumentation.opentelemetry.io/inject-java", "FALSE") ∷ [];
}

abbrev asking : Namespace
asking = record {
  name = "ns";
  annotations = ("instrumentation.opentelemetry.io/inject-java", "true") ∷ [];
}
