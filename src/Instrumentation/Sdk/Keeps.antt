-- ===== src/Instrumentation/Sdk/Keeps.antt =====
-- What injectCommonSDKConfig leaves of a container's environment, and where it puts
-- OTEL_RESOURCE_ATTRIBUTES.
use opentelemetry_operator.Prelude.{
  String, List, [], ◌∷◌, ◌++◌, Bool, true, false, some, ◌≡◌, ◌∙◌, arith, ◌==◌, is_some,
  if◌then◌else◌, Bool-cases, inl, inr, ◌<+>◌, has_suffix,
}
use opentelemetry_operator.GoMap.{read, Map}
use opentelemetry_operator.Kube.{EnvVar}
use opentelemetry_operator.Instrumentation.Types.{Spec, Sampler}
use opentelemetry_operator.Instrumentation.Env.{
  get_index_of_env, add_env_if_missing, env_var, env_from_field,
}
use opentelemetry_operator.Instrumentation.Env.Laws.{
  find_env, find-append, find-add_env, find-set_or_update, find-move_env,
}
use opentelemetry_operator.Instrumentation.Resources.{resource_map_to_str}
use opentelemetry_operator.Instrumentation.Sdk.{
  from_field, from_fields, set_resource_attributes, set_endpoint, set_propagators, set_sampler,
  sampler_vars, sdk_env,
}

-- The definitions of the one environment are those that the other finds first.
abbrev pub Keeps : List EnvVar → List EnvVar → Type 0
Keeps envs envs' = (n : String) (e : EnvVar) → find_env envs n ≡ some e → find_env envs' n ≡ some e

Keeps-append : (envs more : List EnvVar) → Keeps envs (envs ++ more)
Keeps-append envs more n e p = ground (arith, find-append envs more n, p)

pub Keeps-add : (envs : List EnvVar) (v : EnvVar) → Keeps envs (add_env_if_missing envs v)
Keeps-add envs v n e p = ground (arith, find-add_env envs v n, p)

Keeps-if :
    (b : Bool) (envs l r : List EnvVar)
    → Keeps envs l
    → Keeps envs r
    → Keeps envs (if b then l else r)
Keeps-if true envs l r h k = h
Keeps-if false envs l r h k = k

pub Keeps-set_endpoint :
    (endpoint : String) (envs : List EnvVar) → Keeps envs (set_endpoint endpoint envs)
unfolding set_endpoint
Keeps-set_endpoint endpoint envs =
    Keeps-if (endpoint == "") envs envs _ (λ n e p. p)
      (Keeps-add envs (env_var "OTEL_EXPORTER_OTLP_ENDPOINT" endpoint))

Keeps-from_field :
    (key name path : String) (envs : List EnvVar) (res : Map String)
    → Keeps envs (from_field key name path (envs, res)).0
unfolding from_field
Keeps-from_field key name path envs res n e p = elim (Bool-cases (read res key == "")) [
  | inl q ↦ rw (q, Keeps-append envs (env_from_field name path ∷ []) n e p)
  | inr q ↦ rw q p
]

pub Keeps-from_fields :
    (uid : Bool) (envs : List EnvVar) (res : Map String)
    → Keeps envs (from_fields uid (envs, res)).0
unfolding from_fields
Keeps-from_fields true envs res n e p =
    Keeps-from_field "k8s.node.name" "OTEL_RESOURCE_ATTRIBUTES_NODE_NAME" "spec.nodeName" _ _ n e (
      Keeps-from_field "k8s.pod.uid" "OTEL_RESOURCE_ATTRIBUTES_POD_UID" "metadata.uid" _ _ n e (
        Keeps-from_field "k8s.pod.name" "OTEL_RESOURCE_ATTRIBUTES_POD_NAME" "metadata.name" envs res
          n e p))
Keeps-from_fields false envs res n e p =
    Keeps-from_field "k8s.node.name" "OTEL_RESOURCE_ATTRIBUTES_NODE_NAME" "spec.nodeName" _ _ n e (
      Keeps-from_field "k8s.pod.name" "OTEL_RESOURCE_ATTRIBUTES_POD_NAME" "metadata.name" envs res n
        e p)

pub Keeps-set_propagators :
    (propagators : List String) (envs : List EnvVar) → Keeps envs (set_propagators propagators envs)
unfolding set_propagators
Keeps-set_propagators [] envs n e p = p
Keeps-set_propagators (x ∷ xs) envs n e p = Keeps-add envs _ n e p

pub Keeps-set_sampler :
    (sampler : Sampler) (envs : List EnvVar) → Keeps envs (set_sampler sampler envs)
unfolding set_sampler
Keeps-set_sampler sampler envs =
    Keeps-if (is_some (get_index_of_env envs "OTEL_TRACES_SAMPLER")) envs envs _ (λ n e p. p)
      (Keeps-if (sampler.type_name == "") envs envs _ (λ n e p. p)
        (Keeps-if (is_some (get_index_of_env envs "OTEL_TRACES_SAMPLER_ARG")) envs envs _
          (λ n e p. p) (Keeps-append envs (sampler_vars sampler))))

abbrev pub resource_attributes : String
resource_attributes = "OTEL_RESOURCE_ATTRIBUTES"

-- The text that OTEL_RESOURCE_ATTRIBUTES gets after what it held.
abbrev pub extend : String → String → String
extend res_str v = if has_suffix v "," then v <+> res_str else v <+> "," <+> res_str

-- A container's own definition of a variable other than OTEL_RESOURCE_ATTRIBUTES stays the one that
-- a lookup finds.
pub sdk_env-KeepsOther :
    (spec : Spec) (service_name : String) (resource_map : Map String) (envs : List EnvVar)
    (n : String) (e : EnvVar)
    → (resource_attributes == n) ≡ false
    → find_env envs n ≡ some e
    → find_env (sdk_env spec service_name resource_map envs) n ≡ some e
unfolding sdk_env set_resource_attributes
sdk_env-KeepsOther spec service_name resource_map envs n e other p =
    let e1 = add_env_if_missing envs (env_var "OTEL_SERVICE_NAME" service_name) in
    let e2 = set_endpoint spec.exporter_endpoint e1 in
    let x = from_fields spec.add_k8s_uid_attributes (e2, resource_map) in
    let e4 = set_resource_attributes x.0 (resource_map_to_str x.1) in
    let e5 = set_propagators spec.propagators e4 in
    let p3 = Keeps-from_fields spec.add_k8s_uid_attributes e2 resource_map n e (
      Keeps-set_endpoint spec.exporter_endpoint e1 n e
        (Keeps-add envs (env_var "OTEL_SERVICE_NAME" service_name) n e p)) in
    let p4 : find_env e4 n ≡ some e = ground (
      arith,
      find-set_or_update x.0 resource_attributes (resource_map_to_str x.1)
          (extend (resource_map_to_str x.1)) n,
      other,
      p3,
    ) in
    find-move_env (set_sampler spec.sampler e5) resource_attributes n other
    ∙ Keeps-set_sampler spec.sampler e5 n e (Keeps-set_propagators spec.propagators e4 n e p4)
