-- ===== src/Instrumentation/Sdk/Last.antt =====
-- Where injectCommonSDKConfig puts OTEL_RESOURCE_ATTRIBUTES.
use opentelemetry_operator.Prelude.{
  String, List, [], ◌∷◌, ◌++◌, Bool, true, false, some, ◌≡◌, refl, sym, ◌∙◌, ap, arith, ◌==◌,
  if◌then◌else◌, Bool-cases, Option-cases, inl, inr, eq_of_some, ◌<+>◌,
}
use opentelemetry_operator.GoMap.{read, Map, put}
use opentelemetry_operator.Kube.{EnvVar}
use opentelemetry_operator.Instrumentation.Types.{Spec}
use opentelemetry_operator.Instrumentation.Env.{
  get_index_of_env, without, move_env_to_list_end, add_env_if_missing, env_var, env_from_field,
}
use opentelemetry_operator.Instrumentation.Env.Laws.{
  find_env, changed, find-append, find-add_env, find-set_or_update, index-none, index-some,
}
use opentelemetry_operator.Instrumentation.Resources.{resource_map_to_str}
use opentelemetry_operator.Instrumentation.Sdk.{
  from_field, from_fields, set_resource_attributes, set_endpoint, set_propagators, set_sampler,
  sdk_env,
}
use opentelemetry_operator.Instrumentation.Sdk.Keeps.{
  resource_attributes, extend, Keeps-set_propagators, Keeps-set_sampler,
}

-- The first definition of OTEL_RESOURCE_ATTRIBUTES is the same.
abbrev SameAttributes : List EnvVar → List EnvVar → Type 0
SameAttributes envs envs' = find_env envs' resource_attributes ≡ find_env envs resource_attributes

Same-append :
    (envs : List EnvVar) (v : EnvVar)
    → (v.name == resource_attributes) ≡ false
    → SameAttributes envs (envs ++ (v ∷ []))
unfolding find_env
Same-append envs v other = elim (Option-cases (find_env envs resource_attributes)) [
  | inl p ↦ ground (arith, find-append envs (v ∷ []) resource_attributes, p, other)
  | inr (e, p) ↦ ground (arith, find-append envs (v ∷ []) resource_attributes, p)
]

Same-add :
    (envs : List EnvVar) (v : EnvVar)
    → (v.name == resource_attributes) ≡ false
    → SameAttributes envs (add_env_if_missing envs v)
unfolding find_env
Same-add envs v other = elim (Option-cases (find_env envs resource_attributes)) [
  | inl p ↦ ground (arith, find-add_env envs v resource_attributes, p, other)
  | inr (e, p) ↦ ground (arith, find-add_env envs v resource_attributes, p)
]

Same-set_endpoint :
    (endpoint : String) (envs : List EnvVar) → SameAttributes envs (set_endpoint endpoint envs)
unfolding set_endpoint
Same-set_endpoint endpoint envs = elim (Bool-cases (endpoint == "")) [
  | inl q ↦ rw q refl
  | inr q ↦ rw (q, Same-add envs (env_var "OTEL_EXPORTER_OTLP_ENDPOINT" endpoint) refl)
]

Same-from_field :
    (key name path : String) (envs : List EnvVar) (res : Map String)
    → (name == resource_attributes) ≡ false
    → SameAttributes envs (from_field key name path (envs, res)).0
unfolding from_field
Same-from_field key name path envs res other = elim (Bool-cases (read res key == "")) [
  | inl q ↦ rw (q, Same-append envs (env_from_field name path) other)
  | inr q ↦ rw q refl
]

-- The attributes after it do not depend on the environment.
from_field-map :
    (key name path : String) (envs : List EnvVar) (res : Map String)
    → (from_field key name path (envs, res)).1 ≡ (from_field key name path ([], res)).1
unfolding from_field
from_field-map key name path envs res = elim (Bool-cases (read res key == "")) [
  | inl q ↦ rw q refl
  | inr q ↦ rw q refl
]

Same-from_fields :
    (uid : Bool) (envs : List EnvVar) (res : Map String)
    → SameAttributes envs (from_fields uid (envs, res)).0
unfolding from_fields
Same-from_fields true envs res =
    Same-from_field "k8s.node.name" "OTEL_RESOURCE_ATTRIBUTES_NODE_NAME" "spec.nodeName" _ _ refl
    ∙ Same-from_field "k8s.pod.uid" "OTEL_RESOURCE_ATTRIBUTES_POD_UID" "metadata.uid" _ _ refl
    ∙ Same-from_field "k8s.pod.name" "OTEL_RESOURCE_ATTRIBUTES_POD_NAME" "metadata.name" envs res
        refl
Same-from_fields false envs res =
    Same-from_field "k8s.node.name" "OTEL_RESOURCE_ATTRIBUTES_NODE_NAME" "spec.nodeName" _ _ refl
    ∙ Same-from_field "k8s.pod.name" "OTEL_RESOURCE_ATTRIBUTES_POD_NAME" "metadata.name" envs res
        refl

-- A field's reference with the attributes written as a map of their own.
filled : String → String → Map String → Map String
filled key reference res = if read res key == "" then put res key reference else res

-- The attributes with the pod's name, its UID if it is asked for, and the node's name filled in.
pub all_filled : Bool → Map String → Map String
unfolding filled
all_filled uid res =
    let named = filled "k8s.pod.name" "$(OTEL_RESOURCE_ATTRIBUTES_POD_NAME)" res in
    let y =
      if uid then filled "k8s.pod.uid" "$(OTEL_RESOURCE_ATTRIBUTES_POD_UID)" named else named in
    filled "k8s.node.name" "$(OTEL_RESOURCE_ATTRIBUTES_NODE_NAME)" y

filled-from_field :
    (key name path : String) (x : List EnvVar × Map String)
    → (from_field key name path x).1 ≡ filled key ("$(" <+> name <+> ")") x.1
unfolding from_field filled
filled-from_field key name path x = elim (Bool-cases (read x.1 key == "")) [
  | inl q ↦ rw q refl
  | inr q ↦ rw q refl
]

filled-from_fields :
    (uid : Bool) (envs : List EnvVar) (res : Map String)
    → (from_fields uid (envs, res)).1 ≡ all_filled uid res
unfolding from_fields all_filled
filled-from_fields true envs res = rw (filled-from_field, filled-from_field, filled-from_field) refl
filled-from_fields false envs res = rw (filled-from_field, filled-from_field) refl

-- The move puts the first definition of a name last.
move_env_last :
    (envs : List EnvVar) (m : String) (e : EnvVar)
    → find_env envs m ≡ some e
    → (before : List EnvVar) × (move_env_to_list_end envs (get_index_of_env envs m)
        ≡ before ++ (e ∷ []))
unfolding move_env_to_list_end
move_env_last envs m e found = elim (Option-cases (get_index_of_env envs m)) [
  | inl p ↦ absurd (cc (index-none envs m p, found))
  | inr (i, p) ↦
      let (x, at, first, named) = index-some envs m i p in
      let same : some x ≡ some e = sym first ∙ found in
      (without envs i, ground (arith, p, at, eq_of_some same))
]

find-set_resource :
    (envs : List EnvVar) (s : String)
    → find_env (set_resource_attributes envs s) resource_attributes
      ≡ some (changed (find_env envs resource_attributes) resource_attributes s (extend s))
unfolding set_resource_attributes
find-set_resource envs s =
    find-set_or_update envs resource_attributes s (extend s) resource_attributes

-- The last variable is OTEL_RESOURCE_ATTRIBUTES: what the container defines, or nothing, extended by
-- the attributes, where the pod's fields stand for the empty ones.
pub sdk_env_last :
    (spec : Spec) (service_name : String) (resource_map : Map String) (envs : List EnvVar)
    → let res_str = resource_map_to_str (all_filled spec.add_k8s_uid_attributes resource_map) in
      (before : List EnvVar) × (sdk_env spec service_name resource_map envs
        ≡ before
          ++ (changed
                (find_env envs resource_attributes)
                resource_attributes
                res_str
                (extend res_str)
              ∷ []))
unfolding sdk_env set_resource_attributes
sdk_env_last spec service_name resource_map envs =
    let e1 = add_env_if_missing envs (env_var "OTEL_SERVICE_NAME" service_name) in
    let e2 = set_endpoint spec.exporter_endpoint e1 in
    let uid = spec.add_k8s_uid_attributes in
    let x = from_fields uid (e2, resource_map) in
    let res_str = resource_map_to_str (all_filled uid resource_map) in
    let e4 = set_resource_attributes x.0 (resource_map_to_str x.1) in
    let e5 = set_propagators spec.propagators e4 in
    let same =
      Same-from_fields uid e2 resource_map
      ∙ Same-set_endpoint spec.exporter_endpoint e1
      ∙ Same-add envs (env_var "OTEL_SERVICE_NAME" service_name) refl in
    let set : find_env e4 resource_attributes
        ≡ some (
            changed (find_env envs resource_attributes) resource_attributes res_str
              (extend res_str)) =
      find-set_resource x.0 (resource_map_to_str x.1)
      ∙ ap
          (λ o. some (
            changed o resource_attributes (resource_map_to_str x.1)
              (extend (resource_map_to_str x.1))))
          same
      ∙ ap
          (λ m. some (
            changed (find_env envs resource_attributes) resource_attributes (resource_map_to_str m)
              (extend (resource_map_to_str m))))
          (filled-from_fields uid e2 resource_map) in
    move_env_last (set_sampler spec.sampler e5) resource_attributes _
      (Keeps-set_sampler spec.sampler e5 _ _ (Keeps-set_propagators spec.propagators e4 _ _ set))
