-- ===== src/Instrumentation/Env.antt =====
-- The helpers on environment variables of pkg/instrumentation/sdk.go.
pub mod Laws
use opentelemetry_operator.Prelude.{
  ℕ, zero, suc, String, List, [], ◌∷◌, ◌++◌, Bool, Option, none, some, ◌==◌, get_elem?, set,
  is_some, true, false, if◌then◌else◌,
}
use opentelemetry_operator.Kube.{EnvVar, EnvVarSource}

-- `none` is -1.
unfoldable pub get_index_of_env : List EnvVar → String → Option ℕ
get_index_of_env [] name = none
get_index_of_env (e ∷ envs) name = elim (e.name == name) [
  | true ↦ some 0
  | false ↦ elim (get_index_of_env envs name) [ none ↦ none | some i ↦ some (suc i) ]
]

-- append(envs[:i], envs[i+1:]...)
unfoldable pub without {ℓ} : {A : Type ℓ} → List A → ℕ → List A
without [] i = []
without (x ∷ xs) zero = xs
without (x ∷ xs) (suc i) = x ∷ without xs i

unfoldable pub move_env_to_list_end : List EnvVar → Option ℕ → List EnvVar
unfolding without
move_env_to_list_end envs none = envs
move_env_to_list_end envs (some i) = elim (get_elem? envs i) [
  | none ↦ envs
  | some e ↦ without envs i ++ (e ∷ [])
]

-- The loops that add the variables of a spec that the container does not define.
unfoldable pub add_env_if_missing : List EnvVar → EnvVar → List EnvVar
add_env_if_missing envs e = elim (get_index_of_env envs e.name) [
  | none ↦ envs ++ (e ∷ [])
  | some i ↦ envs
]

unfoldable pub inject_env : List EnvVar → List EnvVar → List EnvVar
inject_env envs [] = envs
inject_env envs (e ∷ es) = inject_env (add_env_if_missing envs e) es

abbrev pub env_var : String → String → EnvVar
env_var name value = record { name = name; value = value; value_from = none }

abbrev pub env_from_field : String → String → EnvVar
env_from_field name path = record {
  name = name;
  value = "";
  value_from = some (EnvVarSource.field_ref path);
}

-- container.Env[i].Value = f(container.Env[i].Value)
unfoldable pub update_value : List EnvVar → ℕ → (String → String) → List EnvVar
update_value envs i f = elim (get_elem? envs i) [
  | none ↦ envs
  | some e ↦ set envs i (record e { value = f e.value })
]

-- The variable gets a first value, or its value is changed.
unfoldable pub set_or_update : List EnvVar → String → String → (String → String) → List EnvVar
set_or_update envs name value f = elim (get_index_of_env envs name) [
  | none ↦ envs ++ (env_var name value ∷ [])
  | some i ↦ update_value envs i f
]

-- The inner loop of validateContainerEnv: the first variable of that name decides.
unfoldable pub defined_from : List EnvVar → String → Bool
defined_from [] name = false
defined_from (e ∷ envs) name =
    if e.name == name then is_some e.value_from else defined_from envs name

-- The name that the error tells; `none` is nil.
unfoldable pub validate_container_env : List EnvVar → List String → Option String
validate_container_env envs [] = none
validate_container_env envs (name ∷ names) =
    let rest = validate_container_env envs names in
    if defined_from envs name then some name else rest
