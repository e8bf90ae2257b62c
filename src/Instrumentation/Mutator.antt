-- ===== src/Instrumentation/Mutator.antt =====
-- pkg/instrumentation/podmutator.go and annotation.go: which instrumentations a pod asks for.
pub mod Total
pub mod Once
pub mod Refusal
use opentelemetry_operator.Prelude.{
  ℕ, String, List, [], ◌∷◌, Bool, true, false, Option, none, some, ◌==◌, ◌&&◌, ◌||◌, not, ◌>>=◌,
  if◌then◌else◌, equal_fold, cut, split, trim_space,
}
use opentelemetry_operator.GoMap.{read, Map}
use opentelemetry_operator.Kube.{Pod, Namespace}
use opentelemetry_operator.Instrumentation.Types.{Instrumentation}
use opentelemetry_operator.Instrumentation.Agents.{is_auto_instrumentation_injected}
use opentelemetry_operator.Instrumentation.Resources.{Owners}
use opentelemetry_operator.Instrumentation.Inject.{LanguageInstrumentations, inject}

unfoldable pub annotation_value : Map String → Map String → String → String
annotation_value ns pod annotation =
    let pod_value = read pod annotation in
    let ns_value = read ns annotation in
    if ns_value == ""
    then pod_value
    else if pod_value == ""
    then ns_value
    else if not (equal_fold pod_value "true")
    then pod_value
    else if equal_fold ns_value "false"
    then pod_value
    else ns_value

-- Go's pair of a value and an error.
pub data Result {ℓ} (A : Type ℓ) : Type ℓ where
  ok : A → Result A
  err : String → Result A

infixl 5 ◌>>>◌
abbrev ◌>>>◌ {ℓ κ} : {A : Type ℓ} {B : Type κ} → Result A → (A → Result B) → Result B
err e >>> f = err e
ok a >>> f = f a

-- The API server: an Instrumentation by its namespace and name, and those of a namespace.
pub record Client : Type 0 where
  pub get_instance : String → String → Result Instrumentation
  pub list_instances : String → Result (List Instrumentation)

-- The gates of pkg/featuregate.
pub record Gates : Type 0 where
  pub java : Bool
  pub node_js : Bool
  pub python : Bool
  pub dot_net : Bool
  pub go : Bool
  pub apache_httpd : Bool

unfoldable pub only : List Instrumentation → Result Instrumentation
only [] = err "no OpenTelemetry Instrumentation instances available"
only (i ∷ []) = ok i
only (i ∷ j ∷ is) =
    err
      "multiple OpenTelemetry Instrumentation instances available, cannot determine which one to select"

unfoldable pub select_instance : Client → Namespace → Result Instrumentation
select_instance client ns = client.list_instances ns.name >>> only

-- By name in the pod's namespace, or by namespace/name.
unfoldable pub get_named : Client → Namespace → String → Result Instrumentation
get_named client ns value = elim (cut value 47) [
  | some (namespace, name) ↦ client.get_instance namespace name
  | none ↦ client.get_instance ns.name value
]

unfoldable pub get_instrumentation_instance :
    Client → Namespace → Pod → String → Result (Option Instrumentation)
get_instrumentation_instance client ns pod annotation =
    let value = annotation_value ns.annotations pod.annotations annotation in
    if value == "" || equal_fold value "false"
    then ok none
    else if equal_fold value "true"
    then select_instance client ns >>> (λ i. ok (some i))
    else get_named client ns value >>> (λ i. ok (some i))

-- A gate that is shut rejects the instance with an event.
gated : Bool → Option Instrumentation → Option Instrumentation
gated enabled inst = if enabled then inst else none

-- The first annotation that cannot be processed ends it.
unfoldable pub get_instances : Client → Gates → Namespace → Pod → Result LanguageInstrumentations
unfolding gated
get_instances client gates ns pod =
    get_instrumentation_instance client ns pod "instrumentation.opentelemetry.io/inject-java"
    >>> (λ java.
        get_instrumentation_instance client ns pod "instrumentation.opentelemetry.io/inject-nodejs"
        >>> (λ node_js.
            get_instrumentation_instance client ns pod
              "instrumentation.opentelemetry.io/inject-python"
            >>> (λ python.
                get_instrumentation_instance client ns pod
                  "instrumentation.opentelemetry.io/inject-dotnet"
                >>> (λ dot_net.
                    get_instrumentation_instance client ns pod
                      "instrumentation.opentelemetry.io/inject-go"
                    >>> (λ go.
                        get_instrumentation_instance client ns pod
                          "instrumentation.opentelemetry.io/inject-apache-httpd"
                        >>> (λ apache_httpd.
                            get_instrumentation_instance client ns pod
                              "instrumentation.opentelemetry.io/inject-sdk"
                            >>> (λ sdk. ok (record {
                              java = gated gates.java java;
                              node_js = gated gates.node_js node_js;
                              python = gated gates.python python;
                              dot_net = gated gates.dot_net dot_net;
                              apache_httpd = gated gates.apache_httpd apache_httpd;
                              go = gated gates.go go;
                              sdk = sdk;
                            }))))))))

unfoldable pub is_none : Option Instrumentation → Bool
is_none none = true
is_none (some i) = false

unfoldable pub are_none : LanguageInstrumentations → Bool
unfolding is_none
are_none insts =
    is_none insts.java
    && is_none insts.node_js
    && is_none insts.python
    && is_none insts.dot_net
    && is_none insts.go
    && is_none insts.apache_httpd
    && is_none insts.sdk

module _ (fuel : ℕ) (owners : Owners) where
  -- The loop over the names of the annotation.
  unfoldable pub inject_each : LanguageInstrumentations → Namespace → Pod → List String → Option Pod
  inject_each insts ns pod [] = some pod
  inject_each insts ns pod (name ∷ names) = do
    pod' ← inject fuel owners insts ns pod (trim_space name)
    inject_each insts ns pod' names

  unfoldable pub mutate_with : LanguageInstrumentations → Namespace → Pod → Option Pod
  mutate_with insts ns pod =
      if are_none insts
      then some pod
      else inject_each insts ns pod (
          split
            (annotation_value ns.annotations pod.annotations
              "instrumentation.opentelemetry.io/container-names")
            44)

  -- The pod and the error, if there is one; `none` is a panic, or a chain of ReplicaSets without an end.
  unfoldable pub mutate : Client → Gates → Namespace → Pod → Option (Pod × Option String)
  mutate client gates ns pod =
      if is_auto_instrumentation_injected pod
      then some (pod, none)
      else elim (get_instances client gates ns pod) [
        | err e ↦ some (pod, some e)
        | ok insts ↦ (do pod' ← mutate_with insts ns pod; some (pod', none))
      ]
