-- ===== src/Instrumentation/Inject.antt =====
-- `inject` of pkg/instrumentation/sdk.go: each language that a pod asks for, in its order.
pub mod Extends
pub mod Total
pub mod Languages
use opentelemetry_operator.Prelude.{
  ℕ, zero, suc, ◌+◌, String, List, [], ◌∷◌, Bool, Option, none, some, ◌==◌, ◌>>=◌, if◌then◌else◌,
}
use opentelemetry_operator.Kube.{Container, Pod, Namespace}
use opentelemetry_operator.Instrumentation.Types.{Instrumentation}
use opentelemetry_operator.Instrumentation.Agents.{
  inject_javaagent, inject_node_js_sdk, inject_python_sdk, inject_dot_net_sdk,
}
use opentelemetry_operator.Instrumentation.Resources.{Owners, create_resource_map}
use opentelemetry_operator.Instrumentation.Apache.{inject_apache_httpdagent}
use opentelemetry_operator.Instrumentation.Sdk.{inject_common, inject_language, inject_go}

pub record LanguageInstrumentations : Type 0 where
  pub java : Option Instrumentation
  pub node_js : Option Instrumentation
  pub python : Option Instrumentation
  pub dot_net : Option Instrumentation
  pub apache_httpd : Option Instrumentation
  pub go : Option Instrumentation
  pub sdk : Option Instrumentation

-- The last container of that name from position `i` on, or the one found before.
unfoldable pub find_container : String → List Container → ℕ → ℕ → ℕ
find_container name [] i index = index
find_container name (c ∷ cs) i index =
    find_container name cs (suc i) (if c.name == name then i else index)

module _ (fuel : ℕ) (owners : Owners) where
  unfoldable pub inject_apache : Option Instrumentation → Namespace → Pod → ℕ → Option Pod
  inject_apache none ns pod index = some pod
  inject_apache (some otelinst) ns pod index = do
    resource_map ← create_resource_map fuel owners otelinst ns pod index
    pod' ←
        inject_apache_httpdagent otelinst.spec.apache_httpd pod index
          otelinst.spec.exporter_endpoint resource_map
    inject_common fuel owners otelinst ns pod' index index

  unfoldable pub inject_sdk : Option Instrumentation → Namespace → Pod → ℕ → Option Pod
  inject_sdk none ns pod index = some pod
  inject_sdk (some otelinst) ns pod index = inject_common fuel owners otelinst ns pod index index

  unfoldable pub inject_at : LanguageInstrumentations → Namespace → Pod → ℕ → Option Pod
  inject_at insts ns pod index = do
    p1 ← inject_language fuel owners (λ i. inject_javaagent i.spec.java) insts.java ns pod index
    p2 ←
        inject_language fuel owners (λ i. inject_node_js_sdk i.spec.node_js) insts.node_js ns p1
          index
    p3 ← inject_language fuel owners (λ i. inject_python_sdk i.spec.python) insts.python ns p2 index
    p4 ←
        inject_language fuel owners (λ i. inject_dot_net_sdk i.spec.dot_net) insts.dot_net ns p3
          index
    p5 ← inject_go fuel owners insts.go ns p4
    p6 ← inject_apache insts.apache_httpd ns p5 index
    inject_sdk insts.sdk ns p6 index

  -- A pod without containers is left as it is; an unknown name stands for the first container.
  unfoldable pub inject : LanguageInstrumentations → Namespace → Pod → String → Option Pod
  inject insts ns pod name = elim pod.containers [
    | [] ↦ some pod
    | c ∷ cs ↦ inject_at insts ns pod (find_container name (c ∷ cs) 0 0)
  ]
