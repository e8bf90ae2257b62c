-- ===== src/Instrumentation/Mutator/Refusal.antt =====
-- A language that the pod refuses is not injected.
use opentelemetry_operator.Prelude.{
  String, true, none, ◌≡◌, refl, arith, equal_fold, refusal_not_empty, refusal_not_true,
}
use opentelemetry_operator.GoMap.{Map, read}
use opentelemetry_operator.Kube.{Pod, Namespace}
use opentelemetry_operator.Instrumentation.Mutator.{
  ok, Client, annotation_value, get_instrumentation_instance,
}

refused_value :
    (ns pod : Map String) (annotation : String)
    → equal_fold (read pod annotation) "false" ≡ true
    → annotation_value ns pod annotation ≡ read pod annotation
unfolding annotation_value
refused_value ns pod annotation h =
    ground (
      arith,
      h,
      refusal_not_empty (read pod annotation) h,
      refusal_not_true (read pod annotation) h,
    )

-- If the pod's own annotation is false, in any case of its letters, no Instrumentation is selected
-- for it and there is no error, whatever the namespace says.
pub get_instance_refused :
    (client : Client) (ns : Namespace) (pod : Pod) (annotation : String)
    → equal_fold (read pod.annotations annotation) "false" ≡ true
    → get_instrumentation_instance client ns pod annotation ≡ ok none
unfolding get_instrumentation_instance
get_instance_refused client ns pod annotation h =
    rw
      (
        refused_value ns.annotations pod.annotations annotation h,
        refusal_not_empty (read pod.annotations annotation) h,
        h,
      )
      refl
