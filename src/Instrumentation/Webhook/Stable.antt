-- ===== src/Instrumentation/Webhook/Stable.antt =====
-- The defaults of an Instrumentation are stable.
use opentelemetry_operator.Prelude.{
  String, Option, none, some, ◌≡◌, refl, ◌==◌, if◌then◌else◌, Bool-cases, inl, inr,
}
use opentelemetry_operator.GoMap.{Map, get, read}
use opentelemetry_operator.GoMap.Laws.{read-put}
use opentelemetry_operator.Kube.{ResourceRequirements}
use opentelemetry_operator.Instrumentation.Types.{Agent, ApacheHttpd, Instrumentation}
use opentelemetry_operator.Instrumentation.Webhook.{
  or_resources, or_image, default_image, default_resources, default_agent, default_apache,
  default_labels, default_spec, default,
}

-- A value that is set only where it is empty is set once.
if_empty_idem :
    (s d : String)
    → (if (if s == "" then d else s) == "" then d else (if s == "" then d else s))
      ≡ (if s == "" then d else s)
if_empty_idem s d = elim (Bool-cases (s == "")) [
  | inl e ↦ elim (Bool-cases (d == "")) [ inl f ↦ rw (e, f) refl | inr f ↦ rw (e, f) refl ]
  | inr e ↦ rw (e, e) refl
]

image_idem :
    (o : Option String) (image : String)
    → (if (if image == "" then or_image o image else image) == ""
        then or_image o (if image == "" then or_image o image else image)
        else (if image == "" then or_image o image else image))
      ≡ (if image == "" then or_image o image else image)
image_idem none image = elim (Bool-cases (image == "")) [
  | inl e ↦ rw (e, e) refl
  | inr e ↦ rw (e, e) refl
]
image_idem (some v) image = if_empty_idem image v

or_resources_idem :
    (o : Option (Map String)) (d : Map String)
    → or_resources (or_resources o d) d ≡ or_resources o d
or_resources_idem none d = refl
or_resources_idem (some r) d = refl

resources_idem :
    (memory cpu_limit cpu : String) (r : ResourceRequirements)
    → default_resources memory cpu_limit cpu (default_resources memory cpu_limit cpu r)
      ≡ default_resources memory cpu_limit cpu r
unfolding default_resources
resources_idem memory cpu_limit cpu r = rw (or_resources_idem, or_resources_idem) refl

agent_idem :
    (annotations : Map String) (annotation memory : String) (a : Agent)
    → default_agent annotations annotation memory (default_agent annotations annotation memory a)
      ≡ default_agent annotations annotation memory a
unfolding default_agent default_image
agent_idem annotations annotation memory a =
    rw
      (
        image_idem (get annotations annotation) a.image,
        resources_idem memory "500m" "50m" a.resources,
      )
      refl

apache_idem :
    (annotations : Map String) (a : ApacheHttpd)
    → default_apache annotations (default_apache annotations a) ≡ default_apache annotations a
unfolding default_apache default_image
apache_idem annotations a =
    rw
      (
        image_idem
            (get annotations
              "instrumentation.opentelemetry.io/default-auto-instrumentation-apache-httpd-image")
            a.image,
        resources_idem "128Mi" "500m" "1m" a.resources,
        if_empty_idem a.version "2.4",
        if_empty_idem a.config_path "/usr/local/apache2/conf",
      )
      refl

labels_idem : (m : Map String) → default_labels (default_labels m) ≡ default_labels m
unfolding default_labels
labels_idem m = elim (Bool-cases (read m "app.kubernetes.io/managed-by" == "")) [
  | inl e ↦ rw (e, read-put m "app.kubernetes.io/managed-by" "opentelemetry-operator") refl
  | inr e ↦ rw (e, e) refl
]

-- Default on an Instrumentation that it has filled in changes nothing.
pub default_stable : (r : Instrumentation) → default (default r) ≡ default r
unfolding default default_spec
default_stable r =
    rw
      (
        labels_idem r.labels,
        agent_idem r.annotations
            "instrumentation.opentelemetry.io/default-auto-instrumentation-java-image" "64Mi"
            r.spec.java,
        agent_idem r.annotations
            "instrumentation.opentelemetry.io/default-auto-instrumentation-nodejs-image" "128Mi"
            r.spec.node_js,
        agent_idem r.annotations
            "instrumentation.opentelemetry.io/default-auto-instrumentation-python-image" "32Mi"
            r.spec.python,
        agent_idem r.annotations
            "instrumentation.opentelemetry.io/default-auto-instrumentation-dotnet-image" "128Mi"
            r.spec.dot_net,
        agent_idem r.annotations
            "instrumentation.opentelemetry.io/default-auto-instrumentation-go-image" "32Mi"
            r.spec.go,
        apache_idem r.annotations r.spec.apache_httpd,
      )
      refl
