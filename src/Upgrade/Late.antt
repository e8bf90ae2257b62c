-- ===== src/Upgrade/Late.antt =====
-- pkg/collector/upgrade: v0_56_0.go to v0_61_0.go.
pub mod Laws
use opentelemetry_operator.Prelude.{
  String, Bool, true, false, Option, none, some, List, [], ◌∷◌, ◌==◌, ◌||◌, ◌&&◌, ◌<+>◌, has_prefix,
  if◌then◌else◌, is_some,
}
use opentelemetry_operator.Prelude.Int.{ℤ, pos}
use opentelemetry_operator.GoMap.{Map}
use opentelemetry_operator.Reconcile.Api.{Object, Api, Error, Answer}
use opentelemetry_operator.Yaml.{
  Value, null, str, obj, Fields, end, field, find, set, remove, as_map,
}
use opentelemetry_operator.Upgrade.Types.{Otelcol, Outcome, Yaml}
use opentelemetry_operator.Upgrade.Middle.{map_at}

-- The ScaleTargetRef of an autoscaler.
pub record ScaleTarget : Type 0 where
  pub kind : String
  pub name : String
  pub api_version : String

abbrev pub collector_target : String → ScaleTarget
collector_target n = record {
  kind = "OpenTelemetryCollector";
  name = n;
  api_version = "opentelemetry.io/v1alpha1";
}

abbrev pub autoscaler_labels : Otelcol → Map String
autoscaler_labels o =
    ("app.kubernetes.io/instance", o.namespace <+> "." <+> o.name)
    ∷ ("app.kubernetes.io/managed-by", "opentelemetry-operator")
    ∷ []

module _ (api : Api ScaleTarget) where
  -- The loop over the autoscalers; the test is whether a patch has failed.
  unfoldable pub retarget : ScaleTarget → List (Object ScaleTarget) → api.Server → Bool × api.Server
  retarget new [] s = (false, s)
  retarget new (a ∷ as_) s = elim (a.spec.kind == "Deployment") [
    | false ↦ retarget new as_ s
    | true ↦
        let (e, s1) = api.patch s (record a { spec = new }) in
        let (failed, s2) = retarget new as_ s1 in (is_some e || failed, s2)
  ]

  abbrev pub retargeted : Otelcol → Bool × api.Server → Outcome × api.Server
  retargeted o (true, s) =
      (Outcome.err "couldn't upgrade to v0.56.0, failed to recreate autoscaler", s)
  retargeted o (false, s) = (Outcome.ok o, s)

  abbrev pub retarget_listed :
      ScaleTarget → Otelcol → Answer (List (Object ScaleTarget)) × api.Server → Outcome × api.Server
  retarget_listed new o (Answer.err e, s) =
      (Outcome.err "couldn't upgrade to v0.56.0, failed trying to find HPA instances", s)
  retarget_listed new o (Answer.ok as_, s) = retargeted o (retarget new as_ s)

  unfoldable pub upgrade0_56_0 : (String → String) → Otelcol → api.Server → Outcome × api.Server
  upgrade0_56_0 collector_name o s = elim (is_some o.max_replicas) [
    | false ↦ (Outcome.ok o, s)
    | true ↦
        retarget_listed (collector_target (collector_name o.name))
          (record o { min_replicas = some (pos 1) }) (api.list s o.namespace (autoscaler_labels o))
  ]

module _ (y : Yaml) where
  unfoldable pub join_port : Fields → Value → Fields
  join_port m port =
      let endpoint : Value = elim (find m "endpoint") [ none ↦ null | some v ↦ v ] in
      remove (set m "endpoint" (str (y.format_s endpoint <+> ":" <+> y.format_s port))) "port"

  abbrev pub with_extension : Fields → String → Fields → Fields
  with_extension cfg k m = set cfg "extensions" (obj (set (map_at cfg "extensions") k (obj m)))

  -- The loop over the extensions, which writes the configuration back at each port that it finds.
  unfoldable pub join_ports : Fields → Fields → Otelcol → Outcome
  join_ports end cfg o = Outcome.ok o
  join_ports (field k v m) cfg o = elim (has_prefix k "health_check") [
    | false ↦ join_ports m cfg o
    | true ↦ elim (as_map (some v)) [
      | none ↦ Outcome.err "couldn't upgrade to v0.57.2, the extension is invalid"
      | some ext ↦ elim (find ext "port") [
        | none ↦ join_ports m cfg o
        | some port ↦
            let new = with_extension cfg k (join_port ext port) in
            elim (y.marshal new) [
              | none ↦
                  Outcome.err "couldn't upgrade to v0.57.2, failed to marshall back configuration"
              | some text ↦ join_ports m new (record o { config = text })
            ]
      ]
    ]
  ]

  unfoldable pub upgrade0_57_2 : Otelcol → Outcome
  upgrade0_57_2 o = if o.config == "" then Outcome.ok o else (elim (y.parse o.config) [
    | none ↦ Outcome.err "couldn't upgrade to v0.57.2, failed to parse configuration"
    | some cfg ↦ elim (as_map (find cfg "extensions")) [
      | none ↦ Outcome.ok o
      | some m ↦ join_ports m cfg o
    ]
  ])

  -- Whether a receiver of Jaeger samples remotely.
  unfoldable pub samples_remotely : Fields → Bool
  samples_remotely end = false
  samples_remotely (field k v m) =
      let rest = samples_remotely m in
      elim (as_map (some v)) [
        | none ↦ rest
        | some cfg ↦
            if has_prefix k "jaeger" && is_some (find cfg "remote_sampling") then true else rest
      ]

  unfoldable pub upgrade0_61_0 : Otelcol → Outcome
  upgrade0_61_0 o = if o.config == "" then Outcome.ok o else (elim (y.parse o.config) [
    | none ↦ Outcome.err "couldn't upgrade to v0.61.0, failed to parse configuration"
    | some cfg ↦ elim (as_map (find cfg "receivers")) [
      | none ↦ Outcome.ok o
      | some m ↦
          if samples_remotely m
          then Outcome.err "jaegerremotesampling is no longer available as receiver configuration"
          else Outcome.ok o
    ]
  ])
