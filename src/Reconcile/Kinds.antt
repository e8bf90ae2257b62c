-- ===== src/Reconcile/Kinds.antt =====
-- pkg/collector/reconcile: what each task compares and patches of its kind of object. A field whose
-- value is only copied is of a type that is a parameter, R.
pub mod Laws
use opentelemetry_operator.Prelude.{
  String, Bool, true, false, List, [], ◌∷◌, Option, none, some, ◌≡◌, ◌==◌, ◌&&◌, ◌||◌, not,
  if◌then◌else◌,
}
use opentelemetry_operator.Prelude.Int.{ℤ, pos}
use opentelemetry_operator.GoMap.{Map, get, keys}
use opentelemetry_operator.Reconcile.Task.{Kind}

abbrev pub same_option : Option String → Option String → Bool
same_option none none = true
same_option (some v) (some w) = v == w
same_option none (some w) = false
same_option (some v) none = false

unfoldable pub agree : List String → Map String → Map String → Bool
agree [] m n = true
agree (k ∷ ks) m n = same_option (get m k) (get n k) && agree ks m n

-- apiequality.Semantic.DeepEqual of two maps.
unfoldable pub equal_maps : Map String → Map String → Bool
equal_maps m n = agree (keys m) m n && agree (keys n) m n

-- A deployment or a daemon set: the selector, and the rest of the specification.
pub record WorkloadSpec (R : Type 0) : Type 0 where
  pub selector : Map String
  pub rest : R

module _ {R : Type 0} where
  unfoldable pub workload_kind : Kind (WorkloadSpec R)
  workload_kind = record {
    replaced = λ d e. not (equal_maps d.selector e.selector);
    merge = λ e d. d;
  }

-- The template of a persistent volume claim.
pub record Claim (R : Type 0) : Type 0 where
  pub name : String
  pub annotations : Map String
  pub volume_mode : Option String
  pub rest : R

pub record StatefulSetSpec (R : Type 0) : Type 0 where
  pub selector : Map String
  pub claims : List (Claim R)
  pub rest : R

-- Whether a pointer to a text is nil or points to the empty one.
abbrev pub is_unset : Option String → Bool
is_unset none = true
is_unset (some v) = v == ""

-- `same` is DeepEqual of the fields that are only compared.
module _ {R : Type 0} (same : R → R → Bool) where
  unfoldable pub default_mode : Claim R → Claim R → Claim R
  default_mode d e = if is_unset d.volume_mode then record d { volume_mode = e.volume_mode } else d

  unfoldable pub claim_changed : Claim R → Claim R → Bool
  claim_changed d e =
      not (d.name == e.name)
      || not (equal_maps d.annotations e.annotations)
      || not (same_option (default_mode d e).volume_mode e.volume_mode && same d.rest e.rest)

  unfoldable pub has_volume_claims_templates_changed : List (Claim R) → List (Claim R) → Bool
  has_volume_claims_templates_changed [] [] = false
  has_volume_claims_templates_changed (d ∷ ds) (e ∷ es) =
      claim_changed d e || has_volume_claims_templates_changed ds es
  has_volume_claims_templates_changed [] (e ∷ es) = true
  has_volume_claims_templates_changed (d ∷ ds) [] = true

  unfoldable pub default_modes : List (Claim R) → List (Claim R) → List (Claim R)
  default_modes (d ∷ ds) (e ∷ es) = default_mode d e ∷ default_modes ds es
  default_modes ds es = ds

  unfoldable pub has_immutable_field_change : StatefulSetSpec R → StatefulSetSpec R → Bool
  has_immutable_field_change d e =
      not (equal_maps d.selector e.selector)
      || has_volume_claims_templates_changed d.claims e.claims

  unfoldable pub stateful_set_kind : Kind (StatefulSetSpec R)
  stateful_set_kind = record {
    replaced = has_immutable_field_change;
    merge = λ e d. record d { claims = default_modes d.claims e.claims };
  }

-- A service: the fields that are patched, and the others, such as the cluster IP.
pub record ServiceSpec (R : Type 0) (P : Type 0) : Type 0 where
  pub ports : List P
  pub selector : Map String
  pub rest : R

-- An ingress: the fields that are patched are all that its specification has.
pub record IngressSpec (R : Type 0) : Type 0 where
  pub rules : R
  pub tls : R
  pub default_backend : R
  pub class_name : Option String

-- A route: the host and the path are not patched.
pub record RouteSpec (R : Type 0) : Type 0 where
  pub to : R
  pub tls : R
  pub port : R
  pub wildcard_policy : String
  pub host : String
  pub path : String

-- A config map: its data.
pub record ConfigData : Type 0 where
  pub data_map : Map String
  pub binary_data : Map String

-- A horizontal pod autoscaler: the target is not patched.
pub record AutoscalerSpec (R : Type 0) : Type 0 where
  pub max_replicas : ℤ
  pub min_replicas : Option ℤ
  pub metrics : R
  pub behavior : R
  pub scale_target : String

abbrev pub or_one : Option ℤ → Option ℤ
or_one none = some (pos 1)
or_one (some n) = some n

module _ {R : Type 0} where
  unfoldable pub service_kind : {P : Type 0} → Kind (ServiceSpec R P)
  service_kind = record {
    replaced = λ d e. false;
    merge = λ e d. record e { ports = d.ports; selector = d.selector };
  }

  unfoldable pub ingress_kind : Kind (IngressSpec R)
  ingress_kind = record {
    replaced = λ d e. false;
    merge = λ e d. record e {
      rules = d.rules;
      tls = d.tls;
      default_backend = d.default_backend;
      class_name = d.class_name;
    };
  }

  unfoldable pub route_kind : Kind (RouteSpec R)
  route_kind = record {
    replaced = λ d e. false;
    merge = λ e d. record e {
      to = d.to;
      tls = d.tls;
      port = d.port;
      wildcard_policy = d.wildcard_policy;
    };
  }

  -- A service account has no field beside its metadata that is patched.
  unfoldable pub service_account_kind : Kind R
  service_account_kind = record { replaced = λ d e. false; merge = λ e d. e }

  -- setAutoscalerSpec, of the bounds in Spec.Autoscaler.
  unfoldable pub set_autoscaler_spec :
      Option ℤ → Option ℤ → AutoscalerSpec R → AutoscalerSpec R → AutoscalerSpec R
  set_autoscaler_spec none min e d = e
  set_autoscaler_spec (some max) min e d = record e {
    max_replicas = max;
    min_replicas = or_one min;
    metrics = d.metrics;
    behavior = d.behavior;
  }

  unfoldable pub autoscaler_kind : Option ℤ → Option ℤ → Kind (AutoscalerSpec R)
  autoscaler_kind max min = record { replaced = λ d e. false; merge = set_autoscaler_spec max min }

unfoldable pub config_map_kind : Kind ConfigData
config_map_kind = record { replaced = λ d e. false; merge = λ e d. d }
