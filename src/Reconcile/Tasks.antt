-- ===== src/Reconcile/Tasks.antt =====
-- pkg/collector/reconcile: the task of each kind, and which objects it wants.
pub mod Laws
use opentelemetry_operator.Prelude.{
  String, Bool, true, false, List, [], ◌∷◌, ◌++◌, Option, none, some, ◌==◌, ◌&&◌, ◌||◌, not,
  if◌then◌else◌, is_some,
}
use opentelemetry_operator.Prelude.Int.{ℤ}
use opentelemetry_operator.GoMap.{Map, Range}
use opentelemetry_operator.Reconcile.Api.{Object, Error, Answer, ok, err, Api}
use opentelemetry_operator.Reconcile.Task.{Owner, Instance, and_then}
use opentelemetry_operator.Reconcile.Loops.{
  expected_deployments, delete_deployments, expected_daemon_sets, delete_daemon_sets,
  expected_service_accounts, delete_service_accounts, expected_services, delete_services,
  expected_ingresses, delete_ingresses, expected_routes, delete_routes, expected_stateful_sets,
  delete_stateful_sets, expected_horizontal_pod_autoscalers, delete_horizontal_pod_autoscalers,
  expected_config_maps, delete_config_maps,
}
use opentelemetry_operator.Reconcile.Kinds.{
  WorkloadSpec, workload_kind, StatefulSetSpec, stateful_set_kind, ServiceSpec, service_kind,
  IngressSpec, ingress_kind, RouteSpec, route_kind, service_account_kind, AutoscalerSpec,
  autoscaler_kind, ConfigData, config_map_kind,
}

-- What the tasks read of a collector.
pub record Params : Type 0 where
  pub instance_ : Instance
  pub mode : String
  pub service_account : String
  pub target_allocator_enabled : Bool
  pub target_allocator_service_account : String
  pub ingress_type : String
  pub max_replicas : Option ℤ
  pub autoscaler : Option (Option ℤ × Option ℤ)

-- The objects that pkg/collector and pkg/targetallocator build for a collector; `none` is a nil
-- pointer, an error is that of the configuration.
pub record Built (R P : Type 0) : Type 0 where
  pub deployment : Object (WorkloadSpec R)
  pub target_allocator_deployment : Object (WorkloadSpec R)
  pub daemon_set : Object (WorkloadSpec R)
  pub stateful_set : Object (StatefulSetSpec R)
  pub account : Object R
  pub target_allocator_account : Object R
  pub service : Option (Object (ServiceSpec R P))
  pub headless_service : Option (Object (ServiceSpec R P))
  pub monitoring_service : Option (Object (ServiceSpec R P))
  pub target_allocator_service : Object (ServiceSpec R P)
  pub config_map : Object ConfigData
  pub target_allocator_config_map : Answer (Object ConfigData)
  pub ingress : Option (Object (IngressSpec R))
  pub routes : List (Object (RouteSpec R))
  pub autoscaler : Option (Object (AutoscalerSpec R))

abbrev pub to_list : {A : Type 0} → Option A → List A
to_list none = []
to_list (some a) = a ∷ []

abbrev pub when : {A : Type 0} → Bool → List A → List A
when b xs = if b then xs else []

abbrev pub has_max : Option (Option ℤ × Option ℤ) → Bool
has_max none = false
has_max (some (max, min)) = is_some max

-- A nil Spec.Autoscaler with Spec.MaxReplicas panics where an autoscaler is there already; the
-- defaulting webhook fills it in.
abbrev pub bounds : Option (Option ℤ × Option ℤ) → Option ℤ × Option ℤ
bounds none = (none, none)
bounds (some (max, min)) = (max, min)

module _ {R P : Type 0} (p : Params) (b : Built R P) where
  unfoldable pub desired_deployments : List (Object (WorkloadSpec R))
  desired_deployments =
      when (p.mode == "deployment") (b.deployment ∷ [])
      ++ when p.target_allocator_enabled (b.target_allocator_deployment ∷ [])

  unfoldable pub desired_daemon_sets : List (Object (WorkloadSpec R))
  desired_daemon_sets = when (p.mode == "daemonset") (b.daemon_set ∷ [])

  unfoldable pub desired_stateful_sets : List (Object (StatefulSetSpec R))
  desired_stateful_sets = when (p.mode == "statefulset") (b.stateful_set ∷ [])

  unfoldable pub desired_service_accounts : List (Object R)
  desired_service_accounts =
      when (not (p.mode == "sidecar") && (p.service_account == "")) (b.account ∷ [])
      ++ when (p.target_allocator_enabled && (p.target_allocator_service_account == ""))
          (b.target_allocator_account ∷ [])

  unfoldable pub desired_services : List (Object (ServiceSpec R P))
  desired_services =
      when (not (p.mode == "sidecar"))
        (to_list b.service ++ to_list b.headless_service ++ to_list b.monitoring_service)
      ++ when p.target_allocator_enabled (b.target_allocator_service ∷ [])

  unfoldable pub desired_config_maps : Answer (List (Object ConfigData))
  desired_config_maps =
      if p.target_allocator_enabled
      then (elim b.target_allocator_config_map [
        | ok cm ↦ ok (b.config_map ∷ cm ∷ [])
        | err e ↦ err e
      ])
      else ok (b.config_map ∷ [])

  -- `found` is whether the read of the service failed: serviceExists of the code.
  unfoldable pub desired_ingresses : Bool → List (Object (IngressSpec R))
  desired_ingresses found =
      when (not (p.mode == "sidecar") && found)
        (when (p.ingress_type == "ingress") (to_list b.ingress))

  unfoldable pub desired_routes : List (Object (RouteSpec R))
  desired_routes = when (not (p.mode == "sidecar")) b.routes

  unfoldable pub desired_autoscalers : List (Object (AutoscalerSpec R))
  desired_autoscalers = when (is_some p.max_replicas || has_max p.autoscaler) (to_list b.autoscaler)

module _ {R P : Type 0} (p : Params) (b : Built R P) (r : Range) where
  unfoldable pub deployments :
      (api : Api (WorkloadSpec R)) → Owner (WorkloadSpec R) → api.Server → Option Error × api.Server
  deployments api owner s =
      let desired = desired_deployments p b in
      and_then api (expected_deployments api r owner desired s)
        (delete_deployments api p.instance_ desired)

  unfoldable pub daemon_sets :
      (api : Api (WorkloadSpec R)) → Owner (WorkloadSpec R) → api.Server → Option Error × api.Server
  daemon_sets api owner s =
      let desired = desired_daemon_sets p b in
      and_then api (expected_daemon_sets api r owner desired s)
        (delete_daemon_sets api p.instance_ desired)

  unfoldable pub service_accounts : (api : Api R) → Owner R → api.Server → Option Error × api.Server
  service_accounts api owner s =
      let desired = desired_service_accounts p b in
      and_then api (expected_service_accounts api r owner desired s)
        (delete_service_accounts api p.instance_ desired)

  unfoldable pub services :
      (api : Api (ServiceSpec R P))
      → Owner (ServiceSpec R P)
      → api.Server
      → Option Error × api.Server
  services api owner s =
      let desired = desired_services p b in
      and_then api (expected_services api r owner desired s)
        (delete_services api p.instance_ desired)

  -- Ingresses reads the service of the collector's name first.
  unfoldable pub ingresses :
      Bool
      → (api : Api (IngressSpec R)) → Owner (IngressSpec R)
      → api.Server
      → Option Error × api.Server
  ingresses found api owner s =
      let desired = desired_ingresses p b found in
      and_then api (expected_ingresses api r owner desired s)
        (delete_ingresses api p.instance_ desired)

  unfoldable pub stateful_sets :
      (R → R → Bool)
      → (api : Api (StatefulSetSpec R)) → Owner (StatefulSetSpec R)
      → api.Server
      → Option Error × api.Server
  stateful_sets same api owner s =
      let desired = desired_stateful_sets p b in
      and_then api (expected_stateful_sets api same r owner desired s)
        (delete_stateful_sets api p.instance_ desired)

  unfoldable pub config_maps :
      (api : Api ConfigData) → Owner ConfigData → api.Server → Option Error × api.Server
  config_maps api owner s = elim (desired_config_maps p b) [
    | err e ↦ (some e, s)
    | ok desired ↦
        and_then api (expected_config_maps api true r owner desired s)
          (delete_config_maps api p.instance_ desired)
  ]

  unfoldable pub routes :
      (api : Api (RouteSpec R)) → Owner (RouteSpec R) → api.Server → Option Error × api.Server
  routes api owner s =
      let desired = desired_routes p b in
      if p.ingress_type == "route"
      then and_then api (expected_routes api r owner desired s)
          (delete_routes api p.instance_ desired)
      else (none, s)

  unfoldable pub horizontal_pod_autoscalers :
      (api : Api (AutoscalerSpec R))
      → Owner (AutoscalerSpec R)
      → api.Server
      → Option Error × api.Server
  horizontal_pod_autoscalers api owner s =
      let (max, min) = bounds p.autoscaler in
      let desired = desired_autoscalers p b in
      and_then api (expected_horizontal_pod_autoscalers api max min r owner desired s)
        (delete_horizontal_pod_autoscalers api p.instance_ desired)
