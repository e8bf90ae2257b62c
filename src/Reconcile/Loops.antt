-- ===== src/Reconcile/Loops.antt =====
-- pkg/collector/reconcile: the two loops of each task. expectedIngresses returns once it has created
-- an ingress, and at most one is wanted. The loop of the autoscalers writes into the annotations of
-- the stored object, which may be a nil map.
use opentelemetry_operator.Prelude.{Bool, List, Option, none, some, if◌then◌else◌}
use opentelemetry_operator.Prelude.Int.{ℤ}
use opentelemetry_operator.GoMap.{Range}
use opentelemetry_operator.Reconcile.Api.{Object, Error, Api}
use opentelemetry_operator.Reconcile.Task.{Owner, Instance, expected, delete_unwanted}
use opentelemetry_operator.Reconcile.Kinds.{
  WorkloadSpec, workload_kind, StatefulSetSpec, stateful_set_kind, ServiceSpec, service_kind,
  IngressSpec, ingress_kind, RouteSpec, route_kind, service_account_kind, AutoscalerSpec,
  autoscaler_kind, ConfigData, config_map_kind,
}

module _ {R : Type 0} (api : Api (WorkloadSpec R)) where
  unfoldable pub expected_deployments :
      Range
      → Owner (WorkloadSpec R)
      → List (Object (WorkloadSpec R))
      → api.Server
      → Option Error × api.Server
  expected_deployments r owner = expected api workload_kind r owner none

  unfoldable pub delete_deployments :
      Instance → List (Object (WorkloadSpec R)) → api.Server → Option Error × api.Server
  delete_deployments = delete_unwanted api

module _ {R : Type 0} (api : Api (WorkloadSpec R)) where
  unfoldable pub expected_daemon_sets :
      Range
      → Owner (WorkloadSpec R)
      → List (Object (WorkloadSpec R))
      → api.Server
      → Option Error × api.Server
  expected_daemon_sets r owner = expected api workload_kind r owner none

  unfoldable pub delete_daemon_sets :
      Instance → List (Object (WorkloadSpec R)) → api.Server → Option Error × api.Server
  delete_daemon_sets = delete_unwanted api

module _ {R : Type 0} (api : Api R) where
  unfoldable pub expected_service_accounts :
      Range → Owner R → List (Object R) → api.Server → Option Error × api.Server
  expected_service_accounts r owner = expected api service_account_kind r owner none

  unfoldable pub delete_service_accounts :
      Instance → List (Object R) → api.Server → Option Error × api.Server
  delete_service_accounts = delete_unwanted api

module _ {R P : Type 0} (api : Api (ServiceSpec R P)) where
  unfoldable pub expected_services :
      Range
      → Owner (ServiceSpec R P)
      → List (Object (ServiceSpec R P))
      → api.Server
      → Option Error × api.Server
  expected_services r owner = expected api service_kind r owner none

  unfoldable pub delete_services :
      Instance → List (Object (ServiceSpec R P)) → api.Server → Option Error × api.Server
  delete_services = delete_unwanted api

module _ {R : Type 0} (api : Api (IngressSpec R)) where
  unfoldable pub expected_ingresses :
      Range
      → Owner (IngressSpec R)
      → List (Object (IngressSpec R))
      → api.Server
      → Option Error × api.Server
  expected_ingresses r owner = expected api ingress_kind r owner none

  unfoldable pub delete_ingresses :
      Instance → List (Object (IngressSpec R)) → api.Server → Option Error × api.Server
  delete_ingresses = delete_unwanted api

module _ {R : Type 0} (api : Api (RouteSpec R)) where
  unfoldable pub expected_routes :
      Range
      → Owner (RouteSpec R)
      → List (Object (RouteSpec R))
      → api.Server
      → Option Error × api.Server
  expected_routes r owner = expected api route_kind r owner none

  unfoldable pub delete_routes :
      Instance → List (Object (RouteSpec R)) → api.Server → Option Error × api.Server
  delete_routes = delete_unwanted api

module _ {R : Type 0} (api : Api (StatefulSetSpec R)) where
  unfoldable pub expected_stateful_sets :
      (R → R → Bool)
      → Range
      → Owner (StatefulSetSpec R)
      → List (Object (StatefulSetSpec R))
      → api.Server
      → Option Error × api.Server
  expected_stateful_sets same r owner = expected api (stateful_set_kind same) r owner none

  unfoldable pub delete_stateful_sets :
      Instance → List (Object (StatefulSetSpec R)) → api.Server → Option Error × api.Server
  delete_stateful_sets = delete_unwanted api

module _ {R : Type 0} (api : Api (AutoscalerSpec R)) where
  unfoldable pub expected_horizontal_pod_autoscalers :
      Option ℤ
      → Option ℤ
      → Range
      → Owner (AutoscalerSpec R)
      → List (Object (AutoscalerSpec R))
      → api.Server
      → Option Error × api.Server
  expected_horizontal_pod_autoscalers max min r owner =
      expected api (autoscaler_kind max min) r owner none

  unfoldable pub delete_horizontal_pod_autoscalers :
      Instance → List (Object (AutoscalerSpec R)) → api.Server → Option Error × api.Server
  delete_horizontal_pod_autoscalers = delete_unwanted api

module _ (api : Api ConfigData) where
  -- The second attempt makes none itself.
  unfoldable pub expected_config_maps :
      Bool
      → Range
      → Owner ConfigData
      → List (Object ConfigData)
      → api.Server
      → Option Error × api.Server
  expected_config_maps retry r owner desired =
      expected api config_map_kind r owner
        (if retry then some (expected api config_map_kind r owner none desired) else none) desired

  unfoldable pub delete_config_maps :
      Instance → List (Object ConfigData) → api.Server → Option Error × api.Server
  delete_config_maps = delete_unwanted api
