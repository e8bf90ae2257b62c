-- ===== src/Reconcile/Tasks/Laws.antt =====
-- A collector whose mode has changed.
use opentelemetry_operator.Prelude.{
  String, true, false, [], none, some, ◌≡◌, ◌==◌, refl, sym, subst, Bool-cases, inl, inr,
}
use opentelemetry_operator.GoMap.{Range}
use opentelemetry_operator.Reconcile.Api.{Object, Api, selected, keeps}
use opentelemetry_operator.Reconcile.Task.{Owner, owned_by, reconcile}
use opentelemetry_operator.Reconcile.Task.Wanted.{Distinct}
use opentelemetry_operator.Reconcile.Task.Total.{reconcile_settles}
use opentelemetry_operator.Reconcile.Kinds.{WorkloadSpec, workload_kind}
use opentelemetry_operator.Reconcile.Kinds.Laws.{workload-Lawful}
use opentelemetry_operator.Reconcile.Loops.{expected_daemon_sets, delete_daemon_sets}
use opentelemetry_operator.Reconcile.Tasks.{Params, Built, desired_daemon_sets, daemon_sets}

module _ {R P : Type 0} (p : Params) (b : Built R P) (r : Range) (api : Api (WorkloadSpec R))
    (owner : Owner (WorkloadSpec R)) where
  open api use {Server, stored}

  -- Where the mode is not that of a daemon set, and the task of the daemon sets returns no error, none
  -- with the collector's labels is left in its namespace.
  pub daemon_sets_gone :
      (s : Server) (n : String) (e : Object (WorkloadSpec R))
      → (p.mode == "daemonset") ≡ false
      → (daemon_sets p b r api owner s).0 ≡ none
      → stored (daemon_sets p b r api owner s).1 p.instance_.namespace n ≡ some e
      → selected (owned_by p.instance_) e.labels ≡ false
  unfolding daemon_sets expected_daemon_sets delete_daemon_sets reconcile
  daemon_sets_gone s n e m h at_e =
      let desired = desired_daemon_sets p b in
      let unwanted : desired ≡ [] = unfold desired_daemon_sets in rw m refl in
      let (_, extra) =
        reconcile_settles api workload_kind workload-Lawful r owner p.instance_ desired s
          (subst Distinct (sym unwanted) tt) h in
      elim (Bool-cases (selected (owned_by p.instance_) e.labels)) [
        | inr f ↦ f
        | inl f ↦
            let kept = extra n e at_e f in
            absurd (cc (subst (λ os. keeps os p.instance_.namespace n ≡ true) unwanted kept))
      ]
