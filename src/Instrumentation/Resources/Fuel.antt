-- ===== src/Instrumentation/Resources/Fuel.antt =====
-- How far addParentResourceLabels follows the owners of owners.
use opentelemetry_operator.Prelude.{
  ℕ, zero, suc, ◌+◌, ◌<◌, ◌≤◌, String, List, [], ◌∷◌, Bool, true, some, ◌≡◌, refl, arith, lower_is,
  Bool-cases, inl, inr, get_elem?,
}
use opentelemetry_operator.GoMap.{Map}
use opentelemetry_operator.Kube.{OwnerReference}
use opentelemetry_operator.Instrumentation.Resources.{
  Owners, add_parent_resource_labels, add_owner, set_owner,
}

-- What holds of every ReplicaSet of a list.
abbrev pub EachReplicaSet : (OwnerReference → Type 0) → List OwnerReference → Type 0
EachReplicaSet P os =
    (i : ℕ) (o : OwnerReference)
    → get_elem? os i ≡ some o
    → lower_is o.kind "replicaset" ≡ true
    → P o

-- The ReplicaSets of a namespace own each other in no circle: one that owns another is of a lower rank.
abbrev pub IsRanked : (String → ℕ) → Owners → String → Type 0
IsRanked rank owners ns =
    (name : String) → EachReplicaSet (λ o. rank o.name < rank name) (owners ns name)

module _ (owners : Owners) (uid : Bool) (ns : String) (rank : String → ℕ)
    (ranked : IsRanked rank owners ns) where
  -- One level of fuel more than the ranks of the owners, and one for the owners.
  pub labels_end :
      (fuel : ℕ) (os : List OwnerReference) (m : Map String)
      → EachReplicaSet (λ o. rank o.name + 2 ≤ fuel) os
      → 1 ≤ fuel
      → (m' : Map String) × (add_parent_resource_labels fuel owners uid ns os m ≡ some m')
  unfolding add_parent_resource_labels
  labels_end fuel [] m h k = (m, refl)
  labels_end zero (o ∷ os) m h k = absurd (omega (arith, k))
  labels_end (suc fuel) (o ∷ os) m h k = elim (Bool-cases (lower_is o.kind "replicaset")) [
    | inl e ↦
        let enough : rank o.name + 2 ≤ suc fuel = h 0 o refl e in
        let (m1, e1) =
          labels_end fuel (owners ns o.name) (set_owner uid "k8s.replicaset" o m)
            (λ i o' at is. omega (arith, enough, ranked o.name i o' at is))
            (omega (arith, enough)) in
        let (m2, e2) = labels_end (suc fuel) os m1 (λ i. h (suc i)) k in (m2, rw (e, e1) e2)
    | inr e ↦
        let (m2, e2) = labels_end (suc fuel) os (add_owner uid m o) (λ i. h (suc i)) k in
        (m2, rw e e2)
  ]
