-- ===== src/Plan/Workload.antt =====
-- buildPVCWorkloadIndex, resolvePVCWorkload and below in
-- internal/controller/capacityplan_controller.go: which workload a volume is charged to. What the API
-- server lists and gets is a parameter.
pub mod Best
use capacity_planning_operat.Prelude.{
  ℕ, ◌-◌, ◌^◌, Bool, true, false, List, [], ◌∷◌, ◌++◌, Option, none, some, ltb, if◌then◌else◌,
}
use capacity_planning_operat.Prelude.Text.{Str, bytes, is_empty, str_eq}
use capacity_planning_operat.Prelude.Dict.{Dict, insert}
use capacity_planning_operat.Api.{PvcSummary}
use capacity_planning_operat.Metrics.{key_of}
use capacity_planning_operat.Watcher.Reconcile.{Got, not_found, failed, found}
use capacity_planning_operat.Plan.TopRisks.{PvcWorkloadRef}

-- Of Kubernetes' objects, what the code reads.
pub record OwnerReference : Type 0 where
  pub kind : Str
  pub name : Str
  pub controller : Option Bool

pub record Owned : Type 0 where
  pub name : Str
  pub owner_references : List OwnerReference

-- A volume of a pod names its claim, if it has one.
pub record Pod : Type 0 where
  pub name : Str
  pub namespace : Str
  pub volumes : List (Option Str)
  pub owner_references : List OwnerReference

abbrev claims : Option Str → Str → Bool
claims none pvc = false
claims (some c) pvc = str_eq c pvc

abbrev uses : List (Option Str) → Str → Bool
uses [] pvc = false
uses (v ∷ vs) pvc = if claims v pvc then true else uses vs pvc

unfoldable pub pod_uses_pvc : Pod → Str → Bool
pod_uses_pvc pod pvc = uses pod.volumes pvc

unfoldable pub owner_kind_rank : Str → ℕ
owner_kind_rank kind =
    if str_eq kind (bytes "StatefulSet")
    then 1
    else if str_eq kind (bytes "Deployment")
    then 2
    else if str_eq kind (bytes "DaemonSet")
    then 3
    else if str_eq kind (bytes "CronJob")
    then 4
    else if str_eq kind (bytes "Job")
    then 5
    else if str_eq kind (bytes "ReplicaSet")
    then 6
    else if str_eq kind (bytes "Pod")
    then 7
    else 10

abbrev controls : Option Bool → Bool
controls none = false
controls (some b) = b

abbrev first_controller : List OwnerReference → Option OwnerReference
first_controller [] = none
first_controller (r ∷ rs) = if controls r.controller then some r else first_controller rs

abbrev or_first : Option OwnerReference → List OwnerReference → Option OwnerReference
or_first (some r) refs = some r
or_first none [] = none
or_first none (r ∷ refs) = some r

unfoldable pub controller_owner_ref : List OwnerReference → Option OwnerReference
controller_owner_ref refs = or_first (first_controller refs) refs

-- The owner one level up: of the kind `above` if the controller is of it, else the object itself.
abbrev lift_owner : Str → Str → Str → Option OwnerReference → Option (Str × Str)
lift_owner kind above name none = some (kind, name)
lift_owner kind above name (some r) =
    if str_eq r.kind above then some (above, r.name) else some (kind, name)

abbrev owner_of : Str → Str → Str → Got Owned → Option (Str × Str)
owner_of kind above name not_found = some (kind, name)
owner_of kind above name failed = none
owner_of kind above name (found o) =
    lift_owner kind above o.name (controller_owner_ref o.owner_references)

abbrev pub Best : Type 0
Best = ℕ × Str × Str

abbrev pub better : Option (Str × Str) → Best → Best
better none best = best
better (some (kind, name)) best =
    if ltb (owner_kind_rank kind) best.0 then (owner_kind_rank kind, kind, name) else best

to_ref : Str → Best → PvcWorkloadRef
to_ref namespace (rank, kind, name) =
    if is_empty kind
    then record { kind = []; name = []; namespace = [] }
    else record { kind = kind; name = name; namespace = namespace }

module _ (get_replica_set get_job : Str → Str → Got Owned) where
  owner_by_ref : Pod → Option OwnerReference → Option (Str × Str)
  owner_by_ref pod none = some (bytes "Pod", pod.name)
  owner_by_ref pod (some r) =
      if str_eq r.kind (bytes "ReplicaSet")
      then owner_of (bytes "ReplicaSet") (bytes "Deployment") r.name
          (get_replica_set pod.namespace r.name)
      else if str_eq r.kind (bytes "Job")
      then owner_of (bytes "Job") (bytes "CronJob") r.name (get_job pod.namespace r.name)
      else some (r.kind, r.name)

  -- The kind and the name of the owner; none is an error of the API server.
  unfoldable pub resolve_pod_owner : Pod → Option (Str × Str)
  unfolding controller_owner_ref owner_by_ref
  resolve_pod_owner pod = owner_by_ref pod (controller_owner_ref pod.owner_references)

  abbrev pub candidate : Pod → Str → Option (Str × Str)
  candidate pod pvc = if pod_uses_pvc pod pvc then resolve_pod_owner pod else none

  -- The loop over the pods; it starts at the greatest int.
  unfoldable pub best_owner : List Pod → Str → Best → Best
  best_owner [] pvc best = best
  best_owner (p ∷ ps) pvc best = best_owner ps pvc (better (candidate p pvc) best)

  module _ (list_pods : Str → Option (List Pod)) where
    among_pods : Option (List Pod) → Str → Str → Option PvcWorkloadRef
    unfolding best_owner to_ref
    among_pods none namespace pvc = none
    among_pods (some pods) namespace pvc =
        some (to_ref namespace (best_owner pods pvc (2 ^ 63 - 1, [], [])))

    -- The workload, empty where there is none; none where the pods could not be listed.
    unfoldable pub resolve_pvc_workload : Str → Str → Option PvcWorkloadRef
    unfolding among_pods
    resolve_pvc_workload namespace pvc = among_pods (list_pods namespace) namespace pvc

    abbrev indexed :
        Str
        → Option PvcWorkloadRef
        → Dict PvcWorkloadRef × List Str
        → Dict PvcWorkloadRef × List Str
    indexed key none (index, errors) = (index, errors ++ (key ∷ []))
    indexed key (some ref) (index, errors) = (insert key ref index, errors)

    -- The index, and the keys of the volumes whose pods could not be listed.
    unfoldable pub build_pvc_workload_index :
        {F : Type 0}
        → List (PvcSummary F)
        → Dict PvcWorkloadRef × List Str
        → Dict PvcWorkloadRef × List Str
    build_pvc_workload_index [] out = out
    build_pvc_workload_index (s ∷ ss) out =
        let key = key_of s.namespace s.name in
        build_pvc_workload_index ss (indexed key (resolve_pvc_workload s.namespace s.name) out)
