-- ===== src/Plan/Workload/Best.antt =====
-- The workload of a volume is the best one among the owners of the pods that use it.
use capacity_planning_operat.Prelude.{ℕ, ◌≤◌, ◌≡◌, true, false, List, Option, some, All}
use capacity_planning_operat.Prelude.Text.{Str, is_empty}
use capacity_planning_operat.Prelude.Members.{Any}
use capacity_planning_operat.Watcher.Reconcile.{Got}
use capacity_planning_operat.Plan.TopRisks.{PvcWorkloadRef}
use capacity_planning_operat.Plan.Workload.{
  Owned, Pod, owner_kind_rank, Best, candidate, best_owner,
}

module _ (get_replica_set get_job : Str → Str → Got Owned) (pvc : Str) where
  -- The owner of a pod that uses the volume.
  abbrev pub owner : Pod → Option (Str × Str)
  owner pod = candidate get_replica_set get_job pod pvc

  -- No owner ranks before `rank`.
  abbrev pub IsBehind : ℕ → Pod → Type 0
  IsBehind rank pod = (k n : Str) → owner pod ≡ some (k, n) → rank ≤ owner_kind_rank k

  abbrev loop : List Pod → Best → Best
  loop ps best = best_owner get_replica_set get_job ps pvc best

  -- The owner of one of the pods, with its rank.
  abbrev pub IsChosen : List Pod → Best → Type 0
  IsChosen pods (rank, kind, name) =
      Any (λ pod. owner pod ≡ some (kind, name)) pods × (rank ≡ owner_kind_rank kind)

  -- What the workload says of the pods: the best kind among the owners, or only unknown kinds.
  abbrev pub IsBest : Str → List Pod → PvcWorkloadRef → Type 0
  IsBest namespace pods ref =
      (is_empty ref.kind ≡ false
        → Any (λ pod. owner pod ≡ some (ref.kind, ref.name)) pods
          × All (IsBehind (owner_kind_rank ref.kind)) pods
          × (ref.namespace ≡ namespace))
      × (is_empty ref.kind ≡ true → All (IsBehind 10) pods)
