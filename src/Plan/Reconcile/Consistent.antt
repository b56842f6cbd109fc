-- ===== src/Plan/Reconcile/Consistent.antt =====
-- What a request leaves in a plan's status fits together.
use capacity_planning_operat.Prelude.{
  ◌≡◌, refl, ◌⊎◌, inl, inr, true, List, Option, none, some, Option-cases,
}
use capacity_planning_operat.Prelude.Text.{Str}
use capacity_planning_operat.Prelude.Float.{Float64}
use capacity_planning_operat.Api.{CapacityPlan}
use capacity_planning_operat.Watcher.{Pvc}
use capacity_planning_operat.Watcher.Reconcile.{requeue_after, error}
use capacity_planning_operat.Plan.Active.{is_active_plan, set_condition}
use capacity_planning_operat.Plan.Setup.{list_scoped_pvcs}
use capacity_planning_operat.Plan.TopRisks.{status_summary_top_n}
use capacity_planning_operat.Plan.Summary.{build_status_summary}
use capacity_planning_operat.Plan.Changes.{detect_risk_changes, summarize_risk_changes}
use capacity_planning_operat.Plan.Anomalies.{summarize_pvc_anomalies}
use capacity_planning_operat.Plan.Digest.{build_risk_digest}
use capacity_planning_operat.Plan.Hash.{compute_risk_snapshot_hash}
use capacity_planning_operat.Plan.Reconcile.{Environment, Operator, ActiveLlm, choose_llm}
use capacity_planning_operat.Plan.Reconcile.Loop.{
  Analysis, Reconciled, analyse, new_status, with_conditions, store, reconcile_volumes,
  reconcile_active, by_activity, reconcile_plan, requeue_interval,
}

module _ {F : Type 0} ⦃float : Float64 F⦄ (env : Environment F) where
  -- A status that was computed from one analysis: the summaries of a list are those of the list, the hash
  -- and the digest are of the risks beside them, and the changes lead from the old risks to them.
  pub record IsConsistent (old new : CapacityPlan F) : Type 0 where
    pub same_name : new.name ≡ old.name
    pub same_spec : new.spec ≡ old.spec
    pub observed : new.status.observed_generation ≡ new.generation
    pub summarized : new.status.summary ≡ build_status_summary new.status.pvcs status_summary_top_n
    pub hashed :
        new.status.risk_snapshot_hash
        ≡ compute_risk_snapshot_hash env.sha256_hex new.status.top_risks
    pub digested : new.status.risk_digest ≡ build_risk_digest env.now new.status.top_risks
    pub changed :
        new.status.risk_changes
        ≡ detect_risk_changes env.now old.status.top_risks new.status.top_risks
    pub told : new.status.risk_change_summary ≡ summarize_risk_changes new.status.risk_changes
    pub warned : new.status.anomaly_summary ≡ summarize_pvc_anomalies new.status.anomalies

  with_conditions-IsConsistent :
      (plan : CapacityPlan F) (llm used : ActiveLlm F) (a : Analysis F)
      → a.changes ≡ detect_risk_changes env.now plan.status.top_risks a.top_risks
      → IsConsistent plan
          (with_conditions env llm (record plan { status = new_status env plan used a }))
  unfolding with_conditions set_condition new_status
  with_conditions-IsConsistent plan llm used a changes = record {
    same_name = refl;
    same_spec = refl;
    observed = refl;
    summarized = refl;
    hashed = refl;
    digested = refl;
    changed = changes;
    told = refl;
    warned = refl;
  }

  -- A request left the plan alone and failed, or wrote a consistent status.
  abbrev pub IsWritten : CapacityPlan F → Reconciled F → Type 0
  IsWritten plan r =
      ((r.plan ≡ plan) × (r.reply ≡ error))
      ⊎ (IsConsistent plan r.plan × (r.reply ≡ requeue_after (requeue_interval env plan)))

  store-IsWritten :
      (old new : CapacityPlan F) (op : Operator F) (answer : Option Str)
      → IsConsistent old new
      → requeue_interval env new ≡ requeue_interval env old
      → IsWritten old (store env old new op answer)
  unfolding store
  store-IsWritten old new op none h same = inr (h, rw same refl)
  store-IsWritten old new op (some e) h same = inl (refl, refl)

  reconcile_volumes-IsWritten :
      (plan : CapacityPlan F) (op : Operator F) (pvcs : List Pvc)
      → IsWritten plan (reconcile_volumes env plan op pvcs)
  unfolding reconcile_volumes with_conditions set_condition analyse
  reconcile_volumes-IsWritten plan op pvcs =
      let llm = (choose_llm env env.injected op.clients plan.spec).0 in
      store-IsWritten plan _ _ (env.update _) (with_conditions-IsConsistent plan llm llm _ refl)
        refl

  reconcile_active-IsWritten :
      (plan : CapacityPlan F) (op : Operator F) → IsWritten plan (reconcile_active env plan op)
  unfolding reconcile_active
  reconcile_active-IsWritten plan op =
      elim (Option-cases (list_scoped_pvcs env.list_pvcs plan.spec.namespaces)) [
        | inl e ↦ rw e (inl (refl, refl))
        | inr (pvcs, e) ↦ rw e (reconcile_volumes-IsWritten plan _ pvcs)
      ]

  -- A request for the active plan that has an answer to the list of plans either fails and leaves the
  -- plan as it was, or stores a status whose parts were computed from each other and comes back after the
  -- interval of the plan.
  pub reconcile_plan-IsWritten :
      (plan : CapacityPlan F) (op : Operator F) (name : Str)
      → is_active_plan env.list_plans plan ≡ inr (true, name)
      → IsWritten plan (reconcile_plan env plan op)
  unfolding reconcile_plan by_activity
  reconcile_plan-IsWritten plan op name active = rw active (reconcile_active-IsWritten plan op)
