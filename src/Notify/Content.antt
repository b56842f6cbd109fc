-- ===== src/Notify/Content.antt =====
-- What a request sends: the rendered message on every enabled channel whose secret can be read, and in a
-- dry run nothing at all.
use capacity_planning_operat.Prelude.{◌≡◌, refl, inl, inr, Bool, true, false, [], arith, Bool-cases}
use mathlib.Core.Path.{ap}
use capacity_planning_operat.Prelude.Int.{ℤ}
use capacity_planning_operat.Prelude.Members.{Any, Any-append_left, Any-append_right}
use capacity_planning_operat.Prelude.Text.{Str, is_empty, trim_space}
use capacity_planning_operat.Prelude.Float.{Float64}
use capacity_planning_operat.Prelude.Fallible.{ok}
use capacity_planning_operat.Api.{CapacityPlan}
use capacity_planning_operat.Watcher.Reconcile.{Got, not_found, failed, found}
use capacity_planning_operat.Plan.Hash.{is_nil}
use capacity_planning_operat.Notify.{
  CapacityPlanNotification, World, Traffic, posted, mailed, Mail, Posted, unsent, unanswered,
  answered,
}
use capacity_planning_operat.Notify.Message.{render_notification_message}
use capacity_planning_operat.Notify.Delivery.{
  send_slack, send_email, prepare_slack, prepare_email, after_post, Delivery,
}
use capacity_planning_operat.Notify.Reconcile.{
  reconcile_found, with_plan, notify, deliver, put_sent, put_idle, put, put_quietly, send_all,
  sent_channels, snapshot_hash_of, is_unchanged, is_cooling_down, effective_cooldown,
}
use capacity_planning_operat.Notify.Progress.{reconcile_found_due, has_channel}

-- The request was built.
abbrev pub reached : Posted → Bool
reached (unsent e) = false
reached (unanswered e) = true
reached (answered status body) = true

module _ {F : Type 0} ⦃float : Float64 F⦄ (world : World F) where
  send_all-dry_run :
      (n : CapacityPlanNotification) (plan : CapacityPlan F)
      → n.spec.dry_run ≡ true
      → (send_all world n plan).1 ≡ []
  unfolding send_all
  send_all-dry_run n plan dry = elim (Bool-cases n.spec.slack.enabled) [
    | inl e ↦ elim (Bool-cases n.spec.email.enabled) [
      | inl f ↦ rw (dry, e, f) refl
      | inr f ↦ rw (dry, e, f) refl
    ]
    | inr e ↦ elim (Bool-cases n.spec.email.enabled) [
      | inl f ↦ rw (dry, e, f) refl
      | inr f ↦ rw (dry, e, f) refl
    ]
  ]

  notify-dry_run :
      (n : CapacityPlanNotification) (plan : CapacityPlan F) (now : ℤ)
      → n.spec.dry_run ≡ true
      → (notify world n plan now).traffic ≡ []
  unfolding notify deliver put put_idle put_sent
  notify-dry_run n plan now dry =
      let cooldown = effective_cooldown n.spec.cooldown in
      elim (Bool-cases (is_unchanged world n (snapshot_hash_of world plan))) [
        | inl e ↦ rw e refl
        | inr e ↦ elim (Bool-cases (is_cooling_down n.status.last_sent_time now cooldown)) [
          | inl f ↦ rw (e, f) refl
          | inr f ↦ elim (Bool-cases (is_nil (sent_channels world n.spec))) [
            | inl g ↦ rw (e, f, g) refl
            | inr g ↦ rw (e, f, g) (send_all-dry_run n plan dry)
          ]
        ]
      ]

  with_plan-dry_run :
      (n : CapacityPlanNotification) (name : Str) (got : Got (CapacityPlan F)) (now : ℤ)
      → n.spec.dry_run ≡ true
      → (with_plan world n name got now).traffic ≡ []
  unfolding with_plan put_quietly
  with_plan-dry_run n name not_found now dry = refl
  with_plan-dry_run n name failed now dry = refl
  with_plan-dry_run n name (found plan) now dry = notify-dry_run n plan now dry

  -- In a dry run nothing is sent, whatever the object, the plan, the secrets and the clock.
  pub reconcile_found_dry_run :
      (n : CapacityPlanNotification) (now : ℤ)
      → n.spec.dry_run ≡ true
      → (reconcile_found world n now).traffic ≡ []
  unfolding reconcile_found put_quietly
  reconcile_found_dry_run n now dry =
      elim (Bool-cases (is_empty (trim_space n.spec.plan_ref_name))) [
        | inl e ↦ rw e refl
        | inr e ↦
            rw e (with_plan-dry_run n _ (world.get_plan (trim_space n.spec.plan_ref_name)) now dry)
      ]

  after_post-Any :
      (url payload : Str) (p : Posted)
      → reached p ≡ true
      → Any (λ t. t ≡ posted url payload) (after_post world url payload p).traffic
  after_post-Any url payload (unsent e) h = absurd (ground arith)
  after_post-Any url payload (unanswered e) h = inl refl
  after_post-Any url payload (answered status body) h = inl refl

  -- The traffic of both channels, each of which may be off.
  slack_of : CapacityPlanNotification → CapacityPlan F → Delivery
  slack_of n plan = send_slack world n.namespace n.spec.slack (render_notification_message plan)

  email_of : CapacityPlanNotification → CapacityPlan F → Delivery
  email_of n plan =
      send_email world n.namespace n.spec.email plan.name (render_notification_message plan)

  send_all-slack :
      (P : Traffic → Type 0) (n : CapacityPlanNotification) (plan : CapacityPlan F)
      → n.spec.slack.enabled ≡ true
      → n.spec.dry_run ≡ false
      → Any P (slack_of n plan).traffic
      → Any P (send_all world n plan).1
  unfolding send_all slack_of send_slack prepare_slack
  send_all-slack P n plan on wet h = rw (on, wet) (Any-append_left P _ _ h)

  send_all-email :
      (P : Traffic → Type 0) (n : CapacityPlanNotification) (plan : CapacityPlan F)
      → n.spec.email.enabled ≡ true
      → n.spec.dry_run ≡ false
      → Any P (email_of n plan).traffic
      → Any P (send_all world n plan).1
  unfolding send_all email_of send_email prepare_email
  send_all-email P n plan on wet h = rw (on, wet) (Any-append_right P _ _ h)

  slack_of-Any :
      (n : CapacityPlanNotification) (plan : CapacityPlan F) (url payload : Str)
      → prepare_slack world n.namespace n.spec.slack (render_notification_message plan)
        ≡ ok (url, payload)
      → reached (world.post url payload) ≡ true
      → Any (λ t. t ≡ posted url payload) (slack_of n plan).traffic
  unfolding slack_of send_slack
  slack_of-Any n plan url payload e r = rw e (after_post-Any url payload (world.post url payload) r)

  email_of-Any :
      (n : CapacityPlanNotification) (plan : CapacityPlan F) (mail : Mail)
      → prepare_email world n.namespace n.spec.email plan.name (render_notification_message plan)
        ≡ ok mail
      → Any (λ t. t ≡ mailed mail) (email_of n plan).traffic
  unfolding email_of send_email
  email_of-Any n plan mail e = rw e (inl refl)

  due_traffic :
      (n : CapacityPlanNotification) (plan : CapacityPlan F) (now : ℤ)
      → is_empty (trim_space n.spec.plan_ref_name) ≡ false
      → world.get_plan (trim_space n.spec.plan_ref_name) ≡ found plan
      → has_channel n.spec ≡ true
      → is_unchanged world n (snapshot_hash_of world plan) ≡ false
      → is_cooling_down n.status.last_sent_time now (effective_cooldown n.spec.cooldown) ≡ false
      → (reconcile_found world n now).traffic ≡ (send_all world n plan).1
  unfolding put_sent put
  due_traffic n plan now named got on changed due =
      ap (λ o. o.traffic) (reconcile_found_due world n plan now named got on changed due)

  -- A due request that is not a dry run posts the rendered message to the webhook, if Slack is on, its
  -- secret can be read and the request can be built, even if a delivery fails.
  pub reconcile_found_posts :
      (n : CapacityPlanNotification) (plan : CapacityPlan F) (now : ℤ) (url payload : Str)
      → is_empty (trim_space n.spec.plan_ref_name) ≡ false
      → world.get_plan (trim_space n.spec.plan_ref_name) ≡ found plan
      → is_unchanged world n (snapshot_hash_of world plan) ≡ false
      → is_cooling_down n.status.last_sent_time now (effective_cooldown n.spec.cooldown) ≡ false
      → n.spec.slack.enabled ≡ true
      → n.spec.dry_run ≡ false
      → prepare_slack world n.namespace n.spec.slack (render_notification_message plan)
        ≡ ok (url, payload)
      → reached (world.post url payload) ≡ true
      → Any (λ t. t ≡ posted url payload) (reconcile_found world n now).traffic
  unfolding has_channel
  reconcile_found_posts n plan now url payload named got changed due on wet e r =
      rw (due_traffic n plan now named got (ground (arith, on)) changed due) (
        send_all-slack (λ t. t ≡ posted url payload) n plan on wet
          (slack_of-Any n plan url payload e r))

  -- A due request that is not a dry run mails the rendered message, if email is on and the mail can be
  -- put together, even if the webhook fails.
  pub reconcile_found_mails :
      (n : CapacityPlanNotification) (plan : CapacityPlan F) (now : ℤ) (mail : Mail)
      → is_empty (trim_space n.spec.plan_ref_name) ≡ false
      → world.get_plan (trim_space n.spec.plan_ref_name) ≡ found plan
      → is_unchanged world n (snapshot_hash_of world plan) ≡ false
      → is_cooling_down n.status.last_sent_time now (effective_cooldown n.spec.cooldown) ≡ false
      → n.spec.email.enabled ≡ true
      → n.spec.dry_run ≡ false
      → prepare_email world n.namespace n.spec.email plan.name (render_notification_message plan)
        ≡ ok mail
      → Any (λ t. t ≡ mailed mail) (reconcile_found world n now).traffic
  unfolding has_channel
  reconcile_found_mails n plan now mail named got changed due on wet e =
      rw (due_traffic n plan now named got (ground (arith, on)) changed due)
        (send_all-email (λ t. t ≡ mailed mail) n plan on wet (email_of-Any n plan mail e))
