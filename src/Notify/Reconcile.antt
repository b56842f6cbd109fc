-- ===== src/Notify/Reconcile.antt =====
-- CapacityPlanNotificationReconciler.Reconcile with setNotificationCondition and errorsToStrings: one
-- request, from the object that is read to the one that is stored. The fallback for an empty digest is
-- left out: `Reconcile` computes it, and the message does not use it.
pub mod Cases
use capacity_planning_operat.Prelude.{
  ◌*◌, Bool, true, false, ◌&&◌, not, List, [], ◌∷◌, ◌++◌, Option, none, some, if◌then◌else◌,
}
use capacity_planning_operat.Prelude.Int.{ℤ, pos, ltb_ℤ, leb_ℤ, ◌-ℤ◌}
use capacity_planning_operat.Prelude.Text.{Str, bytes, is_empty, str_eq, trim_space, join}
use capacity_planning_operat.Prelude.Float.{Float64}
use capacity_planning_operat.Api.{CapacityPlan}
use capacity_planning_operat.Watcher.Reconcile.{
  Got, not_found, failed, found, Reply, done, requeue_after, error,
}
use capacity_planning_operat.Plan.Hash.{compute_risk_snapshot_hash, is_nil}
use capacity_planning_operat.Notify.{
  CapacityPlanNotification, CapacityPlanNotificationSpec, World, Traffic,
}
use capacity_planning_operat.Notify.Message.{render_notification_message}
use capacity_planning_operat.Notify.Delivery.{Delivery, send_slack, send_email}

abbrev pub default_notification_requeue : ℤ
default_notification_requeue = pos (5 * 60_000_000_000)

abbrev pub default_notification_cooldown : ℤ
default_notification_cooldown = pos (30 * 60_000_000_000)

-- What a request does: the object that is stored behind it, the channels that were served (or, in a dry
-- run, would have been), the traffic, and the reply to the manager.
pub record Outcome : Type 0 where
  pub stored : CapacityPlanNotification
  pub channels : List Str
  pub traffic : List Traffic
  pub reply : Reply

abbrev pub effective_cooldown : ℤ → ℤ
effective_cooldown c = if leb_ℤ c (pos 0) then default_notification_cooldown else c

-- `LastSentTime != nil && now.Sub(LastSentTime.Time) < cooldown`. `Sub` saturates, which changes no
-- comparison with a cooldown that is positive.
unfoldable pub is_cooling_down : Option ℤ → ℤ → ℤ → Bool
is_cooling_down none now cooldown = false
is_cooling_down (some last) now cooldown = ltb_ℤ (now -ℤ last) cooldown

abbrev error_texts : Str → Option Str → List Str
error_texts channel none = []
error_texts channel (some e) = (channel ++ bytes ": " ++ e) ∷ []

abbrev nothing_sent : Delivery
nothing_sent = record { failure = none; traffic = [] }

module _ {F : Type 0} ⦃float : Float64 F⦄ (world : World F) where
  unfoldable pub set_notification_condition :
      CapacityPlanNotification → Str → Str → Str → Str → CapacityPlanNotification
  set_notification_condition obj condition_type status reason message =
      let conditions = world.set_status_condition obj.status.conditions (record {
        condition_type = condition_type;
        status = status;
        observed_generation = obj.generation;
        reason = reason;
        message = message;
      }) in
      record obj { status = record (obj.status) { conditions = conditions } }

  abbrev pub written :
      CapacityPlanNotification → Option Str → CapacityPlanNotification → CapacityPlanNotification
  written old none new = new
  written old (some e) new = old

  abbrev reply_of : Option Str → Reply
  reply_of none = requeue_after default_notification_requeue
  reply_of (some e) = error

  -- The object is written without a look at the error.
  unfoldable pub put_quietly : CapacityPlanNotification → CapacityPlanNotification → Outcome
  put_quietly old new = record {
    stored = written old (world.update new) new;
    channels = [];
    traffic = [];
    reply = requeue_after default_notification_requeue;
  }

  -- The object is written, and the error of the update is the reply.
  unfoldable pub put :
      CapacityPlanNotification → CapacityPlanNotification → List Str → List Traffic → Outcome
  put old new channels traffic = record {
    stored = written old (world.update new) new;
    channels = channels;
    traffic = traffic;
    reply = reply_of (world.update new);
  }

  abbrev last_message : CapacityPlanNotification → List Str → List Str → Str
  last_message n channels [] = bytes "Notification sent to " ++ join (bytes ",") channels
  last_message n channels (e ∷ es) = join (bytes "; ") (e ∷ es)

  abbrev ready_of : List Str → Str × Str
  ready_of [] = (bytes "True", bytes "Delivered")
  ready_of (e ∷ es) = (bytes "False", bytes "DeliveryFailed")

  -- The status behind a dry run, or behind deliveries with the given errors.
  unfoldable pub report : CapacityPlanNotification → List Str → List Str → CapacityPlanNotification
  report n channels errs =
      let message = last_message n channels errs in
      let (status, reason) = ready_of errs in
      if n.spec.dry_run
      then set_notification_condition
          (record n {
            status = record (n.status) { last_message = bytes "dry-run notification emitted" };
          })
          (bytes "Ready") (bytes "True") (bytes "DryRun")
          (bytes "Dry-run enabled; no external delivery attempted")
      else set_notification_condition
          (record n { status = record (n.status) { last_message = message } }) (bytes "Ready")
          status reason message

  -- One `if notif.Spec.….Enabled`.
  abbrev serve : Bool → Bool → Delivery → Delivery
  serve enabled dry_run d = if enabled && not dry_run then d else nothing_sent

  -- The channels that are enabled.
  unfoldable pub sent_channels : CapacityPlanNotificationSpec → List Str
  sent_channels spec =
      (if spec.slack.enabled then bytes "slack" ∷ [] else [])
      ++ (if spec.email.enabled then bytes "email" ∷ [] else [])

  -- The deliveries on the two channels, with the errors of both.
  unfoldable pub send_all : CapacityPlanNotification → CapacityPlan F → List Str × List Traffic
  send_all n plan =
      let spec = n.spec in
      let message = render_notification_message plan in
      let slack =
        serve spec.slack.enabled spec.dry_run (send_slack world n.namespace spec.slack message) in
      let email =
        serve spec.email.enabled spec.dry_run
          (send_email world n.namespace spec.email plan.name message) in
      (
        error_texts (bytes "slack") slack.failure ++ error_texts (bytes "email") email.failure,
        slack.traffic ++ email.traffic,
      )

  -- `len(sentChannels) == 0`.
  unfoldable pub put_idle : CapacityPlanNotification → Outcome
  put_idle n =
      let hint = bytes "Enable at least one channel (slack or email)" in
      let idle = record n { status = record (n.status) { last_message = hint } } in
      put n
        (set_notification_condition idle (bytes "Ready") (bytes "False")
          (bytes "NoChannelsConfigured") hint)
        [] []

  -- The record of a notification.
  abbrev pub mark_sent : CapacityPlanNotification → ℤ → Str → List Str → CapacityPlanNotification
  mark_sent n now snapshot_hash channels = record n {
    status = record (n.status) {
      last_sent_time = some (world.stored_time now);
      last_digest_hash = snapshot_hash;
      last_sent_channels = channels;
    };
  }

  -- Behind the deliveries.
  unfoldable pub put_sent :
      CapacityPlanNotification → ℤ → Str → List Str → List Str → List Traffic → Outcome
  put_sent n now snapshot_hash channels errs traffic =
      put n (report (mark_sent n now snapshot_hash channels) channels errs) channels traffic

  -- From the rendered message on.
  unfoldable pub deliver : CapacityPlanNotification → CapacityPlan F → ℤ → Str → Outcome
  deliver n plan now snapshot_hash =
      let channels = sent_channels n.spec in
      let (errs, traffic) = send_all n plan in
      if is_nil channels then put_idle n else put_sent n now snapshot_hash channels errs traffic

  abbrev pub snapshot_hash_of : CapacityPlan F → Str
  snapshot_hash_of plan =
      if is_empty (trim_space plan.status.risk_snapshot_hash)
      then compute_risk_snapshot_hash world.sha256_hex plan.status.top_risks
      else trim_space plan.status.risk_snapshot_hash

  abbrev pub is_unchanged : CapacityPlanNotification → Str → Bool
  is_unchanged n snapshot_hash =
      n.spec.on_change_only
      && (not (is_empty snapshot_hash) && str_eq snapshot_hash n.status.last_digest_hash)

  -- From `now := time.Now()` on.
  unfoldable pub notify : CapacityPlanNotification → CapacityPlan F → ℤ → Outcome
  notify n plan now =
      let snapshot_hash = snapshot_hash_of plan in
      let cooldown = effective_cooldown n.spec.cooldown in
      if is_unchanged n snapshot_hash
      then put n
          (set_notification_condition n (bytes "Ready") (bytes "True") (bytes "NoChange")
            (bytes "Risk snapshot unchanged; notification skipped"))
          [] []
      else (if is_cooling_down n.status.last_sent_time now cooldown
          then put n
              (set_notification_condition n (bytes "Ready") (bytes "True") (bytes "Cooldown")
                (bytes "Notification skipped due to cooldown"))
              [] []
          else deliver n plan now snapshot_hash)

  unfoldable pub with_plan : CapacityPlanNotification → Str → Got (CapacityPlan F) → ℤ → Outcome
  with_plan n plan_name not_found now = put_quietly n (
      set_notification_condition n (bytes "Ready") (bytes "False") (bytes "PlanNotFound")
        (bytes "CapacityPlan " ++ world.quote plan_name ++ bytes " not found"))
  with_plan n plan_name failed now = record {
    stored = n;
    channels = [];
    traffic = [];
    reply = error;
  }
  with_plan n plan_name (found plan) now = notify n plan now

  -- What `Reconcile` does with the object that it found.
  unfoldable pub reconcile_found : CapacityPlanNotification → ℤ → Outcome
  reconcile_found n now =
      let plan_name = trim_space n.spec.plan_ref_name in
      if is_empty plan_name
      then put_quietly n (
          set_notification_condition n (bytes "Ready") (bytes "False") (bytes "InvalidSpec")
            (bytes "spec.planRefName is required"))
      else with_plan n plan_name (world.get_plan plan_name) now

  -- `Reconcile`, where `none` is a request whose object is not there or cannot be read.
  unfoldable pub reconcile : Got CapacityPlanNotification → ℤ → Option Outcome × Reply
  reconcile not_found now = (none, done)
  reconcile failed now = (none, error)
  reconcile (found n) now = let o = reconcile_found n now in (some o, o.reply)
