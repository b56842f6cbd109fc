-- ===== src/Notify/Progress.antt =====
-- Notifications come: a request that is due serves every enabled channel, and later requests become due.
use capacity_planning_operat.Prelude.{
  ◌≡◌, refl, inl, inr, Bool, true, false, List, [], ◌∷◌, ◌++◌, arith, Bool-cases, ◌||◌, length, ◌≤◌,
  ◌<◌,
}
use capacity_planning_operat.Prelude.Int.{ℤ}
use capacity_planning_operat.Prelude.Text.{is_empty, trim_space}
use capacity_planning_operat.Prelude.Float.{Float64}
use capacity_planning_operat.Api.{CapacityPlan}
use capacity_planning_operat.Watcher.Reconcile.{found}
use capacity_planning_operat.Plan.Hash.{is_nil}
use capacity_planning_operat.Notify.{CapacityPlanNotification, CapacityPlanNotificationSpec, World}
use capacity_planning_operat.Notify.Reconcile.{
  Outcome, reconcile_found, with_plan, notify, deliver, put_sent, put, send_all, sent_channels,
  snapshot_hash_of, is_unchanged, is_cooling_down, effective_cooldown,
}
use capacity_planning_operat.Notify.Reconcile.Cases.{IsQuiet, reconcile_found-cases}
use capacity_planning_operat.Notify.History.{System, request}

-- One of the channels is on.
unfoldable pub has_channel : CapacityPlanNotificationSpec → Bool
has_channel spec = spec.slack.enabled || spec.email.enabled

module _ {F : Type 0} ⦃float : Float64 F⦄ (world : World F) where
  sent_channels-has_channel :
      (spec : CapacityPlanNotificationSpec)
      → has_channel spec ≡ true
      → is_nil (sent_channels world spec) ≡ false
  unfolding sent_channels has_channel
  sent_channels-has_channel spec h = ground (arith, h)

  -- A request with an enabled channel that finds its plan, changed and due, delivers.
  pub reconcile_found_due :
      (n : CapacityPlanNotification) (plan : CapacityPlan F) (now : ℤ)
      → is_empty (trim_space n.spec.plan_ref_name) ≡ false
      → world.get_plan (trim_space n.spec.plan_ref_name) ≡ found plan
      → has_channel n.spec ≡ true
      → is_unchanged world n (snapshot_hash_of world plan) ≡ false
      → is_cooling_down n.status.last_sent_time now (effective_cooldown n.spec.cooldown) ≡ false
      → reconcile_found world n now
        ≡ put_sent world n now
            (snapshot_hash_of world plan)
            (sent_channels world n.spec)
            (send_all world n plan).0
            (send_all world n plan).1
  unfolding reconcile_found with_plan notify deliver
  reconcile_found_due n plan now named got on changed due =
      rw (named, got, changed, due, sent_channels-has_channel n.spec on) refl

  -- What makes a request at `now` a due one.
  record IsReady (n : CapacityPlanNotification) (plan : CapacityPlan F) (now : ℤ) : Type 0 where
    named : is_empty (trim_space n.spec.plan_ref_name) ≡ false
    got : world.get_plan (trim_space n.spec.plan_ref_name) ≡ found plan
    on : has_channel n.spec ≡ true
    changed : is_unchanged world n (snapshot_hash_of world plan) ≡ false
    due : is_cooling_down n.status.last_sent_time now (effective_cooldown n.spec.cooldown) ≡ false

  -- A request that sends nothing takes nothing of that away.
  quiet-IsReady :
      (n : CapacityPlanNotification) (plan : CapacityPlan F) (now : ℤ) (o : Outcome)
      → IsQuiet n o
      → IsReady n plan now
      → IsReady o.stored plan now
  quiet-IsReady n plan now o q r = record {
    named = rw q.same_spec r.named;
    got = rw q.same_spec r.got;
    on = rw q.same_spec r.on;
    changed = rw (q.same_spec, q.same_hash) r.changed;
    due = rw (q.same_spec, q.same_time) r.due;
  }

  unfoldable pub requests : System → List ℤ → System
  requests s [] = s
  requests s (t ∷ ts) = requests (request world s t) ts

  request_grows : (s : System) (t : ℤ) → length s.log ≤ length (request world s t).log
  unfolding request
  request_grows s t = elim (Bool-cases (is_nil (reconcile_found world s.notification t).channels)) [
    | inl e ↦ rw e (omega arith)
    | inr e ↦ rw e (omega arith)
  ]

  requests_grow : (s : System) (ts : List ℤ) → length s.log ≤ length (requests s ts).log
  unfolding requests
  requests_grow s [] = omega arith
  requests_grow s (t ∷ ts) = omega (arith, request_grows s t, requests_grow (request world s t) ts)

  request_sends :
      (s : System) (t : ℤ)
      → is_nil (reconcile_found world s.notification t).channels ≡ false
      → length s.log < length (request world s t).log
  unfolding request
  request_sends s t e = rw e (omega arith)

  due_sends :
      (s : System) (plan : CapacityPlan F) (now : ℤ)
      → IsReady s.notification plan now
      → length s.log < length (request world s now).log
  unfolding put_sent put
  due_sends s plan now r = request_sends s now (
      rw (reconcile_found_due s.notification plan now r.named r.got r.on r.changed r.due)
        (sent_channels-has_channel s.notification.spec r.on))

  request-IsReady :
      (s : System) (plan : CapacityPlan F) (t now : ℤ)
      → IsQuiet s.notification (reconcile_found world s.notification t)
      → IsReady s.notification plan now
      → IsReady (request world s t).notification plan now
  unfolding request
  request-IsReady s plan t now q r = quiet-IsReady s.notification plan now _ q r

  ready_notifies :
      (s : System) (plan : CapacityPlan F) (ts : List ℤ) (now : ℤ)
      → IsReady s.notification plan now
      → length s.log < length (requests s (ts ++ (now ∷ []))).log
  unfolding requests
  ready_notifies s plan [] now r = due_sends s plan now r
  ready_notifies s plan (t ∷ ts) now r = elim (reconcile_found-cases world s.notification t) [
    | inl q ↦
        let ready = request-IsReady s plan t now q r in
        omega (arith, request_grows s t, ready_notifies (request world s t) plan ts now ready)
    | inr q ↦ omega (
      arith,
      request_sends s t q.some_channel,
      requests_grow (request world s t) (ts ++ (now ∷ [])),
    )
  ]

  -- Of an object that names a plan that is there and has a channel on, whatever requests come first, the
  -- history of the requests that served a channel has grown at the latest with the first request whose
  -- clock is a cooldown behind the last notification, if it need not tell of changes only or the snapshot
  -- is another one. A dry run and a delivery that fails count as served.
  pub requests-notify :
      (s : System) (plan : CapacityPlan F) (ts : List ℤ) (now : ℤ)
      → is_empty (trim_space s.notification.spec.plan_ref_name) ≡ false
      → world.get_plan (trim_space s.notification.spec.plan_ref_name) ≡ found plan
      → has_channel s.notification.spec ≡ true
      → is_unchanged world s.notification (snapshot_hash_of world plan) ≡ false
      → is_cooling_down s.notification.status.last_sent_time now
          (effective_cooldown s.notification.spec.cooldown)
        ≡ false
      → length s.log < length (requests s (ts ++ (now ∷ []))).log
  requests-notify s plan ts now named got on changed due =
      ready_notifies s plan ts now
        (record { named = named; got = got; on = on; changed = changed; due = due })
