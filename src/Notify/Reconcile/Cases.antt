-- ===== src/Notify/Reconcile/Cases.antt =====
-- The two ways in which a request ends: it serves no channel and leaves the record of the last
-- notification alone, or it was due and makes a new record.
use capacity_planning_operat.Prelude.{
  ◌≡◌, refl, ◌⊎◌, inl, inr, Bool, true, false, List, [], Option, none, some, Bool-cases,
  Option-cases,
}
use capacity_planning_operat.Prelude.Int.{ℤ}
use capacity_planning_operat.Prelude.Text.{Str, is_empty, trim_space}
use capacity_planning_operat.Prelude.Float.{Float64}
use capacity_planning_operat.Api.{CapacityPlan}
use capacity_planning_operat.Watcher.Reconcile.{
  Got, not_found, failed, found, Reply, done, requeue_after, error,
}
use capacity_planning_operat.Plan.Hash.{is_nil}
use capacity_planning_operat.Notify.{CapacityPlanNotification, World, Traffic}
use capacity_planning_operat.Notify.Reconcile.{
  Outcome, written, put_idle, put_sent, mark_sent, sent_channels, set_notification_condition, put,
  put_quietly, report, deliver, notify, with_plan, reconcile_found, snapshot_hash_of, is_unchanged,
  is_cooling_down, effective_cooldown,
}

-- The update that the request ends with succeeded.
abbrev pub was_saved : Reply → Bool
was_saved (requeue_after t) = true
was_saved done = false
was_saved error = false

pub record IsQuiet (n : CapacityPlanNotification) (o : Outcome) : Type 0 where
  pub no_channels : o.channels ≡ []
  pub no_traffic : o.traffic ≡ []
  pub same_spec : o.stored.spec ≡ n.spec
  pub same_time : o.stored.status.last_sent_time ≡ n.status.last_sent_time
  pub same_hash : o.stored.status.last_digest_hash ≡ n.status.last_digest_hash

module _ {F : Type 0} ⦃float : Float64 F⦄ (world : World F) where
  -- The hash that a request goes by.
  unfoldable pub hash_of : Got (CapacityPlan F) → Str
  hash_of not_found = []
  hash_of failed = []
  hash_of (found plan) = snapshot_hash_of world plan

  pub record IsSending (n : CapacityPlanNotification) (hash : Str) (now : ℤ) (o : Outcome)
      : Type 0 where
    pub some_channel : is_nil o.channels ≡ false
    pub changed : is_unchanged world n hash ≡ false
    pub due :
        is_cooling_down n.status.last_sent_time now (effective_cooldown n.spec.cooldown) ≡ false
    pub same_spec : o.stored.spec ≡ n.spec
    pub recorded :
        (was_saved o.reply ≡ false)
        ⊎ ((o.stored.status.last_sent_time ≡ some (world.stored_time now))
            × (o.stored.status.last_digest_hash ≡ hash))

  -- Whether the update succeeds or not, a new condition and message leave the record alone.
  written-IsQuiet :
      (n : CapacityPlanNotification) (message : Str) (kind status reason text : Str)
      (u : Option Str) (r : Reply)
      → IsQuiet n (record {
        stored = written world n u (
            set_notification_condition world
              (record n { status = record (n.status) { last_message = message } })
              kind
              status
              reason
              text);
        channels = [];
        traffic = [];
        reply = r;
      })
  unfolding set_notification_condition
  written-IsQuiet n message kind status reason text none r = record {
    no_channels = refl;
    no_traffic = refl;
    same_spec = refl;
    same_time = refl;
    same_hash = refl;
  }
  written-IsQuiet n message kind status reason text (some e) r = record {
    no_channels = refl;
    no_traffic = refl;
    same_spec = refl;
    same_time = refl;
    same_hash = refl;
  }

  -- What `report` writes is the record that it is given.
  report-keeps :
      (n : CapacityPlanNotification) (channels errs : List Str)
      → ((report world n channels errs).spec ≡ n.spec)
        × ((report world n channels errs).status.last_sent_time ≡ n.status.last_sent_time)
        × ((report world n channels errs).status.last_digest_hash ≡ n.status.last_digest_hash)
  unfolding report set_notification_condition
  report-keeps n channels errs = elim (Bool-cases n.spec.dry_run) [
    | inl e ↦ rw e (refl, refl, refl)
    | inr e ↦ rw e (refl, refl, refl)
  ]

  put_quietly-IsQuiet :
      (n : CapacityPlanNotification) (kind status reason text : Str)
      → IsQuiet n (put_quietly world n (set_notification_condition world n kind status reason text))
  unfolding put_quietly
  put_quietly-IsQuiet n kind status reason text =
      written-IsQuiet n n.status.last_message kind status reason text (world.update _) _

  put-IsQuiet :
      (n : CapacityPlanNotification) (kind status reason text : Str)
      → IsQuiet n (put world n (set_notification_condition world n kind status reason text) [] [])
  unfolding put
  put-IsQuiet n kind status reason text =
      written-IsQuiet n n.status.last_message kind status reason text (world.update _) _

  put_idle-IsQuiet : (n : CapacityPlanNotification) → IsQuiet n (put_idle world n)
  unfolding put_idle put
  put_idle-IsQuiet n = written-IsQuiet n _ _ _ _ _ (world.update _) _

  put_sent-IsSending :
      (n : CapacityPlanNotification) (now : ℤ) (hash : Str) (channels errs : List Str)
      (traffic : List Traffic)
      → is_nil channels ≡ false
      → is_unchanged world n hash ≡ false
      → is_cooling_down n.status.last_sent_time now (effective_cooldown n.spec.cooldown) ≡ false
      → IsSending n hash now (put_sent world n now hash channels errs traffic)
  unfolding put_sent put
  put_sent-IsSending n now hash channels errs traffic nonempty fresh late =
      let sent = mark_sent world n now hash channels in
      let (spec, time, same) = report-keeps sent channels errs in
      elim (Option-cases (world.update (report world sent channels errs))) [
        | inl e ↦ rw e (record {
          some_channel = nonempty;
          changed = fresh;
          due = late;
          same_spec = spec;
          recorded = inr (time, same);
        })
        | inr (t, e) ↦ rw e (record {
          some_channel = nonempty;
          changed = fresh;
          due = late;
          same_spec = refl;
          recorded = inl refl;
        })
      ]

  deliver-cases :
      (n : CapacityPlanNotification) (plan : CapacityPlan F) (now : ℤ) (hash : Str)
      → is_unchanged world n hash ≡ false
      → is_cooling_down n.status.last_sent_time now (effective_cooldown n.spec.cooldown) ≡ false
      → IsQuiet n (deliver world n plan now hash)
        ⊎ IsSending n hash now (deliver world n plan now hash)
  unfolding deliver
  deliver-cases n plan now hash changed due =
      elim (Bool-cases (is_nil (sent_channels world n.spec))) [
        | inl e ↦ inl (rw e (put_idle-IsQuiet n))
        | inr e ↦ inr (rw e (put_sent-IsSending n now hash _ _ _ e changed due))
      ]

  notify-cases :
      (n : CapacityPlanNotification) (plan : CapacityPlan F) (now : ℤ)
      → IsQuiet n (notify world n plan now)
        ⊎ IsSending n (snapshot_hash_of world plan) now (notify world n plan now)
  unfolding notify
  notify-cases n plan now =
      let hash = snapshot_hash_of world plan in
      let cooling =
        is_cooling_down n.status.last_sent_time now (effective_cooldown n.spec.cooldown) in
      elim (Bool-cases (is_unchanged world n hash)) [
        | inl e ↦ inl (rw e (put-IsQuiet n _ _ _ _))
        | inr e ↦ elim (Bool-cases cooling) [
          | inl f ↦ inl (rw (e, f) (put-IsQuiet n _ _ _ _))
          | inr f ↦ rw (e, f) (deliver-cases n plan now hash e f)
        ]
      ]

  with_plan-cases :
      (n : CapacityPlanNotification) (name : Str) (got : Got (CapacityPlan F)) (now : ℤ)
      → IsQuiet n (with_plan world n name got now)
        ⊎ IsSending n (hash_of got) now (with_plan world n name got now)
  unfolding with_plan hash_of
  with_plan-cases n name not_found now = inl (put_quietly-IsQuiet n _ _ _ _)
  with_plan-cases n name failed now = inl (record {
    no_channels = refl;
    no_traffic = refl;
    same_spec = refl;
    same_time = refl;
    same_hash = refl;
  })
  with_plan-cases n name (found plan) now = notify-cases n plan now

  -- The plan that a request reads.
  abbrev pub plan_hash : CapacityPlanNotification → Str
  plan_hash n = hash_of (world.get_plan (trim_space n.spec.plan_ref_name))

  pub reconcile_found-cases :
      (n : CapacityPlanNotification) (now : ℤ)
      → IsQuiet n (reconcile_found world n now)
        ⊎ IsSending n (plan_hash n) now (reconcile_found world n now)
  unfolding reconcile_found
  reconcile_found-cases n now = elim (Bool-cases (is_empty (trim_space n.spec.plan_ref_name))) [
    | inl e ↦ inl (rw e (put_quietly-IsQuiet n _ _ _ _))
    | inr e ↦ rw e (with_plan-cases n _ (world.get_plan (trim_space n.spec.plan_ref_name)) now)
  ]
