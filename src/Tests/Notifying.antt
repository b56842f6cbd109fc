-- ===== src/Tests/Notifying.antt =====
-- The notification controller at a concrete object, with a webhook and a mail server that answer.
use capacity_planning_operat.Prelude.{
  ◌≡◌, refl, ◌+◌, ◌*◌, ◌<◌, length, Bool, true, false, [], ◌∷◌, ◌++◌, none, some,
}
use capacity_planning_operat.Prelude.Int.{ℤ, pos, ◌*ℤ◌, floor_div, ◌+ℤ◌, ◌-ℤ◌}
use capacity_planning_operat.Prelude.Members.{Any}
use capacity_planning_operat.Prelude.Text.{Str, bytes, trim_space, str_eq, join}
use capacity_planning_operat.Prelude.Dict.{Dict, lookup}
use capacity_planning_operat.Prelude.Fallible.{ok}
use capacity_planning_operat.Prelude.Print.{quoted}
use capacity_planning_operat.Prelude.Float.{Milli, milli_float}
use capacity_planning_operat.Prelude.Atoi.{atoi_error}
use capacity_planning_operat.Api.{CapacityPlan}
use capacity_planning_operat.Watcher.Reconcile.{found}
use capacity_planning_operat.Plan.Insight.{default_secret_key}
use capacity_planning_operat.Notify.{
  CapacityPlanNotification, World, posted, mailed, Mail, answered,
}
use capacity_planning_operat.Notify.Message.{render_notification_message}
use capacity_planning_operat.Notify.Delivery.{
  prepare_slack, prepare_email, read_secret_value_from_namespace,
}
use capacity_planning_operat.Notify.Reconcile.{reconcile_found, is_cooling_down}
use capacity_planning_operat.Notify.History.{
  request, initial, here, next, requested, IsSpaced, sent_in,
}
use capacity_planning_operat.Notify.Spacing.{Reach-IsSpaced}
use capacity_planning_operat.Notify.Progress.{requests, requests-notify, has_channel}
use capacity_planning_operat.Notify.Content.{
  reconcile_found_dry_run, reconcile_found_posts, reconcile_found_mails,
}
use capacity_planning_operat.Tests.{shop}
use capacity_planning_operat.Tests.Insights.{plan}

abbrev secret : Dict Str
secret =
    (bytes "webhookURL", bytes " https://hooks ")
    ∷ (bytes "host", bytes "mail")
    ∷ (bytes "port", bytes "587")
    ∷ (bytes "username", bytes "ops")
    ∷ (bytes "password", bytes "pw")
    ∷ []

abbrev watched : CapacityPlan Milli
watched =
    let p = plan (bytes "main") 5 in
    record p { status = record (p.status) { risk_snapshot_hash = bytes "h1" } }

-- It keeps whole seconds, and answers every request with success.
abbrev world : World Milli
world = record {
  get_plan = λ name. found watched;
  get_secret = λ namespace name. ok secret;
  update = λ n. none;
  stored_time = λ t. floor_div t 1_000_000_000 *ℤ pos 1_000_000_000;
  marshal_text = λ s. ok s;
  post = λ url payload. answered (pos 200) [];
  send_mail = λ mail. none;
  quote = quoted;
  sha256_hex = λ s. s;
  set_status_condition = λ cs c. cs ++ (c ∷ []);
}

abbrev routed : Bool → CapacityPlanNotification
routed dry = record {
  namespace = shop;
  generation = pos 1;
  spec = record {
    plan_ref_name = bytes "main";
    cooldown = pos 0;
    on_change_only = true;
    dry_run = dry;
    slack = record {
      enabled = true;
      webhook_secret_ref_name = bytes "hook";
      webhook_secret_key = [];
    };
    email = record {
      enabled = true;
      smtp_secret_ref_name = bytes "smtp";
      smtp_host_key = [];
      smtp_port_key = [];
      smtp_username_key = [];
      smtp_password_key = [];
      from = bytes "operator";
      to = bytes "team" ∷ [];
      subject_prefix = [];
    };
  };
  status = record {
    conditions = [];
    last_sent_time = some (pos 1_000_000_000);
    last_digest_hash = bytes "h0";
    last_message = [];
    last_sent_channels = [];
  };
}

-- An hour later, and half a second.
abbrev later : ℤ
later = pos (3601 * 1_000_000_000 + 500_000_000)

Reach-IsSpaced_example :
    IsSpaced (request world (request world (initial (routed false)) later) (pos 5)).log
    × ((request world (request world (initial (routed false)) later) (pos 5)).wire
        ≡ sent_in (request world (request world (initial (routed false)) later) (pos 5)).log)
unfolding floor_div ◌*ℤ◌ ◌+ℤ◌
Reach-IsSpaced_example = Reach-IsSpaced (routed false) (
    next (next here (requested world (initial (routed false)) later refl))
      (requested world (request world (initial (routed false)) later) (pos 5) refl))

requests-notify_example :
    length (initial (routed false)).log
    < length (requests world (initial (routed false)) ((pos 5 ∷ []) ++ (later ∷ []))).log
unfolding trim_space str_eq is_cooling_down ◌-ℤ◌ has_channel
requests-notify_example =
    requests-notify world (initial (routed false)) watched (pos 5 ∷ []) later refl refl refl refl
      refl

reconcile_found_dry_run_example : (reconcile_found world (routed true) later).traffic ≡ []
reconcile_found_dry_run_example = reconcile_found_dry_run world (routed true) later refl

reconcile_found_posts_example :
    Any
      (λ t. t ≡ posted (bytes "https://hooks") (render_notification_message watched))
      (reconcile_found world (routed false) later).traffic
unfolding trim_space str_eq is_cooling_down ◌-ℤ◌ prepare_slack read_secret_value_from_namespace
    lookup default_secret_key
reconcile_found_posts_example =
    reconcile_found_posts world (routed false) watched later (bytes "https://hooks")
      (render_notification_message watched) refl refl refl refl refl refl refl refl

abbrev the_mail : Mail
the_mail = record {
  addr = bytes "mail:587";
  auth = some (bytes "ops", bytes "pw", bytes "mail");
  from = bytes "operator";
  to = bytes "team" ∷ [];
  msg =
      bytes "To: team\r\nSubject: [capacity-plan] main risk digest\r\n\r\n"
      ++ render_notification_message watched
      ++ bytes "\r\n";
}

reconcile_found_mails_example :
    Any (λ t. t ≡ mailed the_mail) (reconcile_found world (routed false) later).traffic
unfolding trim_space str_eq is_cooling_down ◌-ℤ◌ prepare_email read_secret_value_from_namespace
    lookup default_secret_key atoi_error join
reconcile_found_mails_example =
    reconcile_found_mails world (routed false) watched later the_mail refl refl refl refl refl refl
      refl
