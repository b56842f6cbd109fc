-- ===== src/Notify/Delivery.antt =====
-- readSecretValueFromNamespace, sendSlack and sendEmail. Sending is split where the traffic starts:
-- first what is to be sent is put together, or an error found, and then it is sent.
use capacity_planning_operat.Prelude.{
  ◌||◌, List, [], ◌∷◌, ◌++◌, Option, none, some, if◌then◌else◌, take,
}
use capacity_planning_operat.Prelude.Int.{pos, ltb_ℤ, leb_ℤ}
use capacity_planning_operat.Prelude.Text.{Str, bytes, is_empty, trim_space, join}
use capacity_planning_operat.Prelude.Print.{show_int}
use capacity_planning_operat.Prelude.Atoi.{atoi_error, NumError, num_error_text}
use capacity_planning_operat.Prelude.Dict.{lookup}
use capacity_planning_operat.Prelude.Fallible.{Fallible, ok, err, ◌>>=◌, ◌>>◌, refuse}
use capacity_planning_operat.Plan.Insight.{default_secret_key}
use capacity_planning_operat.Notify.{
  World, SlackNotificationSpec, EmailNotificationSpec, Mail, Traffic, posted, mailed, Posted,
  unsent, unanswered, answered,
}

-- What a sender did: the error that it returned, and what left the operator.
pub record Delivery : Type 0 where
  pub failure : Option Str
  pub traffic : List Traffic

module _ {F : Type 0} (world : World F) where
  value_at : Str → Str → Str → Option Str → Fallible Str
  value_at namespace name key none = err (
      bytes "secret " ++ namespace ++ bytes "/" ++ name ++ bytes " missing key " ++ world.quote key)
  value_at namespace name key (some val) =
      if is_empty (trim_space val)
      then err (
          bytes "secret "
          ++ namespace
          ++ bytes "/"
          ++ name
          ++ bytes " key "
          ++ world.quote key
          ++ bytes " is empty")
      else ok (trim_space val)

  unfoldable pub read_secret_value_from_namespace : Str → Str → Str → Fallible Str
  unfolding value_at
  read_secret_value_from_namespace namespace name key = do
    let n = trim_space name
    let k = trim_space key
    refuse (is_empty n || is_empty k) (bytes "secret name/key required")
    sec ← world.get_secret namespace n
    value_at namespace n k (lookup k sec)

  -- The address of the webhook and the body of the request.
  unfoldable pub prepare_slack : Str → SlackNotificationSpec → Str → Fallible (Str × Str)
  prepare_slack namespace spec message = do
    let secret_name = trim_space spec.webhook_secret_ref_name
    refuse (is_empty secret_name) (bytes "webhookSecretRefName is required")
    url ←
        read_secret_value_from_namespace namespace secret_name
          (default_secret_key spec.webhook_secret_key (bytes "webhookURL"))
    payload ← world.marshal_text message
    ok (url, payload)

  abbrev pub after_post : Str → Str → Posted → Delivery
  after_post url payload (unsent e) = record { failure = some e; traffic = [] }
  after_post url payload (unanswered e) = record {
    failure = some e;
    traffic = posted url payload ∷ [];
  }
  after_post url payload (answered status body) = record {
    failure =
        if ltb_ℤ status (pos 200) || leb_ℤ (pos 300) status
        then some (
            bytes "slack webhook returned status "
            ++ show_int status
            ++ bytes ": "
            ++ trim_space (take 4096 body))
        else none;
    traffic = posted url payload ∷ [];
  }

  abbrev post_slack : Fallible (Str × Str) → Delivery
  post_slack (err e) = record { failure = some e; traffic = [] }
  post_slack (ok (url, payload)) = after_post url payload (world.post url payload)

  unfoldable pub send_slack : Str → SlackNotificationSpec → Str → Delivery
  send_slack namespace spec message = post_slack (prepare_slack namespace spec message)

  abbrev check_port : Str → Option NumError → Fallible (Unit {0})
  check_port port none = ok tt
  check_port port (some e) = err (
      bytes "invalid smtp port "
      ++ world.quote port
      ++ bytes ": strconv.Atoi: parsing "
      ++ world.quote port
      ++ bytes ": "
      ++ num_error_text e)

  abbrev no_recipient : List Str → Fallible (Unit {0})
  no_recipient [] = err (bytes "email recipients are required")
  no_recipient (t ∷ ts) = ok tt

  abbrev or_default : Str → Str → Str
  or_default s d = if is_empty s then d else s

  unfoldable pub prepare_email : Str → EmailNotificationSpec → Str → Str → Fallible Mail
  prepare_email namespace spec plan_name message = do
    no_recipient spec.to
    let secret_name = trim_space spec.smtp_secret_ref_name
    refuse (is_empty secret_name) (bytes "smtpSecretRefName is required")
    host ←
        read_secret_value_from_namespace namespace secret_name
          (default_secret_key spec.smtp_host_key (bytes "host"))
    port ←
        read_secret_value_from_namespace namespace secret_name
          (default_secret_key spec.smtp_port_key (bytes "port"))
    check_port port (atoi_error port)
    username ←
        read_secret_value_from_namespace namespace secret_name
          (default_secret_key spec.smtp_username_key (bytes "username"))
    password ←
        read_secret_value_from_namespace namespace secret_name
          (default_secret_key spec.smtp_password_key (bytes "password"))
    let from = or_default (trim_space spec.from) username
    refuse (is_empty from) (bytes "email from address is required")
    let prefix = or_default (trim_space spec.subject_prefix) (bytes "[capacity-plan]")
    let subject = prefix ++ bytes " " ++ plan_name ++ bytes " risk digest"
    ok (record {
      addr = host ++ bytes ":" ++ port;
      auth = if is_empty username then none else some (username, password, host);
      from = from;
      to = spec.to;
      msg =
          bytes "To: "
          ++ join (bytes ",") spec.to
          ++ bytes "\r\n"
          ++ bytes "Subject: "
          ++ subject
          ++ bytes "\r\n"
          ++ bytes "\r\n"
          ++ message
          ++ bytes "\r\n";
    })

  abbrev post_mail : Fallible Mail → Delivery
  post_mail (err e) = record { failure = some e; traffic = [] }
  post_mail (ok mail) = record { failure = world.send_mail mail; traffic = mailed mail ∷ [] }

  unfoldable pub send_email : Str → EmailNotificationSpec → Str → Str → Delivery
  send_email namespace spec plan_name message =
      post_mail (prepare_email namespace spec plan_name message)
