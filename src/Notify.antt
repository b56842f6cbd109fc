-- ===== src/Notify.antt =====
-- api/v1/capacityplannotification_types.go and the reconciler of
-- internal/controller/capacityplannotification_controller.go: the half of the operator that tells people
-- of the risks of a plan. The children build the messages, deliver them and decide when to do so.
pub mod Message
pub mod Delivery
pub mod Reconcile
pub mod History
pub mod Spacing
pub mod Progress
pub mod Content
use capacity_planning_operat.Prelude.{Bool, List, Option}
use capacity_planning_operat.Prelude.Int.{ℤ}
use capacity_planning_operat.Prelude.Text.{Str}
use capacity_planning_operat.Prelude.Dict.{Dict}
use capacity_planning_operat.Prelude.Fallible.{Fallible}
use capacity_planning_operat.Api.{Condition, CapacityPlan}
use capacity_planning_operat.Watcher.Reconcile.{Got}

pub record SlackNotificationSpec : Type 0 where
  pub enabled : Bool
  pub webhook_secret_ref_name : Str
  pub webhook_secret_key : Str

pub record EmailNotificationSpec : Type 0 where
  pub enabled : Bool
  pub smtp_secret_ref_name : Str
  pub smtp_host_key : Str
  pub smtp_port_key : Str
  pub smtp_username_key : Str
  pub smtp_password_key : Str
  pub from : Str
  pub to : List Str
  pub subject_prefix : Str

pub record CapacityPlanNotificationSpec : Type 0 where
  pub plan_ref_name : Str
  pub cooldown : ℤ
  pub on_change_only : Bool
  pub dry_run : Bool
  pub slack : SlackNotificationSpec
  pub email : EmailNotificationSpec

pub record CapacityPlanNotificationStatus : Type 0 where
  pub conditions : List Condition
  pub last_sent_time : Option ℤ
  pub last_digest_hash : Str
  pub last_message : Str
  pub last_sent_channels : List Str

-- Of the object's metadata, what the code reads.
pub record CapacityPlanNotification : Type 0 where
  pub namespace : Str
  pub generation : ℤ
  pub spec : CapacityPlanNotificationSpec
  pub status : CapacityPlanNotificationStatus

pub record Mail : Type 0 where
  pub addr : Str
  -- The identity that `smtp.PlainAuth` takes: user name, password and host.
  pub auth : Option (Str × Str × Str)
  pub from : Str
  pub to : List Str
  pub msg : Str

-- What leaves the operator: a request to a webhook, or a mail that `smtp.SendMail` is called with.
pub data Traffic : Type 0 where
  posted : Str → Str → Traffic
  mailed : Mail → Traffic

-- How a POST ends: the request cannot be built, it is sent without an answer, or it is answered with a
-- status and a body.
pub data Posted : Type 0 where
  unsent : Str → Posted
  unanswered : Str → Posted
  answered : ℤ → Str → Posted

-- The code that is not the operator's own, and what it answers: the API server, the JSON encoder, HTTP,
-- SMTP, SHA-256, and `meta.SetStatusCondition`.
pub record World (F : Type 0) : Type 0 where
  pub get_plan : Str → Got (CapacityPlan F)
  -- The data of a secret in a namespace.
  pub get_secret : Str → Str → Fallible (Dict Str)
  -- `none` is a successful `Status().Update`.
  pub update : CapacityPlanNotification → Option Str
  -- What a client that reads the object again finds of a time that was written.
  pub stored_time : ℤ → ℤ
  pub marshal_text : Str → Fallible Str
  pub post : Str → Str → Posted
  pub send_mail : Mail → Option Str
  -- `%q`, which escapes what is not printable.
  pub quote : Str → Str
  pub sha256_hex : Str → Str
  pub set_status_condition : List Condition → Condition → List Condition
