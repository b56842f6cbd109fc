-- ===== src/Notify/History.antt =====
-- What can happen to a notification object: requests for it, each in whatever state the rest of the
-- world is, and edits of its spec, in any order. The history keeps one entry for each request that
-- served a channel.
use capacity_planning_operat.Prelude.{◌≡◌, Bool, List, [], ◌∷◌, ◌++◌, if◌then◌else◌}
use capacity_planning_operat.Prelude.Int.{ℤ, pos, ◌+ℤ◌, ltb_ℤ, leb_ℤ}
use capacity_planning_operat.Prelude.{true, ◌&&◌, ◌||◌, not}
use capacity_planning_operat.Prelude.Text.{Str, is_empty, str_eq}
use capacity_planning_operat.Prelude.Float.{Float64}
use capacity_planning_operat.Plan.Hash.{is_nil}
use capacity_planning_operat.Notify.{
  CapacityPlanNotification, CapacityPlanNotificationSpec, World, Traffic,
}
use capacity_planning_operat.Notify.Reconcile.{reconcile_found, effective_cooldown}
use capacity_planning_operat.Notify.Reconcile.Cases.{was_saved, plan_hash}

pub record Entry : Type 0 where
  pub at : ℤ
  pub cooldown : ℤ
  pub on_change_only : Bool
  pub hash : Str
  pub saved : Bool
  pub traffic : List Traffic

-- The object, its entries with the newest first, and all that was sent.
pub record System : Type 0 where
  pub notification : CapacityPlanNotification
  pub log : List Entry
  pub wire : List Traffic

abbrev pub one_second : ℤ
one_second = pos 1_000_000_000

-- The API server keeps whole seconds of a time.
abbrev pub keeps_seconds : (ℤ → ℤ) → ℤ → Bool
keeps_seconds stored t = leb_ℤ (stored t) t && ltb_ℤ t (stored t +ℤ one_second)

module _ {F : Type 0} ⦃float : Float64 F⦄ (world : World F) where
  abbrev pub entry_of : CapacityPlanNotification → ℤ → Entry
  entry_of n now =
      let o = reconcile_found world n now in
      record {
        at = now;
        cooldown = effective_cooldown n.spec.cooldown;
        on_change_only = n.spec.on_change_only;
        hash = plan_hash world n;
        saved = was_saved o.reply;
        traffic = o.traffic;
      }

  unfoldable pub request : System → ℤ → System
  request s now =
      let n = s.notification in
      let o = reconcile_found world n now in
      record {
        notification = o.stored;
        log = if is_nil o.channels then s.log else entry_of n now ∷ s.log;
        wire = s.wire ++ o.traffic;
      }

unfoldable pub edit : System → CapacityPlanNotificationSpec → ℤ → System
edit s spec generation = record s {
  notification = record (s.notification) { spec = spec; generation = generation };
}

pub data Step (F : Type 0) ⦃float : Float64 F⦄ : System → System → Type 0 where
  requested :
      (world : World F) (s : System) (now : ℤ)
      → keeps_seconds world.stored_time now ≡ true
      → Step F s (request world s now)
  edited :
      (s : System) (spec : CapacityPlanNotificationSpec) (generation : ℤ)
      → Step F s (edit s spec generation)

pub data Reach (F : Type 0) ⦃float : Float64 F⦄ (s : System) : System → Type 0 where
  here : Reach F s s
  next : {t u : System} → Reach F s t → Step F t u → Reach F s u

-- The object as the operator first meets it.
abbrev pub initial : CapacityPlanNotification → System
initial n = record { notification = n; log = []; wire = [] }

-- If the older notification is on record, the newer one comes a cooldown later, but for the second that
-- the record may have lost, and where changes only are asked for it tells of another snapshot.
abbrev pub may_follow : Entry → Entry → Bool
may_follow newer older =
    not older.saved
    || (ltb_ℤ (older.at +ℤ newer.cooldown) (newer.at +ℤ one_second)
        && (not newer.on_change_only
            || (is_empty newer.hash || not (str_eq newer.hash older.hash))))

abbrev pub IsSpaced : List Entry → Type 0
IsSpaced [] = Unit
IsSpaced (e ∷ []) = Unit
IsSpaced (e ∷ f ∷ log) = (may_follow e f ≡ true) × IsSpaced (f ∷ log)

-- All traffic of the entries, oldest first.
abbrev pub sent_in : List Entry → List Traffic
sent_in [] = []
sent_in (e ∷ log) = sent_in log ++ e.traffic
