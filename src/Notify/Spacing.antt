-- ===== src/Notify/Spacing.antt =====
-- Notifications keep their distance.
use capacity_planning_operat.Prelude.{
  ◌≡◌, refl, ap, ◌∙◌, ◌⊎◌, inl, inr, true, false, List, [], ◌∷◌, ◌++◌, some, arith, append-nil,
  ◌&&◌, not,
}
use capacity_planning_operat.Prelude.Int.{ℤ, ◌+ℤ◌, ◌-ℤ◌, leb_ℤ, ltb_ℤ, +ℤ_parts, -ℤ_parts}
use capacity_planning_operat.Prelude.Text.{str_eq, is_empty}
use capacity_planning_operat.Prelude.Float.{Float64}
use capacity_planning_operat.Notify.{CapacityPlanNotification, World}
use capacity_planning_operat.Notify.Reconcile.{is_cooling_down, reconcile_found}
use capacity_planning_operat.Notify.Reconcile.Cases.{
  IsQuiet, IsSending, reconcile_found-cases, plan_hash,
}
use capacity_planning_operat.Notify.History.{
  Entry, System, Step, requested, edited, Reach, here, next, request, edit, initial, IsSpaced,
  sent_in, entry_of, may_follow, keeps_seconds, one_second,
}

-- What the object says of the newest entry, if that entry was saved.
abbrev IsRecorded : CapacityPlanNotification → List Entry → Type 0
IsRecorded n [] = Unit
IsRecorded n (e ∷ log) =
    (e.saved ≡ false)
    ⊎ ((t : ℤ) × (n.status.last_sent_time ≡ some t)
        × (n.status.last_digest_hash ≡ e.hash)
        × (leb_ℤ t e.at ≡ true)
        × (ltb_ℤ e.at (t +ℤ one_second) ≡ true))

record IsConsistent (s : System) : Type 0 where
  spaced : IsSpaced s.log
  recorded : IsRecorded s.notification s.log
  all_sent : s.wire ≡ sent_in s.log

late_enough :
    (t at now cooldown : ℤ)
    → ltb_ℤ (now -ℤ t) cooldown ≡ false
    → ltb_ℤ at (t +ℤ one_second) ≡ true
    → ltb_ℤ (at +ℤ cooldown) (now +ℤ one_second) ≡ true
late_enough t at now cooldown late close = ground (
  arith,
  late,
  close,
  -ℤ_parts now t,
  +ℤ_parts t one_second,
  +ℤ_parts at cooldown,
  +ℤ_parts now one_second,
)

IsRecorded-keeps :
    (n n' : CapacityPlanNotification) (log : List Entry)
    → n'.status.last_sent_time ≡ n.status.last_sent_time
    → n'.status.last_digest_hash ≡ n.status.last_digest_hash
    → IsRecorded n log
    → IsRecorded n' log
IsRecorded-keeps n n' [] p q h = tt
IsRecorded-keeps n n' (e ∷ log) p q (inl u) = inl u
IsRecorded-keeps n n' (e ∷ log) p q (inr (t, a, b, c, d)) = inr (t, p ∙ a, q ∙ b, c, d)

follows :
    (n : CapacityPlanNotification) (newer older : Entry) (log : List Entry)
    → IsRecorded n (older ∷ log)
    → is_cooling_down n.status.last_sent_time newer.at newer.cooldown ≡ false
    → (newer.on_change_only
        && (not (is_empty newer.hash) && str_eq newer.hash n.status.last_digest_hash))
      ≡ false
    → may_follow newer older ≡ true
unfolding is_cooling_down
follows n newer older log (inl u) due changed = ground (arith, u)
follows n newer older log (inr (t, a, b, c, d)) due changed =
    let late = late_enough t older.at newer.at newer.cooldown (rw a at due) d in
    ground (arith, late, rw b at changed)

IsSpaced-cons :
    (n : CapacityPlanNotification) (e : Entry) (log : List Entry)
    → IsRecorded n log
    → IsSpaced log
    → is_cooling_down n.status.last_sent_time e.at e.cooldown ≡ false
    → (e.on_change_only && (not (is_empty e.hash) && str_eq e.hash n.status.last_digest_hash))
      ≡ false
    → IsSpaced (e ∷ log)
IsSpaced-cons n e [] r s due changed = tt
IsSpaced-cons n e (f ∷ log) r s due changed = (follows n e f log r due changed, s)

new_record :
    (n : CapacityPlanNotification) (e : Entry) (t : ℤ) (log : List Entry)
    → (e.saved ≡ false)
      ⊎ ((n.status.last_sent_time ≡ some t) × (n.status.last_digest_hash ≡ e.hash))
    → (leb_ℤ t e.at && ltb_ℤ e.at (t +ℤ one_second)) ≡ true
    → IsRecorded n (e ∷ log)
new_record n e t log (inl u) k = inl u
new_record n e t log (inr (p, q)) k = inr (t, p, q, ground (arith, k), ground (arith, k))

module _ {F : Type 0} ⦃float : Float64 F⦄ where
  quiet-IsConsistent :
      (world : World F) (s : System) (now : ℤ)
      → IsConsistent s
      → IsQuiet s.notification (reconcile_found world s.notification now)
      → IsConsistent (request world s now)
  unfolding request
  quiet-IsConsistent world s now h q =
      let n = s.notification in
      let o = reconcile_found world n now in
      rw (q.no_channels, q.no_traffic)
        (record {
          spaced = h.spaced;
          recorded = IsRecorded-keeps n o.stored s.log q.same_time q.same_hash h.recorded;
          all_sent = append-nil s.wire ∙ h.all_sent;
        })

  sending-IsConsistent :
      (world : World F) (s : System) (now : ℤ)
      → keeps_seconds world.stored_time now ≡ true
      → IsConsistent s
      → IsSending world s.notification
          (plan_hash world s.notification)
          now
          (reconcile_found world s.notification now)
      → IsConsistent (request world s now)
  unfolding request
  sending-IsConsistent world s now keeps h q =
      let n = s.notification in
      let o = reconcile_found world n now in
      rw q.some_channel (record {
        spaced = IsSpaced-cons n (entry_of world n now) s.log h.recorded h.spaced q.due q.changed;
        recorded =
            new_record o.stored (entry_of world n now) (world.stored_time now) s.log q.recorded
              keeps;
        all_sent = ap (λ w. w ++ o.traffic) h.all_sent;
      })

  Step-IsConsistent : {s t : System} → Step F s t → IsConsistent s → IsConsistent t
  unfolding edit
  Step-IsConsistent (requested world s now keeps) h =
      elim (reconcile_found-cases world s.notification now) [
        | inl q ↦ quiet-IsConsistent world s now h q
        | inr q ↦ sending-IsConsistent world s now keeps h q
      ]
  Step-IsConsistent (edited s spec generation) h = record {
    spaced = h.spaced;
    recorded =
        IsRecorded-keeps s.notification (edit s spec generation).notification s.log refl refl
          h.recorded;
    all_sent = h.all_sent;
  }

  Reach-IsConsistent : {s t : System} → IsConsistent s → Reach F s t → IsConsistent t
  Reach-IsConsistent h here = h
  Reach-IsConsistent h (next r st) = Step-IsConsistent st (Reach-IsConsistent h r)

  -- Whatever requests and edits an object meets, whatever the clock shows and whether updates fail or
  -- not, two notifications in a row are a cooldown apart (but for the second that the API server may drop
  -- of a time) and, where the newer one is for changes only and has a hash, tell of snapshots with
  -- different hashes, provided the update behind the older one succeeded; and nothing was sent but by
  -- these notifications.
  pub Reach-IsSpaced :
      (n : CapacityPlanNotification) {s : System}
      → Reach F (initial n) s
      → IsSpaced s.log × (s.wire ≡ sent_in s.log)
  Reach-IsSpaced n r =
      let start : IsConsistent (initial n) = record {
        spaced = tt;
        recorded = tt;
        all_sent = refl;
      } in
      let h = Reach-IsConsistent start r in (h.spaced, h.all_sent)
