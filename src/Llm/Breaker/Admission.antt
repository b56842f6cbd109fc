-- ===== src/Llm/Breaker/Admission.antt =====
-- When checkAvailability lets a request through: it depends on the run of failures, on the clock and on
-- the backend's health alone.
use capacity_planning_operat.Prelude.{
  ℕ, suc, ◌^◌, ◌<◌, ◌≡◌, refl, ap, ◌∙◌, inl, inr, Bool, true, false, ◌&&◌, not, List, [], ◌∷◌, some,
  none, arith, length, Bool-cases, ltb, leb, if◌then◌else◌,
}
use capacity_planning_operat.Prelude.Int.{ℤ, pos, ◌+ℤ◌, ltb_ℤ, leb_ℤ}
use capacity_planning_operat.Prelude.Text.{is_empty, trim_space}
use capacity_planning_operat.Llm.Clients.{FastApiInsightGenerator}
use capacity_planning_operat.Llm.Breaker.{
  Backend, Exchange, unbuilt, unanswered, broken, answered, is_before, is_healthy, probe_health,
  check_availability,
}
use capacity_planning_operat.Llm.Breaker.Trace.{
  Event, replay, failures_in_a_row, IsRun, replay-IsRun, replay_cooldown,
}
use capacity_planning_operat.Llm.Breaker.Requests.{replay_settings}

-- Too few failures in a row let a request through; enough of them stop it for a cooldown from the last
-- one on, and from then on it goes through if the backend is well.
unfoldable pub admits : ℕ → ℤ → List ℤ → ℤ → Bool → Bool
admits threshold cooldown [] now well = true
admits threshold cooldown (t ∷ run) now well =
    if ltb (suc (length run)) threshold
    then true
    else (if ltb_ℤ now (t +ℤ cooldown) then false else well)

abbrev is_fine : Exchange → Bool
is_fine (unbuilt e) = false
is_fine (unanswered e) = false
is_fine (broken status e) = leb_ℤ (pos 200) status && ltb_ℤ status (pos 300)
is_fine (answered status body) = leb_ℤ (pos 200) status && ltb_ℤ status (pos 300)

module _ {F : Type 0} (backend : Backend F) where
  -- The client has a health address, and the backend answers there with a status from 200 to 299.
  abbrev pub is_well : FastApiInsightGenerator → Bool
  is_well g =
      not (is_empty (trim_space g.health_url)) && is_fine (backend.get g.health_url g.auth_token)

  is_healthy-is_fine : (x : Exchange) → is_healthy backend x ≡ is_fine x
  is_healthy-is_fine (unbuilt e) = refl
  is_healthy-is_fine (unanswered e) = refl
  is_healthy-is_fine (broken status e) = refl
  is_healthy-is_fine (answered status body) = refl

  pub probe_health-is_well : (g : FastApiInsightGenerator) → (probe_health backend g).0 ≡ is_well g
  unfolding probe_health
  probe_health-is_well g = elim (Bool-cases (is_empty (trim_space g.health_url))) [
    | inl e ↦ rw e refl
    | inr e ↦ rw e (is_healthy-is_fine (backend.get g.health_url g.auth_token))
  ]

  probed :
      (g : FastApiInsightGenerator) (now : ℤ) (until : ℤ)
      → ltb_ℤ g.consecutive_fails g.failure_threshold ≡ false
      → g.degraded_until ≡ some until
      → (check_availability backend g now).result ≡ (if ltb_ℤ now until then false else is_well g)
  unfolding check_availability
  probed g now until full u =
      let late : is_before now g.degraded_until ≡ ltb_ℤ now until = ap (is_before now) u in
      elim (Bool-cases (ltb_ℤ now until)) [
        | inl e ↦ rw (full, late, e) refl
        | inr e ↦ elim (Bool-cases (is_well g)) [
          | inl h ↦ rw (full, late, e, probe_health-is_well g, h) refl
          | inr h ↦ rw (full, late, e, probe_health-is_well g, h) refl
        ]
      ]

  run-admits :
      (k : ℕ) (g : FastApiInsightGenerator) (run : List ℤ) (now : ℤ)
      → IsRun k g run
      → (check_availability backend g now).result ≡ admits (suc k) g.cooldown run now (is_well g)
  unfolding check_availability admits
  run-admits k g [] now r =
      let few : ltb_ℤ g.consecutive_fails g.failure_threshold ≡ true =
        rw (r.count, r.threshold) (ground arith) in
      rw few refl
  run-admits k g (t ∷ run) now r = elim (Bool-cases (ltb (suc (length run)) (suc k))) [
    | inl e ↦
        let few : ltb_ℤ g.consecutive_fails g.failure_threshold ≡ true =
          rw (r.count, r.threshold) (ground (arith, e)) in
        rw (few, e) refl
    | inr e ↦
        let full : ltb_ℤ g.consecutive_fails g.failure_threshold ≡ false =
          rw (r.count, r.threshold) (ground (arith, e)) in
        let reached : leb (suc k) (suc (length run)) ≡ true = ground (arith, e) in
        let until : g.degraded_until ≡ some (t +ℤ g.cooldown) = r.until ∙ (rw reached refl) in
        rw e (probed g now (t +ℤ g.cooldown) full until)
  ]

  -- In whatever order concurrent calls record failures and clear them, fewer than 2^63 in all, a client
  -- of positive threshold that starts without failures lets a request through exactly in these cases:
  -- there are fewer failures since the last clearing than the threshold, or the last of them is at least
  -- a cooldown ago and the backend answers the probe of the health address with a status 2xx.
  pub check_availability-admits :
      (k : ℕ) (g : FastApiInsightGenerator) (es : List Event) (now : ℤ)
      → g.failure_threshold ≡ pos (suc k)
      → g.consecutive_fails ≡ pos 0
      → g.degraded_until ≡ none
      → length es < 2 ^ 63
      → (check_availability backend (replay g es) now).result
        ≡ admits (suc k) g.cooldown (failures_in_a_row [] es) now (is_well g)
  check_availability-admits k g es now threshold count until few =
      let start : IsRun k g [] = record { threshold = threshold; count = count; until = until } in
      let r = replay-IsRun k g [] es (omega arith) start in
      let (url, token, health) = replay_settings backend g es in
      run-admits k (replay g es) (failures_in_a_row [] es) now r
      ∙ (rw (replay_cooldown g es, token, health) refl)
