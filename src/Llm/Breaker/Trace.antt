-- ===== src/Llm/Breaker/Trace.antt =====
-- The breaker over any sequence of recorded failures and of clearings, as the lock orders them: what a
-- client then knows is how many failures have come in a row, and when the last one did.
use capacity_planning_operat.Prelude.{
  ℕ, suc, ◌+◌, ◌^◌, ◌<◌, ◌≡◌, refl, inl, inr, Bool, false, ◌&&◌, not, List, [], ◌∷◌, Option, none,
  some, arith, if◌then◌else◌, length, Bool-cases, leb,
}
use mathlib.Core.Path.{ap, ◌∙◌}
use capacity_planning_operat.Prelude.Int.{ℤ, pos, ◌+ℤ◌, add64, wrap64_id, wrap64, ltb_ℤ}
use capacity_planning_operat.Llm.Clients.{FastApiInsightGenerator}
use capacity_planning_operat.Llm.Breaker.{record_failure, clear_failures, is_before}

pub data Event : Type 0 where
  failure : ℤ → Event
  clearing : Event

unfoldable pub replay : FastApiInsightGenerator → List Event → FastApiInsightGenerator
replay g [] = g
replay g (failure t ∷ es) = replay (record_failure g t) es
replay g (clearing ∷ es) = replay (clear_failures g) es

-- The times of the failures since the last clearing, newest first, where `run` came before.
unfoldable pub failures_in_a_row : List ℤ → List Event → List ℤ
failures_in_a_row run [] = run
failures_in_a_row run (failure t ∷ es) = failures_in_a_row (t ∷ run) es
failures_in_a_row run (clearing ∷ es) = failures_in_a_row [] es

-- Whether the next request is refused without a look at the backend.
unfoldable pub refuses : FastApiInsightGenerator → ℤ → Bool
refuses g now =
    not (ltb_ℤ g.consecutive_fails g.failure_threshold) && is_before now g.degraded_until

-- The specification: enough failures in a row, the last of them less than a cooldown ago.
unfoldable pub is_open : ℕ → ℤ → List ℤ → ℤ → Bool
is_open threshold cooldown [] now = false
is_open threshold cooldown (t ∷ run) now =
    leb threshold (suc (length run)) && ltb_ℤ now (t +ℤ cooldown)

abbrev pub until_of : ℕ → ℤ → List ℤ → Option ℤ
until_of threshold cooldown [] = none
until_of threshold cooldown (t ∷ run) =
    if leb threshold (suc (length run)) then some (t +ℤ cooldown) else none

-- The client's state is that of a run of failures.
pub record IsRun (k : ℕ) (g : FastApiInsightGenerator) (run : List ℤ) : Type 0 where
  pub threshold : g.failure_threshold ≡ pos (suc k)
  pub count : g.consecutive_fails ≡ pos (length run)
  pub until : g.degraded_until ≡ until_of (suc k) g.cooldown run

pos_suc : (n : ℕ) → pos n +ℤ pos 1 ≡ pos (suc n)
unfolding ◌+ℤ◌
pos_suc n = ground arith

add64-suc : (n : ℕ) → n + 1 < 2 ^ 63 → add64 (pos n) (pos 1) ≡ pos (suc n)
unfolding add64
add64-suc n h = ap wrap64 (pos_suc n) ∙ wrap64_id (pos (suc n)) (omega arith, omega arith)

until_none :
    (k : ℕ) (cooldown : ℤ) (run : List ℤ)
    → leb (suc k) (suc (length run)) ≡ false
    → until_of (suc k) cooldown run ≡ none
until_none k cooldown [] h = refl
until_none k cooldown (t ∷ run) h = ground (arith, h)

record_failure-IsRun :
    (k : ℕ) (g : FastApiInsightGenerator) (run : List ℤ) (t : ℤ)
    → length run + 1 < 2 ^ 63
    → IsRun k g run
    → IsRun k (record_failure g t) (t ∷ run)
unfolding record_failure
record_failure-IsRun k g run t h r =
    let n = length run in
    let fails : add64 g.consecutive_fails (pos 1) ≡ pos (suc n) = rw r.count (add64-suc n h) in
    elim (Bool-cases (leb (suc k) (suc n))) [
      | inl e ↦ record {
        threshold = r.threshold;
        count = fails;
        until = rw (fails, r.threshold) (ground (arith, e));
      }
      | inr e ↦ record {
        threshold = r.threshold;
        count = fails;
        until = rw (fails, r.threshold, r.until, until_none k g.cooldown run e) (ground (arith, e));
      }
    ]

pub replay-IsRun :
    (k : ℕ) (g : FastApiInsightGenerator) (run : List ℤ) (es : List Event)
    → length run + length es < 2 ^ 63
    → IsRun k g run
    → IsRun k (replay g es) (failures_in_a_row run es)
unfolding replay failures_in_a_row clear_failures
replay-IsRun k g run [] h r = r
replay-IsRun k g run (failure t ∷ es) h r =
    replay-IsRun k (record_failure g t) (t ∷ run) es (omega arith)
      (record_failure-IsRun k g run t (omega arith) r)
replay-IsRun k g run (clearing ∷ es) h r =
    replay-IsRun k (clear_failures g) [] es (omega arith)
      (record { threshold = r.threshold; count = refl; until = refl })

refuses-is_open :
    (k : ℕ) (g : FastApiInsightGenerator) (run : List ℤ) (now : ℤ)
    → IsRun k g run
    → refuses g now ≡ is_open (suc k) g.cooldown run now
unfolding refuses is_open
refuses-is_open k g [] now r = rw (r.threshold, r.count, r.until) (ground arith)
refuses-is_open k g (t ∷ run) now r = elim (Bool-cases (leb (suc k) (suc (length run)))) [
  | inl e ↦ rw (r.threshold, r.count, r.until, e) (ground (arith, e))
  | inr e ↦ rw (r.threshold, r.count, r.until, e) (ground (arith, e))
]

pub replay_cooldown :
    (g : FastApiInsightGenerator) (es : List Event) → (replay g es).cooldown ≡ g.cooldown
unfolding replay record_failure clear_failures
replay_cooldown g [] = refl
replay_cooldown g (failure t ∷ es) = replay_cooldown (record_failure g t) es
replay_cooldown g (clearing ∷ es) = replay_cooldown (clear_failures g) es

-- In whatever order concurrent calls record failures and clear them, fewer than 2^63 in all, a client of
-- positive threshold that starts without failures refuses a request exactly if the specification does.
pub replay-is_open :
    (k : ℕ) (g : FastApiInsightGenerator) (es : List Event) (now : ℤ)
    → g.failure_threshold ≡ pos (suc k)
    → g.consecutive_fails ≡ pos 0
    → g.degraded_until ≡ none
    → length es < 2 ^ 63
    → refuses (replay g es) now ≡ is_open (suc k) g.cooldown (failures_in_a_row [] es) now
replay-is_open k g es now threshold count until few =
    let start : IsRun k g [] = record { threshold = threshold; count = count; until = until } in
    let r = replay-IsRun k g [] es (omega arith) start in
    refuses-is_open k (replay g es) (failures_in_a_row [] es) now r
    ∙ ap (λ c. is_open (suc k) c (failures_in_a_row [] es) now) (replay_cooldown g es)
