-- ===== src/Tests/Sampling.antt =====
-- The buffer and the regression at concrete samples.
use capacity_planning_operat.Prelude.{◌≡◌, refl, ◌++◌, [], ◌∷◌, newest, List, some}
use capacity_planning_operat.Prelude.Int.{pos, wrap64, sub64, floor_div, ◌-ℤ◌, ◌+ℤ◌, ◌*ℤ◌, quot}
use capacity_planning_operat.Prelude.Float.{Milli, milli_float, Milli-HasSigns, NotBelowZero}
use capacity_planning_operat.Analysis.RingBuffer.{
  RingBuffer, new_ring_buffer, push, push_all, snapshot, Sample,
}
use capacity_planning_operat.Analysis.RingBuffer.Invariant.{new_ring_buffer-IsValid}
use capacity_planning_operat.Analysis.RingBuffer.History.{push_all-newest}
use capacity_planning_operat.Analysis.Growth.{calculate_growth}
use capacity_planning_operat.Analysis.Growth.Bounds.{
  Predicts, calculate_growth-Predicts, days-NotBelowZero,
}
use capacity_planning_operat.Tests.{sample_at, milli}

abbrev empty : RingBuffer
empty = new_ring_buffer (pos 2)

abbrev days : List Sample
days = sample_at 0 ∷ sample_at 1 ∷ sample_at 2 ∷ []

push_all-newest_example :
    snapshot (push_all empty days) ≡ newest empty.capacity (snapshot empty ++ days)
push_all-newest_example = push_all-newest empty days (new_ring_buffer-IsValid (pos 2)).0

-- The third sample overwrites the first.
wraps : snapshot (push_all empty days) ≡ sample_at 1 ∷ sample_at 2 ∷ []
unfolding snapshot push_all push new_ring_buffer
wraps = refl

calculate_growth-Predicts_example : Predicts (calculate_growth {F = Milli} days (pos 100)) (pos 100)
calculate_growth-Predicts_example = calculate_growth-Predicts Milli-HasSigns days (pos 100)

-- 2 of 100 bytes after two days, at one byte a day.
fills : (calculate_growth {F = Milli} days (pos 100)).days_until_full ≡ some (milli 98000)
unfolding calculate_growth ◌+ℤ◌ ◌-ℤ◌ ◌*ℤ◌ quot sub64 wrap64 floor_div
fills = refl

days-NotBelowZero_example : NotBelowZero (milli 98000)
days-NotBelowZero_example = days-NotBelowZero Milli-HasSigns days (pos 100) fills
