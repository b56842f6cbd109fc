-- ===== src/Analysis/RingBuffer/Invariant.antt =====
-- The invariant of a ring buffer: every index is inside the backing array.
use capacity_planning_operat.Prelude.{
  ℕ, zero, suc, ◌+◌, ◌-◌, ◌%◌, ◌≤◌, ◌<◌, ◌≡◌, arith, length, length-set, length-replicate,
  if◌then◌else◌,
}
use capacity_planning_operat.Prelude.Int.{ℤ, pos, ltb_ℤ, pos_part}
use capacity_planning_operat.Analysis.RingBuffer.{
  Sample, RingBuffer, zero_sample, new_ring_buffer, push, snapshot, read_from, len, reset,
}

pub record IsValid (r : RingBuffer) : Type 0 where
  pub backing : length r.buf ≡ r.capacity
  pub head_in : r.head < r.capacity
  pub count_in : r.count ≤ r.capacity

pub new_ring_buffer-IsValid : (n : ℤ) → IsValid (new_ring_buffer n) × (len (new_ring_buffer n) ≡ 0)
unfolding new_ring_buffer len
new_ring_buffer-IsValid n =
    let cap = if ltb_ℤ n (pos 1) then 1 else pos_part n in
    (ground (arith, length-replicate cap zero_sample), ground arith)

pub push-IsValid : (r : RingBuffer) (s : Sample) → IsValid r → IsValid (push r s)
unfolding push
push-IsValid r s v = grind (arith, length-set r.buf r.head s)

pub reset-IsValid : (r : RingBuffer) → IsValid r → IsValid (reset r)
unfolding reset
reset-IsValid r v = ground arith

pub capacity-push : (r : RingBuffer) (s : Sample) → (push r s).capacity ≡ r.capacity
unfolding push
capacity-push r s = ground arith

length-read_from : (r : RingBuffer) (start i n : ℕ) → length (read_from r start i n) ≡ n
unfolding read_from
length-read_from r start i zero = omega arith
length-read_from r start i (suc n) = omega (arith, length-read_from r start (i + 1) n)

pub length-snapshot : (r : RingBuffer) → length (snapshot r) ≡ len r
unfolding snapshot len
length-snapshot r =
    ground (arith, length-read_from r ((r.head + r.capacity - r.count) % r.capacity) 0 r.count)
