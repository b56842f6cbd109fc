-- ===== src/Analysis/RingBuffer.antt =====
-- internal/analysis/ringbuffer.go: a fixed-capacity circular buffer of samples. A method that writes
-- `*r` returns the new buffer; the lock makes each method one step. A Go `int` that the code keeps
-- from going negative is a natural number, and `buf` is the whole backing array.
pub mod Invariant
pub mod History
use capacity_planning_operat.Prelude.{
  ℕ, zero, suc, ◌+◌, ◌-◌, ◌*◌, ◌%◌, List, [], ◌∷◌, ltb, ◌==◌, if◌then◌else◌, get_or, set, replicate,
}
use capacity_planning_operat.Prelude.Int.{ℤ, pos, negsuc, ltb_ℤ, pos_part}

-- A timestamp is in nanoseconds since 1970.
pub record Sample : Type 0 where
  pub timestamp : ℤ
  pub used_bytes : ℤ

-- `Sample{}`: Go's zero time is the first of January of year 1.
abbrev pub zero_sample : Sample
zero_sample = record { timestamp = negsuc (62_135_596_800 * 1_000_000_000 - 1); used_bytes = pos 0 }

pub record RingBuffer : Type 0 where
  pub buf : List Sample
  pub head : ℕ
  pub count : ℕ
  pub capacity : ℕ

unfoldable pub new_ring_buffer : ℤ → RingBuffer
new_ring_buffer capacity =
    let cap = if ltb_ℤ capacity (pos 1) then 1 else pos_part capacity in
    record { buf = replicate cap zero_sample; head = 0; count = 0; capacity = cap }

unfoldable pub push : RingBuffer → Sample → RingBuffer
push r s = record r {
  buf = set r.buf r.head s;
  head = (r.head + 1) % r.capacity;
  count = if ltb r.count r.capacity then r.count + 1 else r.count;
}

-- The loop `for _, s := range samples { buffer.Push(s) }`.
unfoldable pub push_all : RingBuffer → List Sample → RingBuffer
push_all r [] = r
push_all r (s ∷ ss) = push_all (push r s) ss

-- The loop of `Snapshot`, with `left` rounds to go.
read_from : RingBuffer → ℕ → ℕ → ℕ → List Sample
read_from r start i zero = []
read_from r start i (suc left) =
    get_or r.buf ((start + i) % r.capacity) zero_sample ∷ read_from r start (i + 1) left

-- `head - count + capacity` is written so that it does not pass below zero.
unfoldable pub snapshot : RingBuffer → List Sample
unfolding read_from
snapshot r =
    let start = (r.head + r.capacity - r.count) % r.capacity in
    let out = read_from r start 0 r.count in if r.count == 0 then [] else out

unfoldable pub len : RingBuffer → ℕ
len r = r.count

unfoldable pub reset : RingBuffer → RingBuffer
reset r = record r { head = 0; count = 0 }
