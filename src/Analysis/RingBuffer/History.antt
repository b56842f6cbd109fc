-- ===== src/Analysis/RingBuffer/History.antt =====
-- A ring buffer as the history that it keeps: the newest samples, oldest first.
use native.Mathlib.Nat.{add-zero, mod-add-mod, mod-eq_of_lt, mod-eq-sub-mod, mod-lt}
use native.Mathlib.Decide.{dec_lt, ℕ_discrete}
use capacity_planning_operat.Prelude.{
  ℕ, zero, suc, ◌+◌, ◌-◌, ◌%◌, ◌<◌, ◌≡◌, ◌≢◌, refl, sym, ap, ap₂, ◌∙◌, List, [], ◌∷◌, ◌++◌, arith,
  length, get_or, set, drop, newest, newest_all, newest-append, drop-append, length-append,
  get_or-set_self, get_or-set_ne, append-nil, append_assoc,
}
use capacity_planning_operat.Analysis.RingBuffer.{
  Sample, RingBuffer, zero_sample, push, push_all, snapshot, read_from, len,
}
use capacity_planning_operat.Analysis.RingBuffer.Invariant.{
  IsValid, push-IsValid, capacity-push, length-snapshot,
}

-- The `n` samples from place `j` on, going round.
window : List Sample → ℕ → ℕ → ℕ → List Sample
window buf cap j zero = []
window buf cap j (suc n) = get_or buf (j % cap) zero_sample ∷ window buf cap (j + 1) n

-- Only the place round the buffer counts.
window_congr :
    (buf : List Sample) (cap a b n : ℕ)
    → a % cap ≡ b % cap
    → window buf cap a n ≡ window buf cap b n
unfolding window
window_congr buf cap a b zero e = refl
window_congr buf cap a b (suc n) e =
    ap₂ (λ k rest. get_or buf k zero_sample ∷ rest) e
      (window_congr buf cap (a + 1) (b + 1) n
        (sym (mod-add-mod a cap 1) ∙ ap (λ k. (k + 1) % cap) e ∙ mod-add-mod b cap 1))

read_from-window :
    (r : RingBuffer) (j i n : ℕ)
    → read_from r (j % r.capacity) i n ≡ window r.buf r.capacity (j + i) n
unfolding read_from window
read_from-window r j i zero = refl
read_from-window r j i (suc n) =
    ap₂ (λ k rest. get_or r.buf k zero_sample ∷ rest) (mod-add-mod j r.capacity i)
      (read_from-window r j (i + 1) n ∙ ap (λ k. window r.buf r.capacity k n) (omega arith))

snapshot-window :
    (r : RingBuffer) → snapshot r ≡ window r.buf r.capacity (r.head + r.capacity - r.count) r.count
unfolding snapshot window
snapshot-window r = elim (ℕ_discrete r.count 0) [
  | yes e ↦ rw e (ground arith)
  | no ne ↦ ground (
    arith,
    read_from-window r (r.head + r.capacity - r.count) 0 r.count,
    add-zero (r.head + r.capacity - r.count),
  )
]

-- Fewer than `cap` steps from a place do not come back to it.
mod-ne : (cap j k : ℕ) → 0 < k → k < cap → j % cap ≢ (j + k) % cap
mod-ne cap j k h hk e = elim (dec_lt (j % cap + k) cap) [
  | yes p ↦ omega (arith, mod-eq_of_lt p, mod-add-mod j cap k)
  | no p ↦ omega (
    arith,
    mod-add-mod j cap k,
    mod-eq-sub-mod {n = j % cap + k} {m = cap} (omega arith),
    mod-eq_of_lt {n = j % cap + k - cap} {m = cap} (omega arith),
  )
]

window-set :
    (buf : List Sample) (cap j n i : ℕ) (s : Sample)
    → length buf ≡ cap
    → n < cap
    → i ≡ (j + n) % cap
    → window (set buf i s) cap j (suc n) ≡ window buf cap j n ++ (s ∷ [])
unfolding window
window-set buf cap j zero i s hl hn e =
    ap (λ v. v ∷ []) (rw (e, add-zero) (get_or-set_self buf (j % cap) s zero_sample (omega arith)))
window-set buf cap j (suc n) i s hl hn e =
    ap₂ ◌∷◌
      (get_or-set_ne buf s zero_sample (λ q. mod-ne cap j (suc n) (omega arith) hn (sym q ∙ e)))
      (window-set buf cap (j + 1) n i s hl (omega arith) (e ∙ ap (λ k. k % cap) (omega arith)))

full_window :
    (q : RingBuffer) (n : ℕ)
    → q.count ≡ q.capacity
    → q.capacity ≡ suc n
    → snapshot q ≡ window q.buf q.capacity q.head (suc n)
full_window q n h e =
    snapshot-window q
    ∙ ap (λ k. window q.buf q.capacity (q.head + q.capacity - k) k) (h ∙ e)
    ∙ ap (λ k. window q.buf q.capacity k (suc n)) (omega arith)

module _ (r : RingBuffer) (s : Sample) (v : IsValid r) where
  open r use {buf, head, count, capacity}

  place :
      (j n : ℕ)
      → n < capacity
      → (j + n) % capacity ≡ head
      → window (set buf head s) capacity j (suc n) ≡ window buf capacity j n ++ (s ∷ [])
  place j n h e = window-set buf capacity j n head s v.backing h (sym e)

  round : (head + capacity) % capacity ≡ head
  round = grind (arith, v.head_in)

  room_start :
      count < capacity
      → ((head + 1) % capacity + capacity - (count + 1)) % capacity
        ≡ (head + capacity - count) % capacity
  room_start h =
      ap (λ k. k % capacity) (omega arith)
      ∙ mod-add-mod (head + 1) capacity (capacity - (count + 1))
      ∙ ap (λ k. k % capacity) (omega arith)

  push_room : count < capacity → snapshot (push r s) ≡ snapshot r ++ (s ∷ [])
  unfolding push
  push_room h =
      snapshot-window (push r s)
      ∙ ap (λ n. window (set buf head s) capacity ((head + 1) % capacity + capacity - n) n)
          (ground arith)
      ∙ window_congr (set buf head s) capacity _ _ (count + 1) (room_start h)
      ∙ ap (λ n. window (set buf head s) capacity (head + capacity - count) n) (omega arith)
      ∙ place (head + capacity - count) count h (ap (λ k. k % capacity) (omega arith) ∙ round)
      ∙ ap (λ xs. xs ++ (s ∷ [])) (sym (snapshot-window r))

  push_full :
      (n : ℕ)
      → count ≡ capacity
      → capacity ≡ suc n
      → snapshot (push r s) ≡ drop 1 (snapshot r) ++ (s ∷ [])
  unfolding push window
  push_full n h e =
      full_window (push r s) n (ground arith) e
      ∙ window_congr (set buf head s) capacity _ _ (suc n) (wrap_again (head + 1))
      ∙ place (head + 1) n (omega arith) (ap (λ k. k % capacity) (omega arith) ∙ round)
      ∙ ap (λ xs. drop 1 xs ++ (s ∷ [])) (sym (full_window r n h e))
    where
      wrap_again : (j : ℕ) → (j % capacity) % capacity ≡ j % capacity
      wrap_again j = mod-eq_of_lt (mod-lt j (omega arith))

-- `Push` to a valid buffer appends to the history and keeps of it the newest `capacity` samples.
pub push-newest :
    (r : RingBuffer) (s : Sample)
    → IsValid r
    → snapshot (push r s) ≡ newest r.capacity (snapshot r ++ (s ∷ []))
unfolding len
push-newest r s v = elim (dec_lt r.count r.capacity) [
  | yes h ↦
      push_room r s v h ∙ sym (newest_all r.capacity (snapshot r ++ (s ∷ [])) (omega (arith, size)))
  | no h ↦
      push_full r s v (r.capacity - 1) (omega arith) (omega arith)
      ∙ sym (drop-append 1 (snapshot r) (s ∷ []) (omega (arith, length-snapshot r)))
      ∙ ap (λ k. drop k (snapshot r ++ (s ∷ []))) {x = 1} (omega (arith, size))
]
  where
    size : length (snapshot r ++ (s ∷ [])) ≡ r.count + 1
    size = omega (arith, length-append (snapshot r) (s ∷ []), length-snapshot r)

pub push_all-IsValid :
    (r : RingBuffer) (ss : List Sample)
    → IsValid r
    → IsValid (push_all r ss) × ((push_all r ss).capacity ≡ r.capacity)
unfolding push_all
push_all-IsValid r [] v = (v, refl)
push_all-IsValid r (s ∷ ss) v =
    let (valid, same) = push_all-IsValid (push r s) ss (push-IsValid r s v) in
    (valid, same ∙ capacity-push r s)

-- After any number of pushes to a valid buffer, it holds the newest `capacity` samples of what it held
-- and what was pushed, the oldest first.
pub push_all-newest :
    (r : RingBuffer) (ss : List Sample)
    → IsValid r
    → snapshot (push_all r ss) ≡ newest r.capacity (snapshot r ++ ss)
unfolding push_all len
push_all-newest r [] v = sym (
    newest_all r.capacity (snapshot r ++ [])
      (omega (arith, length-append (snapshot r) [], length-snapshot r, v.count_in))
    ∙ append-nil (snapshot r))
push_all-newest r (s ∷ ss) v =
    push_all-newest (push r s) ss (push-IsValid r s v)
    ∙ ap (λ c. newest c (snapshot (push r s) ++ ss)) (capacity-push r s)
    ∙ ap (λ xs. newest r.capacity (xs ++ ss)) (push-newest r s v)
    ∙ newest-append r.capacity (snapshot r ++ (s ∷ [])) ss
    ∙ ap (newest r.capacity) (append_assoc (snapshot r) (s ∷ []) ss)
