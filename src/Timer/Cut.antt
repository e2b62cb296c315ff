-- ===== src/Timer/Cut.antt =====
-- Taking an entry out of the heap of src/TimerSched.cpp: the last entry takes its slot, and the
-- two loops put it in its place (CancelTimer, and the root in UpdateTimer).
use mathlib.Core.List.{map-append, perm_middle, append-nil}
use mathlib.Core.List.Perm
use winsock_tut.Base.{
  ℕ, suc, ◌^◌, ◌≤◌, ◌<◌, ◌≡◌, sym, ap, ◌∙◌, Bool, true, false, List, [], ◌∷◌, Perm, arith, ltb,
  ◌==◌, if◌then◌else◌, length, take, Bool-cases, ==_refl, inl, inr, length-take, get_or-take,
  take-append-last,
}
use winsock_tut.Timer.{TimerEntry, blank_entry, slot, swap, set_index, siftdown, siftup, cut_out}
use winsock_tut.Timer.Sift.{
  Timer, timer_of, timers, parent, IsHeap, IsPlaced, Sifted, Sifted-trans, slot-swap,
  slot-set_index, length-swap, length-set_index, timers-swap, timers-set_index,
}
use winsock_tut.Timer.Up.{IsRising, siftup_lem}
use winsock_tut.Timer.Down.{IsSinking, Sunk, siftdown_lem}

-- `b` is a heap of the timers of `a` without `t`.
pub record Without (t : Timer) (a b : List TimerEntry) : Type 0 where
  pub heap : IsHeap (length b) b
  pub placed : IsPlaced (length b) b
  pub rest : Perm (t ∷ timers b) (timers a)

-- Dropping the last slot of a vector whose other slots are in order.
pub take-Without :
    (n : ℕ) (h : List TimerEntry)
    → length h ≡ suc n
    → IsHeap n h
    → IsPlaced n h
    → Without (timer_of (slot h n)) h (take n h)
take-Without n h size heap placed =
    let fit : length (take n h) ≡ n = length-take n h (omega arith) in
    let same = λ (c : ℕ) (p : c < n). get_or-take n h c blank_entry p in
    let whole = take-append-last n h blank_entry size in
    record {
      heap = λ c p q. ground (
        arith,
        fit,
        get_or-take n h c blank_entry,
        get_or-take n h (parent c) blank_entry,
        heap c,
      );
      placed = λ c q. ground (arith, fit, get_or-take n h c blank_entry, placed c);
      rest = rw (ap timers whole) at (
          rw (sym (map-append timer_of (take n h) (slot h n ∷ []))) at (
            Perm.symm (
              rw (append-nil (timers (take n h))) at
                (perm_middle {a = timer_of (slot h n)} (timers (take n h)) []))));
    }

-- The heap after the last entry, at `n`, has taken slot `i`.
module _ (h : List TimerEntry) (i n : ℕ) (size : length h ≡ suc n) (hi : i < n)
    (small : suc n ≤ 2 ^ 31) (heap : IsHeap (suc n) h) (placed : IsPlaced (suc n) h) where
  abbrev moved : List TimerEntry
  moved = set_index (swap h i n) i i

  moved-size : length moved ≡ suc n
  moved-size = length-set_index (swap h i n) i i ∙ length-swap h i n ∙ size

  slot-moved :
      (c : ℕ)
      → slot moved c ≡ (
          if i == c then record (slot h n) { index = i } else if n == c then slot h i else slot h c)
  slot-moved c = ground (
    arith,
    length-swap h i n,
    slot-set_index (swap h i n) i i c,
    slot-swap h i n (omega arith) (omega arith) c,
    slot-swap h i n (omega arith) (omega arith) i,
  )

  moved-timers : Perm (timers moved) (timers h)
  moved-timers =
      rw (timers-set_index (swap h i n) i i) (timers-swap h i n (omega arith) (omega arith))

  moved-IsPlaced : IsPlaced n moved
  moved-IsPlaced k hk = ground (arith, slot-moved k, placed k)

  pub moved-IsSinking : IsSinking i n moved i
  moved-IsSinking = record {
    room = omega (arith, moved-size);
    small = omega arith;
    start = omega arith;
    inside = hi;
    edges = λ c p q r t. ground (arith, slot-moved c, slot-moved (parent c), heap c);
    bridged =
        λ c p q r t. ground (arith, slot-moved c, slot-moved (parent i), heap c, heap (parent c));
  }

  -- Any vector that the loops make of it and that is in order is a heap without the entry.
  pub Sifted-Without :
      {b : List TimerEntry}
      → Sifted n moved b
      → IsHeap n b
      → Without (timer_of (slot h i)) h (take n b)
  Sifted-Without {b} s ordered =
      let w = take-Without n b (s.size ∙ moved-size) ordered (s.placed moved-IsPlaced) in
      let last : slot b n ≡ slot h i = ground (arith, s.frame n (omega arith), slot-moved n) in
      record {
        heap = w.heap;
        placed = w.placed;
        rest = Perm.trans (rw (ap timer_of last) at w.rest) (Perm.trans s.same moved-timers);
      }

  stays-IsRising : {i' : ℕ} {b : List TimerEntry} → Sunk i n i moved b i' → i' ≡ i → IsRising n b i
  stays-IsRising s e = rw (s.still e) record {
    room = omega (arith, moved-size);
    inside = hi;
    edges = s.below e;
    bridged =
        λ c p q r t. ground (arith, slot-moved c, slot-moved (parent i), heap c, heap (parent c));
  }

  settled-Without :
      {i' : ℕ} {b : List TimerEntry}
      → Sunk i n i moved b i'
      → (d : Bool) → d ≡ ltb i i'
      → Without (timer_of (slot h i)) h (take n (if d then b else siftup b i))
  settled-Without s true e = Sifted-Without s.sifted (s.moved (ground arith))
  settled-Without {b = b} s false e =
      let up = siftup_lem n b i (stays-IsRising s (ground (arith, s.stop))) in
      Sifted-Without (Sifted-trans s.sifted up.1) up.0

  pub cut_out-Without_inner : Without (timer_of (slot h i)) h (cut_out h i n)
  unfolding cut_out
  cut_out-Without_inner =
      let (i', s, done) = siftdown_lem i n moved moved-IsSinking in
      let other : (i == n) ≡ false = ground arith in
      rw other (settled-Without s (siftdown moved i n).1 done)

-- CancelTimer's part: the entry at `i` leaves the heap, and only that one.
pub cut_out-Without :
    (h : List TimerEntry) (i n : ℕ)
    → length h ≡ suc n
    → i ≤ n
    → suc n ≤ 2 ^ 31
    → IsHeap (suc n) h
    → IsPlaced (suc n) h
    → Without (timer_of (slot h i)) h (cut_out h i n)
cut_out-Without h i n size hi small heap placed = elim (Bool-cases (i == n)) [
  | inr other ↦ cut_out-Without_inner h i n size (ground arith) small heap placed
  | inl last ↦
      let e : i ≡ n = ground arith in
      let w =
        take-Without n h size (λ c p q. heap c p (omega arith)) (λ k q. placed k (omega arith)) in
      rw e (unfold cut_out in rw (==_refl n) w)
]
