-- ===== src/Timer/Cancel.antt =====
-- CancelTimer of src/TimerSched.cpp.
use mathlib.Core.List.{Mem}
use winsock_tut.Base.{
  ℕ, suc, ◌-◌, ◌≡◌, refl, true, false, ◌∷◌, Perm, none, some, arith, length, Option-cases, inl, inr,
}
use winsock_tut.Timer.{TimerSched, slot, contains, find_entry, cut_out, cancel_timer}
use winsock_tut.Timer.Sift.{Timer, timer_of, timers}
use winsock_tut.Timer.Cut.{cut_out-Without}
use winsock_tut.Timer.Valid.{
  IsValid, ids, find_entry-none, find_entry_gone, find_entry-some, Without-IsValid,
}

-- What CancelTimer leaves when it takes out the timer `t`.
pub record Cancelled (s s' : TimerSched) (t : Timer) : Type 0 where
  pub valid : IsValid s'
  pub rest : Perm (t ∷ timers s'.heap) (timers s.heap)
  pub gone : ¬ Mem t.id (ids s'.heap)
  pub stale : s'.ref ≡ s.ref
  pub count : s'.next_id ≡ s.next_id

-- CancelTimer of an id that a timer in the heap of a valid scheduler has returns a valid
-- scheduler: exactly that timer is gone, and ref_ and the next id are as they were.
pub cancel_timer_lem :
    (id : ℕ) (s : TimerSched)
    → IsValid s
    → Mem id (ids s.heap)
    → (s' : TimerSched) × (t : Timer) × (cancel_timer id s ≡ some s')
      × (t.id ≡ id)
      × Cancelled s s' t
unfolding cancel_timer
cancel_timer_lem id s v m = elim (Option-cases (find_entry id s.heap)) [
  | inl e ↦ absurd (find_entry-none id s.heap e m)
  | inr (entry, e) ↦
      let (i, inside, at, same) = find_entry-some id s.heap entry e in
      let n = length s.heap - 1 in
      let size : suc n ≡ length s.heap = omega arith in
      let place : entry.index ≡ i = ground (arith, v.placed i) in
      let w =
        cut_out-Without s.heap i n (omega arith) (omega arith) (omega (arith, v.small))
          (λ c p q. v.heap c p (omega arith)) (λ k q. v.placed k (omega arith)) in
      let (valid, gone) = Without-IsValid s _ (cut_out s.heap i n) s.ref v w (λ k _ h. h) in
      (
        record s { heap = cut_out s.heap i n },
        timer_of (slot s.heap i),
        rw (v.known id m, e, place),
        ground arith,
        record { valid = valid; rest = w.rest; gone = gone; stale = refl; count = refl },
      )
]

-- CancelTimer of an id that is not in ref_ changes nothing.
pub cancel_timer-unknown :
    (id : ℕ) (s : TimerSched) → contains id s.ref ≡ false → cancel_timer id s ≡ some s
unfolding cancel_timer
cancel_timer-unknown id s e = rw e

dangling :
    (id : ℕ) (s : TimerSched)
    → contains id s.ref ≡ true
    → ¬ Mem id (ids s.heap)
    → cancel_timer id s ≡ none
unfolding cancel_timer
dangling id s known gone = rw (known, find_entry_gone id s.heap gone)

-- A second CancelTimer of the same id reads the freed entry: the first one leaves its pointer in
-- ref_. This holds for each timer of a valid scheduler.
cancel_timer-cancel_timer :
    (id : ℕ) (s s' : TimerSched)
    → IsValid s
    → Mem id (ids s.heap)
    → cancel_timer id s ≡ some s'
    → cancel_timer id s' ≡ none
cancel_timer-cancel_timer id s s' v m e =
    let (first, t, run, same, c) = cancel_timer_lem id s v m in
    let again : cancel_timer id first ≡ none =
      dangling id first (rw c.stale (v.known id m)) (rw (← same) c.gone) in
    let here : first ≡ s' = cc in rw (← here) again
