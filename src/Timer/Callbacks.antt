-- ===== src/Timer/Callbacks.antt =====
-- UpdateTimer of src/TimerSched.cpp with callbacks that change the scheduler.
use mathlib.Core.List.{Mem, filter, mem-cons, mem-map_of_mem, mem-cons_of_mem}
use mathlib.Core.Logic.Or
use mathlib.Core.Path.{subst}
use mathlib.Core.List.Perm
use native.Mathlib.Bridge.{le_prop}
use native.Mathlib.Decide.{dec_le}
use winsock_tut.Base.{
  ℕ, zero, suc, ◌+◌, ◌%◌, ◌^◌, ◌≤◌, ◌<◌, ◌≡◌, ◌⊎◌, sym, ◌∙◌, ap, true, false, ◌&&◌, List, [], ◌∷◌,
  ◌++◌, Perm, Option, none, some, arith, length, length-perm, ltb, if◌then◌else◌, inl, inr,
  i64_rank, i32_rank, i32_rank_mono, i32_extend,
}
use winsock_tut.Timer.{
  TimerEntry, TimerSched, Host, alone, slot, pop_root, add_timer, update_loop, update_timer, notify,
}
use winsock_tut.Timer.Sift.{Timer, timer_of, timers, key}
use winsock_tut.Timer.Valid.{IsValid, id_of}
use winsock_tut.Timer.Update.{
  rank, pop_root_lem, least_root, mem-root, root_cases, update_loop-fire,
}
use winsock_tut.Timer.Expiry.{NoneDue}
use winsock_tut.Timer.Add.{add_timer_lem, added}

abbrev pub pending : ℕ → List Timer → ℕ
pending now ts = length (filter (λ t. dec_le (rank t) (i64_rank now)) ts)

-- No due timer is newer than `last_id`.
abbrev pub IsOld : ℕ → ℕ → TimerSched → Type 0
IsOld now last_id s =
    (t : Timer) → Mem t (timers s.heap) → rank t ≤ i64_rank now → i32_rank t.id ≤ i32_rank last_id

-- Callbacks that keep the scheduler valid, and that leave no more due timers than they find, and
-- none with an id above `last_id`: they may cancel timers, and add timers for later.
pub record IsTame {S : Type 0} (host : Host S) (now last_id : ℕ) (on_timeout : ℕ → S → S)
    : Type 0 where
  pub valid : (k : ℕ) (o : S) → IsValid (host.sched o) → IsValid (host.sched (on_timeout k o))
  pub old :
      (k : ℕ) (o : S)
      → IsValid (host.sched o)
      → IsOld now last_id (host.sched o)
      → IsOld now last_id (host.sched (on_timeout k o))
  pub fewer :
      (k : ℕ) (o : S)
      → IsValid (host.sched o)
      → pending now (timers (host.sched (on_timeout k o)).heap)
        ≤ pending now (timers (host.sched o).heap)

pending-perm : (now : ℕ) {a b : List Timer} → Perm a b → pending now a ≡ pending now b
pending-perm now p = length-perm (Perm.filter _ p)

pending-cons_due :
    (now : ℕ) (t : Timer) (ts : List Timer)
    → rank t ≤ i64_rank now
    → pending now (t ∷ ts) ≡ suc (pending now ts)
pending-cons_due now t ts h = ground arith

pending-cons_later :
    (now : ℕ) (t : Timer) (ts : List Timer)
    → i64_rank now < rank t
    → pending now (t ∷ ts) ≡ pending now ts
pending-cons_later now t ts h = ground arith

module _ {S : Type 0} (host : Host S) (on_timeout : ℕ → S → S) (now last_id : ℕ)
    (tame : IsTame host now last_id on_timeout) where
  notify-tame :
      (sink : Option ℕ) (o : S)
      → IsValid (host.sched o)
      → IsOld now last_id (host.sched o)
      → IsValid (host.sched (notify on_timeout sink o))
        × IsOld now last_id (host.sched (notify on_timeout sink o))
        × (pending now (timers (host.sched (notify on_timeout sink o)).heap)
            ≤ pending now (timers (host.sched o).heap))
  unfolding notify
  notify-tame none o v old = (v, old, omega arith)
  notify-tame (some k) o v old = (tame.valid k o v, tame.old k o v old, tame.fewer k o v)

  -- After the root has left.
  popped-tame :
      (o : S)
      → IsValid (host.sched o)
      → IsOld now last_id (host.sched o)
      → 0 < length (host.sched o).heap
      → key (host.sched o).heap 0 ≤ i64_rank now
      → let p = host.with_sched (pop_root (host.sched o)) o in
        IsValid (host.sched p)
        × IsOld now last_id (host.sched p)
        × (suc (pending now (timers (host.sched p).heap))
            ≡ pending now (timers (host.sched o).heap))
  popped-tame o v old some_left due =
      let s = host.sched o in
      let t = timer_of (slot s.heap 0) in
      let (valid, popped, unknown, same_id) = pop_root_lem s v some_left in
      rw (host.sched-with_sched (pop_root s) o) (
        valid,
        λ u m. old u ((Perm.mem_iff popped).0 (mem-cons_of_mem t m)),
        sym (pending-cons_due now t (timers (pop_root s).heap) due) ∙ pending-perm now popped,
      )

  tame_loop :
      (f : ℕ) (o : S) (out : List TimerEntry)
      → pending now (timers (host.sched o).heap) < f
      → IsValid (host.sched o)
      → IsOld now last_id (host.sched o)
      → (o' : S) × (fired : List TimerEntry) × (update_loop host on_timeout f now last_id o out
          ≡ some (o', fired))
        × IsValid (host.sched o')
        × NoneDue now (host.sched o')
  tame_loop zero o out fuel v old = absurd (omega arith)
  tame_loop (suc f) o out fuel v old = elim (root_cases host on_timeout f now last_id o out) [
    | inl (stops, later) ↦ (
      o,
      out,
      stops,
      v,
      λ t m. least_root (host.sched o).heap (suc (i64_rank now)) v.heap later t m,
    )
    | inr (some_left, due) ↦
        let s = host.sched o in
        let root = slot s.heap 0 in
        let p = host.with_sched (pop_root s) o in
        let (valid, older, fall) = popped-tame o v old some_left due in
        let (valid', old', fewer) = notify-tame root.sink p valid older in
        let (o', fired, run, x, quiet) =
          tame_loop f (notify on_timeout root.sink p) (out ++ root ∷ []) (omega arith) valid'
            old' in
        let step =
          update_loop-fire host on_timeout f now last_id o out some_left due
            (old (timer_of root) (mem-root s.heap some_left) due) in
        (o', fired, step ∙ run, x, quiet)
  ]

-- UpdateTimer on an object with a valid scheduler returns if its callbacks are tame and it has a
-- round more than there are due timers: the scheduler is valid, and no timer in it is due.
pub update_timer_tame :
    {S : Type 0} (host : Host S) (on_timeout : ℕ → S → S) (fuel tick : ℕ) (o : S)
    → IsTame host (tick % 2 ^ 64) (host.sched o).next_id on_timeout
    → pending (tick % 2 ^ 64) (timers (host.sched o).heap) < fuel
    → IsValid (host.sched o)
    → (o' : S) × (fired : List TimerEntry) × (update_timer host on_timeout fuel tick o
        ≡ some (o', fired))
      × IsValid (host.sched o')
      × NoneDue (tick % 2 ^ 64) (host.sched o')
unfolding update_timer
update_timer_tame host on_timeout fuel tick o tame enough v =
    tame_loop host on_timeout (tick % 2 ^ 64) (host.sched o).next_id tame fuel o [] enough v
      (λ t m due. old_id t m)
  where
    old_id :
        (t : Timer)
        → Mem t (timers (host.sched o).heap)
        → i32_rank t.id ≤ i32_rank (host.sched o).next_id
    old_id t m =
        let below = v.fresh t.id (mem-map_of_mem id_of m) in
        i32_rank_mono t.id (host.sched o).next_id (omega (arith, below, v.positive)) v.positive
          (omega (arith, below))

-- Callbacks that leave the scheduler alone are tame.
pub still-IsTame :
    {S : Type 0} (host : Host S) (now last_id : ℕ) (on_timeout : ℕ → S → S)
    → ((k : ℕ) (o : S) → host.sched (on_timeout k o) ≡ host.sched o)
    → IsTame host now last_id on_timeout
still-IsTame host now last_id on_timeout still = record {
  valid = λ k o v. subst IsValid (sym (still k o)) v;
  old = λ k o v h. subst (IsOld now last_id) (sym (still k o)) h;
  fewer = λ k o v. omega (arith, ap (λ s. pending now (timers s.heap)) (still k o));
}

-- A callback that schedules itself again, as OnTimeout of the example clients does.
pub rearm : ℕ → ℕ → ℕ → TimerSched → TimerSched
rearm tick millsec k s =
    if ltb (length s.heap) (2 ^ 31) && ltb (s.next_id + 1) (2 ^ 31)
    then (add_timer tick millsec (some k) s).0
    else s

-- Scheduling oneself again is tame if the new time is not due in the running UpdateTimer.
pub rearm-IsTame :
    (now last_id tick millsec : ℕ)
    → i64_rank now < i64_rank ((tick + i32_extend millsec) % 2 ^ 64)
    → IsTame alone now last_id (rearm tick millsec)
rearm-IsTame now last_id tick millsec later = record {
  valid = λ k s v. elim (room_cases s) [
    | inl (e, p, q) ↦ unfold rearm in rw e (add_timer_lem tick millsec (some k) s v p q).0
    | inr e ↦ unfold rearm in rw e v
  ];
  old = λ k s v h. elim (room_cases s) [
    | inl (e, p, q) ↦
        let gained = (add_timer_lem tick millsec (some k) s v p q).2 in
        unfold rearm in
        rw e λ t m due.
          Or.elim le_prop (mem-cons.0 ((Perm.mem_iff gained).0 m))
            (λ same. absurd (omega (arith, ap rank same))) (λ rest. h t rest due)
    | inr e ↦ unfold rearm in rw e h
  ];
  fewer = λ k s v. elim (room_cases s) [
    | inl (e, p, q) ↦
        let gained = (add_timer_lem tick millsec (some k) s v p q).2 in
        let new = added tick millsec (some k) s in
        unfold rearm in
        rw e
          (omega (arith, pending-perm now gained, pending-cons_later now new (timers s.heap) later))
    | inr e ↦ unfold rearm in rw e (omega arith)
  ];
}
  where
    room_cases :
        (s : TimerSched)
        → ((ltb (length s.heap) (2 ^ 31) && ltb (s.next_id + 1) (2 ^ 31)) ≡ true)
            × (length s.heap < 2 ^ 31)
            × (s.next_id + 1 < 2 ^ 31)
          ⊎ ((ltb (length s.heap) (2 ^ 31) && ltb (s.next_id + 1) (2 ^ 31)) ≡ false)
    room_cases s = ground arith
