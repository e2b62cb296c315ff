-- ===== src/Timer/Expiry.antt =====
-- The loop of UpdateTimer in src/TimerSched.cpp: what it fires, in which order, and when it ends.
use mathlib.Core.List.{Mem, append-nil, append_assoc, mem-map_of_mem, mem-cons_of_mem}
use mathlib.Core.List.Perm
use winsock_tut.Base.{
  ℕ, zero, suc, ◌%◌, ◌^◌, ◌≤◌, ◌<◌, ◌≡◌, refl, ◌∙◌, List, [], ◌∷◌, ◌++◌, Perm, Option, none, some,
  arith, length, length-map, length-perm, inl, inr, i64_rank, i32_rank, i32_rank_mono,
}
use winsock_tut.Timer.{
  TimerEntry, TimerSched, Host, slot, due_at, pop_root, update_loop, update_timer, notify,
}
use winsock_tut.Timer.Sift.{Timer, timer_of, timers, key}
use winsock_tut.Timer.Valid.{IsValid, id_of}
use winsock_tut.Timer.Update.{
  rank, pop_root_lem, least_root, mem-root, root_cases, update_loop-fire, update_loop-spin,
}

-- The entries in the order of their times, none before `lo`.
abbrev pub IsAscending : ℕ → List TimerEntry → Type 0
IsAscending lo [] = Unit {0}
IsAscending lo (e ∷ es) = (lo ≤ due_at e) × IsAscending (due_at e) es

abbrev pub AllDue : ℕ → List TimerEntry → Type 0
AllDue now [] = Unit {0}
AllDue now (e ∷ es) = (due_at e ≤ i64_rank now) × AllDue now es

-- No timer of the scheduler is due.
abbrev pub NoneDue : ℕ → TimerSched → Type 0
NoneDue now s = (t : Timer) → Mem t (timers s.heap) → i64_rank now < rank t

-- How a round of UpdateTimer ends: with the entries `fired` taken out of `s`, `s'` is left.
pub record Expired (now lo : ℕ) (s s' : TimerSched) (fired : List TimerEntry) : Type 0 where
  pub valid : IsValid s'
  pub ordered : IsAscending lo fired
  pub ripe : AllDue now fired
  pub rest : NoneDue now s'
  pub same : Perm (timers fired ++ timers s'.heap) (timers s.heap)
  pub count : s'.next_id ≡ s.next_id

Expired-stop :
    (now lo : ℕ) (s : TimerSched)
    → IsValid s
    → (0 < length s.heap → i64_rank now < key s.heap 0)
    → Expired now lo s s []
Expired-stop now lo s v later = record {
  valid = v;
  ordered = tt;
  ripe = tt;
  rest = λ t m. least_root s.heap (suc (i64_rank now)) v.heap later t m;
  same = Perm.rfl;
  count = refl;
}

notify-quiet :
    {S : Type 0} (on_timeout : ℕ → S → S) (sink : Option ℕ) (s : S)
    → ((k : ℕ) (r : S) → on_timeout k r ≡ r)
    → notify on_timeout sink s ≡ s
unfolding notify
notify-quiet on_timeout none s quiet = refl
notify-quiet on_timeout (some k) s quiet = quiet k s

size_popped :
    (s : TimerSched) (t : Timer) (b : List TimerEntry)
    → Perm (t ∷ timers b) (timers s.heap)
    → suc (length b) ≡ length s.heap
size_popped s t b p = rw (length-map timer_of b, length-map timer_of s.heap) at (length-perm p)

id_bounded : (s : TimerSched) → IsValid s → 0 < length s.heap → (slot s.heap 0).id < s.next_id
id_bounded s v p = v.fresh (slot s.heap 0).id (mem-map_of_mem id_of (mem-root s.heap p))

root_old :
    (s : TimerSched)
    → IsValid s
    → 0 < length s.heap
    → i32_rank (slot s.heap 0).id ≤ i32_rank s.next_id
root_old s v some_left =
    i32_rank_mono (slot s.heap 0).id s.next_id (omega (arith, id_bounded s v some_left, v.positive))
      v.positive (omega (arith, id_bounded s v some_left))

-- The round that takes the root out, before a round that goes on from what its callback leaves.
Expired-fire :
    (now lo : ℕ) (s s' : TimerSched) (fired : List TimerEntry)
    → key s.heap 0 ≤ i64_rank now
    → lo ≤ key s.heap 0
    → Perm (timer_of (slot s.heap 0) ∷ timers (pop_root s).heap) (timers s.heap)
    → Expired now (key s.heap 0) (pop_root s) s' fired
    → Expired now lo s s' (slot s.heap 0 ∷ fired)
Expired-fire now lo s s' fired due bound popped x = record {
  valid = x.valid;
  ordered = (bound, x.ordered);
  ripe = (due, x.ripe);
  rest = x.rest;
  same = Perm.trans (Perm.cons (timer_of (slot s.heap 0)) x.same) popped;
  count = x.count ∙ unfold pop_root in refl;
}

module _ {S : Type 0} (host : Host S) (on_timeout : ℕ → S → S)
    (quiet : (k : ℕ) (r : S) → on_timeout k r ≡ r) (now last_id : ℕ) where
  expire_loop :
      (f lo : ℕ) (o : S) (s : TimerSched) (out : List TimerEntry)
      → host.sched o ≡ s
      → length s.heap < f
      → IsValid s
      → s.next_id ≡ last_id
      → ((t : Timer) → Mem t (timers s.heap) → lo ≤ rank t)
      → (o' : S) × (fired : List TimerEntry) × (update_loop host on_timeout f now last_id o out
          ≡ some (o', out ++ fired))
        × Expired now lo s (host.sched o') fired
  expire_loop zero lo o s out here fuel v count bound = absurd (omega arith)
  expire_loop (suc f) lo o s out here fuel v count bound =
      elim (root_cases host on_timeout f now last_id o out) [
        | inl (stops, later) ↦
            (o, [], rw (append-nil out) stops, rw here (Expired-stop now lo s v (rw here at later)))
        | inr found ↦
            let (some_left, due) = rw here at found in
            let root = slot s.heap 0 in
            let (valid, popped, unknown, same_id) = pop_root_lem s v some_left in
            let old : i32_rank root.id ≤ i32_rank last_id = rw count at (root_old s v some_left) in
            let (o', fired, run, x) =
              expire_loop f (key s.heap 0) (host.with_sched (pop_root s) o) (pop_root s)
                (out ++ root ∷ []) (host.sched-with_sched (pop_root s) o)
                (omega (arith, size_popped s (timer_of root) (pop_root s).heap popped)) valid
                (same_id ∙ count)
                (λ t m.
                  least_root s.heap (key s.heap 0) v.heap (λ _. omega arith) t
                    ((Perm.mem_iff popped).0 (mem-cons_of_mem (timer_of root) m))) in
            let step = rw here at (
              update_loop-fire host on_timeout f now last_id o out found.0 found.1 (rw here old)) in
            (
              o',
              root ∷ fired,
              step
                  ∙ rw (notify-quiet on_timeout root.sink (host.with_sched (pop_root s) o) quiet)
                      (rw (append_assoc out (root ∷ []) fired) at run),
              Expired-fire now lo s (host.sched o') fired due
                  (bound (timer_of root) (mem-root s.heap some_left)) popped x,
            )
      ]

-- UpdateTimer on an object with a valid scheduler, with callbacks that change nothing and a round
-- more than there are timers, returns. It fires timers that are due, in the order of their times,
-- and leaves a valid scheduler with the others, of which none is due.
pub update_timer_lem :
    {S : Type 0} (host : Host S) (on_timeout : ℕ → S → S)
    → ((k : ℕ) (r : S) → on_timeout k r ≡ r)
    → (fuel tick : ℕ) (o : S) → length (host.sched o).heap < fuel
    → IsValid (host.sched o)
    → (o' : S) × (fired : List TimerEntry) × (update_timer host on_timeout fuel tick o
        ≡ some (o', fired))
      × Expired (tick % 2 ^ 64) 0 (host.sched o) (host.sched o') fired
unfolding update_timer
update_timer_lem host on_timeout quiet fuel tick o enough v =
    expire_loop host on_timeout quiet (tick % 2 ^ 64) (host.sched o).next_id fuel 0 o (host.sched o)
      [] refl enough v refl (λ t m. omega arith)

-- A scheduler whose root is due and newer than `last_id` keeps the loop going for ever.
update_loop_spins :
    {S : Type 0} (host : Host S) (on_timeout : ℕ → S → S) (fuel now last_id : ℕ) (o : S)
    (out : List TimerEntry)
    → 0 < length (host.sched o).heap
    → key (host.sched o).heap 0 ≤ i64_rank now
    → i32_rank last_id < i32_rank (slot (host.sched o).heap 0).id
    → update_loop host on_timeout fuel now last_id o out ≡ none
update_loop_spins host on_timeout zero now last_id o out p q r = unfold update_loop in refl
update_loop_spins host on_timeout (suc fuel) now last_id o out p q r =
    update_loop-spin host on_timeout fuel now last_id o out p q r
    ∙ update_loop_spins host on_timeout fuel now last_id o out p q r

-- UpdateTimer does not return, however many rounds it is given, when the callback of the due timer
-- at the root leaves at the root of the heap a due timer with an id above the next id at the start
-- of the call, as two calls of AddTimer can.
pub update_timer_spins :
    {S : Type 0} (host : Host S) (on_timeout : ℕ → S → S) (fuel tick k : ℕ) (o : S)
    → let s = host.sched o in
      let r = on_timeout k (host.with_sched (pop_root s) o) in
      IsValid s
      → 0 < length s.heap
      → (slot s.heap 0).sink ≡ some k
      → key s.heap 0 ≤ i64_rank (tick % 2 ^ 64)
      → 0 < length (host.sched r).heap
      → key (host.sched r).heap 0 ≤ i64_rank (tick % 2 ^ 64)
      → i32_rank s.next_id < i32_rank (slot (host.sched r).heap 0).id
      → update_timer host on_timeout fuel tick o ≡ none
unfolding update_timer
update_timer_spins host on_timeout zero tick k o v some_left has_sink due left due' newer =
    unfold update_loop in refl
update_timer_spins host on_timeout (suc fuel) tick k o v some_left has_sink due left due' newer =
    let now = tick % 2 ^ 64 in
    let s = host.sched o in
    let root = slot s.heap 0 in
    let popped = host.with_sched (pop_root s) o in
    let called : notify on_timeout root.sink popped ≡ on_timeout k popped =
      rw has_sink (unfold notify in refl) in
    update_loop-fire host on_timeout fuel now s.next_id o [] some_left due (root_old s v some_left)
    ∙ rw called (
        update_loop_spins host on_timeout fuel now s.next_id (on_timeout k popped) _ left due'
          newer)
