-- ===== src/Timer/Tests.antt =====
-- Runs of TimerSched, and its theorems at inputs.
use mathlib.Core.List.{Mem, mem-cons_self, mem-cons_of_mem}
use mathlib.Core.List.Perm
use native.Mathlib.Decide.{dec_le, ℕ_discrete}
use winsock_tut.Base.{
  ℕ, ◌%◌, ◌^◌, ◌<◌, ◌≡◌, refl, List, [], ◌∷◌, map, Perm, Option, none, some, arith, length, get_or,
  i64_rank, i32_rank, i32_extend,
}
use winsock_tut.Timer.{
  TimerEntry, TimerSched, alone, new_sched, siftdown, siftup, cut_out, add_timer, cancel_timer,
  pop_root, notify, update_loop, update_timer, contains, erase, find_entry, set_index, swap,
}
use winsock_tut.Timer.Sift.{Timer, timers}
use winsock_tut.Timer.Valid.{IsValid, new_sched-IsValid, ids, id_of}
use winsock_tut.Timer.Add.{added, add_timer_lem}
use winsock_tut.Timer.Cancel.{Cancelled, cancel_timer_lem}
use winsock_tut.Timer.Expiry.{Expired, NoneDue, update_timer_lem, update_timer_spins}
use winsock_tut.Timer.Refine.{
  Call, Agenda, Follows, plans, performs, performs-plans, schedule, cancel, advance,
}
use winsock_tut.Timer.Callbacks.{pending, rearm, rearm-IsTame, update_timer_tame}

-- Timers of 30, 10 and 20 ms, made at tick 1000.
abbrev three : TimerSched
three =
    let a = (add_timer 1000 30 (some 7) new_sched).0 in
    let b = (add_timer 1000 10 (some 8) a).0 in (add_timer 1000 20 none b).0

abbrev one : TimerSched
one = (add_timer 1000 30 (some 7) new_sched).0

three_ids : ids three.heap ≡ 101 ∷ 100 ∷ 102 ∷ []
unfolding add_timer siftup swap set_index i64_rank get_or i32_extend
three_ids = refl

-- The places of the entries and the keys of ref_.
three_refs : (map (λ e. e.index) three.heap ≡ 0 ∷ 1 ∷ 2 ∷ []) × (three.ref ≡ 102 ∷ 101 ∷ 100 ∷ [])
unfolding add_timer siftup swap set_index i64_rank get_or i32_extend erase
three_refs = (refl, refl)

abbrev cancelled_ids : Option TimerSched → List ℕ
cancelled_ids none = []
cancelled_ids (some s) = ids s.heap

cancel_root : cancelled_ids (cancel_timer 101 three) ≡ 102 ∷ 100 ∷ []
unfolding add_timer siftup siftdown cut_out swap set_index i64_rank get_or i32_extend erase
    cancel_timer contains find_entry
cancel_root = refl

abbrev fired_ids : Option (TimerSched × List TimerEntry) → List ℕ
fired_ids none = []
fired_ids (some (s, fired)) = ids fired

-- At tick 1020 two of the three timers are due.
update_two : fired_ids (update_timer alone (λ k s. s) 4 1020 three) ≡ 101 ∷ 102 ∷ []
unfolding add_timer siftup siftdown swap set_index i64_rank i32_rank get_or i32_extend erase
    update_timer update_loop pop_root notify
update_two = refl

add_timer_lem_example :
    IsValid one
    × ((add_timer 1000 30 (some 7) new_sched).1 ≡ 100)
    × Perm (timers one.heap) (added 1000 30 (some 7) new_sched ∷ [])
add_timer_lem_example =
    add_timer_lem 1000 30 (some 7) new_sched new_sched-IsValid (omega arith) (omega arith)

mem-one : Mem 100 (ids one.heap)
unfolding add_timer siftup i64_rank get_or
mem-one = mem-cons_self

cancel_timer_lem_example :
    (s' : TimerSched) × (t : Timer) × (cancel_timer 100 one ≡ some s')
    × (t.id ≡ 100)
    × Cancelled one s' t
cancel_timer_lem_example = cancel_timer_lem 100 one add_timer_lem_example.0 mem-one

-- What the first of the two calls leaves: the key of the freed entry.
abbrev emptied : TimerSched
emptied = record { next_id = 101; heap = []; ref = 100 ∷ [] }

cancel_one : cancel_timer 100 one ≡ some emptied
unfolding add_timer siftup siftdown cut_out i64_rank get_or i32_extend erase cancel_timer contains
    find_entry
cancel_one = refl

one-length : length one.heap < 4
unfolding add_timer siftup i64_rank get_or
one-length = omega arith

update_timer_lem_example :
    (s' : TimerSched) × (fired : List TimerEntry) × (update_timer alone (λ k s. s) 4 1040 one
      ≡ some (s', fired))
    × Expired (1040 % 2 ^ 64) 0 one s' fired
update_timer_lem_example =
    update_timer_lem alone (λ k s. s) (λ k s. refl) 4 1040 one one-length add_timer_lem_example.0

one-pending : pending (1040 % 2 ^ 64) (timers one.heap) < 4
unfolding add_timer siftup i64_rank get_or i32_extend dec_le
one-pending = omega arith

update_timer_tame_example :
    (s' : TimerSched) × (fired : List TimerEntry) × (update_timer alone (rearm 1040 1000) 4 1040 one
      ≡ some (s', fired))
    × IsValid s'
    × NoneDue (1040 % 2 ^ 64) s'
unfolding i64_rank i32_extend
update_timer_tame_example =
    update_timer_tame alone (rearm 1040 1000) 4 1040 one (rearm-IsTame _ _ 1040 1000 (omega arith))
      one-pending add_timer_lem_example.0

-- A callback that makes two timers, the second with no delay.
abbrev busy : ℕ → TimerSched → TimerSched
busy k s = (add_timer 1040 0 (some k) (add_timer 1040 5 (some k) s).0).0

update_timer_spins_example : update_timer alone busy 1000 1040 one ≡ none
unfolding add_timer siftup siftdown pop_root swap set_index i64_rank i32_rank get_or i32_extend
    erase
update_timer_spins_example =
    update_timer_spins alone busy 1000 1040 7 one add_timer_lem_example.0 (omega arith) refl
      (omega arith) (omega arith) (omega arith) (omega arith)

-- Two timers, of which the first is cancelled and the second expires.
abbrev calls : List Call
calls = schedule 1000 30 (some 7) ∷ schedule 1000 10 none ∷ cancel 100 ∷ advance 1020 ∷ []

abbrev empty_agenda : Agenda
empty_agenda = record { next_id = 100; pending = [] }

mem-second : Mem {A = ℕ} 100 (101 ∷ 100 ∷ [])
mem-second = mem-cons_of_mem _ mem-cons_self

performs-plans_example :
    (r : TimerSched × List Timer) × (performs calls new_sched [] ≡ some r)
    × Follows r (plans calls empty_agenda [])
performs-plans_example =
    performs-plans calls new_sched empty_agenda [] []
      record { valid = new_sched-IsValid; next_id = refl; pending = Perm.rfl }
      ((omega arith, omega arith), ((omega arith, omega arith), (mem-second, (tt, tt)))) Perm.rfl

-- The agenda fires the second timer.
plans_calls : map id_of (plans calls empty_agenda []).1 ≡ 101 ∷ []
unfolding ℕ_discrete dec_le i64_rank i32_extend mathlib.Core.Logic.Dec.not
plans_calls = refl
