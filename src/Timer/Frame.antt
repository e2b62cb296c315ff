-- ===== src/Timer/Frame.antt =====
-- What UpdateTimer of src/TimerSched.cpp keeps of the object around the scheduler.
use winsock_tut.Base.{
  ℕ, zero, suc, ◌%◌, ◌^◌, ◌≡◌, ◌++◌, ◌∷◌, List, [], Option, none, some, some_eq, inl, inr,
  Bool-cases, ltb, ◌==◌, length, i64_rank, i32_rank,
}
use mathlib.Core.Path.{subst}
use winsock_tut.Timer.{
  TimerEntry, TimerSched, Host, slot, due_at, pop_root, notify, update_loop, update_timer,
}

-- A predicate that holds whatever the scheduler is, and that the callbacks keep.
pub record IsFrame {S : Type 0} (host : Host S) (on_timeout : ℕ → S → S) (Q : S → Type 0)
    : Type 0 where
  pub stored : (t : TimerSched) (s : S) → Q s → Q (host.with_sched t s)
  pub called : (k : ℕ) (s : S) → Q s → Q (on_timeout k s)

module _ {S : Type 0} (host : Host S) (on_timeout : ℕ → S → S) (Q : S → Type 0)
    (frame : IsFrame host on_timeout Q) where
  notify-frame : (sink : Option ℕ) (s : S) → Q s → Q (notify on_timeout sink s)
  unfolding notify
  notify-frame none s q = q
  notify-frame (some k) s q = frame.called k s q

  stop :
      (s s' : S) (out fired : List TimerEntry)
      → ◌≡◌ {A = Option (S × List TimerEntry)} (some (s, out)) (some (s', fired))
      → Q s
      → Q s'
  stop s s' out fired e q =
      subst (λ (r : S × List TimerEntry). Q r.0) (some_eq (s, out) (s', fired) e) q

  update_loop-frame :
      (fuel now last_id : ℕ) (s s' : S) (out fired : List TimerEntry)
      → update_loop host on_timeout fuel now last_id s out ≡ some (s', fired)
      → Q s
      → Q s'
  unfolding update_loop
  update_loop-frame zero now last_id s s' out fired e q = cc
  update_loop-frame (suc fuel) now last_id s s' out fired e q =
      let t = host.sched s in
      let entry = slot t.heap 0 in
      elim (Bool-cases (length t.heap == 0)) [
        | inl empty ↦ stop s s' out fired (rw empty at e) q
        | inr full ↦ elim (Bool-cases (ltb (i64_rank now) (due_at entry))) [
          | inl later ↦ stop s s' out fired (rw (full, later) at e) q
          | inr due ↦ elim (Bool-cases (ltb (i32_rank last_id) (i32_rank entry.id))) [
            | inl newer ↦
                update_loop-frame fuel now last_id s s' out fired (rw (full, due, newer) at e) q
            | inr older ↦
                update_loop-frame fuel now last_id
                  (notify on_timeout entry.sink (host.with_sched (pop_root t) s)) s'
                  (out ++ entry ∷ []) fired (rw (full, due, older) at e)
                  (notify-frame entry.sink _ (frame.stored (pop_root t) s q))
          ]
        ]
      ]

  -- What holds before UpdateTimer holds after it.
  pub update_timer-frame :
      (fuel tick : ℕ) (s s' : S) (fired : List TimerEntry)
      → update_timer host on_timeout fuel tick s ≡ some (s', fired)
      → Q s
      → Q s'
  unfolding update_timer
  update_timer-frame fuel tick s s' fired e q =
      update_loop-frame fuel (tick % 2 ^ 64) (host.sched s).next_id s s' [] fired e q
