-- ===== src/Timer/Update.antt =====
-- The round of UpdateTimer in src/TimerSched.cpp.
use mathlib.Core.List.{Mem, not-mem-nil, mem-cons, mem-cons_self}
use mathlib.Core.Logic.Or
use native.Mathlib.Bridge.{le_prop}
use winsock_tut.Base.{
  ℕ, suc, ◌-◌, ◌^◌, ◌≤◌, ◌<◌, ◌≡◌, ◌≢◌, ◌⊎◌, refl, sym, ◌∙◌, true, false, List, [], ◌∷◌, ◌++◌, Perm,
  some, arith, length, get_or, ◌==◌, Bool-cases, inl, inr, i64_rank, i32_rank,
}
use winsock_tut.Timer.{
  TimerEntry, TimerSched, Host, slot, erase, contains, pop_root, update_loop, notify,
}
use winsock_tut.Timer.Sift.{Timer, timer_of, timers, key, IsHeap, IsPlaced, root_first}
use winsock_tut.Timer.Cut.{Without, moved-IsSinking, Sifted-Without, take-Without}
use winsock_tut.Timer.Down.{siftdown_root}
use winsock_tut.Timer.Valid.{IsValid, contains-erase_ne, contains-erase_self, Without-IsValid}

-- Taking the root out.
pop_root-Without :
    (s : TimerSched)
    → IsValid s
    → 0 < length s.heap
    → Without (timer_of (slot s.heap 0)) s.heap (pop_root s).heap
unfolding pop_root
pop_root-Without s v some_left = elim (Bool-cases (length s.heap == 1)) [
  | inl one ↦
      let e : length s.heap ≡ 1 = ground arith in
      let w =
        take-Without 0 s.heap e (λ c p q. absurd (omega arith)) (λ k q. absurd (omega arith)) in
      let last : length s.heap - 1 ≡ 0 = omega arith in rw last w
  | inr more ↦
      let n = length s.heap - 1 in
      let pos : 0 < n = ground arith in
      let size : length s.heap ≡ suc n = omega arith in
      let small : suc n ≤ 2 ^ 31 = omega (arith, v.small) in
      let heap : IsHeap (suc n) s.heap = λ c p q. v.heap c p (omega arith) in
      let placed : IsPlaced (suc n) s.heap = λ k q. v.placed k (omega arith) in
      let down = siftdown_root n _ (moved-IsSinking s.heap 0 n size pos small heap placed) in
      Sifted-Without s.heap 0 n size pos small heap placed down.1 down.0
]

pop_root-ref : (s : TimerSched) → (pop_root s).ref ≡ erase (slot s.heap 0).id s.ref
unfolding pop_root
pop_root-ref s = refl

-- UpdateTimer takes the root out of a valid scheduler and its id out of ref_.
pub pop_root_lem :
    (s : TimerSched)
    → IsValid s
    → 0 < length s.heap
    → IsValid (pop_root s)
      × Perm (timer_of (slot s.heap 0) ∷ timers (pop_root s).heap) (timers s.heap)
      × (contains (slot s.heap 0).id (pop_root s).ref ≡ false)
      × ((pop_root s).next_id ≡ s.next_id)
pop_root_lem s v some_left =
    let w = pop_root-Without s v some_left in
    let root = slot s.heap 0 in
    let keeps = λ (k : ℕ) (other : k ≢ root.id) (h : contains k s.ref ≡ true).
      contains-erase_ne k root.id s.ref (λ e. other (sym e)) ∙ h in
    let valid =
      Without-IsValid s (timer_of root) (pop_root s).heap (erase root.id s.ref) v w keeps in
    unfold pop_root in (valid.0, w.rest, contains-erase_self root.id s.ref, refl)

-- The same timer, as the loop reads its time.
abbrev pub rank : Timer → ℕ
rank t = i64_rank t.expire

least_below :
    (lo : ℕ) (h : List TimerEntry)
    → ((c : ℕ) → c < length h → lo ≤ key h c)
    → (t : Timer) → Mem t (timers h)
    → lo ≤ rank t
unfolding get_or
least_below lo [] bound t m = absurd (not-mem-nil m)
least_below lo (e ∷ h) bound t m =
    Or.elim le_prop (mem-cons.0 m) (λ same. rw same (bound 0 (omega arith)))
      (least_below lo h (λ c p. bound (suc c) (omega arith)) t)

-- No timer of a heap is due before its root.
pub least_root :
    (h : List TimerEntry) (lo : ℕ)
    → IsHeap (length h) h
    → (0 < length h → lo ≤ key h 0)
    → (t : Timer) → Mem t (timers h)
    → lo ≤ rank t
least_root h lo v bound =
    least_below lo h (λ c p. omega (arith, root_first (length h) h c v p, bound (omega arith)))

pub mem-root : (h : List TimerEntry) → 0 < length h → Mem (timer_of (slot h 0)) (timers h)
unfolding get_or
mem-root [] p = absurd (omega arith)
mem-root (e ∷ h) p = mem-cons_self

module _ {S : Type 0} (host : Host S) (on_timeout : ℕ → S → S) (f now last_id : ℕ) (s : S)
    (out : List TimerEntry) where
  -- A due root with an id that is not too new is taken out, and its callback runs.
  pub update_loop-fire :
      0 < length (host.sched s).heap
      → key (host.sched s).heap 0 ≤ i64_rank now
      → i32_rank (slot (host.sched s).heap 0).id ≤ i32_rank last_id
      → update_loop host on_timeout (suc f) now last_id s out
        ≡ update_loop host on_timeout f now last_id
            (notify on_timeout
              (slot (host.sched s).heap 0).sink
              (host.with_sched (pop_root (host.sched s)) s))
            (out ++ slot (host.sched s).heap 0 ∷ [])
  unfolding update_loop
  update_loop-fire p q r = ground arith

  -- A due root with a newer id is left where it is.
  pub update_loop-spin :
      0 < length (host.sched s).heap
      → key (host.sched s).heap 0 ≤ i64_rank now
      → i32_rank last_id < i32_rank (slot (host.sched s).heap 0).id
      → update_loop host on_timeout (suc f) now last_id s out
        ≡ update_loop host on_timeout f now last_id s out
  unfolding update_loop
  update_loop-spin p q r = ground arith

  -- A round either ends the loop or finds a due root.
  pub root_cases :
      (update_loop host on_timeout (suc f) now last_id s out ≡ some (s, out))
        × (0 < length (host.sched s).heap → i64_rank now < key (host.sched s).heap 0)
      ⊎ (0 < length (host.sched s).heap) × (key (host.sched s).heap 0 ≤ i64_rank now)
  unfolding update_loop
  root_cases = ground arith
