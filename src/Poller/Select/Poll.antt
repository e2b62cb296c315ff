-- ===== src/Poller/Select/Poll.antt =====
-- Poll of src/SelectPoller.cpp, with timers and callbacks that add and remove descriptors.
use mathlib.Core.Path.{subst}
use winsock_tut.Base.{
  ℕ, zero, suc, ◌+◌, ◌-◌, ◌*◌, ◌/◌, ◌%◌, ◌^◌, ◌≤◌, ◌<◌, ◌≡◌, ◌⊎◌, Option-cases, inl, inr, refl, ap,
  Bool, true, false, List, [], ◌∷◌, Option, none, some, arith, ltb, ◌==◌, length, get_elem?,
  drop-cons, Bool-cases, not, ◌&&◌, i32_negative, ltb→lt,
}
use winsock_tut.Winsock.{invalid_socket, fd_setsize}
use winsock_tut.Outcome.{ok}
use winsock_tut.Table.{has_entry}
use winsock_tut.Timer.Sift.{timers}
use winsock_tut.Timer.Valid.{IsValid}
use winsock_tut.Timer.Callbacks.{IsTame, pending, update_timer_tame}
use winsock_tut.Timer.Frame.{update_timer-frame}
use winsock_tut.Poller.Events.{Event, readable, writable}
use winsock_tut.Poller.Select.{
  FdEntry, FdSets, SelectPoller, Triple, Outside, host, sink_at, fd_at, call, visit_event, visit,
  dispatch, settle, after_select, poll, remove_retired,
}
use winsock_tut.Poller.Select.Retire.{IsPaired, AllPaired, IsTidy, remove_retired_lem}

-- The timers of a poller that UpdateTimer can be called for: valid, with callbacks that are tame and
-- fewer due ones than the fuel.
abbrev pub IsTimed : {F W : Type 0} → Outside F W → ℕ → ℕ → SelectPoller F W → Type 0
IsTimed env fuel tick p =
    IsValid p.timers
    × IsTame host (tick % 2 ^ 64) p.timers.next_id env.on_timeout
    × (pending (tick % 2 ^ 64) (timers p.timers.heap) < fuel)

-- What Poll relies on, for an invariant `Inv` of the table and the world: callbacks that keep it, the
-- table tidy and the timers fit for UpdateTimer, of which those of an event do not remove the
-- descriptor that they are called for.
pub record IsSteady {F W : Type 0} (env : Outside F W) (Inv : List FdEntry → W → Type 0)
    (fuel tick : ℕ) : Type 0 where
  pub timed :
      (k : ℕ) (p : SelectPoller F W)
      → IsTidy p × Inv p.fds p.world
      → IsTidy (env.on_timeout k p) × Inv (env.on_timeout k p).fds (env.on_timeout k p).world
  pub called :
      (ev : Event) (k : ℕ) (p : SelectPoller F W)
      → IsTidy p × IsTimed env fuel tick p × Inv p.fds p.world
      → IsTidy (env.on_event ev k p)
        × IsTimed env fuel tick (env.on_event ev k p)
        × Inv (env.on_event ev k p).fds (env.on_event ev k p).world
  pub stays :
      (ev : Event) (k i : ℕ) (e : FdEntry) (p : SelectPoller F W)
      → IsTidy p × IsTimed env fuel tick p × Inv p.fds p.world
      → get_elem? p.fds i ≡ some e
      → e.sink ≡ some k
      → get_elem? (env.on_event ev k p).fds i ≡ some e
  pub selects :
      (t : Triple F) (ms : ℕ) (fds : List FdEntry) (w : W)
      → Inv fds w
      → Inv fds (env.select t ms w).1
  pub sleeps : (ms : ℕ) (fds : List FdEntry) (w : W) → Inv fds w → Inv fds (env.sleep ms w)

-- What Poll asks select, and the answer.
abbrev pub answer : {F W : Type 0} → Outside F W → ℕ → SelectPoller F W → Option (ℕ × Triple F) × W
answer env timeout p =
    env.select (record { rd = p.readfds; wr = p.writefds; ex = p.exceptfds })
      ((timeout * 1000) % 2 ^ 32) p.world

-- No entry is retired, and none is announced.
abbrev pub IsSwept : {F W : Type 0} → SelectPoller F W → Type 0
IsSwept q =
    (has_entry (λ (e : FdEntry). e.fd) invalid_socket q.fds ≡ false) × (q.has_retired ≡ false)

AllPaired-get_elem? :
    (es : List FdEntry) (i : ℕ) (e : FdEntry) → AllPaired es → get_elem? es i ≡ some e → IsPaired e
AllPaired-get_elem? [] i e h at = absurd (ground arith)
AllPaired-get_elem? (x ∷ es) zero e h at =
    subst IsPaired (ap (λ o. elim o [ none ↦ x | some y ↦ y ]) at) h.0
AllPaired-get_elem? (x ∷ es) (suc i) e h at = AllPaired-get_elem? es i e h.1 at

module _ {F W : Type 0} (sets : FdSets F) (env : Outside F W) (fuel tick : ℕ)
    (Inv : List FdEntry → W → Type 0) (steady : IsSteady env Inv fuel tick) where
  -- Tidy, with timers fit for UpdateTimer, and the invariant.
  abbrev IsReady : SelectPoller F W → Type 0
  IsReady p = IsTidy p × IsTimed env fuel tick p × Inv p.fds p.world

  visit_event-IsReady :
      (ev : Event) (b : Bool) (i k n : ℕ) (e : FdEntry) (p : SelectPoller F W)
      → get_elem? p.fds i ≡ some e
      → e.sink ≡ some k
      → IsReady p
      → (q : SelectPoller F W) × (m : ℕ) × (visit_event sets env ev b i (p, n) ≡ ok (q, m))
        × (m ≤ n + 1)
        × (get_elem? q.fds i ≡ some e)
        × IsReady q
  unfolding visit_event call sink_at
  visit_event-IsReady ev false i k n e p at has v = (p, n, refl, omega arith, at, v)
  visit_event-IsReady ev true i k n e p at has v = (
    env.on_event ev k p,
    n + 1,
    rw (sink_at, at, has) refl,
    omega arith,
    steady.stays ev k i e p v at has,
    steady.called ev k p v,
  )

  visit-IsReady :
      (t : Triple F) (i n : ℕ) (e : FdEntry) (p : SelectPoller F W)
      → get_elem? p.fds i ≡ some e
      → IsPaired e
      → IsReady p
      → (q : SelectPoller F W) × (m : ℕ) × (visit sets env t i e.fd (p, n) ≡ ok (q, m))
        × (m ≤ n + 3)
        × IsReady q
  unfolding visit
  visit-IsReady t i n e p at (inl (retired, none_left)) v =
      let same : (e.fd == invalid_socket) ≡ true = ground arith in
      (p, n, rw same refl, omega arith, v)
  visit-IsReady t i n e p at (inr (valid, (k, has))) v =
      let other : (e.fd == invalid_socket) ≡ false = ground arith in
      let (p1, n1, e1, h1, at1, v1) =
        visit_event-IsReady readable (sets.fd_isset e.fd t.ex) i k n e p at has v in
      let (p2, n2, e2, h2, at2, v2) =
        visit_event-IsReady writable (sets.fd_isset e.fd t.wr) i k n1 e p1 at1 has v1 in
      let (p3, n3, e3, h3, at3, v3) =
        visit_event-IsReady readable (sets.fd_isset e.fd t.rd) i k n2 e p2 at2 has v2 in
      (p3, n3, rw (other, e1, e2, e3) refl, omega arith, v3)

  fd_at_lem :
      (i : ℕ) (e : FdEntry) (p : SelectPoller F W)
      → get_elem? p.fds i ≡ some e
      → fd_at sets env i p ≡ e.fd
  unfolding fd_at
  fd_at_lem i e p at = rw (at, fd_at)

  -- The loop ends, since the table never has more than FD_SETSIZE entries.
  dispatch-IsReady :
      (f i n : ℕ) (t : Triple F) (p : SelectPoller F W)
      → i ≤ fd_setsize
      → fd_setsize - i < f
      → IsReady p
      → (q : SelectPoller F W) × (m : ℕ) × (dispatch sets env f t i (p, n) ≡ ok (q, m))
        × (m ≤ n + 3 * (fd_setsize - i))
        × IsReady q
  unfolding dispatch
  dispatch-IsReady zero i n t p low enough v = absurd (omega arith)
  dispatch-IsReady (suc f) i n t p low enough v = elim (Bool-cases (ltb i (length p.fds))) [
    | inr end ↦ (p, n, rw end refl, omega arith, v)
    | inl inside ↦
        let below : i < length p.fds = ltb→lt i (length p.fds) inside in
        let (e, at, _) = drop-cons i p.fds below in
        let (p1, n1, e1, h1, v1) =
          visit-IsReady t i n e p at (AllPaired-get_elem? p.fds i e v.0.paired at) v in
        let (q, m, e2, h2, v2) =
          dispatch-IsReady f (suc i) n1 t p1 (omega (arith, below, v.0.fits))
            (omega (arith, below, v.0.fits)) v1 in
        (q, m, rw (inside, fd_at_lem i e p at, e1) e2, omega (arith, below, v.0.fits), v2)
  ]

  -- The end of Poll.
  settle-IsTidy :
      (p : SelectPoller F W) (n : ℕ)
      → IsReady p
      → (q : SelectPoller F W) × (settle sets env fuel tick (p, n) ≡ ok (q, n))
        × IsTidy q
        × IsSwept q
  unfolding settle
  settle-IsTidy p n (v, (valid, tame, enough), inv) =
      let (q, fired, ticks, _, _) =
        update_timer_tame host env.on_timeout fuel tick p tame enough valid in
      let (v2, _) =
        update_timer-frame host env.on_timeout (λ s. IsTidy s × Inv s.fds s.world)
          (record {
            stored = λ t s k.
                (record { fits = k.0.fits; paired = k.0.paired; announced = k.0.announced }, k.1);
            called = steady.timed;
          })
          fuel tick p q fired ticks (v, inv) in
      let (tidy, none_left, _, quiet) = remove_retired_lem sets q v2 in
      (remove_retired sets q, rw ticks refl, tidy, (none_left, quiet))

  after_select-IsTidy :
      (p : SelectPoller F W) (r : ℕ × Triple F)
      → fd_setsize < fuel
      → IsReady p
      → (q : SelectPoller F W) × (n : ℕ) × (after_select sets env fuel tick p (some r) ≡ ok (q, n))
        × (n ≤ 3 * fd_setsize)
        × IsTidy q
        × IsSwept q
  unfolding after_select
  after_select-IsTidy p (r, t) enough v = elim (Bool-cases (ltb 0 r)) [
    | inl any ↦
        let (p1, n, e1, few, v1) = dispatch-IsReady fuel 0 0 t p (omega arith) (omega arith) v in
        let (q, e2, tidy, swept) = settle-IsTidy p1 n v1 in
        (q, n, rw (any, e1) e2, omega arith, tidy, swept)
    | inr nothing ↦
        let (q, e, tidy, swept) = settle-IsTidy p 0 v in
        (q, 0, rw nothing e, omega arith, tidy, swept)
  ]

  -- The parts of the poller that Poll sets before its loop.
  in_world-IsReady :
      (p : SelectPoller F W) (w : W) → IsReady p → Inv p.fds w → IsReady (record p { world = w })
  in_world-IsReady p w (v, timed, _) inv =
      (record { fits = v.fits; paired = v.paired; announced = v.announced }, timed, inv)

  -- Poll of a tidy poller whose timers come to an end returns, with a round of fuel for each entry that
  -- the table can have and one more, and counts at most three calls for an entry, whatever select
  -- reports and whatever descriptors the callbacks add and remove, but for the one that they are
  -- called for, if they keep the table tidy, the timers fit and an invariant of the table and the
  -- world. The table is tidy after it and has no retired entry, unless select fails: then 0 is
  -- returned at once, and the table is as it was.
  pub select_poll_lem :
      (timeout : ℕ) (p : SelectPoller F W)
      → fd_setsize < fuel
      → IsReady p
      → (q : SelectPoller F W) × (n : ℕ) × (poll sets env fuel tick timeout p ≡ ok (q, n))
        × (n ≤ 3 * fd_setsize)
        × IsTidy q
        × (IsSwept q ⊎ ((answer env timeout p).0 ≡ none) × (n ≡ 0) × (q.fds ≡ p.fds))
  unfolding poll
  select_poll_lem timeout p enough v = elim (Bool-cases (0 == length p.fds)) [
    | inl empty ↦ elim (Bool-cases (ltb 0 timeout && not (i32_negative timeout))) [
      | inl sleeps ↦
          let p1 : SelectPoller F W = record p { world = env.sleep (timeout / 2) p.world } in
          let (q, e, tidy, swept) =
            settle-IsTidy p1 0
              (in_world-IsReady p _ v (steady.sleeps (timeout / 2) p.fds p.world v.2)) in
          (q, 0, rw (empty, sleeps) e, omega arith, tidy, inl swept)
      | inr skips ↦
          let (q, e, tidy, swept) = settle-IsTidy p 0 v in
          (q, 0, rw (empty, skips) e, omega arith, tidy, inl swept)
    ]
    | inr full ↦
        let r = answer env timeout p in
        let p1 : SelectPoller F W = record p { world = r.1 } in
        let (tidy1, timed1, inv1) =
          in_world-IsReady p r.1 v (steady.selects _ _ p.fds p.world v.2) in
        elim (Option-cases r.0) [
          | inl failed ↦ (
            p1,
            0,
            rw (full, failed, after_select) refl,
            omega arith,
            tidy1,
            inr (failed, refl, refl),
          )
          | inr (t, answered) ↦
              let (q, n, e, few, tidy, swept) =
                after_select-IsTidy p1 t enough (tidy1, timed1, inv1) in
              (q, n, rw (full, answered) e, few, tidy, inl swept)
        ]
  ]
