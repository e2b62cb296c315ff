-- ===== src/Poller/AsyncEvent/Poll.antt =====
-- Poll of src/AsyncEventPoller.cpp, with timers and callbacks that add and remove descriptors.
use mathlib.Core.Path.{subst}
use Prim.Native.Nat.{bit_and, bit_or}
use winsock_tut.Base.{
  ℕ, suc, ◌+◌, ◌%◌, ◌^◌, ◌<◌, ◌≡◌, ◌⊎◌, inl, inr, refl, sym, ◌∙◌, false, List, [], ◌∷◌, Option,
  none, some, arith, ◌==◌, ltb, leb, length, drop-cons, ◌||◌, Bool-cases, Option-cases, not, ◌&&◌,
  i32_negative,
}
use winsock_tut.Winsock.{wsa_maximum_wait_events}
use winsock_tut.Outcome.{Outcome, ok}
use winsock_tut.Timer.Sift.{timers}
use winsock_tut.Timer.Valid.{IsValid}
use winsock_tut.Timer.Callbacks.{IsTame, pending, update_timer_tame}
use winsock_tut.Timer.Frame.{update_timer-frame}
use winsock_tut.Poller.Events.{Event, readable, writable}
use winsock_tut.Poller.Bits.{fd_read, fd_write, fd_accept, fd_connect, fd_close, mask_readable}
use winsock_tut.Poller.AsyncEvent.{
  FdEntry, AsyncEventPoller, Outside, NetworkEvents, host, wait_failed, wait_failed-cases,
  live_events, find_entry_by_event, remove_retired, call_sink, test_found, test_event,
  handle_events, handle_enumerated, handle_handle, after_timers, waited, poll,
}
use winsock_tut.Poller.AsyncEvent.Served.{
  AllServed-get_elem?, IsServed, IsSteady, IsServed-fds, remove_retired-IsServed,
}

module _ {W : Type 0} (env : Outside W) (steady : IsSteady env) where
  -- One of the tests of HandleEvents.
  test_event-IsServed :
      (flag bit : ℕ) (ev : Event) (i : ℕ) (events : NetworkEvents) (p : AsyncEventPoller W)
      → i < length p.fds
      → IsServed p
      → (q : AsyncEventPoller W) × (test_event env flag bit ev i events p ≡ ok q)
        × (i < length q.fds)
        × IsServed q
  unfolding test_event test_found call_sink
  test_event-IsServed flag bit ev i events p inside v =
      let (e, at, _) = drop-cons i p.fds inside in
      let p1 : AsyncEventPoller W = record p { last_err = events.error_code bit } in
      let v1 = IsServed-fds p p1 refl v in
      let p2 = env.on_event ev e.sink p1 in
      let called : (e.sink == 0) ≡ false =
        ground (arith, AllServed-get_elem? p.fds i e v.served at) in
      elim (Bool-cases (bit_and events.l_network_events flag == 0)) [
        | inl unset ↦ (p, rw unset refl, inside, v)
        | inr set ↦ elim (Bool-cases (bit_or e.mask mask_readable == 0)) [
          | inl masked ↦ (p1, rw (set, at, masked) refl, inside, v1)
          | inr asked ↦ (
            p2,
            rw (set, at, asked, called) refl,
            omega (arith, inside, steady.grows ev e.sink p1),
            steady.called ev e.sink p1 v1,
          )
        ]
      ]

  handle_events-IsServed :
      (i : ℕ) (events : NetworkEvents) (p : AsyncEventPoller W)
      → i < length p.fds
      → IsServed p
      → (q : AsyncEventPoller W) × (handle_events env i events p ≡ ok q) × IsServed q
  unfolding handle_events
  handle_events-IsServed i events p inside v =
      let (p1, e1, i1, v1) = test_event-IsServed fd_read 0 readable i events p inside v in
      let (p2, e2, i2, v2) = test_event-IsServed fd_close 5 readable i events p1 i1 v1 in
      let (p3, e3, i3, v3) = test_event-IsServed fd_accept 3 readable i events p2 i2 v2 in
      let (p4, e4, i4, v4) = test_event-IsServed fd_write 1 writable i events p3 i3 v3 in
      let (p5, e5, i5, v5) = test_event-IsServed fd_connect 4 writable i events p4 i4 v4 in
      (p5, rw (e1, e2, e3, e4, e5) refl, v5)

  -- What Poll gives back.
  abbrev Settles : Outcome (AsyncEventPoller W × ℕ) → Type 0
  Settles o =
      (q : AsyncEventPoller W) × (n : ℕ) × (o ≡ ok (q, n)) × ((n ≡ 0) ⊎ (n ≡ 1)) × IsServed q

  handle_enumerated-Settles :
      (i : ℕ) (r : Option NetworkEvents × W) (p : AsyncEventPoller W)
      → i < length p.fds
      → IsServed p
      → Settles (handle_enumerated env i r p)
  unfolding handle_enumerated
  handle_enumerated-Settles i (none, w) p inside v =
      (record p { world = w }, 0, refl, inl refl, IsServed-fds p _ refl v)
  handle_enumerated-Settles i (some events, w) p inside v =
      let (q, run, v') =
        handle_events-IsServed i events (record p { world = w }) inside (IsServed-fds p _ refl v) in
      (q, 1, rw run refl, inr refl, v')

  find_entry_by_event-inside :
      (h j i : ℕ) (es : List FdEntry) (e : FdEntry)
      → find_entry_by_event h j es ≡ some (i, e)
      → i < j + length es
  unfolding find_entry_by_event
  find_entry_by_event-inside h j i [] e at = absurd (ground arith)
  find_entry_by_event-inside h j i (x ∷ es) e at =
      ground (arith, find_entry_by_event-inside h (suc j) i es e)

  handle_handle-Settles :
      (h : ℕ) (p : AsyncEventPoller W) → IsServed p → Settles (handle_handle env (some h) p)
  unfolding handle_handle
  handle_handle-Settles h p v = elim (Option-cases (find_entry_by_event h 0 p.fds)) [
    | inl gone ↦ (p, 0, rw (handle_handle, gone) refl, inl refl, v)
    | inr ((i, e), at) ↦
        let inside : i < length p.fds =
          omega (arith, find_entry_by_event-inside h 0 i p.fds e at) in
        let (q, n, run, back, v') =
          handle_enumerated-Settles i (env.enum_network_events e.fd h p.world) p inside v in
        (q, n, rw (handle_handle, at) run, back, v')
  ]

  after_timers-Settles :
      (p : AsyncEventPoller W) (nready : ℕ)
      → (nready ≡ wait_failed) ⊎ (length p.events ≡ 0) ⊎ (nready < length p.events)
      → IsServed p
      → Settles (after_timers env nready p)
  unfolding after_timers
  after_timers-Settles p nready ready v =
      elim (Bool-cases (i32_negative nready || 0 == length p.events)) [
        | inl none_ready ↦
            (remove_retired p, 0, rw none_ready refl, inl refl, remove_retired-IsServed p v)
        | inr signalled ↦ elim (Bool-cases (leb wsa_maximum_wait_events nready)) [
          | inl large ↦ (p, 0, rw (signalled, large) refl, inl refl, v)
          | inr small ↦
              let inside : nready < length p.events = elim ready [
                | inl failed ↦ absurd (ground arith)
                | inr (inl empty) ↦ absurd (ground arith)
                | inr (inr i) ↦ i
              ] in
              let (h, at, _) = drop-cons nready p.events inside in
              let (q, n, run, back, v') = handle_handle-Settles h p v in
              (q, n, rw (signalled, small, at) run, back, v')
        ]
      ]

  -- The poller after the wait, and what it has given.
  waited-IsServed :
      (p : AsyncEventPoller W) (timeout : ℕ)
      → ((waited env p timeout).0.fds ≡ p.fds)
        × ((waited env p timeout).0.events ≡ p.events)
        × ((waited env p timeout).0.timers ≡ p.timers)
        × (((waited env p timeout).1 ≡ wait_failed)
            ⊎ (length p.events ≡ 0)
            ⊎ ((waited env p timeout).1 < length p.events))
  unfolding waited
  waited-IsServed p timeout = elim (Bool-cases (0 == length p.events)) [
    | inl empty ↦ elim (Bool-cases (ltb 0 timeout && not (i32_negative timeout))) [
      | inl sleeps ↦ rw (empty, sleeps) (refl, refl, refl, inr (inl (ground arith)))
      | inr skips ↦ rw (empty, skips) (refl, refl, refl, inr (inl (ground arith)))
    ]
    | inr full ↦ rw full (
      refl,
      refl,
      refl,
      wait_failed-cases (env.wait p.events timeout p.world).0 (length p.events)
          (steady.waits p.events timeout p.world),
    )
  ]

  -- Poll of a poller whose table is in order, with timers that come to an end, returns 0 or 1, and the
  -- table is in order after it, whatever descriptors the callbacks add and remove.
  pub poll_lem :
      (fuel tick timeout : ℕ) (p : AsyncEventPoller W)
      → IsServed p
      → IsValid p.timers
      → IsTame host (tick % 2 ^ 64) p.timers.next_id env.on_timeout
      → pending (tick % 2 ^ 64) (timers p.timers.heap) < fuel
      → (q : AsyncEventPoller W) × (n : ℕ) × (poll env fuel tick timeout p ≡ ok (q, n))
        × ((n ≡ 0) ⊎ (n ≡ 1))
        × IsServed q
  unfolding poll
  poll_lem fuel tick timeout p v valid tame enough =
      let p1 : AsyncEventPoller W = record p { events = live_events p.fds } in
      let q1 = (waited env p1 timeout).0 in
      let (fds, same, kept, ready) = waited-IsServed p1 timeout in
      let (q2, fired, ticks, _, _) =
        update_timer_tame host env.on_timeout fuel tick q1
          (subst (λ t. IsTame host (tick % 2 ^ 64) t.next_id env.on_timeout) (sym kept) tame)
          (subst (λ t. pending (tick % 2 ^ 64) (timers t.heap) < fuel) (sym kept) enough)
          (subst IsValid (sym kept) valid) in
      let (v2, es) =
        update_timer-frame host env.on_timeout (λ q. IsServed q × (q.events ≡ live_events p.fds))
          (record {
            stored = λ t q k. (IsServed-fds q _ refl k.0, k.1);
            called = λ k q h. (steady.timed k q h.0, steady.timed_events k q ∙ h.1);
          })
          fuel tick q1 q2 fired ticks (IsServed-fds p q1 fds v, same) in
      let (q, n, rest, back, v3) =
        after_timers-Settles q2 (waited env p1 timeout).1
          (subst
            (λ xs.
              ((waited env p1 timeout).1 ≡ wait_failed)
              ⊎ (length xs ≡ 0)
              ⊎ ((waited env p1 timeout).1 < length xs))
            (sym es) ready)
          v2 in
      (q, n, rw ticks rest, back, v3)
