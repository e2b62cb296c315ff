-- ===== src/Poller/AsyncEvent.antt =====
-- src/AsyncEventPoller.h and src/AsyncEventPoller.cpp.
--
-- The event objects and the sockets are part of the world `W` outside; their calls are parameters,
-- as the callbacks are. An event handle is a number, and WSA_INVALID_EVENT is 0. A call of AddFd
-- stays within the capacity that the constructor reserves, so the pointer that HandleEvents holds
-- is the entry at one index. The results that are only logged are left out.
pub mod Handle
pub mod Waitable
pub mod Served
pub mod Poll
mod Tests
use Prim.Native.Nat.{bit_and, bit_or}
use winsock_tut.Base.{
  ℕ, zero, suc, ◌+◌, ◌-◌, ◌/◌, ◌^◌, ◌≡◌, refl, Bool, true, false, not, ◌&&◌, ◌||◌, List, [], ◌∷◌,
  ◌++◌, Option, none, some, ltb, leb, ◌==◌, if◌then◌else◌, length, get_elem?, i32_negative, ◌⊎◌,
  inl, inr, ◌<◌, arith, Bool-cases,
}
use winsock_tut.Winsock.{invalid_socket, wsa_maximum_wait_events}
use winsock_tut.Timer.{TimerSched, Host, new_sched, update_timer}
use winsock_tut.Poller.Events.{Event, readable, writable}
use winsock_tut.Outcome.{Outcome, ok, bad_pointer, ◌>>=◌, ticked}
use winsock_tut.Table.{find_entry, update_entry, remove_all}
use winsock_tut.Poller.Bits.{
  fd_read, fd_write, fd_accept, fd_connect, fd_close, mask_readable, mask_writable, in_events,
  out_events, set_flags, clear_flags,
}

pub record FdEntry : Type 0 where
  pub fd : ℕ
  pub h_event : ℕ
  pub l_events : ℕ
  pub mask : ℕ
  pub sink : ℕ

abbrev pub fd_of : FdEntry → ℕ
fd_of e = e.fd

pub record AsyncEventPoller (W : Type 0) : Type 0 where
  pub timers : TimerSched
  pub last_err : ℕ
  pub events : List ℕ
  pub fds : List FdEntry
  pub has_retired : Bool
  pub world : W

abbrev pub host : {W : Type 0} → Host (AsyncEventPoller W)
host = record {
  sched = λ p. p.timers;
  with_sched = λ t p. record p { timers = t };
  sched-with_sched = λ t p. refl;
}

-- WSANETWORKEVENTS: the set of events, and the error code of each.
pub record NetworkEvents : Type 0 where
  pub l_network_events : ℕ
  pub error_code : ℕ → ℕ

-- WSA_WAIT_FAILED and WSA_WAIT_TIMEOUT, with WSA_WAIT_EVENT_0 equal to 0
abbrev pub wait_failed : ℕ
wait_failed = 2 ^ 32 - 1

abbrev pub wait_timeout : ℕ
wait_timeout = 258

pub record Outside (W : Type 0) : Type 0 where
  pub on_event : Event → ℕ → AsyncEventPoller W → AsyncEventPoller W
  pub on_timeout : ℕ → AsyncEventPoller W → AsyncEventPoller W
  pub create_event : W → ℕ × W
  pub close_event : ℕ → W → W
  pub event_select : ℕ → ℕ → ℕ → W → W
  pub close_socket : ℕ → W → W
  pub wait : List ℕ → ℕ → W → ℕ × W
  pub enum_network_events : ℕ → ℕ → W → Option NetworkEvents × W
  pub sleep : ℕ → W → W

-- The handles that Poll waits for.
unfoldable pub live_events : List FdEntry → List ℕ
live_events [] = []
live_events (e ∷ es) =
    if e.fd == invalid_socket
    then live_events es
    else if e.h_event == 0
    then live_events es
    else e.h_event ∷ live_events es

-- The index of the entry, and the entry.
unfoldable pub find_entry_by_event : ℕ → ℕ → List FdEntry → Option (ℕ × FdEntry)
find_entry_by_event h i [] = none
find_entry_by_event h i (e ∷ es) =
    if e.h_event == h then some (i, e) else find_entry_by_event h (suc i) es

unfoldable pub remove_retired : {W : Type 0} → AsyncEventPoller W → AsyncEventPoller W
remove_retired p =
    if p.has_retired
    then record p { fds = remove_all fd_of invalid_socket p.fds; has_retired = false }
    else p

module _ {W : Type 0} (env : Outside W) where
  unfoldable pub close_entries : List FdEntry → W → W
  close_entries [] w = w
  close_entries (e ∷ es) w =
      close_entries es
        (env.close_socket e.fd (env.close_event e.h_event (env.event_select e.fd 0 0 w)))

  unfoldable pub clean_up : AsyncEventPoller W → AsyncEventPoller W
  clean_up p = record p { fds = []; events = []; world = close_entries p.fds p.world }

  unfoldable pub add_fd : ℕ → ℕ → AsyncEventPoller W → AsyncEventPoller W × Bool
  add_fd fd event p =
      if leb wsa_maximum_wait_events (length p.fds)
      then (p, false)
      else let (h, w) = env.create_event p.world in
        let e : FdEntry = record { fd = fd; h_event = h; l_events = 0; mask = 0; sink = event } in
        if h == 0
        then (record p { world = w }, false)
        else (record p { fds = p.fds ++ e ∷ []; world = w }, true)

  unfoldable pub close_found : Option FdEntry → W → W
  close_found none w = w
  close_found (some e) w = env.close_event e.h_event w

  unfoldable pub remove_fd : ℕ → AsyncEventPoller W → AsyncEventPoller W
  remove_fd fd p = record p {
    fds = update_entry fd_of fd (λ e. record e { h_event = 0; fd = invalid_socket }) p.fds;
    has_retired = true;
    world = env.event_select fd 0 0 (close_found (find_entry fd_of fd p.fds) p.world);
  }

  -- What the four functions for the interest in a descriptor do with the entry that FindEntry
  -- finds: it is changed, and WSAEventSelect asks for its new events.
  unfoldable pub change_interest : ℕ → (FdEntry → FdEntry) → AsyncEventPoller W → AsyncEventPoller W
  change_interest fd f p = elim (find_entry fd_of fd p.fds) [
    | none ↦ p
    | some e ↦ record p {
      fds = update_entry fd_of fd f p.fds;
      world = env.event_select fd e.h_event (f e).l_events p.world;
    }
  ]

  unfoldable pub set_poll_in : ℕ → AsyncEventPoller W → AsyncEventPoller W
  set_poll_in fd = change_interest fd λ e. record e {
    l_events = set_flags e.l_events in_events;
    mask = set_flags e.mask mask_readable;
  }

  unfoldable pub reset_poll_in : ℕ → AsyncEventPoller W → AsyncEventPoller W
  reset_poll_in fd = change_interest fd λ e. record e {
    l_events = clear_flags e.l_events in_events;
    mask = clear_flags e.mask mask_readable;
  }

  unfoldable pub set_poll_out : ℕ → AsyncEventPoller W → AsyncEventPoller W
  set_poll_out fd = change_interest fd λ e. record e {
    l_events = set_flags e.l_events out_events;
    mask = set_flags e.mask mask_writable;
  }

  unfoldable pub reset_poll_out : ℕ → AsyncEventPoller W → AsyncEventPoller W
  reset_poll_out fd = change_interest fd λ e. record e {
    l_events = clear_flags e.l_events out_events;
    mask = clear_flags e.mask mask_writable;
  }

  -- A call through the sink of an entry; the null pointer is 0.
  unfoldable pub call_sink : Event → FdEntry → AsyncEventPoller W → Outcome (AsyncEventPoller W)
  call_sink ev e p = if e.sink == 0 then bad_pointer else ok (env.on_event ev e.sink p)

  -- One of the five tests of HandleEvents. Each reads the mask with `|` and MASK_READABLE.
  unfoldable pub test_found :
      Event → ℕ → Option FdEntry → AsyncEventPoller W → Outcome (AsyncEventPoller W)
  test_found ev err none p = bad_pointer
  test_found ev err (some e) p =
      let q : AsyncEventPoller W = record p { last_err = err } in
      if bit_or e.mask mask_readable == 0 then ok q else call_sink ev e q

  unfoldable pub test_event :
      ℕ → ℕ → Event → ℕ → NetworkEvents → AsyncEventPoller W → Outcome (AsyncEventPoller W)
  test_event flag bit ev i events p =
      if bit_and events.l_network_events flag == 0
      then ok p
      else test_found ev (events.error_code bit) (get_elem? p.fds i) p

  unfoldable pub handle_events :
      ℕ → NetworkEvents → AsyncEventPoller W → Outcome (AsyncEventPoller W)
  handle_events i events p = do
    p1 ← test_event fd_read 0 readable i events p
    p2 ← test_event fd_close 5 readable i events p1
    p3 ← test_event fd_accept 3 readable i events p2
    p4 ← test_event fd_write 1 writable i events p3
    test_event fd_connect 4 writable i events p4

  -- What Poll does with the network events of the entry at an index.
  pub handle_enumerated :
      ℕ → Option NetworkEvents × W → AsyncEventPoller W → Outcome (AsyncEventPoller W × ℕ)
  handle_enumerated i (none, w) p = ok (record p { world = w }, 0)
  handle_enumerated i (some events, w) p = do
    q ← handle_events i events (record p { world = w })
    ok (q, 1)

  pub handle_handle : Option ℕ → AsyncEventPoller W → Outcome (AsyncEventPoller W × ℕ)
  handle_handle none p = bad_pointer
  handle_handle (some h) p = elim (find_entry_by_event h 0 p.fds) [
    | none ↦ ok (p, 0)
    | some (i, e) ↦ handle_enumerated i (env.enum_network_events e.fd h p.world) p
  ]

  -- Poll after UpdateTimer, with the int that the wait has given.
  pub after_timers : ℕ → AsyncEventPoller W → Outcome (AsyncEventPoller W × ℕ)
  after_timers nready p =
      if i32_negative nready || 0 == length p.events
      then ok (remove_retired p, 0)
      else if leb wsa_maximum_wait_events nready
      then ok (p, 0)
      else handle_handle (get_elem? p.events nready) p

  pub waited : AsyncEventPoller W → ℕ → AsyncEventPoller W × ℕ
  waited p timeout =
      if 0 == length p.events
      then (
        if ltb 0 timeout && not (i32_negative timeout)
            then record p { world = env.sleep (timeout / 2) p.world }
            else p,
        0,
      )
      else let (r, w) = env.wait p.events timeout p.world in
        (record p { world = w }, if r == wait_timeout then wait_failed else r)

  unfoldable pub poll : ℕ → ℕ → ℕ → AsyncEventPoller W → Outcome (AsyncEventPoller W × ℕ)
  poll fuel tick timeout p =
      let (q, nready) = waited (record p { events = live_events p.fds }) timeout in
      ticked (update_timer host env.on_timeout fuel tick q) >>= after_timers nready

-- What Poll and Run of the services make of the result of the wait.
pub wait_failed-cases :
    (r n : ℕ)
    → (r ≡ wait_timeout) ⊎ (r ≡ wait_failed) ⊎ (r < n)
    → let nready : ℕ = if r == wait_timeout then wait_failed else r in
      (nready ≡ wait_failed) ⊎ (n ≡ 0) ⊎ (nready < n)
wait_failed-cases r n result = elim result [
  | inl late ↦ inl (ground arith)
  | inr (inl failed) ↦ inl (ground arith)
  | inr (inr inside) ↦ elim (Bool-cases (r == wait_timeout)) [
    | inl hit ↦ inl (rw hit refl)
    | inr miss ↦ inr (inr (rw miss inside))
  ]
]
