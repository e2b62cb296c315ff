-- ===== src/Poller/Select.antt =====
-- src/SelectPoller.h and src/SelectPoller.cpp.
--
-- The macros of fd_set, select and Sleep are parameters. The callbacks of the registered objects
-- are a parameter too: each is a change of the poller, as they may call it back.
pub mod Retire
pub mod Poll
mod Tests
pub mod Dispatch
use winsock_tut.Base.{
  ℕ, zero, suc, ◌+◌, ◌-◌, ◌≤◌, ◌<◌, ◌≡◌, refl, Bool, true, false, List, [], ◌∷◌, ◌++◌, Option, none,
  some, arith, ltb, leb, ◌==◌, not, ◌&&◌, i32_negative, ◌*◌, ◌/◌, ◌%◌, ◌^◌, if◌then◌else◌, length,
  get_elem?,
}
use winsock_tut.Winsock.{invalid_socket, fd_setsize}
use winsock_tut.Timer.{TimerSched, TimerEntry, Host, new_sched, update_timer}
use winsock_tut.Poller.Events.{Event, readable, writable}
use winsock_tut.Outcome.{Outcome, ok, bad_pointer, out_of_fuel, ◌>>=◌, ticked}
use winsock_tut.Table.{update_entry, remove_all}

-- `sink` is none for the null pointer.
pub record FdEntry : Type 0 where
  pub fd : ℕ
  pub sink : Option ℕ

-- FD_SET, FD_CLR and FD_ISSET over sets `F`, and the set that memset makes.
pub record FdSets (F : Type 0) : Type 0 where
  pub zeroed : F
  pub fd_set : ℕ → F → F
  pub fd_clr : ℕ → F → F
  pub fd_isset : ℕ → F → Bool

-- The base class, the poller's own members, and the world `W` outside that callbacks change.
pub record SelectPoller (F W : Type 0) : Type 0 where
  pub timers : TimerSched
  pub fds : List FdEntry
  pub has_retired : Bool
  pub readfds : F
  pub writefds : F
  pub exceptfds : F
  pub world : W

abbrev pub host : {F W : Type 0} → Host (SelectPoller F W)
host = record {
  sched = λ p. p.timers;
  with_sched = λ t p. record p { timers = t };
  sched-with_sched = λ t p. refl;
}

module _ {F W : Type 0} (sets : FdSets F) where
  pub new_poller : W → SelectPoller F W
  new_poller w = record {
    timers = new_sched;
    fds = [];
    has_retired = false;
    readfds = sets.zeroed;
    writefds = sets.zeroed;
    exceptfds = sets.zeroed;
    world = w;
  }

  -- AddFd, with true for the result 0 and false for -1.
  unfoldable pub add_fd : ℕ → ℕ → SelectPoller F W → SelectPoller F W × Bool
  add_fd fd event p = if leb fd_setsize (length p.fds) then (p, false) else (
    record p {
      fds = p.fds ++ record { fd = fd; sink = some event } ∷ [];
      exceptfds = sets.fd_set fd p.exceptfds;
    },
    true,
  )

  unfoldable pub mark_retired : ℕ → SelectPoller F W → SelectPoller F W
  mark_retired fd p = record p {
    fds = update_entry (λ e. e.fd) fd (λ e. record { fd = invalid_socket; sink = none }) p.fds;
    has_retired = true;
  }

  unfoldable pub remove_fd : ℕ → SelectPoller F W → SelectPoller F W
  unfolding mark_retired
  remove_fd fd p =
      let q = mark_retired fd p in
      record q {
        readfds = sets.fd_clr fd q.readfds;
        writefds = sets.fd_clr fd q.writefds;
        exceptfds = sets.fd_clr fd q.exceptfds;
      }

  unfoldable pub set_poll_in : ℕ → SelectPoller F W → SelectPoller F W
  set_poll_in fd p = record p { readfds = sets.fd_set fd p.readfds }

  unfoldable pub reset_poll_in : ℕ → SelectPoller F W → SelectPoller F W
  reset_poll_in fd p = record p { readfds = sets.fd_clr fd p.readfds }

  unfoldable pub set_poll_out : ℕ → SelectPoller F W → SelectPoller F W
  set_poll_out fd p = record p { writefds = sets.fd_set fd p.writefds }

  unfoldable pub reset_poll_out : ℕ → SelectPoller F W → SelectPoller F W
  reset_poll_out fd p = record p { writefds = sets.fd_clr fd p.writefds }

  unfoldable pub remove_retired : SelectPoller F W → SelectPoller F W
  remove_retired p =
      if p.has_retired
      then record p { fds = remove_all (λ e. e.fd) invalid_socket p.fds; has_retired = false }
      else p

-- Three sets: read, write and except.
pub record Triple (F : Type 0) : Type 0 where
  pub rd : F
  pub wr : F
  pub ex : F

-- What Poll is given from outside: the callbacks, select, which fails or changes the sets and
-- returns a number, and Sleep.
pub record Outside (F W : Type 0) : Type 0 where
  pub on_event : Event → ℕ → SelectPoller F W → SelectPoller F W
  pub on_timeout : ℕ → SelectPoller F W → SelectPoller F W
  pub select : Triple F → ℕ → W → Option (ℕ × Triple F) × W
  pub sleep : ℕ → W → W

module _ {F W : Type 0} (sets : FdSets F) (env : Outside F W) where
  -- `fds_[i].sink`
  pub sink_at : ℕ → SelectPoller F W → Option ℕ
  sink_at i p = elim (get_elem? p.fds i) [ none ↦ none | some e ↦ e.sink ]

  pub call : Event → Option ℕ → SelectPoller F W → Outcome (SelectPoller F W)
  call ev none p = bad_pointer
  call ev (some k) p = ok (env.on_event ev k p)

  -- One of the three tests of a round, with `count` and the call.
  unfoldable pub visit_event :
      Event → Bool → ℕ → SelectPoller F W × ℕ → Outcome (SelectPoller F W × ℕ)
  visit_event ev ready i (p, count) =
      if ready then (call ev (sink_at i p) p >>= λ q. ok (q, count + 1)) else ok (p, count)

  -- A round. `fd` is a copy, so its tests between the calls always come out as the first one did.
  unfoldable pub visit : Triple F → ℕ → ℕ → SelectPoller F W × ℕ → Outcome (SelectPoller F W × ℕ)
  visit t i fd s = if fd == invalid_socket then ok s else do
    s1 ← visit_event readable (sets.fd_isset fd t.ex) i s
    s2 ← if fd == invalid_socket then ok s1 else visit_event writable (sets.fd_isset fd t.wr) i s1
    if fd == invalid_socket then ok s2 else visit_event readable (sets.fd_isset fd t.rd) i s2

  -- `fds_[i].fd` for an index within the vector
  pub fd_at : ℕ → SelectPoller F W → ℕ
  fd_at i p = elim (get_elem? p.fds i) [ none ↦ invalid_socket | some e ↦ e.fd ]

  -- The loop over the vector, whose size is read again in each round.
  unfoldable pub dispatch : ℕ → Triple F → ℕ → SelectPoller F W × ℕ → Outcome (SelectPoller F W × ℕ)
  dispatch zero t i s = out_of_fuel
  dispatch (suc fuel) t i s =
      let round = visit t i (fd_at i s.0) s >>= dispatch fuel t (suc i) in
      if ltb i (length s.0.fds) then round else ok s

  -- The end of Poll.
  pub settle : ℕ → ℕ → SelectPoller F W × ℕ → Outcome (SelectPoller F W × ℕ)
  settle fuel tick (p, count) = do
    q ← ticked (update_timer host env.on_timeout fuel tick p)
    ok (remove_retired sets q, count)

  -- Poll after select: its failure ends the call at once.
  pub after_select :
      ℕ → ℕ → SelectPoller F W → Option (ℕ × Triple F) → Outcome (SelectPoller F W × ℕ)
  after_select fuel tick p none = ok (p, 0)
  after_select fuel tick p (some (r, t)) =
      let visited = dispatch fuel t 0 (p, 0) in
      (if ltb 0 r then visited else ok (p, 0)) >>= settle fuel tick

  -- Poll, with fuel for its two loops and the tick count that UpdateTimer reads.
  unfoldable pub poll : ℕ → ℕ → ℕ → SelectPoller F W → Outcome (SelectPoller F W × ℕ)
  unfolding after_select settle
  poll fuel tick timeout p =
      if 0 == length p.fds
      then settle fuel tick (
        if ltb 0 timeout && not (i32_negative timeout)
            then record p { world = env.sleep (timeout / 2) p.world }
            else p,
        0,
      )
      else let t : Triple F = record { rd = p.readfds; wr = p.writefds; ex = p.exceptfds } in
        let (r, w) = env.select t ((timeout * 1000) % 2 ^ 32) p.world in
        after_select fuel tick (record p { world = w }) r
