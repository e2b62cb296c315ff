-- ===== src/Poller/AsyncSelect.antt =====
-- src/AsyncSelectPoller.h and src/AsyncSelectPoller.cpp.
--
-- The calls for the hidden window, WSAAsyncSelect, PeekMessage and the handling of other messages
-- are parameters over the world `W` outside, as the callbacks are. The result of WSAAsyncSelect is
-- logged only, and logging is left out.
pub mod Interest
pub mod Poll
mod Tests
use Prim.Native.Nat.{bit_or}
use winsock_tut.Base.{
  ℕ, zero, suc, ◌+◌, ◌-◌, ◌*◌, ◌/◌, ◌%◌, ◌^◌, ◌≡◌, refl, Bool, true, false, not, ◌&&◌, ◌||◌, List,
  [], ◌∷◌, ◌++◌, Option, none, some, arith, ltb, leb, ◌==◌, if◌then◌else◌, length, i32_negative,
}
use winsock_tut.Winsock.{invalid_socket, fd_setsize}
use winsock_tut.Timer.{TimerSched, Host, new_sched, update_timer}
use winsock_tut.Poller.Events.{Event, readable, writable}
use winsock_tut.Outcome.{Outcome, ok, check_failed, out_of_fuel, ◌>>=◌, ticked}
use winsock_tut.Table.{find_entry, update_entry, remove_all}
use winsock_tut.Poller.Bits.{
  fd_read, fd_write, fd_accept, fd_connect, fd_close, mask_readable, mask_writable, in_events,
  out_events, set_flags, clear_flags,
}

-- `sink` is a pointer that AddFd has asserted not to be null.
pub record FdEntry : Type 0 where
  pub fd : ℕ
  pub events : ℕ
  pub mask : ℕ
  pub sink : ℕ

abbrev pub fd_of : FdEntry → ℕ
fd_of e = e.fd

pub record AsyncSelectPoller (W : Type 0) : Type 0 where
  pub timers : TimerSched
  pub last_err : ℕ
  pub hwnd : ℕ
  pub fds : List FdEntry
  pub has_retired : Bool
  pub world : W

abbrev pub host : {W : Type 0} → Host (AsyncSelectPoller W)
host = record {
  sched = λ p. p.timers;
  with_sched = λ t p. record p { timers = t };
  sched-with_sched = λ t p. refl;
}

-- A window message.
pub record Message : Type 0 where
  pub message : ℕ
  pub w_param : ℕ
  pub l_param : ℕ

-- WM_SOCKET, which is WM_USER + 0x0F
abbrev pub wm_socket : ℕ
wm_socket = 0x0400 + 0x0f

pub record Outside (W : Type 0) : Type 0 where
  pub on_event : Event → ℕ → AsyncSelectPoller W → AsyncSelectPoller W
  pub on_timeout : ℕ → AsyncSelectPoller W → AsyncSelectPoller W
  pub create_window : W → ℕ × W
  pub hide_window : ℕ → W → W
  pub close_handle : ℕ → W → W
  pub async_select : ℕ → ℕ → ℕ → W → W
  pub peek_message : ℕ → W → Option Message × W
  pub dispatch_message : Message → W → W
  pub sleep : ℕ → W → W

module _ {W : Type 0} (env : Outside W) where
  -- CreateHidenWindow
  pub create_hidden_window : AsyncSelectPoller W → Outcome (AsyncSelectPoller W)
  create_hidden_window p =
      let (h, w) = env.create_window p.world in
      if h == 0 then check_failed else ok (record p { hwnd = h; world = env.hide_window h w })

  pub new_poller : W → Outcome (AsyncSelectPoller W)
  new_poller w = create_hidden_window record {
    timers = new_sched;
    last_err = 0;
    hwnd = 0;
    fds = [];
    has_retired = false;
    world = w;
  }

  pub cleanup : AsyncSelectPoller W → AsyncSelectPoller W
  cleanup p =
      if p.hwnd == 0 then p else record p { hwnd = 0; world = env.close_handle p.hwnd p.world }

  unfoldable pub add_fd : ℕ → ℕ → AsyncSelectPoller W → AsyncSelectPoller W × Bool
  add_fd fd event p = if leb fd_setsize (length p.fds) then (p, false) else (
    record p { fds = p.fds ++ record { fd = fd; events = 0; mask = 0; sink = event } ∷ [] },
    true,
  )

  unfoldable pub remove_fd : ℕ → AsyncSelectPoller W → AsyncSelectPoller W
  remove_fd fd p = record p {
    fds = update_entry fd_of fd (λ e. record e { fd = invalid_socket; mask = 0 }) p.fds;
    has_retired = true;
    world = env.async_select fd p.hwnd 0 p.world;
  }

  -- What the four functions for the interest in a descriptor do with the entry that FindEntry
  -- finds: it is changed, and WSAAsyncSelect asks for its new events.
  unfoldable pub change_interest :
      ℕ → (FdEntry → FdEntry) → AsyncSelectPoller W → AsyncSelectPoller W
  change_interest fd f p = elim (find_entry fd_of fd p.fds) [
    | none ↦ p
    | some e ↦ record p {
      fds = update_entry fd_of fd f p.fds;
      world = env.async_select fd p.hwnd (f e).events p.world;
    }
  ]

  unfoldable pub set_poll_in : ℕ → AsyncSelectPoller W → AsyncSelectPoller W
  set_poll_in fd =
      change_interest fd λ e. record e {
        events = set_flags e.events in_events;
        mask = set_flags e.mask mask_readable;
      }

  unfoldable pub reset_poll_in : ℕ → AsyncSelectPoller W → AsyncSelectPoller W
  reset_poll_in fd = change_interest fd λ e. record e {
    events = clear_flags e.events in_events;
    mask = clear_flags e.mask mask_readable;
  }

  unfoldable pub set_poll_out : ℕ → AsyncSelectPoller W → AsyncSelectPoller W
  set_poll_out fd = change_interest fd λ e. record e {
    events = set_flags e.events out_events;
    mask = set_flags e.mask mask_writable;
  }

  unfoldable pub reset_poll_out : ℕ → AsyncSelectPoller W → AsyncSelectPoller W
  reset_poll_out fd = change_interest fd λ e. record e {
    events = clear_flags e.events out_events;
    mask = clear_flags e.mask mask_writable;
  }

  -- The switch of HandleEvent for the entry that is found; `|` is the source's operator.
  unfoldable pub handle_entry : FdEntry → ℕ → AsyncSelectPoller W → AsyncSelectPoller W
  handle_entry e ev p =
      if ev == fd_read || ev == fd_accept || ev == fd_close
      then (if bit_or e.mask mask_readable == 0 then p else env.on_event readable e.sink p)
      else if ev == fd_write || ev == fd_connect
      then (if bit_or e.mask mask_writable == 0 then p else env.on_event writable e.sink p)
      else p

  unfoldable pub handle_event : ℕ → ℕ → ℕ → AsyncSelectPoller W → AsyncSelectPoller W
  handle_event fd ev ec p =
      let q : AsyncSelectPoller W = record p { last_err = ec } in
      elim (find_entry fd_of fd p.fds) [ none ↦ q | some e ↦ handle_entry e ev q ]

  -- A message, with WSAGETSELECTEVENT and WSAGETSELECTERROR, the low and the high word.
  unfoldable pub handle_message : Message → AsyncSelectPoller W × ℕ → AsyncSelectPoller W × ℕ
  handle_message m (p, count) =
      if m.message == wm_socket
      then (handle_event m.w_param (m.l_param % 2 ^ 16) (m.l_param / 2 ^ 16 % 2 ^ 16) p, count + 1)
      else (record p { world = env.dispatch_message m p.world }, count)

  -- while (PeekMessage(…))
  unfoldable pub message_loop : ℕ → AsyncSelectPoller W × ℕ → Outcome (AsyncSelectPoller W × ℕ)
  message_loop zero s = out_of_fuel
  message_loop (suc fuel) (p, count) =
      let (m, w) = env.peek_message p.hwnd p.world in
      let q : AsyncSelectPoller W = record p { world = w } in
      elim m [ none ↦ ok (q, count) | some msg ↦ message_loop fuel (handle_message msg (q, count)) ]

  unfoldable pub remove_retired : AsyncSelectPoller W → AsyncSelectPoller W
  remove_retired p =
      if p.has_retired
      then record p { fds = remove_all fd_of invalid_socket p.fds; has_retired = false }
      else p

  unfoldable pub rest : ℕ → ℕ → ℕ → AsyncSelectPoller W × ℕ → Outcome (AsyncSelectPoller W × ℕ)
  rest fuel tick timeout (p, count) = do
    q ← ticked (update_timer host env.on_timeout fuel tick p)
    let slept : AsyncSelectPoller W =
        if count == 0 && ltb 0 timeout && not (i32_negative timeout)
        then record q { world = env.sleep (timeout / 2) q.world }
        else q
    ok (remove_retired slept, count)

  unfoldable pub poll : ℕ → ℕ → ℕ → AsyncSelectPoller W → Outcome (AsyncSelectPoller W × ℕ)
  poll fuel tick timeout p = message_loop fuel (p, 0) >>= rest fuel tick timeout
