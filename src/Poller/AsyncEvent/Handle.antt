-- ===== src/Poller/AsyncEvent/Handle.antt =====
-- HandleEvents, RemoveFd and the search of Poll in src/AsyncEventPoller.cpp.
use Prim.Native.Nat.{bit_and}
use winsock_tut.Base.{ℕ, ◌<◌, ◌≡◌, ◌≢◌, some, arith, ◌==◌, if◌then◌else◌, get_elem?}
use winsock_tut.Poller.Events.{Event, readable, writable}
use winsock_tut.Outcome.{ok}
use winsock_tut.Poller.Bits.{fd_read, fd_write, fd_accept, fd_connect, fd_close, or_readable}
use winsock_tut.Poller.AsyncEvent.{
  FdEntry, AsyncEventPoller, NetworkEvents, Outside, call_sink, test_found, test_event,
  handle_events,
}

module _ {W : Type 0} (env : Outside W) where
  -- The callback that stands for one flag of the network events.
  abbrev pub delivered : ℕ → ℕ → Event → ℕ → NetworkEvents → AsyncEventPoller W → AsyncEventPoller W
  delivered flag bit ev sink events p =
      if bit_and events.l_network_events flag == 0
      then p
      else env.on_event ev sink (record p { last_err = events.error_code bit })

  -- The callbacks of HandleEvents, in its order.
  abbrev pub delivered_all : ℕ → NetworkEvents → AsyncEventPoller W → AsyncEventPoller W
  delivered_all sink events p = delivered fd_connect 4 writable sink events (
      delivered fd_write 1 writable sink events (
        delivered fd_accept 3 readable sink events
          (delivered fd_close 5 readable sink events (delivered fd_read 0 readable sink events p))))

  module _ (i : ℕ) (e : FdEntry) (small : e.mask < 64) (called : e.sink ≢ 0)
      (steady : (ev : Event) (p : AsyncEventPoller W)
        → get_elem? p.fds i ≡ some e
        → get_elem? (env.on_event ev e.sink p).fds i ≡ some e) where
    test_event-delivered :
        (flag bit : ℕ) (ev : Event) (events : NetworkEvents) (p : AsyncEventPoller W)
        → get_elem? p.fds i ≡ some e
        → (test_event env flag bit ev i events p ≡ ok (delivered flag bit ev e.sink events p))
          × (get_elem? (delivered flag bit ev e.sink events p).fds i ≡ some e)
    unfolding test_event test_found call_sink
    test_event-delivered flag bit ev events p here = ground (
      arith,
      or_readable e.mask small,
      steady ev (record p { last_err = events.error_code bit }) here,
    )

    -- HandleEvents of an entry whose callbacks leave it as it is, with a sink and a mask below 64,
    -- makes the callbacks of all the events that are set, reading before writing and each after its
    -- error code is kept. The mask does not matter, so no interest that was reset holds one back.
    pub handle_events_lem :
        (events : NetworkEvents) (p : AsyncEventPoller W)
        → get_elem? p.fds i ≡ some e
        → handle_events env i events p ≡ ok (delivered_all e.sink events p)
    unfolding handle_events
    handle_events_lem events p here =
        let p1 = delivered fd_read 0 readable e.sink events p in
        let p2 = delivered fd_close 5 readable e.sink events p1 in
        let p3 = delivered fd_accept 3 readable e.sink events p2 in
        let p4 = delivered fd_write 1 writable e.sink events p3 in
        let r1 = test_event-delivered fd_read 0 readable events p here in
        let r2 = test_event-delivered fd_close 5 readable events p1 r1.1 in
        let r3 = test_event-delivered fd_accept 3 readable events p2 r2.1 in
        let r4 = test_event-delivered fd_write 1 writable events p3 r3.1 in
        let r5 = test_event-delivered fd_connect 4 writable events p4 r4.1 in
        rw (r1.0, r2.0, r3.0, r4.0) r5.0
