-- ===== src/Poller/Tests.antt =====
-- The theorems of the pollers at inputs: descriptor sets as lists, and a world that counts calls.
use winsock_tut.Base.{
  ℕ, ◌+◌, ◌<◌, ◌≡◌, ◌⊎◌, inl, inr, refl, true, false, List, [], ◌∷◌, ◌++◌, none, some, arith,
  length,
}
use winsock_tut.Winsock.{invalid_socket, fd_setsize}
use winsock_tut.Timer.{new_sched}
use winsock_tut.Outcome.{ok, bad_pointer}
use winsock_tut.Table.{remove_all, has_entry}
use winsock_tut.Poller.Select
use winsock_tut.Poller.Select.Retire.{AllPaired, IsTidy, add_fd_lem}
use winsock_tut.Poller.Select.Dispatch.{run_calls, all_calls, dispatch_lem, dispatch_after_remove}
use winsock_tut.Poller.AsyncSelect
use winsock_tut.Poller.AsyncEvent
use winsock_tut.Poller.AsyncEvent.Handle.{delivered_all, handle_events_lem}
use winsock_tut.Poller.AsyncEvent.Waitable.{AllClosed, IsWaitable}

abbrev sets : Select.FdSets (List ℕ)
sets = record {
  zeroed = [];
  fd_set = λ fd s. fd ∷ s;
  fd_clr = λ fd s. remove_all (λ x. x) fd s;
  fd_isset = λ fd s. has_entry (λ x. x) fd s;
}

abbrev select_host : Select.Outside (List ℕ) ℕ
select_host = record {
  on_event = λ ev k p. record p { world = p.world + 1 };
  on_timeout = λ k p. p;
  select = λ t ms w. (none, w);
  sleep = λ ms w. w;
}

-- Descriptor 5 with the sink 9, and a retired entry.
abbrev select_five : Select.SelectPoller (List ℕ) ℕ
select_five = record {
  timers = new_sched;
  fds = record { fd = 5; sink = some 9 } ∷ record { fd = invalid_socket; sink = none } ∷ [];
  has_retired = true;
  readfds = 5 ∷ [];
  writefds = [];
  exceptfds = 5 ∷ [];
  world = 0;
}

select_five-AllPaired : AllPaired select_five.fds
select_five-AllPaired = (inr ((omega arith), (9, refl)), (inl (refl, refl), tt))

select_five-IsTidy : IsTidy select_five
select_five-IsTidy = record {
  fits = omega arith;
  paired = select_five-AllPaired;
  announced = λ h. absurd (ground arith);
}

add_fd_lem_example :
    IsTidy (Select.add_fd sets 6 8 select_five).0
    × ((length select_five.fds ≡ fd_setsize)
          × (Select.add_fd sets 6 8 select_five ≡ (select_five, false))
        ⊎ (length select_five.fds < fd_setsize)
          × ((Select.add_fd sets 6 8 select_five).1 ≡ true)
          × ((Select.add_fd sets 6 8 select_five).0.fds
              ≡ select_five.fds ++ record { fd = 6; sink = some 8 } ∷ [])
          × ((Select.add_fd sets 6 8 select_five).0.exceptfds
              ≡ sets.fd_set 6 select_five.exceptfds))
add_fd_lem_example = add_fd_lem sets select_five select_five-IsTidy 6 8 (omega arith)

-- Descriptor 5 is reported for an error, for write and for read.
abbrev reported : Select.Triple (List ℕ)
reported = record { rd = 5 ∷ []; wr = 5 ∷ []; ex = 5 ∷ [] }

dispatch_lem_example :
    Select.dispatch sets select_host 3 reported 0 (select_five, 0)
    ≡ ok (
      run_calls sets select_host reported
          (all_calls sets select_host reported select_five.fds)
          select_five,
      length (all_calls sets select_host reported select_five.fds),
    )
dispatch_lem_example =
    dispatch_lem sets select_host reported (λ ev k p. refl) 3 select_five select_five-AllPaired
      (omega arith)

-- A callback that removes descriptor 5.
abbrev removing : Select.Outside (List ℕ) ℕ
removing = record select_host { on_event = λ ev k p. Select.remove_fd sets 5 p }

dispatch_after_remove_example :
    Select.dispatch sets removing 3 reported 0 (select_five, 0) ≡ bad_pointer
unfolding has_entry
dispatch_after_remove_example =
    dispatch_after_remove sets removing reported 2 9 0 []
      (record { fd = invalid_socket; sink = none } ∷ []) (record { fd = 5; sink = some 9 })
      select_five refl refl (omega arith) refl (inl (refl, refl)) (λ ev. refl)

abbrev window : AsyncSelect.Outside ℕ
window = record {
  on_event = λ ev k p. record p { world = p.world + 1 };
  on_timeout = λ k p. p;
  create_window = λ w. (1, w);
  hide_window = λ h w. w;
  close_handle = λ h w. w;
  async_select = λ fd h events w. w;
  peek_message = λ h w. (none, w);
  dispatch_message = λ m w. w;
  sleep = λ ms w. w;
}

abbrev window_five : AsyncSelect.AsyncSelectPoller ℕ
window_five = record {
  timers = new_sched;
  last_err = 0;
  hwnd = 1;
  fds = record { fd = 5; events = 0; mask = 0; sink = 9 } ∷ [];
  has_retired = false;
  world = 0;
}

-- WSACreateEvent gives the numbers from 1 on.
abbrev objects : AsyncEvent.Outside ℕ
objects = record {
  on_event = λ ev k p. record p { world = p.world + 1 };
  on_timeout = λ k p. p;
  create_event = λ w. (w + 1, w + 1);
  close_event = λ h w. w;
  event_select = λ fd h events w. w;
  close_socket = λ fd w. w;
  wait = λ events ms w. (0, w);
  enum_network_events = λ fd h w. (none, w);
  sleep = λ ms w. w;
}

abbrev object_five : AsyncEvent.FdEntry
object_five = record { fd = 5; h_event = 1; l_events = 0; mask = 0; sink = 9 }

abbrev objects_five : AsyncEvent.AsyncEventPoller ℕ
objects_five = record {
  timers = new_sched;
  last_err = 0;
  events = [];
  fds = object_five ∷ [];
  has_retired = false;
  world = 1;
}

objects_five-AllClosed : AllClosed objects_five.fds
objects_five-AllClosed = ((λ e. absurd (omega (arith, e))), tt)

objects_five-IsWaitable : IsWaitable objects_five
objects_five-IsWaitable = record { fits = omega arith; closed = objects_five-AllClosed }

-- FD_READ and FD_CLOSE are set, with an error for the second.
abbrev closing : AsyncEvent.NetworkEvents
closing = record { l_network_events = 33; error_code = λ bit. bit + 10000 }

handle_events_lem_example :
    AsyncEvent.handle_events objects 0 closing objects_five
    ≡ ok (delivered_all objects 9 closing objects_five)
handle_events_lem_example =
    handle_events_lem objects 0 object_five (omega arith) (omega arith) (λ ev p here. here) closing
      objects_five refl
