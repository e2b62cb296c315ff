-- ===== src/Poller/AsyncEvent/Tests.antt =====
-- Poll of the poller with event objects at an input.
use native.Mathlib.Decide.{dec_le}
use winsock_tut.Base.{
  ℕ, ◌+◌, ◌%◌, ◌^◌, ◌≤◌, ◌<◌, ◌≡◌, ◌⊎◌, inl, inr, refl, false, [], ◌∷◌, List, some, arith, length,
  i64_rank, i32_extend, get_or,
}
use winsock_tut.Timer.{new_sched, add_timer, siftup}
use winsock_tut.Timer.Sift.{timers}
use winsock_tut.Timer.Valid.{new_sched-IsValid}
use winsock_tut.Timer.Add.{add_timer_lem}
use winsock_tut.Timer.Callbacks.{pending, still-IsTame}
use winsock_tut.Outcome.{ok}
use winsock_tut.Table.{length-update_entry}
use winsock_tut.Poller.AsyncEvent.{
  AsyncEventPoller, fd_of, NetworkEvents, Outside, host, wait_timeout, wait_failed, remove_fd, poll,
}
use winsock_tut.Winsock.{invalid_socket}
use winsock_tut.Poller.AsyncEvent.Served.{IsServed, IsSteady, remove_fd-IsServed}
use winsock_tut.Poller.AsyncEvent.Poll.{poll_lem}

-- What the wait gives: the first event, if there is one.
abbrev first : List ℕ → ℕ
first [] = wait_timeout
first (e ∷ es) = 0

-- FD_READ and FD_CLOSE are set.
abbrev closing : NetworkEvents
closing = record { l_network_events = 33; error_code = λ bit. 0 }

abbrev plain : Outside ℕ
plain = record {
  on_event = λ ev k p. p;
  on_timeout = λ k p. p;
  create_event = λ w. (w + 1, w + 1);
  close_event = λ h w. w;
  event_select = λ fd h events w. w;
  close_socket = λ fd w. w;
  wait = λ es ms w. (first es, w);
  enum_network_events = λ fd h w. (some closing, w);
  sleep = λ ms w. w;
}

-- Callbacks that remove the descriptor with the number of their sink.
abbrev removing : Outside ℕ
removing = record plain { on_event = λ ev k p. remove_fd plain k p; on_timeout = remove_fd plain }

first-cases :
    (es : List ℕ) → (first es ≡ wait_timeout) ⊎ (first es ≡ wait_failed) ⊎ (first es < length es)
first-cases [] = inl refl
first-cases (e ∷ es) = inr (inr (omega arith))

remove_fd-keeps :
    (k : ℕ) (p : AsyncEventPoller ℕ)
    → ((remove_fd plain k p).events ≡ p.events)
      × ((remove_fd plain k p).timers ≡ p.timers)
      × (length p.fds ≤ length (remove_fd plain k p).fds)
unfolding remove_fd
remove_fd-keeps k p = (
  refl,
  refl,
  omega (
    arith,
    length-update_entry fd_of k (λ e. record e { h_event = 0; fd = invalid_socket }) p.fds,
  ),
)

removing-IsSteady : IsSteady removing
removing-IsSteady = record {
  timed = λ k p v. remove_fd-IsServed plain p v k;
  timed_events = λ k p. (remove_fd-keeps k p).0;
  called = λ ev k p v. remove_fd-IsServed plain p v k;
  grows = λ ev k p. (remove_fd-keeps k p).2;
  waits = λ es ms w. first-cases es;
}

-- Descriptors 5 and 6, and a timer for a callback that removes the first.
abbrev timed_two : AsyncEventPoller ℕ
timed_two = record {
  timers = (add_timer 1000 30 (some 5) new_sched).0;
  last_err = 0;
  events = [];
  fds =
      record { fd = 5; h_event = 1; l_events = 33; mask = 1; sink = 5 }
      ∷ record { fd = 6; h_event = 2; l_events = 33; mask = 1; sink = 6 }
      ∷ [];
  has_retired = false;
  world = 2;
}

timed_two-IsServed : IsServed timed_two
timed_two-IsServed = record {
  waitable = record {
    fits = omega arith;
    closed = ((λ e. absurd (omega (arith, e))), ((λ e. absurd (omega (arith, e))), tt));
  };
  served = ((λ e. omega (arith, e)), ((λ e. omega (arith, e)), tt));
}

timed_two-pending : pending (1040 % 2 ^ 64) (timers timed_two.timers.heap) < 4
unfolding add_timer siftup i64_rank get_or i32_extend dec_le
timed_two-pending = omega arith

poll_lem_example :
    (q : AsyncEventPoller ℕ) × (n : ℕ) × (poll removing 4 1040 50 timed_two ≡ ok (q, n))
    × ((n ≡ 0) ⊎ (n ≡ 1))
    × IsServed q
poll_lem_example =
    poll_lem removing removing-IsSteady 4 1040 50 timed_two timed_two-IsServed
      (add_timer_lem 1000 30 (some 5) new_sched new_sched-IsValid (omega arith) (omega arith)).0
      (still-IsTame host _ _ (remove_fd plain) (λ k p. (remove_fd-keeps k p).1)) timed_two-pending
