-- ===== src/Poller/AsyncSelect/Tests.antt =====
-- Poll of the poller with a hidden window at an input.
use winsock_tut.Base.{ℕ, zero, suc, ◌++◌, false, List, [], ◌∷◌, Option, some, none}
use winsock_tut.Timer.{new_sched, add_timer}
use winsock_tut.Timer.Sift.{timers}
use winsock_tut.Poller.AsyncSelect.{AsyncSelectPoller, Message, Outside, wm_socket, remove_fd}

-- The world is the queue of the messages, and how many more may come.
pub record Queue : Type 0 where
  pub waiting : List Message
  pub left : ℕ

abbrev peeked : List Message → ℕ → Option Message × Queue
peeked [] n = (none, record { waiting = []; left = n })
peeked (m ∷ ms) n = (some m, record { waiting = ms; left = n })

-- A message for socket 5 is posted, while more may come.
abbrev post : Queue → Queue
post w = elim w.left [
  | zero ↦ w
  | suc n ↦ record {
    waiting = w.waiting ++ record { message = wm_socket; w_param = 5; l_param = 1 } ∷ [];
    left = n;
  }
]

-- A world whose timers remove the descriptor with the number of their sink.
abbrev plain : Outside Queue
plain = record {
  on_event = λ ev k p. p;
  on_timeout = λ k p. p;
  create_window = λ w. (1, w);
  hide_window = λ h w. w;
  close_handle = λ h w. w;
  async_select = λ fd h events w. w;
  peek_message = λ h w. peeked w.waiting w.left;
  dispatch_message = λ m w. w;
  sleep = λ ms w. w;
}

-- The callback of an event removes the descriptor of its sink, and a message is posted.
abbrev removing : Outside Queue
removing = record plain {
  on_event = λ ev k p. remove_fd plain k (record p { world = post p.world });
  on_timeout = remove_fd plain;
}

-- Descriptor 5 with the sink 5, a timer for a callback that removes it, a message for it and another one.
abbrev timed_five : AsyncSelectPoller Queue
timed_five = record {
  timers = (add_timer 1000 30 (some 5) new_sched).0;
  last_err = 0;
  hwnd = 1;
  fds = record { fd = 5; events = 0; mask = 1; sink = 5 } ∷ [];
  has_retired = false;
  world = record {
    waiting =
        record { message = wm_socket; w_param = 5; l_param = 1 }
        ∷ record { message = 15; w_param = 0; l_param = 0 }
        ∷ [];
    left = 2;
  };
}
