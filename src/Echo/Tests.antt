-- ===== src/Echo/Tests.antt =====
-- The theorems of the echo example at inputs: a server and a client on a SelectPoller, with sockets
-- whose peers have closed and take nothing.
use winsock_tut.Base.{ℕ, ◌+◌, true, ◌≡◌, refl, false, List, [], ◌∷◌, none, some, arith}
use winsock_tut.Winsock.{invalid_socket, wsaewouldblock}
use winsock_tut.Outcome.{ok}
use winsock_tut.Table.{find_entry, remove_all, has_entry}
use winsock_tut.Heap.{read, fresh}
use winsock_tut.Timer.{new_sched}
use winsock_tut.Socket.Transfer.{
  got, Count, send_failed, write_some, read_some, read_loop, read_round,
}
use winsock_tut.Socket.Transfer.Read.{IsStream}
use winsock_tut.Socket.Transfer.Write.{IsSink, HasWritten}
use winsock_tut.Socket.Calls.{success}
use winsock_tut.Poller.Select
use winsock_tut.Poller.Select.{SelectPoller}
use winsock_tut.Echo.{PollerApi, Sockets, select_api}
use winsock_tut.Echo.Server
use winsock_tut.Echo.Server.{EchoConn, EchoServer, fd_of}
use winsock_tut.Echo.Server.Sessions.{IsTracked, IsHandled, on_conn_readable_lem}
use winsock_tut.Echo.Server.Leak.{on_readable_leak}
use winsock_tut.Echo.Server.Accept.{IsAccepted, on_readable_lem}
use winsock_tut.Echo.Client
use winsock_tut.Echo.Client.{EchoClient, new_client}
use winsock_tut.Echo.Client.Rounds.{IsRound, on_timeout_lem}

abbrev sets : Select.FdSets (List ℕ)
sets = record {
  zeroed = [];
  fd_set = λ fd s. fd ∷ s;
  fd_clr = λ fd s. remove_all (λ x. x) fd s;
  fd_isset = λ fd s. has_entry (λ x. x) fd s;
}

-- The poller, whose world is the list of the sockets that were closed.
abbrev Poller : Type 0
Poller = SelectPoller (List ℕ) (List ℕ)

abbrev poller : Poller
poller = record {
  timers = new_sched;
  fds = [];
  has_retired = false;
  readfds = [];
  writefds = [];
  exceptfds = [];
  world = [];
}

abbrev api : PollerApi Poller
api = select_api sets 1000

abbrev sys : Sockets Poller
sys = record {
  accept = λ fd p. (7, p);
  recv = λ fd n p. (got [], p);
  send = λ fd buf p. (send_failed wsaewouldblock, p);
  names = λ fd p. (none, none);
  calls = record {
    socket = λ f p. (7, p);
    bind = λ fd a p. (success, p);
    ioctl = λ fd v p. (success, p);
    listen = λ fd p. (success, p);
    connect = λ fd a p. (success, p);
    update_context = λ fd p. (success, p);
    closesocket = λ fd p. record p { world = fd ∷ p.world };
    last_error = λ p. 0;
    getaddrinfo = λ f p. (none, p);
    freeaddrinfo = λ p. p;
  };
}

streams : (fd : ℕ) → IsStream (sys.recv fd) (λ p. [])
streams fd = record {
  bounded = λ n w w' bytes e. ground arith;
  next = λ n w w' bytes e. ground arith;
  idle = λ n err w w' e. refl;
}

sinks : (fd : ℕ) → IsSink (sys.send fd) (λ p. [])
sinks fd = record {
  some_taken = λ buf w w' n pos e. absurd (ground arith);
  next = λ buf w w' n e. absurd (ground arith);
  refused = λ buf w w' err e. refl;
}

abbrev conn : EchoConn
conn = record { fd = 5; recv_count = 2 }

-- One connection, at address 3.
abbrev server : EchoServer Poller
server = record { acceptor = 4; connections = (5, 3) ∷ []; heap = (3, conn) ∷ []; outside = poller }

server-IsTracked : IsTracked server
unfolding find_entry read
server-IsTracked = record {
  owned = λ fd e at. (conn, ground arith, ground arith);
  listed = λ a c at open'. ground arith;
}

conn_here : read 3 server.heap ≡ some conn
unfolding read
conn_here = refl

on_conn_readable_lem_example :
    IsHandled server server-IsTracked 3 conn conn_here
      (omega arith)
      api
      sys
      (Server.on_conn_readable api sys 3 server)
on_conn_readable_lem_example =
    on_conn_readable_lem api sys (λ fd p. []) (λ fd p. []) streams sinks server server-IsTracked 3
      conn conn_here (omega arith)

on_readable_lem_example : IsAccepted server 7 (Server.on_readable api sys server)
unfolding find_entry
on_readable_lem_example =
    on_readable_lem api sys (λ fd p. []) (λ fd p. []) streams sinks server server-IsTracked refl

abbrev client : EchoClient Poller
client = record { fd = 5; sent_count = 3; buf = []; outside = poller }

on_timeout_lem_example :
    (r : Count × Poller) × (t : EchoClient Poller) × (Client.on_timeout api sys 9 client ≡ ok t)
    × (write_some (sys.send 5) (Client.message api sys 9 client) poller ≡ some r)
    × HasWritten (sys.send 5) (λ p. []) (Client.message api sys 9 client) poller r
    × IsRound api sys 9 (λ fd p. []) sinks client r t
on_timeout_lem_example =
    on_timeout_lem api sys 9 (λ fd p. []) sinks client (omega arith) (omega arith)

-- A poller that counts the timers that are pending, and sockets that take no byte for now.
abbrev counting : PollerApi ℕ
counting = record {
  add_fd = λ fd k p. (p, true);
  remove_fd = λ fd p. p;
  set_poll_in = λ fd p. p;
  set_poll_out = λ fd p. p;
  reset_poll_out = λ fd p. p;
  add_timer = λ ms k p. p + 1;
}

abbrev quiet : Sockets ℕ
quiet = record {
  accept = λ fd p. (7, p);
  recv = λ fd n p. (got [], p);
  send = λ fd buf p. (send_failed wsaewouldblock, p);
  names = λ fd p. (none, none);
  calls = record {
    socket = λ f p. (7, p);
    bind = λ fd a p. (success, p);
    ioctl = λ fd v p. (success, p);
    listen = λ fd p. (success, p);
    connect = λ fd a p. (success, p);
    update_context = λ fd p. (success, p);
    closesocket = λ fd p. p;
    last_error = λ p. 0;
    getaddrinfo = λ f p. (none, p);
    freeaddrinfo = λ p. p;
  };
}

abbrev alarmed : EchoClient ℕ
alarmed = record { fd = 5; sent_count = 3; buf = []; outside = 1 }

-- The poller after the connection to socket 7 is registered.
abbrev seven : Poller
seven = (api.add_fd 7 4 poller).0

on_readable_leak_example :
    (t : EchoServer Poller) × (Server.on_readable api sys server ≡ ok t)
    × (t.outside ≡ api.set_poll_out 7 (api.set_poll_in 7 seven))
    × (find_entry fd_of 7 t.connections ≡ some (7, fresh server.heap))
    × (read (fresh server.heap) t.heap ≡ some (record { fd = invalid_socket; recv_count = 0 }))
    × (Server.close api sys (fresh server.heap) t ≡ ok t)
unfolding find_entry fresh Select.add_fd read_some read_loop read_round
on_readable_leak_example =
    on_readable_leak api sys server server-IsTracked 7 poller seven
      (api.set_poll_out 7 (api.set_poll_in 7 seven)) [] refl (omega arith) refl refl refl
