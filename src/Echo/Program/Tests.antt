-- ===== src/Echo/Program/Tests.antt =====
-- The end of the echo example at inputs: a world that counts the calls of Poll.
use winsock_tut.Base.{ℕ, ◌+◌, ◌≡◌, refl, true, false, List, [], ◌∷◌, some, none, leb, get_or, arith}
use winsock_tut.Outcome.{ok, bad_pointer}
use winsock_tut.Socket.Transfer.{got, send_failed}
use winsock_tut.Socket.Calls.{success, AddrInfo, set_nonblock}
use winsock_tut.Socket.Create
use winsock_tut.Socket.Create.{
  create_tcp_connector, create_tcp_acceptor, acceptor_setup, listened, address_loop,
  connector_setup, connected, with_socket, after_round, if_nonblock, or_give_up, give_up,
}
use winsock_tut.Poller.{create_poller}
use winsock_tut.Program.{server_text, atoi, digits, started}
use winsock_tut.Program.Rounds.{stay, next}
use winsock_tut.Echo.Server.{EchoServer, new_server}
use winsock_tut.Echo.Server
use winsock_tut.Echo.Program.{
  Guarded, Sink, no_sink, serving, outside_of, with_outside, reach, System, example, guarded_calls,
  create, serve, echo_main,
}
use winsock_tut.Echo.Program.Shutdown.{echo_main-server}

abbrev peer : AddrInfo
peer = record { family = 2; addr = record { family = 2; port = 80; addr4 = 1; addr6 = [] } }

abbrev counted : Sink ℕ → Sink ℕ
counted r = with_outside (reach (λ p. p + 1) (outside_of r)) r

-- The signal comes at the second round.
abbrev system : System ℕ
system = record {
  api = record {
    add_fd = λ fd k p. (p, true);
    remove_fd = λ fd p. p;
    set_poll_in = λ fd p. p;
    set_poll_out = λ fd p. p;
    reset_poll_out = λ fd p. p;
    add_timer = λ ms k p. p;
  };
  sockets = record {
    accept = λ fd p. (8, p);
    recv = λ fd n p. (got [], p);
    send = λ fd bytes p. (send_failed 10035, p);
    names = λ fd p. (none, none);
    calls = record {
      socket = λ f p. (7, p);
      bind = λ fd a p. (success, p);
      ioctl = λ fd v p. (success, p);
      listen = λ fd p. (success, p);
      connect = λ fd a p. (success, p);
      update_context = λ fd p. (success, p);
      closesocket = λ fd p. p;
      last_error = λ p. 0;
      getaddrinfo = λ f p. (some (peer ∷ []), p);
      freeaddrinfo = λ p. p;
    };
  };
  wsa_startup = λ p. (true, p);
  wsa_ext = λ p. ok p;
  wsa_cleanup = λ p. p;
  stopped = λ p. leb 1 p;
  poll = λ r. ok (counted r);
  delete_poller = λ p. p;
  this = 1;
}

-- The name of the program, an address, a port, and the mode 1.
abbrev arguments : List ℕ → List (List ℕ)
arguments type' = (97 ∷ []) ∷ type' ∷ (49 ∷ []) ∷ (56 ∷ []) ∷ (49 ∷ []) ∷ []

abbrev start_world : Guarded ℕ
start_world = record { inner = 0; alive = true; fault = false }

started_lem :
    started (example system) (no_sink record { inner = 0; alive = false; fault = false })
    ≡ ok (no_sink record { inner = 0; alive = false; fault = false })
unfolding started
started_lem = refl

create_lem :
    create system (atoi (49 ∷ [])) (no_sink record { inner = 0; alive = false; fault = false })
    ≡ some (no_sink record { inner = 0; alive = true; fault = false })
unfolding create atoi digits create_poller
create_lem = refl

accepts :
    create_tcp_acceptor (guarded_calls system.sockets.calls) true false start_world
    ≡ (7, start_world)
unfolding create_tcp_acceptor Create.create with_socket after_round address_loop acceptor_setup
    listened or_give_up if_nonblock set_nonblock Create.finish
accepts = refl

abbrev server_at : ℕ → EchoServer (Guarded ℕ)
server_at p = record (new_server record { inner = p; alive = true; fault = false }) { acceptor = 7 }

serve_lem : serve system (no_sink start_world) ≡ ok (serving (server_at 0))
unfolding serve Server.start
serve_lem = rw accepts refl

echo_main-server_example :
    (fuel : ℕ) × (echo_main system fuel (arguments server_text) 0 ≡ bad_pointer)
unfolding get_or
echo_main-server_example =
    echo_main-server system (arguments server_text) 0 _ _ _ (server_at 1) refl refl started_lem
      create_lem serve_lem (next refl refl stay) (ground arith) refl
