-- ===== src/Pingpong/Program/Tests.antt =====
-- The end of the pingpong example at an input: a service whose contexts are all there, and a world that
-- counts the calls of Run.
use winsock_tut.Base.{ℕ, ◌+◌, ◌≡◌, refl, true, false, List, [], ◌∷◌, some, leb, get_or, arith}
use winsock_tut.Outcome.{ok, bad_pointer}
use winsock_tut.Service.Contexts.{new_context}
use winsock_tut.Program.{server_text, started, atoi, digits}
use winsock_tut.Pingpong.{ServiceApi, Io, set_ctx, request, zeros}
use winsock_tut.Heap.{fresh}
use winsock_tut.Program.Rounds.{stay, next}
use winsock_tut.Pingpong.Server.{Server, new_server}
use winsock_tut.Pingpong.Server
use winsock_tut.Service.{create_io_service}
use winsock_tut.Pingpong.Program.{
  Peer, no_peer, serving, service_of, example, create, serve, before, Guarded, with_service, reach,
  System, pingpong_main,
}
use winsock_tut.Pingpong.Program.Shutdown.{pingpong_main-server}

abbrev service : ServiceApi ℕ
service = record {
  get = λ a s. some new_context;
  set = λ a f s. s;
  alloc_overlap_ctx = λ fd flags s. ok (s, 4);
  free_overlap_ctx = λ a s. ok s;
  async_connect = λ a info s. ok (s, 0);
  async_accept = λ a s. ok (s, 0);
  async_read = λ a s. ok (s, 0);
  async_write = λ a s. ok (s, 0);
  add_timer = λ ms k s. s;
  create_tcp_acceptor = λ s. (7, s);
  getaddrinfo = λ s. (some [], s);
  freeaddrinfo = λ s. s;
  socket = λ info s. (8, s);
  closesocket = λ fd s. s;
}

abbrev counted : Peer ℕ → Peer ℕ
counted r = with_service (reach (λ s. s + 1) (service_of r)) r

-- The signal comes at the second round.
abbrev system : System ℕ
system = record {
  api = service;
  layout = record { bound = λ m a k. k; recv_storage = λ a. a; accept_info_size = 4 };
  wsa_startup = λ s. (true, s);
  wsa_ext = λ s. ok s;
  wsa_cleanup = λ s. s;
  stopped = λ s. leb 1 s;
  run = λ r. ok (counted r);
  delete_service = λ s. s;
  this = 1;
}

-- The name of the program, "server", an address, a port, and the mode 1.
abbrev arguments : List (List ℕ)
arguments = (112 ∷ []) ∷ server_text ∷ (49 ∷ []) ∷ (56 ∷ []) ∷ (49 ∷ []) ∷ []

started_lem : started (example system) (before 0) ≡ ok (before 0)
unfolding started
started_lem = refl

abbrev start_io : Io (Guarded ℕ)
start_io = record { service = record { inner = 0; alive = true; fault = false }; arrays = [] }

create_lem : create system (atoi (49 ∷ [])) (before 0) ≡ some (no_peer start_io)
unfolding create atoi digits create_io_service
create_lem = refl

-- The first context is that of the acceptor, with the array of its buffer.
abbrev server_at : ℕ → Server (Guarded ℕ)
server_at n =
    record (new_server record {
      service = record { inner = n; alive = true; fault = false };
      arrays = (1, 0 ∷ 0 ∷ 0 ∷ 0 ∷ []) ∷ [];
    }) { ctx = 4; acceptor = 7 }

serve_lem : serve system (no_peer start_io) ≡ ok (serving (server_at 0))
unfolding serve Server.start Server.listening Server.start_accept Server.with_io Server.accept_array
    set_ctx request fresh zeros
serve_lem = refl

pingpong_main-server_example : (fuel : ℕ) × (pingpong_main system fuel arguments 0 ≡ bad_pointer)
unfolding get_or
pingpong_main-server_example =
    pingpong_main-server system arguments 0 _ _ _ (server_at 1) refl refl started_lem create_lem
      serve_lem (next refl refl stay) (ground arith) refl
